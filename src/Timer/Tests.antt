-- ===== src/Timer/Tests.antt =====
-- The timer of skynet_timer.c at a time near the end of a round of 256 ticks.
use skynet_gameserver.Prelude.{ℕ, suc, ◌+◌, ◌-◌, ◌%◌, ◌<◌, ◌≡◌, refl, Bool, [], ◌∷◌, arith, ◌==◌}
use skynet_gameserver.Timer.{
  Node, Timer, u32, event_node, timer_add, add_node, link_near, link_level, find_level,
  timer_update, timer_execute, timer_shift, shift_levels, move_list, clear_level, add_nodes,
  update_times, updatetime,
}
use skynet_gameserver.Timer.Wheel.{All}
use skynet_gameserver.Timer.Shift.{next}
use skynet_gameserver.Timer.Count.{pending, count, one}
use skynet_gameserver.Timer.Ticks.{IsReady, Due, timer_update_lem, timer_add_lem}
use skynet_gameserver.Timer.Fires.{timer_fires_on_time}
use skynet_gameserver.Timer.Clock.{updatetime_lem}

abbrev late : Timer
late = record {
  near = λ j. [];
  t = λ i j. [];
  time = 4294967290;
  starttime = 0;
  current = 0;
  current_point = 500;
}

late-IsReady : IsReady late
late-IsReady = record {
  wheel = record { in_range = omega arith; near_ok = λ j. tt; far_ok = λ i j. tt };
  settled = refl;
}

-- The timers of the tick 4, which is ten ticks away, past the end of the 32-bit time.
abbrev at_four : Node → Bool
at_four n = n.expire == 4

fired_late :
    (update_times 10 (timer_add late 7 1 10)).0
    ≡ record { expire = 4; handle = 7; session = 1 } ∷ []
unfolding update_times timer_update timer_execute timer_shift shift_levels move_list clear_level
    add_nodes timer_add add_node link_near link_level find_level
fired_late = refl

-- Not before.
waits_late : (update_times 9 (timer_add late 7 1 10)).0 ≡ []
unfolding update_times timer_update timer_execute timer_shift shift_levels move_list clear_level
    add_nodes timer_add add_node link_near link_level find_level
waits_late = refl

timer_fires_on_time_example :
    let T₁ = timer_add late 7 1 (suc 9) in
    ((k : ℕ) → k < suc 9 → count at_four (update_times k T₁).0 ≡ 0)
    × (count at_four (update_times (suc 9) T₁).0
        ≡ pending at_four late + one at_four (event_node late 7 1 (suc 9)))
    × (pending at_four (update_times (suc 9) T₁).1 ≡ 0)
timer_fires_on_time_example =
    timer_fires_on_time late 7 1 9 at_four late-IsReady (omega arith) (λ n b. ground arith)

timer_add_lem_example :
    let T' = timer_add late 7 1 10 in
    IsReady T'
    × (T'.time ≡ late.time)
    × ((p : Node → Bool) → pending p T' ≡ pending p late + one p (event_node late 7 1 10))
timer_add_lem_example = timer_add_lem late 7 1 10 late-IsReady (omega arith) (omega arith)

timer_update_lem_example :
    let (ns, T') = timer_update late in
    IsReady T'
    × (T'.time ≡ next late.time)
    × All (Due (next late.time)) ns
    × ((p : Node → Bool) → pending p T' + count p ns ≡ pending p late)
timer_update_lem_example = timer_update_lem late late-IsReady

updatetime_lem_example :
    let (ns, T') = updatetime late 503 in
    IsReady T'
    × (T'.current_point ≡ 503)
    × (T'.time ≡ (late.time + (503 - late.current_point)) % u32)
    × ((p : Node → Bool) → pending p T' + count p ns ≡ pending p late)
updatetime_lem_example = updatetime_lem late 503 late-IsReady (omega arith)

-- ===== src/Timer/Clock.antt =====
-- `skynet_updatetime` of skynet_timer.c: how the clock drives the wheel.
use skynet_gameserver.Prelude.{
  ℕ, zero, suc, ◌+◌, ◌-◌, ◌%◌, ◌<◌, ◌≡◌, refl, inl, inr, Bool-cases, ltb, Bool, List, [], ◌∷◌,
  arith, ◌==◌, ◌∙◌,
}
use skynet_gameserver.Timer.{
  timer_init, updatetime, add_nodes, move_list, clear_level, Node, Timer, u32, timer_shift,
  timer_execute, timer_update, update_times, add_node, link_near, link_level,
}
use native.Mathlib.Nat.{mod-eq_of_lt}
use skynet_gameserver.Timer.Shift.{Shift, stays, shifts, Shift-cases}
use skynet_gameserver.Timer.Count.{pending_clock, pending, count, count-append}
use skynet_gameserver.Timer.Ticks.{IsReady, timer_update_lem}

-- `skynet_timer_init` gives an empty wheel that is ready.
pub timer_init-IsReady : (sec cs point : ℕ) → IsReady (timer_init sec cs point)
unfolding timer_init
timer_init-IsReady sec cs point = record {
  wheel = record { in_range = omega arith; near_ok = λ j. tt; far_ok = λ i j. tt };
  settled = refl;
}

-- The fields that the wheel leaves alone.
abbrev SameClock : Timer → Timer → Type 0
SameClock T T' = (T'.current ≡ T.current) × (T'.current_point ≡ T.current_point)

add_nodes-clock : (T : Timer) (ns : List Node) → SameClock T (add_nodes T ns)
unfolding add_nodes add_node link_near link_level
add_nodes-clock T [] = (refl, refl)
add_nodes-clock T (n ∷ ns) = ground (arith, add_nodes-clock (add_node T n) ns)

Shift-clock : (T : Timer) → Shift T → SameClock T (timer_shift T)
Shift-clock T (stays e kept) = rw e (refl, refl)
Shift-clock T (shifts i idx hi hj e kept ahead) =
    rw e (unfold move_list clear_level in add_nodes-clock _ (T.t i idx))

update-clock : (T : Timer) → IsReady T → SameClock T (timer_update T).1
unfolding timer_update timer_execute
update-clock T r = let T₁ = (timer_execute T).1 in Shift-clock T₁ (Shift-cases T₁ r.wheel.in_range)

times-clock : (k : ℕ) (T : Timer) → IsReady T → SameClock T (update_times k T).1
unfolding update_times
times-clock zero T r = (refl, refl)
times-clock (suc k) T r =
    let rest = times-clock k (timer_update T).1 (timer_update_lem T r).0 in
    (rest.0 ∙ (update-clock T r).0, rest.1 ∙ (update-clock T r).1)

times-IsReady :
    (k : ℕ) (T : Timer)
    → IsReady T
    → let (ns, T') = update_times k T in
      IsReady T'
      × (T'.time ≡ (T.time + k) % u32)
      × ((p : Node → Bool) → pending p T' + count p ns ≡ pending p T)
unfolding update_times
times-IsReady zero T r = let c = r.wheel.in_range in (r, omega arith, λ p. omega arith)
times-IsReady (suc k) T r =
    let (r₁, e₁, due, kept) = timer_update_lem T r in
    let T₁ = (timer_update T).1 in
    let (r₂, e₂, kept₂) = times-IsReady k T₁ r₁ in
    (
      r₂,
      omega arith,
      λ p. omega (arith, kept p, kept₂ p, count-append p (timer_update T).0 (update_times k T₁).0),
    )

-- The ticks that are due when the clock has moved to `cp`.
ticked_lem :
    (T : Timer) (cp c k : ℕ)
    → IsReady T
    → let (ns, T') = update_times k (record T { current_point = cp; current = c }) in
      IsReady T'
      × (T'.current_point ≡ cp)
      × (T'.time ≡ (T.time + k) % u32)
      × ((p : Node → Bool) → pending p T' + count p ns ≡ pending p T)
ticked_lem T cp c k r =
    let T₀ = record T { current_point = cp; current = c } in
    let r₀ : IsReady T₀ = record {
      wheel = record {
        in_range = r.wheel.in_range;
        near_ok = r.wheel.near_ok;
        far_ok = r.wheel.far_ok;
      };
      settled = r.settled;
    } in
    let (r₁, e₁, kept) = times-IsReady k T₀ r₀ in
    (r₁, (times-clock k T₀ r₀).1, e₁, λ p. kept p ∙ pending_clock p T c cp)

-- `skynet_updatetime` makes as many ticks as hundredths of a second have passed since the last call,
-- none where the monotonic clock stands or goes back, takes over the clock, and every timer is
-- fired or still pending after it. The wheel is ready before, and fewer than 2^32 hundredths have
-- passed.
pub updatetime_lem :
    (T : Timer) (cp : ℕ)
    → IsReady T
    → cp - T.current_point < u32
    → let (ns, T') = updatetime T cp in
      IsReady T'
      × (T'.current_point ≡ cp)
      × (T'.time ≡ (T.time + (cp - T.current_point)) % u32)
      × ((p : Node → Bool) → pending p T' + count p ns ≡ pending p T)
unfolding updatetime
updatetime_lem T cp r h = elim (Bool-cases (ltb cp T.current_point)) [
  | inl b ↦ rw b (
      let c = r.wheel.in_range in
      let back : cp < T.current_point = ground arith in
      (same T r, refl, omega arith, λ p. omega (arith, pending_clock p T T.current cp)))
  | inr b ↦ elim (Bool-cases (cp == T.current_point)) [
    | inl e ↦ rw (b, e) (r, ground arith, ground arith, λ p. omega arith)
    | inr e ↦ rw (b, e, mod-eq_of_lt h) (ticked_lem T cp _ (cp - T.current_point) r)
  ]
]
  where
    same : (T' : Timer) → IsReady T' → IsReady (record T' { current_point = cp })
    same T' r' = record {
      wheel = record {
        in_range = r'.wheel.in_range;
        near_ok = r'.wheel.near_ok;
        far_ok = r'.wheel.far_ok;
      };
      settled = r'.settled;
    }

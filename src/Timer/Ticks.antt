-- ===== src/Timer/Ticks.antt =====
-- What the timer of skynet_timer.c promises between two ticks: a timer fires at the tick that it was
-- set for, not before, and once.
use skynet_gameserver.Prelude.{
  ℕ, zero, suc, ◌+◌, ◌%◌, ◌^◌, ◌<◌, ◌≡◌, ◌≢◌, refl, inl, inr, Bool-cases, Bool, ap, true, List, [],
  ◌∷◌, arith, ◌==◌, at, at_self, at_ne, each_index, ◌∙◌, ℕ_discrete, subst,
}
use skynet_gameserver.Timer.{
  Node, Timer, timer_shift, timer_execute, timer_update, timer_add, event_node, add_node, link_near,
  link_level, or_mask,
}
use skynet_gameserver.Timer.Wheel.{All, Near, Far, IsWheel, add_node-IsWheel, time-add_node}
use skynet_gameserver.Timer.Shift.{next, timer_shift-IsWheel, Shift-cases}
use skynet_gameserver.Timer.Count.{
  pending, count, one, count-append, pending-timer_shift, pending-timer_execute, pending-add_node,
  pending-zero,
}

-- The wheel between two ticks: the list of the current tick has been dispatched.
pub record IsReady (T : Timer) : Type 0 where
  pub wheel : IsWheel T
  pub settled : T.near (T.time % 256) ≡ []

abbrev pub Due : ℕ → Node → Type 0
Due c n = n.expire ≡ c

Near-Due : (c : ℕ) (ns : List Node) → All (Near c (c % 256)) ns → All (Due c) ns
Near-Due c [] h = tt
Near-Due c (n ∷ ns) h = (omega arith, Near-Due c ns h.1)

-- `timer_execute` fires timers of the current tick only, and leaves none.
pub execute_lem :
    (T : Timer)
    → IsWheel T
    → let (ns, T') = timer_execute T in IsReady T' × (T'.time ≡ T.time) × All (Due T.time) ns
unfolding timer_execute
execute_lem T v = (
  record {
    wheel = record {
      in_range = v.in_range;
      near_ok =
          each_index {P = λ i. All (Near T.time i) (at T.near (T.time % 256) [] i)} (T.time % 256)
            (rw (at_self T.near (T.time % 256)) tt)
            (λ i ne. rw (at_ne T.near (T.time % 256) [] i ne) (v.near_ok i));
      far_ok = v.far_ok;
    };
    settled = at_self T.near (T.time % 256) [];
  },
  refl,
  Near-Due T.time (T.near (T.time % 256)) (v.near_ok (T.time % 256)),
)

execute_none : (T : Timer) → IsReady T → (timer_execute T).0 ≡ []
unfolding timer_execute
execute_none T r = r.settled

-- On a ready wheel one `timer_update` keeps it ready, advances the time by one, fires timers of the
-- new tick only, and every timer that was pending is fired or still pending, once.
pub timer_update_lem :
    (T : Timer)
    → IsReady T
    → let (ns, T') = timer_update T in
      IsReady T'
      × (T'.time ≡ next T.time)
      × All (Due (next T.time)) ns
      × ((p : Node → Bool) → pending p T' + count p ns ≡ pending p T)
unfolding timer_update
timer_update_lem T r =
    let T₁ = (timer_execute T).1 in
    let (r₁, e₁, _) = execute_lem T r.wheel in
    let (v₂, e₂) = timer_shift-IsWheel T₁ r₁.wheel r₁.settled in
    let (r₃, e₃, due) = execute_lem (timer_shift T₁) v₂ in
    let e : (timer_shift T₁).time ≡ next T.time = e₂ ∙ ap next e₁ in
    (
      r₃,
      e₃ ∙ e,
      rw (execute_none T r) (subst (λ c. All (Due c) (timer_execute (timer_shift T₁)).0) e due),
      λ p. omega (
        arith,
        count-append p (timer_execute T).0 (timer_execute (timer_shift T₁)).0,
        pending-timer_execute p T,
        pending-timer_shift p T₁ (Shift-cases T₁ r₁.wheel.in_range),
        pending-timer_execute p (timer_shift T₁),
      ),
    )

add_node-settled :
    (T : Timer) (n : Node)
    → T.near (T.time % 256) ≡ []
    → n.expire ≢ T.time
    → (add_node T n).near (T.time % 256) ≡ []
unfolding add_node link_near link_level
add_node-settled T n e ne = elim (Bool-cases (or_mask n.expire 8 == or_mask T.time 8)) [
  | inl b ↦ rw b (at_ne T.near (n.expire % 256) _ (T.time % 256) (λ q. ne (ground arith)) ∙ e)
  | inr b ↦ rw b e
]

-- On a ready wheel `timer_add` for `time` ticks, at least one and fewer than 2^31, keeps the wheel
-- ready and adds one pending timer, with the tick `time` after now, also where the 32-bit time goes
-- round.
pub timer_add_lem :
    (T : Timer) (handle session time : ℕ)
    → IsReady T
    → 0 < time
    → time < 2 ^ 31
    → let T' = timer_add T handle session time in
      IsReady T'
      × (T'.time ≡ T.time)
      × ((p : Node → Bool) → pending p T' ≡ pending p T + one p (event_node T handle session time))
unfolding timer_add
timer_add_lem T handle session time r h h' =
    let n = event_node T handle session time in
    let c = r.wheel.in_range in
    let e = time-add_node T n in
    (
      record {
        wheel = add_node-IsWheel T n r.wheel (omega arith);
        settled = rw e (add_node-settled T n r.settled (omega arith));
      },
      e,
      λ p. pending-add_node p T n,
    )

pub count-zero :
    (p : Node → Bool) (P : Node → Type 0) (ns : List Node)
    → ((n : Node) → P n → p n ≡ true → ⊥)
    → All P ns
    → count p ns ≡ 0
count-zero p P [] f h = refl
count-zero p P (n ∷ ns) f h = elim (Bool-cases (p n)) [
  | inl e ↦ absurd (f n h.0 e)
  | inr e ↦ ground (arith, e, count-zero p P ns f h.1)
]

Far-not-Due : (c i j : ℕ) (n : Node) → Far c i j n → ¬ Due c n
Far-not-Due c zero j n h = omega arith
Far-not-Due c (suc zero) j n h = omega arith
Far-not-Due c (suc (suc zero)) j n h = omega arith
Far-not-Due c (suc (suc (suc zero))) j n h = λ e. h.1 (omega arith)
Far-not-Due c (suc (suc (suc (suc i)))) j n h = absurd h

Near-not-Due :
    (c j : ℕ) (p : Node → Bool) (ns : List Node)
    → (j ≡ c % 256 → ns ≡ [])
    → ((n : Node) → p n ≡ true → Due c n)
    → All (Near c j) ns
    → count p ns ≡ 0
Near-not-Due c j p ns e only h = elim (ℕ_discrete j (c % 256)) [
  | yes q ↦ ap (count p) (e q)
  | no ne ↦ count-zero p (Near c j) ns (λ n k b. ne (omega (arith, only n b))) h
]

-- No timer of the current tick is pending.
pub none-Due :
    (T : Timer) (p : Node → Bool)
    → IsReady T
    → ((n : Node) → p n ≡ true → Due T.time n)
    → pending p T ≡ 0
none-Due T p r only =
    pending-zero p T
      (λ j. Near-not-Due T.time j p (T.near j) (λ q. rw q r.settled) only (r.wheel.near_ok j))
      (λ i j h.
        count-zero p (Far T.time i j) (T.t i j) (λ n k b. Far-not-Due T.time i j n k (only n b))
          (r.wheel.far_ok i j))

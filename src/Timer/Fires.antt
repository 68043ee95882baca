-- ===== src/Timer/Fires.antt =====
-- A timer of skynet_timer.c fires exactly when it was set for.
use skynet_gameserver.Prelude.{
  ℕ, zero, suc, ◌+◌, ◌-◌, ◌%◌, ◌^◌, ◌<◌, ◌≡◌, refl, Bool, true, [], arith, ◌∙◌,
}
use skynet_gameserver.Timer.{Node, Timer, u32, timer_update, timer_add, event_node, update_times}
use skynet_gameserver.Timer.Shift.{next}
use skynet_gameserver.Timer.Count.{pending, count, one, count-append}
use skynet_gameserver.Timer.Ticks.{
  IsReady, Due, timer_update_lem, timer_add_lem, count-zero, none-Due,
}

-- Ticks before the time `e` fire no timer of `e`, and keep all of them pending.
waits :
    (k d : ℕ) (T : Timer) (p : Node → Bool)
    → IsReady T
    → k < d
    → d < u32
    → ((n : Node) → p n ≡ true → n.expire ≡ (T.time + d) % u32)
    → let (ns, T') = update_times k T in
      IsReady T' × (T'.time ≡ (T.time + k) % u32) × (count p ns ≡ 0) × (pending p T' ≡ pending p T)
unfolding update_times
waits zero d T p r h h' only = let c = r.wheel.in_range in (r, omega arith, refl, refl)
waits (suc k) d T p r h h' only =
    let c = r.wheel.in_range in
    let (r₁, e₁, due, kept) = timer_update_lem T r in
    let T₁ = (timer_update T).1 in
    let (r₂, e₂, z₂, kept₂) =
      waits k (d - 1) T₁ p r₁ (omega arith) (omega arith) (λ n b. only n b ∙ omega arith) in
    let z₁ : count p (timer_update T).0 ≡ 0 =
      count-zero p (Due (next T.time)) (timer_update T).0 (λ n q b. omega (arith, only n b)) due in
    (
      r₂,
      omega arith,
      omega (arith, count-append p (timer_update T).0 (update_times k T₁).0),
      omega (arith, kept p),
    )

-- At the tick `e` every timer of `e` has fired, once, and none is pending.
fires :
    (d : ℕ) (T : Timer) (p : Node → Bool)
    → IsReady T
    → suc d < u32
    → ((n : Node) → p n ≡ true → n.expire ≡ (T.time + suc d) % u32)
    → let (ns, T') = update_times (suc d) T in (count p ns ≡ pending p T) × (pending p T' ≡ 0)
unfolding update_times
fires zero T p r h only =
    let c = r.wheel.in_range in
    let (r₁, e₁, due, kept) = timer_update_lem T r in
    let z = none-Due (timer_update T).1 p r₁ (λ n b. omega (arith, only n b)) in
    (omega (arith, kept p, count-append p (timer_update T).0 []), z)
fires (suc d) T p r h only =
    let c = r.wheel.in_range in
    let (r₁, e₁, due, kept) = timer_update_lem T r in
    let T₁ = (timer_update T).1 in
    let (f, z) = fires d T₁ p r₁ (omega arith) (λ n b. only n b ∙ omega arith) in
    let z₁ : count p (timer_update T).0 ≡ 0 =
      count-zero p (Due (next T.time)) (timer_update T).0 (λ n q b. omega (arith, only n b)) due in
    (omega (arith, kept p, count-append p (timer_update T).0 (update_times (suc d) T₁).0), z)

-- On a ready wheel a timer set for `suc d` ticks, fewer than 2^31, fires at the last of them and not
-- before, once, together with the timers that were set earlier for the same tick: `p` is any test
-- that only timers of that tick pass.
pub timer_fires_on_time :
    (T : Timer) (handle session d : ℕ) (p : Node → Bool)
    → IsReady T
    → suc d < 2 ^ 31
    → ((n : Node) → p n ≡ true → n.expire ≡ (T.time + suc d) % u32)
    → let T₁ = timer_add T handle session (suc d) in
      ((k : ℕ) → k < suc d → count p (update_times k T₁).0 ≡ 0)
      × (count p (update_times (suc d) T₁).0
          ≡ pending p T + one p (event_node T handle session (suc d)))
      × (pending p (update_times (suc d) T₁).1 ≡ 0)
timer_fires_on_time T handle session d p r h only =
    let (r₁, e, added) = timer_add_lem T handle session (suc d) r (omega arith) h in
    let T₁ = timer_add T handle session (suc d) in
    let only₁ : (n : Node) → p n ≡ true → n.expire ≡ (T₁.time + suc d) % u32 =
      λ n b. omega (arith, only n b) in
    (
      λ k hk. (waits k (suc d) T₁ p r₁ hk (omega arith) only₁).2,
      (fires d T₁ p r₁ (omega arith) only₁).0 ∙ added p,
      (fires d T₁ p r₁ (omega arith) only₁).1,
    )

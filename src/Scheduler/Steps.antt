-- ===== src/Scheduler/Steps.antt =====
-- Every step of the scheduler keeps its invariant, and no thread meets a fault: no failed assertion,
-- no queue touched after it was freed, no reference count that falls below 0.
use skynet_gameserver.Prelude.{ℕ, ◌+◌, ◌<◌, ◌≡◌, refl, true, false, Option, none, some, List, arith}
use skynet_gameserver.Mq.{mq_length}
use skynet_gameserver.GlobalMq.Linked.{Represents}
use skynet_gameserver.Scheduler.{
  World, Pc, alive, enter, publish, retire, finished, idle, fetching, entered, measuring, asking,
  publishing, retiring, popping, handling, swapping, leaving, deleting, dying, launching, sending,
  advance, after_fetch, after_ask, shift_length,
}
use skynet_gameserver.Scheduler.Count.{held, referring, deleter, hit}
use skynet_gameserver.Scheduler.Invariant.{Local, Facts-eq, hit_self}
use skynet_gameserver.Scheduler.Goes.{
  Goes, enqueue-Goes, dequeue-Goes, stay-Goes, guard-Goes, alive_at,
}
use skynet_gameserver.Scheduler.Dispatch.{grab-Goes, handling-Goes, pop-Goes, send-Goes}
use skynet_gameserver.Scheduler.Release.{
  drop_ref-Goes, delete-Goes, release_queue-Goes, retire_handle-Goes,
}

same_fetch :
    (p : ℕ) (o : Option ℕ) → (referring p (after_fetch o) ≡ 0) × (deleter p (after_fetch o) ≡ 0)
same_fetch p none = (refl, refl)
same_fetch p (some q) = (refl, refl)

same_ask :
    (q p : ℕ) (o : Option ℕ)
    → (referring p (after_ask q o) ≡ hit q p) × (deleter p (after_ask q o) ≡ 0)
same_ask q p none = (refl, refl)
same_ask q p (some nq) = (refl, refl)

module _ (h r d : ℕ → ℕ) (weight : Option ℕ) (w : World) (l : List ℕ)
    (rep : Represents w.global l) where
  lives :
      (pc : Pc) (q : ℕ)
      → ((p : ℕ) → Local w l pc h r d p)
      → 0 < held q pc + referring q pc + deleter q pc
      → w.status q ≡ alive
  lives = alive_at h r d w l

  pub advance-Goes : (pc : Pc) → ((p : ℕ) → Local w l pc h r d p) → Goes h r d (advance weight w pc)
  unfolding advance
  advance-Goes finished f = stay-Goes h r d w l finished finished rep f (λ p. (refl, refl, refl))
  advance-Goes idle f = stay-Goes h r d w l idle fetching rep f (λ p. (refl, refl, refl))
  advance-Goes fetching f =
      dequeue-Goes h r d w l fetching after_fetch rep f (λ p. refl) (λ p x. omega arith) same_fetch
  advance-Goes (entered q) f =
      guard-Goes h r d _ _ (lives (entered q) q f (omega (arith, hit_self q)))
        (grab-Goes h r d w l rep q f)
  advance-Goes (popping q i n) f =
      guard-Goes h r d _ _ (lives (popping q i n) q f (omega (arith, hit_self q)))
        (pop-Goes h r d w l rep weight q i n f)
  advance-Goes (measuring q) f =
      guard-Goes h r d _ _ (lives (measuring q) q f (omega (arith, hit_self q))) (
        stay-Goes h r d w l (measuring q)
          (handling q 0 (shift_length weight (mq_length (w.queues q)))) rep f
          (λ p. (refl, refl, refl)))
  advance-Goes (handling q i n) f =
      guard-Goes h r d _ _ (lives (handling q i n) q f (omega (arith, hit_self q)))
        (handling-Goes h r d w l rep q i n f)
  advance-Goes (asking q) f =
      dequeue-Goes h r d w l (asking q) (after_ask q) rep f (λ p. refl) (λ p x. refl) (same_ask q)
  advance-Goes (swapping q nq) f =
      guard-Goes h r d _ _ (lives (swapping q nq) q f (omega (arith, hit_self q))) (
        enqueue-Goes h r d w l q (leaving q (enter nq)) rep (λ p.
          Facts-eq (w.status p) (w.queues p) (w.registered p) (w.refs p) _ _ _ _ _ _ (omega arith)
            refl refl (f p)))
  advance-Goes (leaving c k) f =
      guard-Goes h r d _ _ (lives (leaving c k) c f (omega (arith, hit_self c)))
        (drop_ref-Goes h r d w l rep c k f)
  advance-Goes (deleting c k) f =
      guard-Goes h r d _ _ (lives (deleting c k) c f (omega (arith, hit_self c)))
        (delete-Goes h r d w l rep c k f)
  advance-Goes (dying q k) f =
      guard-Goes h r d _ _ (lives (dying q k) q f (omega (arith, hit_self q)))
        (release_queue-Goes h r d w l rep q k f)
  advance-Goes (launching q true) f =
      stay-Goes h r d w l (launching q true) (leaving q (publish q)) rep f (λ p. (refl, refl, refl))
  advance-Goes (launching q false) f =
      stay-Goes h r d w l (launching q false) (leaving q (retire q)) rep f (λ p. (refl, refl, refl))
  advance-Goes (publishing q) f =
      guard-Goes h r d _ _ (lives (publishing q) q f (omega (arith, hit_self q))) (
        enqueue-Goes h r d w l q finished rep (λ p.
          Facts-eq (w.status p) (w.queues p) (w.registered p) (w.refs p) _ _ _ _ _ _ (omega arith)
            refl refl (f p)))
  advance-Goes (retiring q) f = retire_handle-Goes h r d w l rep q f
  advance-Goes (sending q m) f =
      guard-Goes h r d _ _ (lives (sending q m) q f (omega (arith, hit_self q)))
        (send-Goes h r d w l rep q m f)

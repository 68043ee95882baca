-- ===== src/Scheduler/Dispatch.antt =====
-- The steps of `skynet_context_message_dispatch` on the queue in hand, and of a sender.
use skynet_gameserver.Prelude.{
  at, at_self, at_ne, ℕ, ◌+◌, ◌≡◌, refl, Option, none, some, List, arith, ◌==◌, if◌then◌else◌, inl,
  inr, Bool-cases, ltb,
}
use skynet_gameserver.Mq.{Message, pop, push, take_overload}
use skynet_gameserver.GlobalMq.Linked.{Represents}
use skynet_gameserver.Scheduler.{
  World, done, fetch, entered, asking, popping, handling, leaving, dying, sending, grab,
  pop_message, after_pop, send,
}
use skynet_gameserver.Scheduler.Count.{held, referring, deleter, hit}
use skynet_gameserver.Scheduler.Queues.{pop-IsFlagged, push-IsFlagged, take_overload-IsFlagged}
use skynet_gameserver.Scheduler.Invariant.{hit_self, hit_ne}
use skynet_gameserver.Scheduler.Goes.{Goes, stay-Goes, alive_at, Alive-at, change-Goes}
use skynet_gameserver.Scheduler.QueueSteps.{Before, queue-Goes, enqueue_queue-Goes}

module _ (h r d : ℕ → ℕ) (w : World) (l : List ℕ) (rep : Represents w.global l) where
  pub grab-Goes :
      (q : ℕ)
      → Before h r d w l rep (entered q)
      → Goes h r d (grab w q (popping q 0 1) (dying q fetch))
  unfolding grab
  grab-Goes q f =
      let e = alive_at h r d w l (entered q) q f (omega (arith, hit_self q)) in
      let a = Alive-at h r d w l (entered q) q e f in
      elim (Bool-cases (w.registered q)) [
        | inl b ↦ rw b (
            change-Goes h r d w (record w { refs = at w.refs q (w.refs q + 1) }) l (entered q)
              (popping q 0 1) q rep f
              (rw (e, at_self w.refs q)
                (record {
                  flagged = a.flagged;
                  one_holder = omega (arith, a.one_holder);
                  counted = ground (arith, a.counted, hit_self q);
                  deleted_once = ground (arith, a.counted, a.deleted_once);
                }))
              λ p ne. record {
                status = refl;
                queues = refl;
                registered = refl;
                refs = at_ne w.refs q _ p ne;
                held_same = omega arith;
                referring_same = omega (arith, hit_ne q p ne);
                deleter_same = refl;
              })
        | inr b ↦ rw b (stay-Goes h r d w l (entered q) (dying q fetch) rep f (λ p. omega arith))
      ]

  pub handling-Goes :
      (q i n : ℕ)
      → Before h r d w l rep (handling q i n)
      → Goes h r d (
          some (
            record w { queues = at w.queues q (take_overload (w.queues q)).1 },
            (if ltb (i + 1) n then popping q (i + 1) n else asking q),
          ))
  handling-Goes q i n f =
      let e = alive_at h r d w l (handling q i n) q f (omega (arith, hit_self q)) in
      let a = Alive-at h r d w l (handling q i n) q e f in
      let t = take_overload-IsFlagged (w.queues q) a.flagged in
      elim (Bool-cases (ltb (i + 1) n)) [
        | inl b ↦ rw b (
            queue-Goes h r d w l rep (handling q i n) (popping q (i + 1) n) q _ f e t.0
              (ground (arith, a.one_holder, t)) refl (omega (arith, t.1))
              (λ p ne. (refl, refl, refl)))
        | inr b ↦ rw b (
            queue-Goes h r d w l rep (handling q i n) (asking q) q _ f e t.0
              (ground (arith, a.one_holder, t)) refl (omega (arith, t.1))
              (λ p ne. (refl, refl, refl)))
      ]

  after_pop-same :
      (weight : Option ℕ) (q i n p : ℕ)
      → let pc = after_pop weight q i n in
        (held p pc ≡ hit q p) × (referring p pc ≡ hit q p) × (deleter p pc ≡ 0)
  after_pop-same none q i n p = (refl, refl, refl)
  after_pop-same (some k) q i n p = elim (Bool-cases (i == 0)) [
    | inl b ↦ rw b (refl, refl, refl)
    | inr b ↦ rw b (refl, refl, refl)
  ]

  pub pop-Goes :
      (weight : Option ℕ) (q i n : ℕ)
      → Before h r d w l rep (popping q i n)
      → Goes h r d (pop_message weight w q i n)
  unfolding pop_message
  pop-Goes weight q i n f =
      let e = alive_at h r d w l (popping q i n) q f (omega (arith, hit_self q)) in
      let a = Alive-at h r d w l (popping q i n) q e f in
      let t = pop-IsFlagged (w.queues q) a.flagged in
      elim (Bool-cases ((pop (w.queues q)).0 == 0)) [
        | inl b ↦ rw b (
            queue-Goes h r d w l rep (popping q i n) (after_pop weight q i n) q (pop (w.queues q)).2
              f e t.0 (ground (arith, a.one_holder, t, after_pop-same weight q i n q))
              (after_pop-same weight q i n q).1 (omega (arith, t.1, after_pop-same weight q i n q))
              (λ p ne. after_pop-same weight q i n p))
        | inr b ↦ rw b (
            queue-Goes h r d w l rep (popping q i n) (leaving q fetch) q (pop (w.queues q)).2 f e
              t.0
              (ground (
                arith,
                a.one_holder,
                a.counted,
                a.deleted_once,
                a.flagged.release_bit,
                t,
                hit_self q,
              ))
              refl (omega (arith, t.1)) (λ p ne. (omega (arith, hit_ne q p ne), refl, refl)))
      ]

  pub send-Goes :
      (q : ℕ) (m : Message) → Before h r d w l rep (sending q m) → Goes h r d (send w q m)
  unfolding send
  send-Goes q m f =
      let e = alive_at h r d w l (sending q m) q f (omega (arith, hit_self q)) in
      let a = Alive-at h r d w l (sending q m) q e f in
      let t = push-IsFlagged (w.queues q) m a.flagged in
      let unreleased : (w.queues q).release ≡ 0 =
        ground (arith, a.counted, a.deleted_once, hit_self q) in
      elim (Bool-cases ((w.queues q).in_global == 0)) [
        | inl b ↦
            rw (t.3, b)
              (enqueue_queue-Goes h r d w l rep (sending q m) (leaving q done) q
                (push (w.queues q) m).0 f e t.0 (ground (arith, a.one_holder, t)) refl
                (omega (arith, t.1)) (λ p ne. (refl, refl, refl)))
        | inr b ↦
            rw (t.3, b)
              (queue-Goes h r d w l rep (sending q m) (leaving q done) q (push (w.queues q) m).0 f e
                t.0 (ground (arith, a.one_holder, t)) refl (omega (arith, t.1))
                (λ p ne. (refl, refl, refl)))
      ]

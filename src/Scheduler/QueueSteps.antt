-- ===== src/Scheduler/QueueSteps.antt =====
-- Steps of a thread that change one message queue, and may put it into the global queue.
use skynet_gameserver.Prelude.{at, at_self, at_ne, ℕ, ◌+◌, ◌≡◌, ◌≢◌, refl, some, List, arith}
use skynet_gameserver.Mq.{MessageQueue}
use skynet_gameserver.GlobalMq.Linked.{Represents}
use skynet_gameserver.Scheduler.{World, Pc, alive, enqueue}
use skynet_gameserver.Scheduler.Count.{held, referring, deleter, count, hit}
use skynet_gameserver.Scheduler.Queues.{IsFlagged}
use skynet_gameserver.Scheduler.Invariant.{Local, hit_self, hit_ne, need}
use skynet_gameserver.Scheduler.Goes.{Goes, enqueue-Goes, Alive-at, change, change-Goes}

module _ (h r d : ℕ → ℕ) (w : World) (l : List ℕ) (rep : Represents w.global l) where
  abbrev pub Before : Pc → Type 0
  Before pc = (p : ℕ) → Local w l pc h r d p

  -- A step that changes the queue of `q`, where the thread keeps what it holds.
  pub queue-Goes :
      (pc pc' : Pc) (q : ℕ) (mq : MessageQueue)
      → Before pc
      → w.status q ≡ alive
      → IsFlagged mq
      → count q l + held q pc' + h q ≡ need mq
      → referring q pc' ≡ referring q pc
      → deleter q pc' + mq.release ≡ deleter q pc + (w.queues q).release
      → ((p : ℕ)
          → q ≢ p
          → (held p pc' ≡ held p pc)
            × (referring p pc' ≡ referring p pc)
            × (deleter p pc' ≡ deleter p pc))
      → Goes h r d (some (record w { queues = at w.queues q mq }, pc'))
  queue-Goes pc pc' q mq f e fl eh ef ed there =
      let a = Alive-at h r d w l pc q e f in
      change-Goes h r d w (record w { queues = at w.queues q mq }) l pc pc' q rep f
        (rw (e, at_self w.queues q mq)
          (record {
            flagged = fl;
            one_holder = eh;
            counted = omega (arith, a.counted);
            deleted_once = omega (arith, a.deleted_once);
          }))
        λ p ne.
          let t = there p ne in
          record {
            status = refl;
            queues = at_ne w.queues q mq p ne;
            registered = refl;
            refs = refl;
            held_same = omega (arith, t);
            referring_same = t.1;
            deleter_same = t.2;
          }

  -- A step that changes the queue of `q` and then puts it into the global queue.
  pub enqueue_queue-Goes :
      (pc pc' : Pc) (q : ℕ) (mq : MessageQueue)
      → Before pc
      → w.status q ≡ alive
      → IsFlagged mq
      → count q l + (held q pc' + 1) + h q ≡ need mq
      → referring q pc' ≡ referring q pc
      → deleter q pc' + mq.release ≡ deleter q pc + (w.queues q).release
      → ((p : ℕ)
          → q ≢ p
          → (held p pc' ≡ held p pc)
            × (referring p pc' ≡ referring p pc)
            × (deleter p pc' ≡ deleter p pc))
      → Goes h r d (enqueue (record w { queues = at w.queues q mq }) q pc')
  enqueue_queue-Goes pc pc' q mq f e fl eh er ed there =
      let a = Alive-at h r d w l pc q e f in
      let w' = record w { queues = at w.queues q mq } in
      enqueue-Goes h r d w' l q pc' rep (
        change h r d w w' l pc pc' q (hit q) f
          (rw (e, at_self w.queues q mq)
            (record {
              flagged = fl;
              one_holder = omega (arith, eh, hit_self q);
              counted = omega (arith, a.counted);
              deleted_once = omega (arith, a.deleted_once);
            }))
          λ p ne.
            let t = there p ne in
            record {
              status = refl;
              queues = at_ne w.queues q mq p ne;
              registered = refl;
              refs = refl;
              held_same = omega (arith, t, hit_ne q p ne);
              referring_same = t.1;
              deleter_same = t.2;
            })

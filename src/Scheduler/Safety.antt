-- ===== src/Scheduler/Safety.antt =====
-- What the scheduler promises, for any number of workers and any interleaving of their steps with
-- those of senders, launchers and the threads that retire services.
use skynet_gameserver.Prelude.{
  ℕ, ◌+◌, ◌<◌, ◌≡◌, ◌≢◌, false, Option, none, some, List, arith, get_elem?,
}
use skynet_gameserver.Mq.{mq_length}
use skynet_gameserver.GlobalMq.Linked.{Represents}
use skynet_gameserver.Scheduler.{
  World, Pc, alive, freed, measuring, asking, popping, handling, advance, Reach,
}
use skynet_gameserver.Scheduler.Count.{total, held, referring, add-le-total, count}
use skynet_gameserver.Scheduler.Invariant.{bit, Alive, Dead, holders-le-one}
use skynet_gameserver.Scheduler.Moves.{advance-Inv}
use skynet_gameserver.Scheduler.Reachable.{Reach-Inv}

-- The thread is in the loop of `skynet_context_message_dispatch` over the messages of service `p`.
abbrev pub Dispatches : ℕ → Pc → Type 0
Dispatches p (popping q i n) = q ≡ p
Dispatches p (measuring q) = q ≡ p
Dispatches p (handling q i n) = q ≡ p
Dispatches p (asking q) = q ≡ p
Dispatches p _ = ⊥

held-Dispatches : (p : ℕ) (pc : Pc) → Dispatches p pc → held p pc ≡ 1
held-Dispatches p (popping q i n) e = ground arith
held-Dispatches p (measuring q) e = ground arith
held-Dispatches p (handling q i n) e = ground arith
held-Dispatches p (asking q) e = ground arith
held-Dispatches p _ e = absurd e

module _ {weight : ℕ → Option ℕ} {n : ℕ} {w : World} (r : Reach weight n w) where
  -- No two threads ever dispatch messages of one service at the same time.
  pub exclusive_dispatch :
      (i j q : ℕ) (pc pc' : Pc)
      → i ≢ j
      → get_elem? w.threads i ≡ some pc
      → get_elem? w.threads j ≡ some pc'
      → Dispatches q pc
      → ¬ Dispatches q pc'
  exclusive_dispatch i j q pc pc' ne e e' a b =
      let (l, v) = Reach-Inv r in
      omega (
        arith,
        add-le-total (held q) w.threads i j pc pc' ne e e',
        held-Dispatches q pc a,
        held-Dispatches q pc' b,
        holders-le-one (w.status q) (w.queues q) (w.registered q) (w.refs q) _ _ _ (v.facts q),
      )

  -- A service that has messages is never forgotten: its queue stands in the global queue, or one
  -- thread holds it, and not both.
  pub no_lost_message :
      (q : ℕ)
      → w.status q ≡ alive
      → 0 < mq_length (w.queues q)
      → (l : List ℕ) × Represents w.global l × (count q l + total (held q) w.threads ≡ 1)
  no_lost_message q e m =
      let (l, v) = Reach-Inv r in
      let a : Alive (w.queues q) (w.registered q) (w.refs q) (count q l + total (held q) w.threads)
          (total (referring q) w.threads) _ =
        rw e at (v.facts q) in
      (l, v.listed, ground (arith, a.one_holder, a.flagged.busy m))

  -- No step of any thread meets a fault: the assertions on `next` and `tail` of `skynet_globalmq_push`,
  -- `skynet_globalmq_pop` and `_release` hold, and that of `skynet_mq_mark_release`; no queue is used
  -- after it was freed, and no reference count falls below 0. A new context appears with its queue, in one
  -- step.
  pub no_fault :
      (i : ℕ) (pc : Pc) → get_elem? w.threads i ≡ some pc → advance (weight i) w pc ≢ none
  no_fault i pc e z =
      let (l, v) = Reach-Inv r in
      let (w', pc', l', b, rep, f) = advance-Inv (weight i) w l i pc v e in cc

  -- A service that a thread refers to, or that the handle storage knows, is alive; its count is
  -- the number of those references.
  pub counted_references :
      (q : ℕ)
      → w.status q ≡ alive
      → w.refs q ≡ (bit (w.registered q)) + total (referring q) w.threads
  counted_references q e =
      let (l, v) = Reach-Inv r in
      let a : Alive (w.queues q) (w.registered q) (w.refs q) (count q l + total (held q) w.threads)
          (total (referring q) w.threads) _ =
        rw e at (v.facts q) in
      a.counted

  -- A queue that was freed is out of reach: the handle storage does not know the service, no thread
  -- refers to it or holds its queue, and the global queue does not list it.
  pub freed_unreachable :
      (q : ℕ)
      → w.status q ≡ freed
      → (w.registered q ≡ false)
        × (total (referring q) w.threads ≡ 0)
        × (l : List ℕ) × Represents w.global l
        × (count q l + total (held q) w.threads ≡ 0)
  freed_unreachable q e =
      let (l, v) = Reach-Inv r in
      let a : Dead (w.registered q) (w.refs q) (count q l + total (held q) w.threads)
          (total (referring q) w.threads) _ =
        rw e at (v.facts q) in
      (a.hidden, a.no_reference, l, v.listed, a.no_holder)

-- ===== src/Scheduler/Goes.antt =====
-- What it takes for a step of a thread to keep the facts about every service: the general cases.
use skynet_gameserver.Prelude.{
  each_index, ℕ, ◌+◌, ◌<◌, ◌≡◌, ◌≢◌, refl, Option, none, some, List, [], ◌∷◌, ◌++◌, arith,
}
use skynet_gameserver.GlobalMq.Linked.{
  Represents, push-Represents, pop-Represents, pop-Represents_empty,
}
use skynet_gameserver.Scheduler.{World, Pc, Status, alive, Moved, enqueue, dequeue, guard}
use skynet_gameserver.Scheduler.Count.{
  held, referring, deleter, count, hit, count-snoc, NotIn-count,
}
use skynet_gameserver.Scheduler.Invariant.{
  holders-le-one, Alive, Facts, Local, Facts-eq, alive_of_held, hit_self,
}

abbrev pub FactsAt : World → ℕ → ℕ → ℕ → ℕ → Type 0
FactsAt w p h r d = Facts (w.status p) (w.queues p) (w.registered p) (w.refs p) h r d

module _ (h r d : ℕ → ℕ) where
  -- The step is made, and leaves the facts about every service true.
  abbrev pub Goes : Moved → Type 0
  Goes m =
      (w : World) × (pc : Pc) × (l : List ℕ) × (m ≡ some (w, pc))
      × Represents w.global l
      × ((p : ℕ) → Local w l pc h r d p)

  pub enqueue-Goes :
      (w : World) (l : List ℕ) (q : ℕ) (k : Pc)
      → Represents w.global l
      → ((p : ℕ)
          → FactsAt w p
              (count p l + (held p k + hit q p) + h p)
              (referring p k + r p)
              (deleter p k + d p))
      → Goes (enqueue w q k)
  unfolding enqueue
  enqueue-Goes w l q k rep f =
      let (g, e, rep') = push-Represents w.global l q rep (NotIn-count q l free) in
      (
        record w { global = g },
        k,
        l ++ q ∷ [],
        rw (e, enqueue),
        rep',
        λ p.
            Facts-eq (w.status p) (w.queues p) (w.registered p) (w.refs p) _ _ _ _ _ _
              (omega (arith, count-snoc p l q)) refl refl (f p),
      )
    where
      free : count q l ≡ 0
      free = omega (
        arith,
        hit_self q,
        holders-le-one (w.status q) (w.queues q) (w.registered q) (w.refs q) _ _ _ (f q),
      )

  pub dequeue-Goes :
      (w : World) (l : List ℕ) (pc : Pc) (k : Option ℕ → Pc)
      → Represents w.global l
      → ((p : ℕ) → Local w l pc h r d p)
      → ((p : ℕ) → held p (k none) ≡ held p pc)
      → ((p x : ℕ) → held p (k (some x)) ≡ held p pc + hit x p)
      → ((p : ℕ) (o : Option ℕ)
          → (referring p (k o) ≡ referring p pc) × (deleter p (k o) ≡ deleter p pc))
      → Goes (dequeue w k)
  unfolding dequeue
  dequeue-Goes w [] pc k rep f e e' e'' = (
    w,
    k none,
    [],
    rw (pop-Represents_empty w.global rep, dequeue),
    rep,
    λ p.
        Facts-eq (w.status p) (w.queues p) (w.registered p) (w.refs p) _ _ _ _ _ _
          (omega (arith, e p)) (omega (arith, e'' p none)) (omega (arith, e'' p none)) (f p),
  )
  dequeue-Goes w (x ∷ l) pc k rep f e e' e'' =
      let (g, eg, rep') = pop-Represents w.global x l rep in
      (
        record w { global = g },
        k (some x),
        l,
        rw (eg, dequeue),
        rep',
        λ p.
            Facts-eq (w.status p) (w.queues p) (w.registered p) (w.refs p) _ _ _ _ _ _
              (omega (arith, e' p x)) (omega (arith, e'' p (some x)))
              (omega (arith, e'' p (some x))) (f p),
      )

  -- A step that changes no service.
  pub stay-Goes :
      (w : World) (l : List ℕ) (pc pc' : Pc)
      → Represents w.global l
      → ((p : ℕ) → Local w l pc h r d p)
      → ((p : ℕ)
          → (held p pc' ≡ held p pc)
            × (referring p pc' ≡ referring p pc)
            × (deleter p pc' ≡ deleter p pc))
      → Goes (some (w, pc'))
  stay-Goes w l pc pc' rep f e = (
    w,
    pc',
    l,
    refl,
    rep,
    λ p.
        Facts-eq (w.status p) (w.queues p) (w.registered p) (w.refs p) _ _ _ _ _ _
          (omega (arith, e p)) (omega (arith, e p)) (omega (arith, e p)) (f p),
  )

  pub guard-Goes : (s : Status) (m : Moved) → s ≡ alive → Goes m → Goes (guard s m)
  guard-Goes s m e g = rw e g

-- The facts about one service, where the thread has to do with it.
pub alive_at :
    (h r d : ℕ → ℕ) (w : World) (l : List ℕ) (pc : Pc) (q : ℕ)
    → ((p : ℕ) → Local w l pc h r d p)
    → 0 < held q pc + referring q pc + deleter q pc
    → w.status q ≡ alive
alive_at h r d w l pc q f k =
    alive_of_held (w.status q) (w.queues q) (w.registered q) (w.refs q) _ _ _ (omega arith) (f q)

pub Alive-at :
    (h r d : ℕ → ℕ) (w : World) (l : List ℕ) (pc : Pc) (q : ℕ)
    → w.status q ≡ alive
    → ((p : ℕ) → Local w l pc h r d p)
    → Alive
        (w.queues q)
        (w.registered q)
        (w.refs q)
        (count q l + held q pc + h q)
        (referring q pc + r q)
        (deleter q pc + d q)
Alive-at h r d w l pc q e f = rw e at (f q)

-- What a step has to leave alone at a service that it does not touch.
pub record Apart (w w' : World) (pc pc' : Pc) (extra : ℕ) (p : ℕ) : Type 0 where
  pub status : w'.status p ≡ w.status p
  pub queues : w'.queues p ≡ w.queues p
  pub registered : w'.registered p ≡ w.registered p
  pub refs : w'.refs p ≡ w.refs p
  pub held_same : held p pc' + extra ≡ held p pc
  pub referring_same : referring p pc' ≡ referring p pc
  pub deleter_same : deleter p pc' ≡ deleter p pc

-- A step that changes one service.
pub change :
    (h r d : ℕ → ℕ) (w w' : World) (l : List ℕ) (pc pc' : Pc) (q : ℕ) (extra : ℕ → ℕ)
    → ((p : ℕ) → Local w l pc h r d p)
    → FactsAt w' q
        (count q l + (held q pc' + extra q) + h q)
        (referring q pc' + r q)
        (deleter q pc' + d q)
    → ((p : ℕ) → q ≢ p → Apart w w' pc pc' (extra p) p)
    → (p : ℕ)
    → FactsAt w' p
        (count p l + (held p pc' + extra p) + h p)
        (referring p pc' + r p)
        (deleter p pc' + d p)
change h r d w w' l pc pc' q extra f here there = each_index q here λ p ne.
    let t = there p ne in
    rw (t.status, t.queues, t.registered, t.refs)
      (Facts-eq (w.status p) (w.queues p) (w.registered p) (w.refs p) _ _ _ _ _ _
        (omega (arith, t.held_same)) (omega (arith, t.referring_same))
        (omega (arith, t.deleter_same)) (f p))

-- The same where no queue is to be put into the global queue.
pub change-Goes :
    (h r d : ℕ → ℕ) (w w' : World) (l : List ℕ) (pc pc' : Pc) (q : ℕ)
    → Represents w'.global l
    → ((p : ℕ) → Local w l pc h r d p)
    → FactsAt w' q (count q l + held q pc' + h q) (referring q pc' + r q) (deleter q pc' + d q)
    → ((p : ℕ) → q ≢ p → Apart w w' pc pc' 0 p)
    → Goes h r d (some (w', pc'))
change-Goes h r d w w' l pc pc' q rep f here there = (
  w',
  pc',
  l,
  refl,
  rep,
  λ p.
      Facts-eq (w'.status p) (w'.queues p) (w'.registered p) (w'.refs p) _ _ _ _ _ _ (omega arith)
        refl refl
        (change h r d w w' l pc pc' q (λ p. 0) f
          (Facts-eq (w'.status q) (w'.queues q) (w'.registered q) (w'.refs q) _ _ _ _ _ _
            (omega arith) refl refl here)
          there p),
)

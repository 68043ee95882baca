-- ===== src/Scheduler/Spawn.antt =====
-- The threads that start: senders, launchers and those that retire a service.
use skynet_gameserver.Prelude.{
  at, at_self, at_ne, each_index, ℕ, ◌+◌, ◌≡◌, refl, Bool, true, false, List, arith,
}
use skynet_gameserver.Mq.{Message}
use skynet_gameserver.GlobalMq.Linked.{Represents}
use skynet_gameserver.Scheduler.{
  World, Pc, unborn, alive, done, leaving, launching, sending, spawn, born,
}
use skynet_gameserver.Scheduler.Count.{total, total-snoc, held, referring, deleter, count}
use skynet_gameserver.Scheduler.Queues.{create-IsFlagged}
use skynet_gameserver.Scheduler.Invariant.{
  Alive, Dead, Inv, Facts-eq, alive_of_registered, hit_self, hit_ne,
}
use skynet_gameserver.Scheduler.Goes.{FactsAt}

-- A new thread, with the references and the queue that it starts with.
spawned-Inv :
    (w w' : World) (l : List ℕ) (pc : Pc)
    → Represents w'.global l
    → w'.threads ≡ w.threads
    → ((p : ℕ)
        → FactsAt w' p
            (count p l + (total (held p) w.threads + held p pc))
            (total (referring p) w.threads + referring p pc)
            (total (deleter p) w.threads + deleter p pc))
    → Inv (spawn w' pc) l
spawned-Inv w w' l pc rep e f = record {
  listed = rep;
  facts = λ p. rw e (
      Facts-eq (w'.status p) (w'.queues p) (w'.registered p) (w'.refs p) _ _ _ _ _ _
        (omega (arith, total-snoc (held p) w.threads pc))
        (omega (arith, total-snoc (referring p) w.threads pc))
        (omega (arith, total-snoc (deleter p) w.threads pc)) (f p));
}

-- The facts that a step needs to give about the service it touches, and about the others.
abbrev Spawned : World → World → List ℕ → Pc → ℕ → Type 0
Spawned w w' l pc p =
    FactsAt w' p (count p l + (total (held p) w.threads + held p pc))
      (total (referring p) w.threads + referring p pc) (total (deleter p) w.threads + deleter p pc)

-- A service that the new thread has nothing to do with.
Spawned-apart :
    (w w' : World) (l : List ℕ) (pc : Pc) (p : ℕ)
    → Inv w l
    → w'.status p ≡ w.status p
    → w'.queues p ≡ w.queues p
    → w'.registered p ≡ w.registered p
    → w'.refs p ≡ w.refs p
    → held p pc + referring p pc + deleter p pc ≡ 0
    → Spawned w w' l pc p
Spawned-apart w w' l pc p v es eq er en z =
    rw (es, eq, er, en)
      (Facts-eq (w.status p) (w.queues p) (w.registered p) (w.refs p) _ _ _ _ _ _ (omega (arith, z))
        (omega (arith, z)) (omega (arith, z)) (v.facts p))

abbrev pub Next : World → Type 0
Next w = (l : List ℕ) × Inv w l

registered-Alive :
    (w : World) (l : List ℕ) (q : ℕ)
    → Inv w l
    → w.registered q ≡ true
    → (w.status q ≡ alive)
      × Alive
          (w.queues q)
          true
          (w.refs q)
          (count q l + total (held q) w.threads)
          (total (referring q) w.threads)
          (total (deleter q) w.threads)
registered-Alive w l q v b =
    let e =
      alive_of_registered (w.status q) (w.queues q) (w.registered q) (w.refs q) _ _ _ b
        (v.facts q) in
    (e, rw (e, b) at (v.facts q))

pub sends-Inv :
    (w : World) (l : List ℕ) (q : ℕ) (m : Message)
    → Inv w l
    → w.registered q ≡ true
    → Inv (spawn (record w { refs = at w.refs q (w.refs q + 1) }) (sending q m)) l
sends-Inv w l q m v b =
    let w' = record w { refs = at w.refs q (w.refs q + 1) } in
    let (e, a) = registered-Alive w l q v b in
    spawned-Inv w w' l (sending q m) v.listed refl (
      each_index {P = Spawned w w' l (sending q m)} q
        (rw (e, b, at_self w.refs q)
          (record {
            flagged = a.flagged;
            one_holder = omega (arith, a.one_holder);
            counted = omega (arith, a.counted, hit_self q);
            deleted_once = ground (arith, a.counted, a.deleted_once);
          }))
        λ p ne.
          Spawned-apart w w' l (sending q m) p v refl refl refl (at_ne w.refs q _ p ne)
            (omega (arith, hit_ne q p ne)))

pub retires-Inv :
    (w : World) (l : List ℕ) (q : ℕ)
    → Inv w l
    → w.registered q ≡ true
    → Inv (spawn (record w { registered = at w.registered q false }) (leaving q done)) l
retires-Inv w l q v b =
    let w' = record w { registered = at w.registered q false } in
    let (e, a) = registered-Alive w l q v b in
    spawned-Inv w w' l (leaving q done) v.listed refl (
      each_index {P = Spawned w w' l (leaving q done)} q
        (rw (e, at_self w.registered q)
          (record {
            flagged = a.flagged;
            one_holder = omega (arith, a.one_holder);
            counted = omega (arith, a.counted, hit_self q);
            deleted_once = omega (arith, a.deleted_once);
          }))
        λ p ne.
          Spawned-apart w w' l (leaving q done) p v refl refl (at_ne w.registered q _ p ne) refl
            (omega (arith, hit_ne q p ne)))

pub launches-Inv :
    (w : World) (l : List ℕ) (q : ℕ) (ok : Bool)
    → Inv w l
    → w.status q ≡ unborn
    → Inv (spawn (born w q) (launching q ok)) l
unfolding born
launches-Inv w l q ok v b =
    let a : Dead (w.registered q) (w.refs q) (count q l + total (held q) w.threads)
        (total (referring q) w.threads) (total (deleter q) w.threads) =
      rw b at (v.facts q) in
    let t = create-IsFlagged q in
    spawned-Inv w (born w q) l (launching q ok) v.listed refl (
      each_index {P = Spawned w (born w q) l (launching q ok)} q
        (rw (at_self w.status q, at_self w.queues q, at_self w.registered q, at_self w.refs q)
          (record {
            flagged = t.0;
            one_holder = ground (arith, a.no_holder, t.1, t.2, hit_self q);
            counted = omega (arith, a.no_reference, hit_self q);
            deleted_once = omega (arith, a.no_deleter, t.2);
          }))
        λ p ne.
          Spawned-apart w (born w q) l (launching q ok) p v (at_ne w.status q _ p ne)
            (at_ne w.queues q _ p ne) (at_ne w.registered q _ p ne) (at_ne w.refs q _ p ne)
            (omega (arith, hit_ne q p ne)))

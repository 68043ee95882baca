-- ===== src/Scheduler/Tests.antt =====
-- A run of the scheduler: one worker, and one service that is launched and gets a message.
use skynet_gameserver.Prelude.{
  at, Option-cases, inl, inr, subst, sym, ◌∙◌, ℕ, ◌+◌, ◌≡◌, ◌≢◌, refl, Bool, true, false, Option,
  none, some, List, [], ◌∷◌, arith, get_elem?, set,
}
use mathlib.Core.Option.{some-injective}
use skynet_gameserver.Mq.{Message, mq_length, create, push, put, grow, wake, mark_release}
use skynet_gameserver.GlobalMq.{init, globalmq_push, globalmq_pop}
use skynet_gameserver.GlobalMq.Linked.{Represents}
use skynet_gameserver.Scheduler.{
  World, Pc, freed, popping, finished, launching, sending, spawn, born, advance, enqueue, dequeue,
  grab, drop_ref, delete, release_queue, retire_handle, send, pop_message, moves, sends, launches,
  Reach, starts, steps, start,
}
use skynet_gameserver.Scheduler.Count.{total, held, referring, count}
use skynet_gameserver.Scheduler.Invariant.{bit}
use skynet_gameserver.Scheduler.Safety.{
  Dispatches, exclusive_dispatch, no_lost_message, no_fault, counted_references, freed_unreachable,
}

abbrev weights : ℕ → Option ℕ
weights i = some 0

-- The threads of a list move one after the other.
abbrev move_thread : World → ℕ → Option World
move_thread w i = elim (get_elem? w.threads i) [
  | none ↦ none
  | some pc ↦ elim (advance (some 0) w pc) [
    | none ↦ none
    | some (w', pc') ↦ some (record w' { threads = set w.threads i pc' })
  ]
]

abbrev schedule : World → List ℕ → Option World
schedule w [] = some w
schedule w (i ∷ is) = elim (move_thread w i) [ none ↦ none | some w' ↦ schedule w' is ]

moved : World → World → ℕ → Pc → World
moved w w' i pc = record w' { threads = set w.threads i pc }

move_thread-eq :
    (w w' : World) (i : ℕ) (pc pc' : Pc)
    → get_elem? w.threads i ≡ some pc
    → advance (some 0) w pc ≡ some (w', pc')
    → move_thread w i ≡ some (moved w w' i pc')
unfolding moved
move_thread-eq w w' i pc pc' e a = ground (arith, e, a)

module _ {n : ℕ} where
  Reach-move :
      (w w' : World) (i : ℕ) → Reach weights n w → move_thread w i ≡ some w' → Reach weights n w'
  unfolding moved
  Reach-move w w' i r e = elim (Option-cases (get_elem? w.threads i)) [
    | inl z ↦ ground (arith, z, e)
    | inr (pc, ep) ↦ elim (Option-cases (advance (some 0) w pc)) [
      | inl z ↦ ground (arith, ep, z, e)
      | inr ((w₁, pc₁), ea) ↦
          subst (Reach weights n)
            (some-injective (moved w w₁ i pc₁) w' (sym (move_thread-eq w w₁ i pc pc₁ ep ea) ∙ e))
            (steps r (moves w w₁ i pc pc₁ ep ea))
    ]
  ]

  Reach-schedule :
      (w w' : World) (is : List ℕ)
      → Reach weights n w
      → schedule w is ≡ some w'
      → Reach weights n w'
  Reach-schedule w w' [] r e = subst (Reach weights n) (some-injective w w' e) r
  Reach-schedule w w' (i ∷ is) r e = elim (Option-cases (move_thread w i)) [
    | inl z ↦ ground (arith, z, e)
    | inr (w₁, e₁) ↦ Reach-schedule w₁ w' is (Reach-move w w₁ i r e₁) (rw (e₁, schedule) at e)
  ]

abbrev or_start : Option World → World
or_start none = start 1
or_start (some w) = w

abbrev hello : Message
hello = record { source = 0; session = 1; payload = 0; sz = 0 }

-- Service 7 is launched beside one worker.
abbrev launched : Bool → World
launched ok = spawn (born (start 1) 7) (launching 7 ok)

launched-Reach : (ok : Bool) → Reach weights 1 (launched ok)
launched-Reach ok = steps starts (launches (start 1) 7 ok (unfold start in refl))

-- It is sent a message, and the worker takes its queue.
abbrev addressed : World
addressed =
    spawn (record (launched true) { refs = at (launched true).refs 7 ((launched true).refs 7 + 1) })
      (sending 7 hello)

addressed-Reach : Reach weights 1 addressed
addressed-Reach = steps (launched-Reach true) (sends (launched true) 7 hello (unfold born in refl))

abbrev turns : List ℕ
turns = 2 ∷ 2 ∷ 1 ∷ 1 ∷ 1 ∷ 0 ∷ 0 ∷ 0 ∷ []

abbrev taken : World
taken = or_start (schedule addressed turns)

taken-Reach : Reach weights 1 taken
unfolding start born advance enqueue dequeue grab drop_ref delete release_queue retire_handle send
    pop_message init globalmq_push globalmq_pop create push put grow wake mark_release mq_length
taken-Reach = Reach-schedule addressed taken turns addressed-Reach refl

taken-threads : taken.threads ≡ popping 7 0 1 ∷ finished ∷ finished ∷ []
unfolding start born advance enqueue dequeue grab drop_ref delete release_queue retire_handle send
    pop_message init globalmq_push globalmq_pop create push put grow wake mark_release mq_length
taken-threads = refl

-- A launch that fails: the service is retired, and its queue freed.
abbrev failed : World
failed = or_start (schedule (launched false) (1 ∷ 1 ∷ 1 ∷ 1 ∷ 1 ∷ 1 ∷ 1 ∷ []))

failed-Reach : Reach weights 1 failed
unfolding start born advance enqueue dequeue grab drop_ref delete release_queue retire_handle send
    pop_message init globalmq_push globalmq_pop create push put grow wake mark_release mq_length
failed-Reach =
    Reach-schedule (launched false) failed (1 ∷ 1 ∷ 1 ∷ 1 ∷ 1 ∷ 1 ∷ 1 ∷ []) (launched-Reach false)
      refl

failed-status : failed.status 7 ≡ freed
unfolding start born advance enqueue dequeue grab drop_ref delete release_queue retire_handle send
    pop_message init globalmq_push globalmq_pop create push put grow wake mark_release mq_length
failed-status = refl

exclusive_dispatch_example : ¬ Dispatches 7 finished
unfolding start born advance enqueue dequeue grab drop_ref delete release_queue retire_handle send
    pop_message init globalmq_push globalmq_pop create push put grow wake mark_release mq_length
exclusive_dispatch_example =
    exclusive_dispatch taken-Reach 0 1 7 (popping 7 0 1) finished (omega arith) refl refl refl

no_lost_message_example :
    (l : List ℕ) × Represents taken.global l × (count 7 l + total (held 7) taken.threads ≡ 1)
unfolding start born advance enqueue dequeue grab drop_ref delete release_queue retire_handle send
    pop_message init globalmq_push globalmq_pop create push put grow wake mark_release mq_length
no_lost_message_example = no_lost_message taken-Reach 7 refl (omega arith)

no_fault_example : advance (some 0) taken (popping 7 0 1) ≢ none
unfolding start born advance enqueue dequeue grab drop_ref delete release_queue retire_handle send
    pop_message init globalmq_push globalmq_pop create push put grow wake mark_release mq_length
no_fault_example = no_fault taken-Reach 0 (popping 7 0 1) refl

counted_references_example :
    taken.refs 7 ≡ bit (taken.registered 7) + total (referring 7) taken.threads
unfolding start born advance enqueue dequeue grab drop_ref delete release_queue retire_handle send
    pop_message init globalmq_push globalmq_pop create push put grow wake mark_release mq_length
counted_references_example = counted_references taken-Reach 7 refl

freed_unreachable_example :
    (failed.registered 7 ≡ false)
    × (total (referring 7) failed.threads ≡ 0)
    × (l : List ℕ) × Represents failed.global l
    × (count 7 l + total (held 7) failed.threads ≡ 0)
unfolding start born advance enqueue dequeue grab drop_ref delete release_queue retire_handle send
    pop_message init globalmq_push globalmq_pop create push put grow wake mark_release mq_length
freed_unreachable_example = freed_unreachable failed-Reach 7 failed-status

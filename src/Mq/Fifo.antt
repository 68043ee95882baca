-- ===== src/Mq/Fifo.antt =====
-- A message queue (skynet_mq.c) against an unbounded first-in first-out list of messages.
use skynet_gameserver.Prelude.{
  ℕ, suc, zero, ◌+◌, ◌<◌, ◌≡◌, refl, ap, ap₂, sym, ◌∙◌, Option, none, some, List, [], ◌∷◌, ◌++◌,
  map, arith, length,
}
use mathlib.Core.List.{map-append}
use skynet_gameserver.Prelude.Arrays.{cells, length-cells}
use skynet_gameserver.Mq.{Message, MessageQueue, create, mq_length, push, pop, drop_queue}
use skynet_gameserver.Mq.Ring.{IsValid, contents}
use skynet_gameserver.Mq.Push.{push-IsValid, contents-push}
use skynet_gameserver.Mq.Pop.{Popped, pop-Popped, pop-IsValid}

pub data Call : Type 0 where
  sends : Message → Call
  receives : Call

-- What a receiver sees: the return value and the message.
abbrev pub Reply : Type 0
Reply = ℕ × Option Message

unfoldable pub run : MessageQueue → List Call → List Reply
run q [] = []
run q (sends m ∷ cs) = run (push q m).0 cs
run q (receives ∷ cs) = let (ret, m, q') = pop q in (ret, m) ∷ run q' cs

-- The specification: the messages sent and not yet received, oldest first.
pub spec_run : List Message → List Call → List Reply
spec_run ms [] = []
spec_run ms (sends m ∷ cs) = spec_run (ms ++ m ∷ []) cs
spec_run [] (receives ∷ cs) = (1, none) ∷ spec_run [] cs
spec_run (m ∷ ms) (receives ∷ cs) = (0, some m) ∷ spec_run ms cs

abbrev pub Holds : MessageQueue → List Message → Type 0
Holds q ms = contents q ≡ map some ms

push-Holds :
    (q : MessageQueue) (ms : List Message) (m : Message)
    → IsValid q
    → Holds q ms
    → Holds (push q m).0 (ms ++ m ∷ [])
push-Holds q ms m v h =
    contents-push q m v ∙ ap (λ xs. xs ++ some m ∷ []) h ∙ sym (map-append some ms (m ∷ []))

pop-Holds :
    (q : MessageQueue) (ms : List Message) → IsValid q → Holds q ms → Popped (map some ms) (pop q)
pop-Holds q ms v h = rw h at (pop-Popped q v)

-- No sequence of sends and receives tells a well-formed message queue from the list of the messages
-- that it holds: what is received, in which order, and when the queue says that it is empty.
pub run_refines :
    (cs : List Call) (q : MessageQueue) (ms : List Message)
    → IsValid q
    → Holds q ms
    → run q cs ≡ spec_run ms cs
unfolding run spec_run
run_refines [] q ms v h = refl
run_refines (sends m ∷ cs) q ms v h =
    run_refines cs (push q m).0 (ms ++ m ∷ []) (push-IsValid q m v) (push-Holds q ms m v h)
run_refines (receives ∷ cs) q [] v h =
    let p = pop-Holds q [] v h in
    ap₂ ◌∷◌ (ground arith) (run_refines cs (pop q).2 [] (pop-IsValid q v) p.2)
run_refines (receives ∷ cs) q (m ∷ ms) v h =
    let p = pop-Holds q (m ∷ ms) v h in
    ap₂ ◌∷◌ (ground arith) (run_refines cs (pop q).2 ms (pop-IsValid q v) p.2)

-- `skynet_mq_create` gives a well-formed queue that holds nothing.
pub create_lem : (handle : ℕ) → IsValid (create handle) × Holds (create handle) []
unfolding create mq_length cells
create_lem handle = (omega arith, refl)

drop_all :
    (fuel : ℕ) (q : MessageQueue) (xs : List (Option Message))
    → IsValid q
    → contents q ≡ xs
    → length xs < fuel
    → drop_queue fuel q ≡ xs
unfolding drop_queue
drop_all zero q xs v e h = absurd (omega arith)
drop_all (suc fuel) q [] v e h = ground (arith, rw e at (pop-Popped q v))
drop_all (suc fuel) q (x ∷ xs) v e h =
    let p = rw e at (pop-Popped q v) in
    ground (arith, p, drop_all fuel (pop q).2 xs (pop-IsValid q v) p.2)

-- `_drop_queue` ends, and hands every message that the queue holds to `drop_func`, oldest first.
pub drop_queue_lem : (q : MessageQueue) → IsValid q → drop_queue (mq_length q + 1) q ≡ contents q
drop_queue_lem q v =
    drop_all (mq_length q + 1) q (contents q) v refl
      (omega (arith, length-cells none q.queue q.cap q.head 0 (mq_length q)))

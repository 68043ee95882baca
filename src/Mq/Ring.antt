-- ===== src/Mq/Ring.antt =====
-- The ring of a message queue (skynet_mq.c): what it holds, the write at its tail, `expand_queue`.
use skynet_gameserver.Prelude.{
  suc, ◌+◌, ◌*◌, ◌%◌, ◌<◌, ◌≡◌, ◌≢◌, ap, ◌∙◌, Option, none, some, List, [], ◌∷◌, ◌++◌, arith,
  length, get_or, set, replicate, length-append, length-replicate, length-set,
}
use skynet_gameserver.Prelude.Arrays.{cells, length-cells, get_or-cells, cells_ext, get_or-append}
use skynet_gameserver.Prelude.Rings.{cells-write}
use native.Mathlib.Nat.{mod-eq_of_lt}
use skynet_gameserver.Mq.{Message, MessageQueue, mq_length, put, expand_queue}

pub record IsValid (q : MessageQueue) : Type 0 where
  pub storage : length q.queue ≡ q.cap
  pub head_in : q.head < q.cap
  pub tail_in : q.tail < q.cap
  pub threshold_pos : 0 < q.overload_threshold

-- The cells from `head` up to `tail`.
abbrev pub contents : MessageQueue → List (Option Message)
contents q = cells none q.queue q.cap q.head 0 (mq_length q)

pub mq_length-lt : (q : MessageQueue) → IsValid q → mq_length q < q.cap
unfolding mq_length
mq_length-lt q v = ground arith

pub cells-put :
    (q : MessageQueue) (m : Message)
    → IsValid q
    → cells none (set q.queue q.tail (some m)) q.cap q.head 0 (suc (mq_length q))
      ≡ contents q ++ some m ∷ []
unfolding mq_length
cells-put q m v =
    cells-write none q.queue q.cap q.head q.tail (some m) v.storage v.head_in v.tail_in

pub put-IsValid : (q : MessageQueue) (m : Message) → IsValid q → IsValid (put q m)
unfolding put
put-IsValid q m v = ground (arith, length-set q.queue q.tail (some m))

-- A ring that is not full after the write has one more message.
mq_length-put_room :
    (q : MessageQueue) (m : Message)
    → IsValid q
    → (put q m).head ≢ (put q m).tail
    → mq_length (put q m) ≡ suc (mq_length q)
unfolding put mq_length
mq_length-put_room q m v ne = ground arith

pub mq_length-put_full :
    (q : MessageQueue) (m : Message)
    → IsValid q
    → (put q m).head ≡ (put q m).tail
    → q.cap ≡ suc (mq_length q)
unfolding put mq_length
mq_length-put_full q m v e = ground arith

pub contents-put :
    (q : MessageQueue) (m : Message)
    → IsValid q
    → (put q m).head ≢ (put q m).tail
    → contents (put q m) ≡ contents q ++ some m ∷ []
unfolding put
contents-put q m v ne =
    ap (λ n. cells none (set q.queue q.tail (some m)) q.cap q.head 0 n)
      (mq_length-put_room q m v ne)
    ∙ cells-put q m v

-- `expand_queue` moves a full ring to the start of a new one.
pub contents-expand_queue :
    (q : MessageQueue)
    → q.head < q.cap
    → contents (expand_queue q) ≡ cells none q.queue q.cap q.head 0 q.cap
unfolding expand_queue mq_length
contents-expand_queue q h =
    ap (λ n. cells none buf (q.cap * 2) 0 0 n) (ground arith)
    ∙ cells_ext none buf q.queue (q.cap * 2) q.cap 0 q.head 0 0 q.cap λ j p.
      ap (λ k. get_or buf k none) (mod-eq_of_lt {n = 0 + (0 + j)} (omega arith))
      ∙ get_or-append moved (replicate q.cap none) (0 + (0 + j)) none
          (omega (arith, length-cells none q.queue q.cap q.head 0 q.cap))
      ∙ get_or-cells none q.queue q.cap q.head 0 q.cap (0 + (0 + j)) (omega arith)
      ∙ ap (λ k. get_or q.queue ((q.head + k) % q.cap) none) (omega arith)
  where
    moved : List (Option Message)
    moved = cells none q.queue q.cap q.head 0 q.cap

    buf : List (Option Message)
    buf = moved ++ replicate q.cap none

pub expand_queue-IsValid : (q : MessageQueue) → IsValid q → IsValid (expand_queue q)
unfolding expand_queue
expand_queue-IsValid q v = ground (
  arith,
  length-append (cells none q.queue q.cap q.head 0 q.cap) (replicate q.cap none),
  length-cells none q.queue q.cap q.head 0 q.cap,
  length-replicate {A = Option Message} q.cap none,
)

-- ===== src/Mq.antt =====
-- skynet/skynet-src/skynet_mq.c, the message queue of one service: a ring that doubles when it is
-- full. Each function runs under the queue's spin lock, so a call is one step. `queue->next` and the
-- global queue are in GlobalMq. A call of `skynet_globalmq_push` is the Boolean beside the new state.
-- Memory from `skynet_malloc` that is not yet written is `none`.
pub mod Ring
pub mod Push
pub mod Pop
pub mod Fifo
pub mod Overload
mod Tests
use skynet_gameserver.Prelude.{
  ℕ, zero, suc, ◌+◌, ◌-◌, ◌*◌, ◌%◌, Bool, true, false, Option, none, some, List, [], ◌∷◌, ◌++◌, ltb,
  leb, ◌==◌, if◌then◌else◌, get_or, set, replicate,
}
use skynet_gameserver.Prelude.Arrays.{cells}

-- `struct skynet_message`; a pointer is a number.
pub record Message : Type 0 where
  pub source : ℕ
  pub session : ℕ
  pub payload : ℕ
  pub sz : ℕ

pub record MessageQueue : Type 0 where
  pub handle : ℕ
  pub cap : ℕ
  pub head : ℕ
  pub tail : ℕ
  pub release : ℕ
  pub in_global : ℕ
  pub overload : ℕ
  pub overload_threshold : ℕ
  pub queue : List (Option Message)

abbrev pub default_queue_size : ℕ
default_queue_size = 64

abbrev pub mq_in_global : ℕ
mq_in_global = 1

abbrev pub mq_overload : ℕ
mq_overload = 1024

abbrev uninitialised : ℕ → List (Option Message)
uninitialised n = replicate n none

unfoldable pub create : ℕ → MessageQueue
create handle = record {
  handle = handle;
  cap = default_queue_size;
  head = 0;
  tail = 0;
  release = 0;
  in_global = mq_in_global;
  overload = 0;
  overload_threshold = mq_overload;
  queue = uninitialised default_queue_size;
}

-- `skynet_mq_length`
unfoldable pub mq_length : MessageQueue → ℕ
mq_length q = if leb q.head q.tail then q.tail - q.head else q.tail + q.cap - q.head

-- `skynet_mq_overload`: the reading resets the flag.
unfoldable pub take_overload : MessageQueue → ℕ × MessageQueue
take_overload q = if q.overload == 0 then (0, q) else (q.overload, record q { overload = 0 })

-- The `while` of `skynet_mq_pop`. A round adds at least one to a threshold that is not 0, so a fuel
-- of `length` is enough.
unfoldable pub raise_threshold : ℕ → ℕ → MessageQueue → MessageQueue
raise_threshold zero len q = q
raise_threshold (suc fuel) len q =
    let rest =
      raise_threshold fuel len
        (record q { overload = len; overload_threshold = q.overload_threshold * 2 }) in
    if ltb q.overload_threshold len then rest else q

-- `int length = tail - head; if (length < 0) length += cap;`
unfoldable pub length_between : ℕ → ℕ → ℕ → ℕ
length_between head tail cap = if ltb tail head then tail + cap - head else tail - head

unfoldable pub advance_head : MessageQueue → MessageQueue
advance_head q = record q { head = if leb q.cap (q.head + 1) then 0 else q.head + 1 }

unfoldable pub watch_overload : MessageQueue → MessageQueue
watch_overload q = let len = length_between q.head q.tail q.cap in raise_threshold len len q

-- `skynet_mq_pop`: the return value, what goes through `message`, and the queue.
unfoldable pub pop : MessageQueue → ℕ × Option Message × MessageQueue
pop q =
    if q.head == q.tail
    then (1, none, record q { overload_threshold = mq_overload; in_global = 0 })
    else (0, get_or q.queue q.head none, watch_overload (advance_head q))

unfoldable pub expand_queue : MessageQueue → MessageQueue
expand_queue q = record q {
  queue = cells none q.queue q.cap q.head 0 q.cap ++ uninitialised q.cap;
  head = 0;
  tail = q.cap;
  cap = q.cap * 2;
}

-- The write at `tail`, before the test for a full ring.
unfoldable pub put : MessageQueue → Message → MessageQueue
put q m = record q {
  queue = set q.queue q.tail (some m);
  tail = if leb q.cap (q.tail + 1) then 0 else q.tail + 1;
}

unfoldable pub grow : MessageQueue → MessageQueue
grow q = if q.head == q.tail then expand_queue q else q

-- The end of `skynet_mq_push`: a queue that is not in the global queue is put there.
unfoldable pub wake : MessageQueue → MessageQueue × Bool
wake q = if q.in_global == 0 then (record q { in_global = mq_in_global }, true) else (q, false)

unfoldable pub push : MessageQueue → Message → MessageQueue × Bool
push q m = wake (grow (put q m))

-- `skynet_mq_mark_release`; `none` is the failed assertion. `in_global` stays as it is.
unfoldable pub mark_release : MessageQueue → Option (MessageQueue × Bool)
mark_release q =
    if q.release == 0
    then some (record q { release = 1 }, (if q.in_global == mq_in_global then false else true))
    else none

-- `_drop_queue`: the messages handed to `drop_func`, in order, until the queue is empty. The fuel
-- `mq_length q + 1` is enough.
unfoldable pub drop_queue : ℕ → MessageQueue → List (Option Message)
drop_queue zero q = []
drop_queue (suc fuel) q =
    let (ret, m, q') = pop q in let rest = drop_queue fuel q' in if ret == 0 then m ∷ rest else []

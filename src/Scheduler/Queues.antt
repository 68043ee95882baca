-- ===== src/Scheduler/Queues.antt =====
-- What the scheduler needs to know of one message queue (skynet_mq.c), with the ring kept shut.
use skynet_gameserver.Prelude.{
  ℕ, ◌+◌, ◌≤◌, ◌<◌, ◌≡◌, ◌≢◌, refl, true, false, none, some, arith, ◌==◌, if◌then◌else◌, length,
  ℕ_discrete, set, leb, Bool-cases, inl, inr,
}
use skynet_gameserver.Prelude.Arrays.{length-cells}
use skynet_gameserver.Mq.{
  Message, MessageQueue, create, mq_length, take_overload, push, pop, mark_release, put, grow, wake,
  expand_queue, watch_overload, advance_head, length_between,
}
use skynet_gameserver.Mq.Ring.{IsValid, contents}
use skynet_gameserver.Mq.Push.{push-IsValid}
use skynet_gameserver.Mq.Pop.{pop-IsValid, watch-same}
use skynet_gameserver.Mq.Fifo.{create_lem}

-- A queue is well formed, its two flags are 0 or 1, and one that holds messages is flagged as in
-- the global queue.
pub record IsFlagged (q : MessageQueue) : Type 0 where
  pub ring : IsValid q
  pub in_global_bit : q.in_global ≤ 1
  pub release_bit : q.release ≤ 1
  pub busy : 0 < mq_length q → q.in_global ≡ 1

pub create-IsFlagged :
    (q : ℕ) → IsFlagged (create q) × ((create q).in_global ≡ 1) × ((create q).release ≡ 0)
unfolding create
create-IsFlagged q = (
  record {
    ring = (create_lem q).0;
    in_global_bit = omega arith;
    release_bit = omega arith;
    busy = λ h. refl;
  },
  refl,
  refl,
)

pub mq_length-eq : (q : MessageQueue) → length (contents q) ≡ mq_length q
mq_length-eq q = length-cells none q.queue q.cap q.head 0 (mq_length q)

flags-pop :
    (q : MessageQueue)
    → let (ret, m, q') = pop q in
      (q'.release ≡ q.release)
      × (ret ≡ (if q.head == q.tail then 1 else 0))
      × (q'.in_global ≡ (if q.head == q.tail then 0 else q.in_global))
unfolding pop watch_overload advance_head
flags-pop q =
    let q' = advance_head q in
    let len = length_between q'.head q'.tail q'.cap in ground (arith, watch-same len len q')

mq_length-pos : (q : MessageQueue) → IsValid q → q.head ≢ q.tail → 0 < mq_length q
unfolding mq_length
mq_length-pos q v ne = ground arith

mq_length-pop_empty : (q : MessageQueue) → q.head ≡ q.tail → mq_length (pop q).2 ≡ 0
unfolding pop mq_length
mq_length-pop_empty q e = ground arith

busy-pop : (q : MessageQueue) → IsFlagged q → 0 < mq_length (pop q).2 → (pop q).2.in_global ≡ 1
busy-pop q f h = elim (ℕ_discrete q.head q.tail) [
  | yes e ↦ absurd (omega (arith, mq_length-pop_empty q e))
  | no ne ↦ ground (arith, flags-pop q, f.busy (mq_length-pos q f.ring ne))
]

-- `skynet_mq_pop` clears `in_global` where it finds no message, and leaves it else.
pub pop-IsFlagged :
    (q : MessageQueue)
    → IsFlagged q
    → let (ret, m, q') = pop q in
      IsFlagged q'
      × (q'.release ≡ q.release)
      × (ret ≤ 1)
      × (q'.in_global ≡ (if ret == 0 then q.in_global else 0))
pop-IsFlagged q f = (
  record {
    ring = pop-IsValid q f.ring;
    in_global_bit = ground (arith, flags-pop q, f.in_global_bit);
    release_bit = ground (arith, flags-pop q, f.release_bit);
    busy = busy-pop q f;
  },
  ground (arith, flags-pop q),
  ground (arith, flags-pop q),
  ground (arith, flags-pop q),
)

flags-grow :
    (q : MessageQueue) → ((grow q).in_global ≡ q.in_global) × ((grow q).release ≡ q.release)
unfolding grow expand_queue
flags-grow q = ground arith

flags-push :
    (q : MessageQueue) (m : Message)
    → q.in_global ≤ 1
    → let (q', wakes) = push q m in
      (q'.release ≡ q.release) × (q'.in_global ≡ 1) × (wakes ≡ (q.in_global == 0))
unfolding push wake put
flags-push q m h = ground (
  arith,
  flags-grow (record q {
    queue = set q.queue q.tail (some m);
    tail = if leb q.cap (q.tail + 1) then 0 else q.tail + 1;
  }),
)

-- `skynet_mq_push` sets `in_global`, and calls for the global queue exactly where it was clear.
pub push-IsFlagged :
    (q : MessageQueue) (m : Message)
    → IsFlagged q
    → let (q', wakes) = push q m in
      IsFlagged q' × (q'.release ≡ q.release) × (q'.in_global ≡ 1) × (wakes ≡ (q.in_global == 0))
push-IsFlagged q m f =
    let e = flags-push q m f.in_global_bit in
    (
      record {
        ring = push-IsValid q m f.ring;
        in_global_bit = ground (arith, e);
        release_bit = ground (arith, e, f.release_bit);
        busy = λ h. e.1;
      },
      e.0,
      e.1,
      e.2,
    )

overload-IsFlagged :
    (q : MessageQueue) (n : ℕ) → IsFlagged q → IsFlagged (record q { overload = n })
unfolding mq_length
overload-IsFlagged q n f = record {
  ring = ground (arith, f.ring);
  in_global_bit = f.in_global_bit;
  release_bit = f.release_bit;
  busy = f.busy;
}

-- `skynet_mq_overload` leaves the messages and the flags alone.
pub take_overload-IsFlagged :
    (q : MessageQueue)
    → IsFlagged q
    → let q' = (take_overload q).1 in
      IsFlagged q' × (q'.release ≡ q.release) × (q'.in_global ≡ q.in_global)
unfolding take_overload
take_overload-IsFlagged q f = elim (Bool-cases (q.overload == 0)) [
  | inl e ↦ rw e (f, refl, refl)
  | inr e ↦ rw e (overload-IsFlagged q 0 f, refl, refl)
]

pub release-IsFlagged : (q : MessageQueue) → IsFlagged q → IsFlagged (record q { release = 1 })
unfolding mq_length
release-IsFlagged q f = record {
  ring = ground (arith, f.ring);
  in_global_bit = f.in_global_bit;
  release_bit = omega arith;
  busy = f.busy;
}

-- `skynet_mq_mark_release` succeeds once, and calls for the global queue where the flag is clear.
pub mark_release-eq :
    (q : MessageQueue)
    → q.release ≡ 0
    → mark_release q ≡ some (record q { release = 1 }, (if q.in_global == 1 then false else true))
unfolding mark_release
mark_release-eq q e = ground arith

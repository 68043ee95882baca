-- ===== src/Scheduler.antt =====
-- skynet/skynet-src/skynet_server.c and the worker loop of skynet_start.c: how worker threads,
-- senders, launchers and the thread that drops the last reference share the message queues.
-- A thread is the place where it stands (`Pc`), and a step is what one lock or one atomic operation
-- of the source covers, so any interleaving of threads is a sequence of steps. A service, its handle
-- and its queue have one number: a handle does not come back while its queue lives.
pub mod Count
pub mod Queues
pub mod Invariant
pub mod Goes
pub mod QueueSteps
pub mod Dispatch
pub mod Release
pub mod Steps
pub mod Moves
pub mod Spawn
pub mod Reachable
pub mod Safety
mod Tests
use skynet_gameserver.Prelude.{
  at, ℕ, zero, suc, ◌+◌, ◌-◌, ◌/◌, ◌^◌, ◌≡◌, Bool, true, false, Option, none, some, List, [], ◌∷◌,
  ◌++◌, ltb, ◌==◌, if◌then◌else◌, get_elem?, set,
}
use skynet_gameserver.Mq.{
  Message, MessageQueue, create, mq_length, take_overload, push, pop, mark_release,
}
use skynet_gameserver.GlobalMq
use skynet_gameserver.GlobalMq.{is_null, GlobalQueue, globalmq_push, globalmq_pop}

-- Where a thread goes on after `skynet_context_release`.
pub data After : Type 0 where
  done fetch : After
  enter publish retire : ℕ → After

pub data Pc : Type 0 where
  finished idle fetching : Pc
  entered measuring asking publishing retiring : ℕ → Pc
  popping handling : ℕ → ℕ → ℕ → Pc
  swapping : ℕ → ℕ → Pc
  leaving deleting dying : ℕ → After → Pc
  launching : ℕ → Bool → Pc
  sending : ℕ → Message → Pc

pub data Status : Type 0 where
  unborn alive freed : Status

-- `registered`: the handle storage holds the service. `refs`: `ctx->ref`.
pub record World : Type 0 where
  pub status : ℕ → Status
  pub queues : ℕ → MessageQueue
  pub registered : ℕ → Bool
  pub refs : ℕ → ℕ
  pub global : GlobalQueue
  pub threads : List Pc

abbrev pub Moved : Type 0
Moved = Option (World × Pc)

abbrev pub resume : After → Pc
resume done = finished
resume fetch = fetching
resume (enter q) = entered q
resume (publish q) = publishing q
resume (retire q) = retiring q

-- `skynet_globalmq_push(q)`; a failed assertion is `none`.
unfoldable pub enqueue : World → ℕ → Pc → Moved
enqueue w q k = elim (globalmq_push w.global q) [
  | none ↦ none
  | some g ↦ some (record w { global = g }, k)
]

-- `skynet_globalmq_pop()`
unfoldable pub dequeue : World → (Option ℕ → Pc) → Moved
dequeue w k = elim (globalmq_pop w.global) [
  | none ↦ none
  | some (r, g) ↦ some (record w { global = g }, k r)
]

abbrev pub after_fetch : Option ℕ → Pc
after_fetch none = idle
after_fetch (some q) = entered q

abbrev pub after_ask : ℕ → Option ℕ → Pc
after_ask q none = leaving q (enter q)
after_ask q (some nq) = swapping q nq

-- A use of a queue that is not there is a fault.
abbrev pub guard : Status → Moved → Moved
guard alive m = m
guard s m = none

-- `for (i=0;i<n;i++) { if (skynet_mq_pop(q,&msg)) … else if (i==0 && weight >= 0) … }`, where a
-- negative weight is `none`.
abbrev pub after_pop : Option ℕ → ℕ → ℕ → ℕ → Pc
after_pop none q i n = handling q i n
after_pop (some k) q i n = if i == 0 then measuring q else handling q i n

unfoldable pub pop_message : Option ℕ → World → ℕ → ℕ → ℕ → Moved
pop_message weight w q i n =
    let (ret, m, mq) = pop (w.queues q) in
    some (
      record w { queues = at w.queues q mq },
      (if ret == 0 then after_pop weight q i n else leaving q fetch),
    )

-- `n = skynet_mq_length(q); n >>= weight;`
abbrev pub shift_length : Option ℕ → ℕ → ℕ
shift_length none n = 1
shift_length (some k) n = n / 2 ^ k

-- `skynet_context_release`: the thread that drops the last reference deletes the context.
unfoldable pub drop_ref : World → ℕ → After → Moved
drop_ref w c k =
    if w.refs c == 0
    then none
    else some (
      record w { refs = at w.refs c (w.refs c - 1) },
      (if w.refs c == 1 then deleting c k else resume k),
    )

abbrev pub enqueue_if : Bool → World → ℕ → Pc → Moved
enqueue_if true w q k = enqueue w q k
enqueue_if false w q k = some (w, k)

-- `skynet_mq_mark_release`, from `delete_context`
unfoldable pub delete : World → ℕ → After → Moved
delete w c k = elim (mark_release (w.queues c)) [
  | none ↦ none
  | some (mq, wakes) ↦ enqueue_if wakes (record w { queues = at w.queues c mq }) c (resume k)
]

-- `skynet_mq_release`; `_release` asserts that the queue is in no list.
unfoldable pub release_queue : World → ℕ → After → Moved
release_queue w q k =
    if (w.queues q).release == 0
    then enqueue w q (resume k)
    else (if is_null (w.global.next q)
        then some (record w { status = at w.status q freed }, resume k)
        else none)

-- `skynet_mq_push`, from `skynet_context_push`
unfoldable pub send : World → ℕ → Message → Moved
send w q m =
    let (mq, wakes) = push (w.queues q) m in
    enqueue_if wakes (record w { queues = at w.queues q mq }) q (leaving q done)

-- `skynet_handle_grab`
unfoldable pub grab : World → ℕ → Pc → Pc → Moved
grab w q found missing =
    if w.registered q
    then some (record w { refs = at w.refs q (w.refs q + 1) }, found)
    else some (w, missing)

-- `skynet_handle_retire`: the reference of the handle storage passes to the thread.
unfoldable pub retire_handle : World → ℕ → Pc → Pc → Moved
retire_handle w q found missing =
    if w.registered q
    then some (record w { registered = at w.registered q false }, found)
    else some (w, missing)

-- One step of a thread: `skynet_context_message_dispatch` and what calls it, the end of
-- `skynet_context_new`, `skynet_context_push`, `skynet_context_release` and `delete_context`.
unfoldable pub advance : Option ℕ → World → Pc → Moved
advance weight w finished = some (w, finished)
advance weight w idle = some (w, fetching)
advance weight w fetching = dequeue w after_fetch
advance weight w (entered q) = guard (w.status q) (grab w q (popping q 0 1) (dying q fetch))
advance weight w (popping q i n) = guard (w.status q) (pop_message weight w q i n)
advance weight w (measuring q) =
    guard (w.status q) (some (w, handling q 0 (shift_length weight (mq_length (w.queues q)))))
advance weight w (handling q i n) = guard (w.status q) (
    some (
      record w { queues = at w.queues q (take_overload (w.queues q)).1 },
      (if ltb (i + 1) n then popping q (i + 1) n else asking q),
    ))
advance weight w (asking q) = dequeue w (after_ask q)
advance weight w (swapping q nq) = guard (w.status q) (enqueue w q (leaving q (enter nq)))
advance weight w (leaving c k) = guard (w.status c) (drop_ref w c k)
advance weight w (deleting c k) = guard (w.status c) (delete w c k)
advance weight w (dying q k) = guard (w.status q) (release_queue w q k)
advance weight w (launching q ok) =
    some (w, (if ok then leaving q (publish q) else leaving q (retire q)))
advance weight w (publishing q) = guard (w.status q) (enqueue w q finished)
advance weight w (retiring q) = retire_handle w q (leaving q (retire q)) (dying q done)
advance weight w (sending q m) = guard (w.status q) (send w q m)

abbrev pub spawn : World → Pc → World
spawn w pc = record w { threads = w.threads ++ pc ∷ [] }

-- A new service: `skynet_context_new` up to the call of the module's `init`. The registration, the store
-- of the handle and `skynet_mq_create` are one step: until the queue is made no other thread is taken to
-- use the handle, which has been given to none. A context and its queue have one number, so that
-- `assert(q == ctx->queue)` has no counterpart, nor has `ctx->init`.
unfoldable pub born : World → ℕ → World
born w q = record w {
  status = at w.status q alive;
  queues = at w.queues q (create q);
  registered = at w.registered q true;
  refs = at w.refs q 2;
}

-- `weight` is the table of `start` in skynet_start.c, by the thread's number; a negative weight is
-- `none`. What can happen: a thread moves, or a callback starts to send, to launch or to retire a service.
pub data Step (weight : ℕ → Option ℕ) : World → World → Type 0 where
  moves :
      (w w' : World) (i : ℕ) (pc pc' : Pc)
      → get_elem? w.threads i ≡ some pc
      → advance (weight i) w pc ≡ some (w', pc')
      → Step weight w (record w' { threads = set w.threads i pc' })
  sends :
      (w : World) (q : ℕ) (m : Message)
      → w.registered q ≡ true
      → Step weight w (spawn (record w { refs = at w.refs q (w.refs q + 1) }) (sending q m))
  retires :
      (w : World) (q : ℕ)
      → w.registered q ≡ true
      → Step weight w (spawn (record w { registered = at w.registered q false }) (leaving q done))
  launches :
      (w : World) (q : ℕ) (ok : Bool)
      → w.status q ≡ unborn
      → Step weight w (spawn (born w q) (launching q ok))

abbrev pub workers : ℕ → List Pc
workers zero = []
workers (suc n) = idle ∷ workers n

-- The start: `n` worker threads and no service.
unfoldable pub start : ℕ → World
start n = record {
  status = λ q. unborn;
  queues = λ q. create q;
  registered = λ q. false;
  refs = λ q. 0;
  global = GlobalMq.init;
  threads = workers n;
}

pub data Reach (weight : ℕ → Option ℕ) (n : ℕ) : World → Type 0 where
  starts : Reach weight n (start n)
  steps : {w w' : World} → Reach weight n w → Step weight w w' → Reach weight n w'

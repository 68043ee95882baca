-- ===== src/RwLock.antt =====
-- skynet/skynet-src/rwlock.h, the reader-writer lock of the handle storage (the version with atomic
-- operations): one step of a thread is one atomic operation, and any interleaving of threads is a
-- sequence of steps. The operations are taken to be sequentially consistent. (A compare-and-swap that
-- fails for no reason leaves everything as it is.)
pub mod Invariant
pub mod Safety
mod Tests
use skynet_gameserver.Prelude.{
  ℕ, zero, suc, ◌+◌, ◌-◌, ◌≡◌, Option, none, some, List, [], ◌∷◌, ◌==◌, if◌then◌else◌, get_elem?,
  set, Bool,
}

pub record RwLock : Type 0 where
  pub write : ℕ
  pub read : ℕ

-- `rwlock_init`
unfoldable pub init : RwLock
init = record { write = 0; read = 0 }

-- Where a thread stands: outside, at each atomic operation of `rwlock_rlock` (wait for the writer,
-- look again, take the count back) and of `rwlock_wlock` (the compare-and-swap, wait for the
-- readers), and in the section that it locked for reading or for writing.
pub data Pc : Type 0 where
  outside waiting counting looking backing reading : Pc
  swapping draining writing : Pc

-- An atomic operation of a thread. `ATOM_FDEC` of a count that is 0 is a fault.
abbrev pub Moved : Type 0
Moved = Option (RwLock × Pc)

unfoldable pub decrement : RwLock → Pc → Moved
decrement lock pc = if lock.read == 0 then none else some (record lock { read = lock.read - 1 }, pc)

-- `rwlock_rlock` from `waiting` to `reading`, `rwlock_wlock` from `swapping` to `writing`,
-- `rwlock_runlock` from `reading` and `rwlock_wunlock` from `writing`.
unfoldable pub advance : RwLock → Pc → Moved
advance lock outside = some (lock, outside)
advance lock waiting = some (lock, (if lock.write == 0 then counting else waiting))
advance lock counting = some (record lock { read = lock.read + 1 }, looking)
advance lock looking = some (lock, (if lock.write == 0 then reading else backing))
advance lock backing = decrement lock waiting
advance lock reading = decrement lock outside
advance lock swapping = some (
  (if lock.write == 0 then record lock { write = 1 } else lock),
  (if lock.write == 0 then draining else swapping),
)
advance lock draining = some (lock, (if lock.read == 0 then writing else draining))
advance lock writing = some (record lock { write = 0 }, outside)

pub record State : Type 0 where
  pub lock : RwLock
  pub threads : List Pc

-- A thread moves, or a thread that is outside calls `rwlock_rlock` or `rwlock_wlock`.
pub data Step : State → State → Type 0 where
  moves :
      (s : State) (lock : RwLock) (i : ℕ) (pc pc' : Pc)
      → get_elem? s.threads i ≡ some pc
      → advance s.lock pc ≡ some (lock, pc')
      → Step s (record { lock = lock; threads = set s.threads i pc' })
  reads :
      (s : State) (i : ℕ)
      → get_elem? s.threads i ≡ some outside
      → Step s (record s { threads = set s.threads i waiting })
  writes :
      (s : State) (i : ℕ)
      → get_elem? s.threads i ≡ some outside
      → Step s (record s { threads = set s.threads i swapping })

abbrev pub all_outside : ℕ → List Pc
all_outside zero = []
all_outside (suc n) = outside ∷ all_outside n

unfoldable pub start : ℕ → State
start n = record { lock = init; threads = all_outside n }

pub data Reach (n : ℕ) : State → Type 0 where
  starts : Reach n (start n)
  steps : {s s' : State} → Reach n s → Step s s' → Reach n s'

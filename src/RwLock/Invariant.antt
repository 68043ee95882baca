-- ===== src/RwLock/Invariant.antt =====
-- The counts of the lock are the numbers of threads that stand behind them.
use skynet_gameserver.Prelude.{
  ℕ, ◌+◌, ◌<◌, ◌≤◌, ◌≡◌, some, ◌==◌, arith, inl, inr, Bool-cases, false,
}
use skynet_gameserver.Prelude.Totals.{total}
use skynet_gameserver.RwLock.{
  RwLock, Pc, outside, waiting, counting, looking, backing, reading, swapping, draining, writing,
  Moved, decrement, advance, State,
}

-- The threads that are counted in `read`, those that set `write`, those that read, those that write.
abbrev pub counted : Pc → ℕ
counted looking = 1
counted backing = 1
counted reading = 1
counted _ = 0

abbrev pub owning : Pc → ℕ
owning draining = 1
owning writing = 1
owning _ = 0

abbrev pub is_reading : Pc → ℕ
is_reading reading = 1
is_reading _ = 0

abbrev pub is_writing : Pc → ℕ
is_writing writing = 1
is_writing _ = 0

-- The invariant, of the lock and of the four sums.
pub record Inv (lock : RwLock) (c o r w : ℕ) : Type 0 where
  pub readers : lock.read ≡ c
  pub owner : lock.write ≡ o
  pub one_owner : o ≤ 1
  pub among : r ≤ c
  pub writer_owns : w ≤ o
  pub exclusive : 0 < w → r ≡ 0

abbrev pub IsSafe : State → Type 0
IsSafe s =
    Inv s.lock (total counted s.threads) (total owning s.threads) (total is_reading s.threads)
      (total is_writing s.threads)

-- What a thread at `pc` does to the sums: its own parts `c o r w` change.
pub data Goes (lock : RwLock) (c o r w : ℕ) : Moved → Type 0 where
  goes :
      (lock' : RwLock) (pc' : Pc)
      → Inv lock' (c + counted pc') (o + owning pc') (r + is_reading pc') (w + is_writing pc')
      → Goes lock c o r w (some (lock', pc'))

pub advance-Goes :
    (lock : RwLock) (pc : Pc) (c o r w : ℕ)
    → r ≤ c
    → w ≤ o
    → Inv lock (c + counted pc) (o + owning pc) (r + is_reading pc) (w + is_writing pc)
    → Goes lock c o r w (advance lock pc)
unfolding advance decrement
advance-Goes lock outside c o r w h h' v = goes lock outside v
advance-Goes lock waiting c o r w h h' v = elim (Bool-cases (lock.write == 0)) [
  | inl b ↦ rw b (goes lock counting v)
  | inr b ↦ rw b (goes lock waiting v)
]
advance-Goes lock counting c o r w h h' v = goes _ looking (grind arith)
advance-Goes lock looking c o r w h h' v = elim (Bool-cases (lock.write == 0)) [
  | inl b ↦ rw b (goes lock reading (grind arith))
  | inr b ↦ rw b (goes lock backing (grind arith))
]
advance-Goes lock backing c o r w h h' v =
    let b : (lock.read == 0) ≡ false = ground (arith, v.readers) in
    rw b (goes _ waiting (grind arith))
advance-Goes lock reading c o r w h h' v =
    let b : (lock.read == 0) ≡ false = ground (arith, v.readers) in
    rw b (goes _ outside (grind arith))
advance-Goes lock swapping c o r w h h' v = elim (Bool-cases (lock.write == 0)) [
  | inl b ↦ rw b (goes _ draining (grind arith))
  | inr b ↦ rw b (goes lock swapping v)
]
advance-Goes lock draining c o r w h h' v = elim (Bool-cases (lock.read == 0)) [
  | inl b ↦ rw b (goes lock writing (grind arith))
  | inr b ↦ rw b (goes lock draining v)
]
advance-Goes lock writing c o r w h h' v = goes _ outside (grind arith)

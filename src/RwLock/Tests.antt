-- ===== src/RwLock/Tests.antt =====
-- A writer that got the lock while a reader was on its way.
use skynet_gameserver.Prelude.{ℕ, ◌≢◌, refl, none, [], ◌∷◌, arith}
use skynet_gameserver.RwLock.{
  init, Pc, outside, waiting, counting, looking, swapping, draining, writing, State, moves, reads,
  writes, advance, start, Reach, starts, steps,
}
use skynet_gameserver.RwLock.Safety.{InSection, writer_is_alone, no_underflow}

abbrev at_locks : ℕ → ℕ → Pc → Pc → State
at_locks w r a b = record { lock = record { write = w; read = r }; threads = a ∷ b ∷ [] }

begun : Reach 2 (at_locks 0 0 outside outside)
unfolding start init
begun = starts

reader_comes : Reach 2 (at_locks 0 0 outside counting)
unfolding advance
reader_comes = steps (steps begun (reads (at_locks 0 0 outside outside) 1 refl)) (
    moves (at_locks 0 0 outside waiting) (record { write = 0; read = 0 }) 1 waiting counting refl
      refl)

writer_owns : Reach 2 (at_locks 1 0 draining counting)
unfolding advance
writer_owns = steps (steps reader_comes (writes (at_locks 0 0 outside counting) 0 refl)) (
    moves (at_locks 0 0 swapping counting) (record { write = 1; read = 0 }) 0 swapping draining refl
      refl)

both : Reach 2 (at_locks 1 1 writing looking)
unfolding advance
both =
    steps
      (steps writer_owns (
        moves (at_locks 1 0 draining counting) (record { write = 1; read = 0 }) 0 draining writing
          refl refl))
      (moves (at_locks 1 0 writing counting) (record { write = 1; read = 1 }) 1 counting looking
        refl refl)

writer_is_alone_example : ¬ InSection looking
writer_is_alone_example = writer_is_alone both 0 1 looking (omega arith) refl refl

no_underflow_example : advance (record { write = 1; read = 1 }) looking ≢ none
no_underflow_example = no_underflow both 1 looking refl

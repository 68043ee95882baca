-- ===== src/Mq/Tests.antt =====
-- Runs of skynet_mq.c on small queues, and its theorems at those inputs.
use skynet_gameserver.Prelude.{
  ℕ, ◌+◌, ◌≡◌, refl, none, some, List, [], ◌∷◌, arith, ltb, if◌then◌else◌,
}
use skynet_gameserver.Prelude.Arrays.{cells}
use skynet_gameserver.Mq.{
  Message, MessageQueue, create, mq_length, raise_threshold, length_between, advance_head,
  watch_overload, pop, expand_queue, put, grow, wake, push, drop_queue,
}
use skynet_gameserver.Mq.Ring.{IsValid, contents}
use skynet_gameserver.Mq.Fifo.{
  sends, receives, Call, run, spec_run, Holds, run_refines, create_lem, drop_queue_lem,
}
use skynet_gameserver.Mq.Overload.{Doubled, pop_overload}

abbrev message : ℕ → Message
message n = record { source = n; session = 0; payload = n; sz = n }

-- Two messages round the end of a ring of three.
abbrev wrapped : MessageQueue
wrapped = record {
  handle = 1;
  cap = 3;
  head = 2;
  tail = 1;
  release = 0;
  in_global = 1;
  overload = 0;
  overload_threshold = 1024;
  queue = some (message 5) ∷ none ∷ some (message 4) ∷ [];
}

wrapped-IsValid : IsValid wrapped
wrapped-IsValid = omega arith

wrapped-Holds : Holds wrapped (message 4 ∷ message 5 ∷ [])
unfolding mq_length cells
wrapped-Holds = refl

abbrev script : List Call
script = sends (message 6) ∷ receives ∷ receives ∷ receives ∷ receives ∷ []

-- The third message fills the ring, which doubles.
push_doubles : (push wrapped (message 6)).0.cap ≡ 6
unfolding push put grow wake expand_queue
push_doubles = refl

run-wrapped :
    run wrapped script
    ≡ (0, some (message 4)) ∷ (0, some (message 5)) ∷ (0, some (message 6)) ∷ (1, none) ∷ []
unfolding run push pop put grow wake expand_queue cells watch_overload raise_threshold
    length_between advance_head
run-wrapped = refl

run_refines_example : run wrapped script ≡ spec_run (message 4 ∷ message 5 ∷ []) script
run_refines_example =
    run_refines script wrapped (message 4 ∷ message 5 ∷ []) wrapped-IsValid wrapped-Holds

create_lem_example : IsValid (create 9) × Holds (create 9) []
create_lem_example = create_lem 9

drop_queue_lem_example : drop_queue (mq_length wrapped + 1) wrapped ≡ contents wrapped
drop_queue_lem_example = drop_queue_lem wrapped wrapped-IsValid

-- One message is left where the threshold is 0 below it.
abbrev crowded : MessageQueue
crowded = record wrapped {
  overload_threshold = 1;
  cap = 4;
  tail = 1;
  queue = some (message 5) ∷ none ∷ some (message 4) ∷ some (message 7) ∷ [];
}

crowded_overload : (pop crowded).2.overload ≡ 2
unfolding pop watch_overload raise_threshold length_between advance_head
crowded_overload = refl

pop_overload_example :
    let q' = (pop crowded).2 in
    Doubled crowded.overload_threshold (mq_length q') q'.overload_threshold
    × (q'.overload ≡ (
        if ltb crowded.overload_threshold (mq_length q') then mq_length q' else crowded.overload))
pop_overload_example = pop_overload crowded (omega arith) (omega arith)

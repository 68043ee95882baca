-- ===== src/Monitor/Tests.antt =====
-- A monitor at a worker that ends one message and starts another.
use skynet_gameserver.Prelude.{◌≡◌, [], ◌∷◌, ◌++◌, ◌-◌, ◌^◌, arith, List, refl, some}
use skynet_gameserver.Monitor.{Monitor, check, Store, source_is, destination_is, trigger}
use skynet_gameserver.Monitor.Endless.{check_lem, stores, report}

abbrev busy : Monitor
busy = record { version = 2 ^ 32 - 1; check_version = 3; source = 5; destination = 6 }

-- The worker ends its message, and has begun to announce the next one.
abbrev ends_and_begins : List Store
ends_and_begins = trigger 0 0 ++ source_is 5 ∷ destination_is 7 ∷ []

check_lem_example : (check (stores (check busy).1 ends_and_begins)).0 ≡ report busy ends_and_begins
unfolding trigger
check_lem_example = check_lem busy ends_and_begins (omega arith) (omega arith)

-- A check in the middle of a call reports the message that is about to begin.
reported_early : report busy (source_is 5 ∷ destination_is 7 ∷ []) ≡ some (5, 7)
reported_early = refl

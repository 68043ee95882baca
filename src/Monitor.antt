-- ===== src/Monitor.antt =====
-- skynet/skynet-src/skynet_monitor.c: a worker thread counts up a version whenever it starts or ends
-- a message, and the monitor thread compares it with the version of its last visit.
pub mod Endless
mod Tests
use skynet_gameserver.Prelude.{
  ℕ, ◌+◌, ◌%◌, ◌^◌, Option, none, some, List, [], ◌∷◌, ◌==◌, if◌then◌else◌,
}

-- `version` and `check_version` are `int`s, as their 32 bits.
pub record Monitor : Type 0 where
  pub version : ℕ
  pub check_version : ℕ
  pub source : ℕ
  pub destination : ℕ

-- `skynet_monitor_new`
unfoldable pub new : Monitor
new = record { version = 0; check_version = 0; source = 0; destination = 0 }

-- The three stores of `skynet_monitor_trigger`, which takes no lock: another thread may check between
-- them.
pub data Store : Type 0 where
  source_is destination_is : ℕ → Store
  version_up : Store

unfoldable pub store : Monitor → Store → Monitor
store sm (source_is source) = record sm { source = source }
store sm (destination_is destination) = record sm { destination = destination }
store sm version_up = record sm { version = (sm.version + 1) % 2 ^ 32 }

-- `skynet_monitor_trigger`, as its stores
unfoldable pub trigger : ℕ → ℕ → List Store
trigger source destination = source_is source ∷ destination_is destination ∷ version_up ∷ []

-- `skynet_monitor_check`: the source and the destination of the message that it reports, and the
-- monitor.
unfoldable pub check : Monitor → Option (ℕ × ℕ) × Monitor
check sm =
    if sm.version == sm.check_version
    then ((if sm.destination == 0 then none else some (sm.source, sm.destination)), sm)
    else (none, record sm { check_version = sm.version })

-- ===== src/Handles/Register.antt =====
-- `skynet_handle_register`: a new service gets a handle of its own.
use skynet_gameserver.Prelude.{
  ℕ, ◌+◌, ◌-◌, ◌*◌, ◌^◌, ◌<◌, ◌≤◌, ◌≡◌, ◌≢◌, Option, none, some, ◌==◌, if◌then◌else◌, at,
}
use skynet_gameserver.Handles.{
  Slots, handle_mask, register, Outcome, registered, table_full, grab_handle,
}
use skynet_gameserver.Handles.Table.{IsTable}
use skynet_gameserver.Handles.Search.{AllTaken}

-- The handle is not 0, of this harbor, and no service had it. The new service is found by it, all the
-- others by the handles they had, and the table stays well formed.
pub record Registers (s : Slots) (handles : ℕ → ℕ) (ctx h : ℕ) (s' : Slots) : Type 0 where
  pub positive : 0 < h
  pub own_harbor : (s.harbor < h) × (h ≤ s.harbor + handle_mask)
  pub fresh : grab_handle s handles h ≡ none
  pub table : IsTable s' (at handles ctx h)
  pub found :
      (x : ℕ)
      → grab_handle s' (at handles ctx h) x ≡ (if h == x then some ctx else grab_handle s handles x)

-- Registered, or a table with the same services, in which the search of a slot goes over all handles,
-- has a service in the slot of each.
pub data Registering (s : Slots) (handles : ℕ → ℕ) (ctx : ℕ) : Option Outcome → Type 0 where
  registers :
      (h : ℕ) (s' : Slots)
      → Registers s handles ctx h s'
      → Registering s handles ctx (some (registered h s'))
  fills :
      (s' : Slots)
      → handle_mask < s'.slot_size * 2 - 1
      → AllTaken s'
      → ((h : ℕ) → grab_handle s' handles h ≡ grab_handle s handles h)
      → Registering s handles ctx (some table_full)

-- A service that is not in the table.
abbrev pub IsAbsent : Slots → ℕ → Type 0
IsAbsent s ctx = (i : ℕ) → s.slot i ≢ some ctx

abbrev Registers-by : ℕ → (ℕ → ℕ) → ℕ → Type 0
Registers-by fuel handles ctx =
    (s : Slots)
    → IsTable s handles
    → IsAbsent s ctx
    → 2 ^ 25 ≤ s.slot_size * 2 ^ fuel
    → Registering s handles ctx (register fuel s handles ctx)

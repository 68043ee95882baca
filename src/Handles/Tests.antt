-- ===== src/Handles/Tests.antt =====
-- The slots of four services, and a fifth for which the table doubles.
use skynet_gameserver.Prelude.{ℕ, zero, suc, ◌%◌, ◌≡◌, ◌≢◌, refl, Option, none, some, arith}
use skynet_gameserver.Handles.{Slots, grab_handle, retire_slot, retire_all}
use skynet_gameserver.Handles.Table.{IsTable}
use skynet_gameserver.Handles.Retire.{Retired, retire_slot-Retired, Cleared, retire_all-Cleared}

-- Service `c` has the handle `c`.
abbrev four_slots : ℕ → Option ℕ
four_slots zero = some 4
four_slots (suc zero) = some 1
four_slots (suc (suc zero)) = some 2
four_slots (suc (suc (suc zero))) = some 3
four_slots _ = none

abbrev four : Slots
four = record { harbor = 0; handle_index = 5; slot_size = 4; slot = four_slots }

abbrev own : ℕ → ℕ
own c = c

four-IsTable : IsTable four own
four-IsTable = record {
  bits = 2;
  sized = refl;
  bound = omega arith;
  harbor_high = refl;
  index_pos = omega arith;
  placed = placed;
}
  where
    placed : (i ctx : ℕ) → four_slots i ≡ some ctx → own ctx % 4 ≡ i
    placed zero ctx e = ground arith
    placed (suc zero) ctx e = ground arith
    placed (suc (suc zero)) ctx e = ground arith
    placed (suc (suc (suc zero))) ctx e = ground arith
    placed (suc (suc (suc (suc i)))) ctx e = absurd (cc)

retire_slot-Retired_example :
    ((retire_slot four own 3).0 ≡ grab_handle four own 3)
    × Retired four own 3 (retire_slot four own 3).1
retire_slot-Retired_example = retire_slot-Retired four own 3 four-IsTable

retire_all-Cleared_example :
    (s' : Slots) × (retire_all 2 four own ≡ some s') × Cleared four own 4 s'
retire_all-Cleared_example = retire_all-Cleared 2 four own four-IsTable positive (omega arith)
  where
    positive : (i ctx : ℕ) → four_slots i ≡ some ctx → own ctx ≢ 0
    positive zero ctx e = ground arith
    positive (suc zero) ctx e = ground arith
    positive (suc (suc zero)) ctx e = ground arith
    positive (suc (suc (suc zero))) ctx e = ground arith
    positive (suc (suc (suc (suc i)))) ctx e = absurd (cc)

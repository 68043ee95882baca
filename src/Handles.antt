-- ===== src/Handles.antt =====
-- skynet/skynet-src/skynet_handle.c, the slots of services: a table indexed by the low bits of a
-- handle, which doubles when it is full. A service is a number (the address of its context), and
-- `handles` is the field `handle` of each context. The lock makes each call one step. The size of the
-- table is a power of 2, so that `h & (slot_size-1)` is a remainder. The names are in Names.
pub mod Table
pub mod Rehash
pub mod Search
pub mod Register
pub mod Retire
mod Tests
use skynet_gameserver.Prelude.{
  ℕ, zero, suc, ◌+◌, ◌-◌, ◌*◌, ◌%◌, ◌^◌, Bool, true, false, Option, none, some, ltb, leb, ◌==◌,
  if◌then◌else◌, at,
}

-- `harbor` stands in the bits above those of `handle_mask`.
pub record Slots : Type 0 where
  pub harbor : ℕ
  pub handle_index : ℕ
  pub slot_size : ℕ
  pub slot : ℕ → Option ℕ

abbrev pub handle_mask : ℕ
handle_mask = 0xffffff

-- `skynet_handle_init`
unfoldable pub init : ℕ → Slots
init harbor = record {
  harbor = harbor % 2 ^ 8 * 2 ^ 24;
  handle_index = 1;
  slot_size = 4;
  slot = λ i. none;
}

abbrev pub is_free : Option ℕ → Bool
is_free none = true
is_free (some ctx) = false

-- The `for` of `skynet_handle_register`, with the rounds that are left: the handle with a free slot.
-- The handle 0 is reserved.
unfoldable pub find_free : Slots → ℕ → ℕ → Option ℕ
find_free s zero handle = none
find_free s (suc rounds) handle =
    let h = if ltb handle_mask handle then 1 else handle in
    let rest = find_free s rounds (h + 1) in
    if is_free (s.slot (h % s.slot_size)) then some h else rest

-- One slot of the old table goes to the new one; `none` is the failed assertion that its place is free.
abbrev pub move_slot : (ℕ → ℕ) → ℕ → Option ℕ → (ℕ → Option ℕ) → Option (ℕ → Option ℕ)
move_slot handles size none new = some new
move_slot handles size (some ctx) new =
    let hash = handles ctx % size in
    if is_free (new hash) then some (at new hash (some ctx)) else none

abbrev pub and_move : (ℕ → ℕ) → ℕ → Option ℕ → Option (ℕ → Option ℕ) → Option (ℕ → Option ℕ)
and_move handles size old none = none
and_move handles size old (some new) = move_slot handles size old new

-- The slots below `n` in a new table of twice the size.
unfoldable pub rehash : Slots → (ℕ → ℕ) → ℕ → Option (ℕ → Option ℕ)
rehash s handles zero = some (λ i. none)
rehash s handles (suc n) = and_move handles (s.slot_size * 2) (s.slot n) (rehash s handles n)

-- What `skynet_handle_register` comes to: a handle, or a failed assertion.
pub data Outcome : Type 0 where
  registered : ℕ → Slots → Outcome
  table_full : Outcome
  place_taken : Outcome

abbrev pub doubled : Slots → Option (ℕ → Option ℕ) → Option Slots
doubled s none = none
doubled s (some new) = some (record s { slot = new; slot_size = s.slot_size * 2 })

-- `skynet_handle_register`; `none` is a lack of fuel.
unfoldable pub register : ℕ → Slots → (ℕ → ℕ) → ℕ → Option Outcome
register zero s handles ctx = none
register (suc fuel) s handles ctx = elim (find_free s s.slot_size s.handle_index) [
  | some h ↦ some (
      registered (h + s.harbor)
        (record s { slot = at s.slot (h % s.slot_size) (some ctx); handle_index = h + 1 }))
  | none ↦
      if leb (s.slot_size * 2 - 1) handle_mask
      then elim (doubled s (rehash s handles s.slot_size)) [
        | none ↦ some place_taken
        | some s' ↦ register fuel s' handles ctx
      ]
      else some table_full
]

-- The service of a handle among the contents of its slot.
abbrev pub owner : (ℕ → ℕ) → ℕ → Option ℕ → Option ℕ
owner handles handle none = none
owner handles handle (some ctx) = if handles ctx == handle then some ctx else none

-- `skynet_handle_grab`, without the count of the reference, which is in Scheduler.
unfoldable pub grab_handle : Slots → (ℕ → ℕ) → ℕ → Option ℕ
grab_handle s handles handle = owner handles handle (s.slot (handle % s.slot_size))

-- `skynet_handle_retire`: the service whose reference it drops, and the slots.
unfoldable pub retire_slot : Slots → (ℕ → ℕ) → ℕ → Option ℕ × Slots
retire_slot s handles handle = elim (grab_handle s handles handle) [
  | none ↦ (none, s)
  | some ctx ↦ (some ctx, record s { slot = at s.slot (handle % s.slot_size) none })
]

abbrev pub retire_owner : Slots → (ℕ → ℕ) → Option ℕ → Slots
retire_owner s handles none = s
retire_owner s handles (some ctx) =
    if handles ctx == 0 then s else (retire_slot s handles (handles ctx)).1

abbrev pub occupied : Option ℕ → ℕ
occupied none = 0
occupied (some ctx) = 1

-- One round of `skynet_handle_retireall`, over the slots below `n`: its counter `n`, and the slots.
unfoldable pub retire_round : Slots → (ℕ → ℕ) → ℕ → ℕ × Slots
retire_round s handles zero = (0, s)
retire_round s handles (suc n) =
    let (k, s') = retire_round s handles n in
    (k + occupied (s'.slot n), retire_owner s' handles (s'.slot n))

-- `skynet_handle_retireall`, with no other thread registering a service; `none` is a lack of fuel.
unfoldable pub retire_all : ℕ → Slots → (ℕ → ℕ) → Option Slots
retire_all zero s handles = none
retire_all (suc fuel) s handles =
    let (k, s') = retire_round s handles s.slot_size in
    let rest = retire_all fuel s' handles in if k == 0 then some s' else rest

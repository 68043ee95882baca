-- ===== src/Names.antt =====
-- skynet/skynet-src/skynet_handle.c, the names of services: an array kept sorted by `strcmp`, with
-- binary search. A name is the bytes before its final 0. The write lock makes each call one step.
pub mod Order
pub mod Search
pub mod Lookup
pub mod Insert
pub mod Retire
mod Tests
use skynet_gameserver.Prelude.{
  ℕ, zero, suc, ◌+◌, ◌-◌, ◌*◌, ◌/◌, ◌^◌, Bool, Option, none, some, List, [], ◌∷◌, ◌++◌, ltb, leb,
  ◌==◌, if◌then◌else◌, length, get_or, take, drop,
}
use Prim.Native.Nat.{Ordering, compare}

abbrev pub Name : Type 0
Name = List ℕ

-- The sign of `strcmp`.
unfoldable pub strcmp : Name → Name → Ordering
strcmp [] [] = Ordering.eq
strcmp [] (b ∷ bs) = Ordering.lt
strcmp (a ∷ as') [] = Ordering.gt
strcmp (a ∷ as') (b ∷ bs) =
    let rest = strcmp as' bs in
    elim (compare a b) [
      | Ordering.lt ↦ Ordering.lt
      | Ordering.gt ↦ Ordering.gt
      | Ordering.eq ↦ rest
    ]

pub record HandleName : Type 0 where
  pub name : Name
  pub handle : ℕ

-- `name_count` is the length of `name`.
pub record Names : Type 0 where
  pub name_cap : ℕ
  pub name : List HandleName

abbrev pub max_slot_size : ℕ
max_slot_size = 0x40000000

abbrev pub no_name : HandleName
no_name = record { name = []; handle = 0 }

-- Where the search ends: at an entry of the name, or at the place where it belongs.
pub data Found : Type 0 where
  hit : HandleName → Found
  miss : ℕ → Found

-- `while (begin<=end)`: `stop` is `end + 1`, which does not fall below 0. The fuel `stop - begin` is
-- enough.
unfoldable pub search_name : ℕ → List HandleName → Name → ℕ → ℕ → Found
search_name zero t name begin stop = miss begin
search_name (suc fuel) t name begin stop =
    let mid = (begin + (stop - 1)) / 2 in
    let n = get_or t mid no_name in
    let above = search_name fuel t name (mid + 1) stop in
    let below = search_name fuel t name begin mid in
    if leb stop begin then miss begin else elim (strcmp n.name name) [
      | Ordering.eq ↦ hit n
      | Ordering.lt ↦ above
      | Ordering.gt ↦ below
    ]

abbrev pub search_all : Names → Name → Found
search_all s name = search_name (length s.name) s.name name 0 (length s.name)

-- `skynet_handle_findname`
unfoldable pub findname : Names → Name → ℕ
findname s name = elim (search_all s name) [ hit n ↦ n.handle | miss i ↦ 0 ]

-- `_insert_name_before`: both branches move the entries from `before` on up by one; `none` is the
-- failed assertion on the capacity.
unfoldable pub insert_name_before : Names → Name → ℕ → ℕ → Option Names
insert_name_before s name handle before =
    let moved =
      take before s.name ++ (record { name = name; handle = handle } ∷ drop before s.name) in
    let cap = s.name_cap * 2 in
    if leb s.name_cap (length s.name)
    then (if leb cap max_slot_size then some (record { name_cap = cap; name = moved }) else none)
    else some (record s { name = moved })

-- `_insert_name`, from `skynet_handle_namehandle`: whether the name was free, and the names.
unfoldable pub insert_name : Names → Name → ℕ → Option (Bool × Names)
insert_name s name handle = elim (search_all s name) [
  | hit n ↦ some (Bool.false, s)
  | miss i ↦ elim (insert_name_before s name handle i) [
    | none ↦ none
    | some s' ↦ some (Bool.true, s')
  ]
]

remove_handle : List HandleName → ℕ → List HandleName
remove_handle [] handle = []
remove_handle (n ∷ t) handle =
    if n.handle == handle then remove_handle t handle else n ∷ remove_handle t handle

-- The loop of `skynet_handle_retire` over the names.
unfoldable pub retire_names : Names → ℕ → Names
unfolding remove_handle
retire_names s handle = record s { name = remove_handle s.name handle }

-- The names of `skynet_handle_init`.
unfoldable pub init_names : Names
init_names = record { name_cap = 2; name = [] }

-- ===== src/HashId.antt =====
-- skynet/service-src/hashid.h: a hash table with chains that gives each id (a socket) the index of a
-- node; the gate keeps its connections at these indices. The chain from `hash[h]` on, through `next`,
-- is the list of its node indices, and a node that is not in use has no id (-1 in the source).
-- The size of `hash` is a power of 2, so that `id & hashmod` is a remainder by `hashmod + 1`.
pub mod Chain
pub mod Scan
pub mod Map
pub mod Insert
pub mod Remove
pub mod Size
mod Tests
use skynet_gameserver.Prelude.{
  ℕ, zero, suc, ◌+◌, ◌-◌, ◌*◌, ◌%◌, ◌^◌, Bool, true, false, Option, none, some, List, [], ◌∷◌, ltb,
  ◌==◌, if◌then◌else◌, at,
}

pub record HashId : Type 0 where
  pub hashmod : ℕ
  pub cap : ℕ
  pub count : ℕ
  pub id : ℕ → Option ℕ
  pub hash : ℕ → List ℕ

-- `while (hashcap < max) hashcap *= 2`. A round adds at least one, so the fuel `max` is enough.
unfoldable pub double_until : ℕ → ℕ → ℕ → ℕ
double_until zero hashcap max = hashcap
double_until (suc fuel) hashcap max =
    let rest = double_until fuel (hashcap * 2) max in if ltb hashcap max then rest else hashcap

-- `hashid_init`
unfoldable pub init : ℕ → HashId
init max = record {
  hashmod = double_until max 16 max - 1;
  cap = max;
  count = 0;
  id = λ i. none;
  hash = λ h. [];
}

-- `hi->id[c].id == id`
abbrev pub is_id : Option ℕ → ℕ → Bool
is_id none id = false
is_id (some x) id = x == id

-- `while (c) { if (c->id == id) return …; c = c->next; }`
unfoldable pub find : (ℕ → Option ℕ) → List ℕ → ℕ → Option ℕ
find ids [] id = none
find ids (c ∷ next) id = let rest = find ids next id in if is_id (ids c) id then some c else rest

-- The chain without the first node of the id.
unfoldable pub unlink : (ℕ → Option ℕ) → List ℕ → ℕ → List ℕ
unlink ids [] id = []
unlink ids (c ∷ next) id = if is_id (ids c) id then next else c ∷ unlink ids next id

-- `hashid_lookup`; `none` is -1.
unfoldable pub lookup : HashId → ℕ → Option ℕ
lookup hi id = find hi.id (hi.hash (id % (hi.hashmod + 1))) id

-- `hashid_remove`
unfoldable pub remove : HashId → ℕ → Option ℕ × HashId
remove hi id =
    let h = id % (hi.hashmod + 1) in
    elim (lookup hi id) [
      | none ↦ (none, hi)
      | some c ↦ (
        some c,
        record hi {
          id = at hi.id c none;
          hash = at hi.hash h (unlink hi.id (hi.hash h) id);
          count = hi.count - 1;
        },
      )
    ]

abbrev pub in_use : Option ℕ → Bool
in_use none = false
in_use (some id) = true

-- The `for` of `hashid_insert`, from `i` on with `rounds` left: a node that is not in use. Where the
-- `int` `i + id` overflows, the index is negative or the behaviour undefined: `none`.
unfoldable pub free_node : HashId → ℕ → ℕ → ℕ → Option ℕ
free_node hi id i zero = none
free_node hi id i (suc rounds) =
    let index = (i + id) % hi.cap in
    let rest = free_node hi id (i + 1) rounds in
    if ltb (i + id) (2 ^ 31) then (if in_use (hi.id index) then rest else some index) else none

-- `hashid_insert`; `none` is the failed assertion that a node was found, or an overflow. Its assertion
-- `c->next == NULL` says of a node that is not in use that it stands in no chain, since a chain here is
-- the list of its nodes; `IsMap` in Map has it as `free_out`.
unfoldable pub insert : HashId → ℕ → Option (ℕ × HashId)
insert hi id =
    let h = id % (hi.hashmod + 1) in
    elim (free_node hi id 0 hi.cap) [
      | none ↦ none
      | some c ↦ some (
        c,
        record hi {
          count = hi.count + 1;
          id = at hi.id c (some id);
          hash = at hi.hash h (c ∷ hi.hash h);
        },
      )
    ]

-- `hashid_full`
unfoldable pub full : HashId → Bool
full hi = hi.count == hi.cap

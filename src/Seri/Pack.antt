-- ===== src/Seri/Pack.antt =====
-- `luaseri_pack`.
use skynet_gameserver.Prelude.{
  ℕ, ◌+◌, ◌-◌, ◌*◌, ◌%◌, ◌^◌, Bool, true, false, not, Option, none, some, List, [], ◌∷◌, ltb, leb,
  ◌==◌, if◌then◌else◌, length,
}
use skynet_gameserver.Seri.Blocks.{WriteBlock, wb_init, wb_push, pushes, seri, le_bytes}
use skynet_gameserver.Seri.Value.{
  Value, nil, boolean, integer, real, pointer, string, table, paired, unsupported, Items, no_item,
  item, Pairs, no_pair, pair, rawlen, in_array,
}

abbrev pub max_cookie : ℕ
max_cookie = 32

abbrev pub max_depth : ℕ
max_depth = 32

-- `COMBINE_TYPE`, as the byte that it is stored in.
abbrev pub combine_type : ℕ → ℕ → ℕ
combine_type t v = (t + v * 8) % 256

-- `(int32_t)v` as a `lua_Integer`
unfoldable pub to_int32 : ℕ → ℕ
to_int32 v = let low = v % 2 ^ 32 in if ltb low (2 ^ 31) then low else low + (2 ^ 64 - 2 ^ 32)

-- The calls of `wb_push` in `wb_boolean`, `wb_integer`, `wb_real`, `wb_pointer` and `wb_string`.
unfoldable pub boolean_pushes : Bool → List (List ℕ)
boolean_pushes false = (combine_type 1 0 ∷ []) ∷ []
boolean_pushes true = (combine_type 1 1 ∷ []) ∷ []

unfoldable pub integer_pushes : ℕ → List (List ℕ)
integer_pushes v =
    if v == 0
    then (combine_type 2 0 ∷ []) ∷ []
    else (if not (v == to_int32 v)
        then (combine_type 2 6 ∷ []) ∷ le_bytes 8 v ∷ []
        else (if leb (2 ^ 63) v
            then (combine_type 2 4 ∷ []) ∷ le_bytes 4 v ∷ []
            else (if ltb v 0x100
                then (combine_type 2 1 ∷ []) ∷ le_bytes 1 v ∷ []
                else (if ltb v 0x10000
                    then (combine_type 2 2 ∷ []) ∷ le_bytes 2 v ∷ []
                    else (combine_type 2 4 ∷ []) ∷ le_bytes 4 v ∷ []))))

abbrev pub real_pushes : ℕ → List (List ℕ)
real_pushes v = (combine_type 2 8 ∷ []) ∷ le_bytes 8 v ∷ []

abbrev pub pointer_pushes : ℕ → List (List ℕ)
pointer_pushes v = (combine_type 3 0 ∷ []) ∷ le_bytes 8 v ∷ []

-- `len` is an `int`; where it is negative only the first byte is written.
unfoldable pub string_pushes : List ℕ → List (List ℕ)
string_pushes str =
    let len = length str % 2 ^ 32 in
    if leb (2 ^ 31) len
    then (combine_type 4 len ∷ []) ∷ []
    else (if ltb len max_cookie
        then (if len == 0
            then (combine_type 4 len ∷ []) ∷ []
            else (combine_type 4 len ∷ []) ∷ str ∷ [])
        else (if ltb len 0x10000
            then (combine_type 5 2 ∷ []) ∷ le_bytes 2 len ∷ str ∷ []
            else (combine_type 5 4 ∷ []) ∷ le_bytes 4 len ∷ str ∷ []))

-- The start of `wb_table_array`.
unfoldable pub array_pushes : ℕ → List (List ℕ)
array_pushes array_size =
    if leb (max_cookie - 1) array_size
    then (combine_type 6 (max_cookie - 1) ∷ []) ∷ integer_pushes array_size
    else (combine_type 6 array_size ∷ []) ∷ []

abbrev pub then_pack {ℓ} : {A : Type ℓ} → Option A → (A → Option A) → Option A
then_pack none next = none
then_pack (some wb) next = next wb

-- `wb_nil` at the end of a table.
abbrev pub end_table : WriteBlock → Option WriteBlock
end_table wb = some (wb_push wb (0 ∷ []))

-- `pack_one`, with `wb_table` and its parts: `pack_items` is the loop of `wb_table_array`, `pack_pairs`
-- the loops of `wb_table_hash` and, for an `array_size` of 0, of `wb_table_metapairs`. `none` is a Lua
-- error.
unfoldable mutual
  pub pack_one : Value → ℕ → WriteBlock → Option WriteBlock
  pack_one nil depth wb = if ltb max_depth depth then none else some (wb_push wb (0 ∷ []))
  pack_one (boolean b) depth wb =
      if ltb max_depth depth then none else some (pushes wb (boolean_pushes b))
  pack_one (integer v) depth wb =
      if ltb max_depth depth then none else some (pushes wb (integer_pushes v))
  pack_one (real v) depth wb =
      if ltb max_depth depth then none else some (pushes wb (real_pushes v))
  pack_one (pointer v) depth wb =
      if ltb max_depth depth then none else some (pushes wb (pointer_pushes v))
  pack_one (string s) depth wb =
      if ltb max_depth depth then none else some (pushes wb (string_pushes s))
  pack_one (table vs ps) depth wb =
      let packed =
        then_pack (pack_items vs (depth + 1) (pushes wb (array_pushes (rawlen vs))))
          (λ wb. then_pack (pack_pairs ps (rawlen vs) (depth + 1) wb) end_table) in
      if ltb max_depth depth then none else packed
  pack_one (paired ps ended) depth wb =
      let packed =
        then_pack (pack_pairs ps 0 (depth + 1) (wb_push wb (combine_type 6 0 ∷ [])))
          (λ wb. if ended then end_table wb else none) in
      if ltb max_depth depth then none else packed
  pack_one unsupported depth wb = none

  pub pack_items : Items → ℕ → WriteBlock → Option WriteBlock
  pack_items no_item depth wb = some wb
  pack_items (item v vs) depth wb = then_pack (pack_one v depth wb) (λ wb. pack_items vs depth wb)

  pub pack_pairs : Pairs → ℕ → ℕ → WriteBlock → Option WriteBlock
  pack_pairs no_pair array_size depth wb = some wb
  pack_pairs (pair k v ps) array_size depth wb =
      let both =
        then_pack (pack_one k depth wb)
          (λ wb. then_pack (pack_one v depth wb) (λ wb. pack_pairs ps array_size depth wb)) in
      let skipped = pack_pairs ps array_size depth wb in
      if in_array k array_size then skipped else both

-- `pack_from`
unfoldable pub pack_from : List Value → WriteBlock → Option WriteBlock
pack_from [] wb = some wb
pack_from (v ∷ vs) wb = then_pack (pack_one v 0 wb) (λ wb. pack_from vs wb)

abbrev pub to_bytes : Option WriteBlock → Option (List ℕ)
to_bytes none = none
to_bytes (some wb) = some (seri wb)

-- `luaseri_pack`
unfoldable pub luaseri_pack : List Value → Option (List ℕ)
luaseri_pack vs = to_bytes (pack_from vs wb_init)

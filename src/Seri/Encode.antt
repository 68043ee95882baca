-- ===== src/Seri/Encode.antt =====
-- What the bytes of a value are, which values can be packed, and what is read back.
use skynet_gameserver.Prelude.{
  ℕ, ◌+◌, ◌^◌, ◌<◌, ◌≡◌, Bool, true, false, ◌&&◌, List, [], ◌∷◌, ◌++◌, leb, if◌then◌else◌, length,
  concat,
}
use skynet_gameserver.Seri.Value.{
  Value, nil, boolean, integer, real, pointer, string, table, paired, unsupported, Items, no_item,
  item, Pairs, no_pair, pair, rawlen, in_array, is_nan,
}
use skynet_gameserver.Seri.Pack.{
  combine_type, max_depth, boolean_pushes, integer_pushes, real_pushes, pointer_pushes,
  string_pushes, array_pushes,
}

unfoldable mutual
  pub encode : Value → List ℕ
  encode nil = 0 ∷ []
  encode (boolean b) = concat (boolean_pushes b)
  encode (integer v) = concat (integer_pushes v)
  encode (real v) = concat (real_pushes v)
  encode (pointer v) = concat (pointer_pushes v)
  encode (string s) = concat (string_pushes s)
  encode (table vs ps) =
      concat (array_pushes (rawlen vs))
      ++ (encode_items vs ++ (encode_pairs ps (rawlen vs) ++ 0 ∷ []))
  encode (paired ps ended) = (combine_type 6 0 ∷ []) ++ (encode_pairs ps 0 ++ 0 ∷ [])
  encode unsupported = []

  pub encode_items : Items → List ℕ
  encode_items no_item = []
  encode_items (item v vs) = encode v ++ encode_items vs

  pub encode_pairs : Pairs → ℕ → List ℕ
  encode_pairs no_pair array_size = []
  encode_pairs (pair k v ps) array_size =
      let rest = encode_pairs ps array_size in
      if in_array k array_size then rest else encode k ++ (encode v ++ rest)

unfoldable pub encode_all : List Value → List ℕ
encode_all [] = []
encode_all (v ∷ vs) = encode v ++ encode_all vs

-- Values at depth 32 or less, of types that can be packed, whose iterators end.
unfoldable mutual
  pub packable : Value → ℕ → Bool
  packable nil depth = leb depth max_depth
  packable (boolean b) depth = leb depth max_depth
  packable (integer v) depth = leb depth max_depth
  packable (real v) depth = leb depth max_depth
  packable (pointer v) depth = leb depth max_depth
  packable (string s) depth = leb depth max_depth
  packable (table vs ps) depth =
      leb depth max_depth
      && (packable_items vs (depth + 1) && packable_pairs ps (rawlen vs) (depth + 1))
  packable (paired ps ended) depth =
      leb depth max_depth && (packable_pairs ps 0 (depth + 1) && ended)
  packable unsupported depth = false

  pub packable_items : Items → ℕ → Bool
  packable_items no_item depth = true
  packable_items (item v vs) depth = packable v depth && packable_items vs depth

  pub packable_pairs : Pairs → ℕ → ℕ → Bool
  packable_pairs no_pair array_size depth = true
  packable_pairs (pair k v ps) array_size depth =
      let rest = packable_pairs ps array_size depth in
      if in_array k array_size then rest else packable k depth && (packable v depth && rest)

unfoldable pub packable_all : List Value → Bool
packable_all [] = true
packable_all (v ∷ vs) = packable v 0 && packable_all vs

-- What is read back: the array is set first, and then each pair that does not stand in it.
unfoldable mutual
  pub image : Value → Value
  image nil = nil
  image (boolean b) = boolean b
  image (integer v) = integer v
  image (real v) = real v
  image (pointer v) = pointer v
  image (string s) = string s
  image (table vs ps) = table (image_items vs) (image_pairs ps (rawlen vs))
  image (paired ps ended) = table no_item (image_pairs ps 0)
  image unsupported = unsupported

  pub image_items : Items → Items
  image_items no_item = no_item
  image_items (item v vs) = item (image v) (image_items vs)

  pub image_pairs : Pairs → ℕ → Pairs
  image_pairs no_pair array_size = no_pair
  image_pairs (pair k v ps) array_size =
      let rest = image_pairs ps array_size in
      if in_array k array_size then rest else pair (image k) (image v) rest

unfoldable pub image_all : List Value → List Value
image_all [] = []
image_all (v ∷ vs) = image v ∷ image_all vs

abbrev pub IsKey : Value → Type 0
IsKey nil = ⊥
IsKey (real x) = is_nan (real x) ≡ false
IsKey (boolean b) = Unit {0}
IsKey (integer x) = Unit {0}
IsKey (pointer x) = Unit {0}
IsKey (string s) = Unit {0}
IsKey (table vs ps) = Unit {0}
IsKey (paired ps ended) = Unit {0}
IsKey unsupported = Unit {0}

-- Values as Lua has them: numbers of 64 bits, keys that are not nil nor NaN, and less than 2^31 bytes
-- and elements.
abbrev mutual
  pub IsValue : Value → Type 0
  IsValue nil = Unit {0}
  IsValue (boolean b) = Unit {0}
  IsValue (integer v) = v < 2 ^ 64
  IsValue (real v) = v < 2 ^ 64
  IsValue (pointer v) = v < 2 ^ 64
  IsValue (string s) = length s < 2 ^ 31
  IsValue (table vs ps) = (rawlen vs < 2 ^ 31) × AreItems vs × ArePairs ps
  IsValue (paired ps ended) = ArePairs ps
  IsValue unsupported = ⊥

  pub AreItems : Items → Type 0
  AreItems no_item = Unit {0}
  AreItems (item v vs) = IsValue v × AreItems vs

  pub ArePairs : Pairs → Type 0
  ArePairs no_pair = Unit {0}
  ArePairs (pair k v ps) = IsKey k × IsValue k × IsValue v × ArePairs ps

abbrev pub AreValues : List Value → Type 0
AreValues [] = Unit {0}
AreValues (v ∷ vs) = IsValue v × AreValues vs

-- ===== src/Seri/Packing.antt =====
-- `luaseri_pack` writes the bytes of the values, or fails.
use skynet_gameserver.Prelude.{
  ℕ, ◌+◌, ◌≡◌, refl, sym, ap, subst, ◌∙◌, Bool, true, false, Bool-cases, inl, inr, Option, none,
  some, ◌&&◌, List, [], ◌∷◌, ◌++◌, ltb, leb, if◌then◌else◌, concat, arith,
}
use skynet_gameserver.Prelude.Split.{append_assoc, append_nil}
use skynet_gameserver.Seri.Blocks.{WriteBlock, wb_init, wb_push, pushes}
use skynet_gameserver.Seri.Value.{
  Value, nil, boolean, integer, real, pointer, string, table, paired, unsupported, Items, no_item,
  item, Pairs, no_pair, pair, rawlen, in_array,
}
use skynet_gameserver.Seri.Pack.{
  combine_type, max_depth, boolean_pushes, integer_pushes, real_pushes, pointer_pushes,
  string_pushes, array_pushes, then_pack, end_table, pack_one, pack_items, pack_pairs, pack_from,
  to_bytes, luaseri_pack,
}
use skynet_gameserver.Seri.Content.{content, IsValid, wb_push_lem, pushes_lem, seri_lem}
use skynet_gameserver.Seri.Encode.{
  encode, encode_items, encode_pairs, encode_all, packable, packable_items, packable_pairs,
  packable_all,
}

-- The bytes were appended, or there was an error and `fine` is false.
pub data Packs (wb : WriteBlock) (bytes : List ℕ) : Bool → Option WriteBlock → Type 0 where
  written :
      (wb' : WriteBlock)
      → IsValid wb'
      → content wb' ≡ content wb ++ bytes
      → Packs wb bytes true (some wb')
  fails : Packs wb bytes false none

then-Packs :
    (wb : WriteBlock) (bytes bytes' : List ℕ) (fine fine' : Bool) (r : Option WriteBlock)
    (next : WriteBlock → Option WriteBlock)
    → Packs wb bytes fine r
    → ((wb' : WriteBlock) → IsValid wb' → Packs wb' bytes' fine' (next wb'))
    → Packs wb (bytes ++ bytes') (fine && fine') (then_pack r next)
then-Packs wb bytes bytes' _ fine' _ next fails h = fails
then-Packs wb bytes bytes' _ fine' _ next (written wb' v e) h = go fine' (next wb') (h wb' v)
  where
    go : (f : Bool) (r : Option WriteBlock) → Packs wb' bytes' f r → Packs wb (bytes ++ bytes') f r
    go _ _ fails = fails
    go _ _ (written wb₂ v₂ e₂) =
        written wb₂ v₂ (e₂ ∙ ap (λ zs. zs ++ bytes') e ∙ append_assoc (content wb) bytes bytes')

pushes-Packs :
    (wb : WriteBlock) (bs : List (List ℕ))
    → IsValid wb
    → Packs wb (concat bs) true (some (pushes wb bs))
pushes-Packs wb bs v = let p = pushes_lem wb bs v in written (pushes wb bs) p.0 p.1

push-Packs : (wb : WriteBlock) (b : List ℕ) → IsValid wb → Packs wb b true (some (wb_push wb b))
push-Packs wb b v = let p = wb_push_lem wb b v in written (wb_push wb b) p.0 p.1

-- The test of the depth.
at_depth :
    (wb : WriteBlock) (bytes : List ℕ) (fine : Bool) (r : Option WriteBlock) (depth : ℕ)
    → Packs wb bytes fine r
    → Packs wb bytes (leb depth max_depth && fine) (if ltb max_depth depth then none else r)
at_depth wb bytes fine r depth h = elim (Bool-cases (ltb max_depth depth)) [
  | inl e ↦ (let e' : leb depth max_depth ≡ false = ground (arith, e) in rw (e, e') fails)
  | inr e ↦ (let e' : leb depth max_depth ≡ true = ground (arith, e) in rw (e, e') h)
]

plain :
    (wb : WriteBlock) (bs : List (List ℕ)) (depth : ℕ)
    → IsValid wb
    → Packs wb
        (concat bs)
        (leb depth max_depth)
        (if ltb max_depth depth then none else some (pushes wb bs))
plain wb bs depth v = elim (Bool-cases (ltb max_depth depth)) [
  | inl e ↦ (let e' : leb depth max_depth ≡ false = ground (arith, e) in rw (e, e') fails)
  | inr e ↦
      (let e' : leb depth max_depth ≡ true = ground (arith, e) in rw (e, e') (pushes-Packs wb bs v))
]

plain_nil :
    (wb : WriteBlock) (depth : ℕ)
    → IsValid wb
    → Packs wb
        (0 ∷ [])
        (leb depth max_depth)
        (if ltb max_depth depth then none else some (wb_push wb (0 ∷ [])))
plain_nil wb depth v = elim (Bool-cases (ltb max_depth depth)) [
  | inl e ↦ (let e' : leb depth max_depth ≡ false = ground (arith, e) in rw (e, e') fails)
  | inr e ↦
      (let e' : leb depth max_depth ≡ true = ground (arith, e) in
        rw (e, e') (push-Packs wb (0 ∷ []) v))
]

-- A push without a test is a step of its own.
begin-Packs :
    (wb wb' : WriteBlock) (bytes bytes' : List ℕ) (fine : Bool) (r : Option WriteBlock)
    → content wb' ≡ content wb ++ bytes
    → Packs wb' bytes' fine r
    → Packs wb (bytes ++ bytes') fine r
begin-Packs wb wb' bytes bytes' _ _ e fails = fails
begin-Packs wb wb' bytes bytes' _ _ e (written wb₂ v₂ e₂) =
    written wb₂ v₂ (e₂ ∙ ap (λ zs. zs ++ bytes') e ∙ append_assoc (content wb) bytes bytes')

end-Packs :
    (wb : WriteBlock) (ended : Bool)
    → IsValid wb
    → Packs wb (0 ∷ []) ended (if ended then end_table wb else none)
end-Packs wb true v = push-Packs wb (0 ∷ []) v
end-Packs wb false v = fails

and_true : (b : Bool) → (b && true) ≡ b
and_true true = refl
and_true false = refl

-- The nil behind the pairs.
end_pairs :
    (bytes : List ℕ) (fine : Bool) (wb : WriteBlock) (r : Option WriteBlock)
    → Packs wb bytes fine r
    → Packs wb (bytes ++ 0 ∷ []) fine (then_pack r end_table)
end_pairs bytes fine wb r h =
    subst (λ b. Packs wb (bytes ++ 0 ∷ []) b (then_pack r end_table)) (and_true fine)
      (then-Packs wb bytes (0 ∷ []) fine true r end_table h (λ wb₁ v₁. push-Packs wb₁ (0 ∷ []) v₁))

mutual
  unfolding pack_one encode packable

  pack_one-Packs :
      (v : Value) (depth : ℕ) (wb : WriteBlock)
      → IsValid wb
      → Packs wb (encode v) (packable v depth) (pack_one v depth wb)
  pack_one-Packs nil depth wb w = plain_nil wb depth w
  pack_one-Packs (boolean b) depth wb w = plain wb (boolean_pushes b) depth w
  pack_one-Packs (integer v) depth wb w = plain wb (integer_pushes v) depth w
  pack_one-Packs (real v) depth wb w = plain wb (real_pushes v) depth w
  pack_one-Packs (pointer v) depth wb w = plain wb (pointer_pushes v) depth w
  pack_one-Packs (string s) depth wb w = plain wb (string_pushes s) depth w
  pack_one-Packs (table vs ps) depth wb w =
      let p = pushes_lem wb (array_pushes (rawlen vs)) w in
      at_depth wb _ _ _ depth (
        begin-Packs wb (pushes wb (array_pushes (rawlen vs))) _ _ _ _ p.1 (
          then-Packs _ _ _ _ _ _ _ (pack_items-Packs vs (depth + 1) _ p.0)
            (λ wb₁ v₁. end_pairs _ _ wb₁ _ (pack_pairs-Packs ps (rawlen vs) (depth + 1) wb₁ v₁))))
  pack_one-Packs (paired ps ended) depth wb w =
      let p = wb_push_lem wb (combine_type 6 0 ∷ []) w in
      at_depth wb _ _ _ depth (
        begin-Packs wb (wb_push wb (combine_type 6 0 ∷ [])) (combine_type 6 0 ∷ []) _ _ _ p.1 (
          then-Packs _ _ _ _ _ _ _ (pack_pairs-Packs ps 0 (depth + 1) _ p.0)
            (λ wb₁ v₁. end-Packs wb₁ ended v₁)))
  pack_one-Packs unsupported depth wb w = fails

  pack_items-Packs :
      (vs : Items) (depth : ℕ) (wb : WriteBlock)
      → IsValid wb
      → Packs wb (encode_items vs) (packable_items vs depth) (pack_items vs depth wb)
  pack_items-Packs no_item depth wb w = written wb w (sym (append_nil (content wb)))
  pack_items-Packs (item v vs) depth wb w =
      then-Packs wb _ _ _ _ _ _ (pack_one-Packs v depth wb w)
        (λ wb₁ v₁. pack_items-Packs vs depth wb₁ v₁)

  pack_pairs-Packs :
      (ps : Pairs) (array_size depth : ℕ) (wb : WriteBlock)
      → IsValid wb
      → Packs wb
          (encode_pairs ps array_size)
          (packable_pairs ps array_size depth)
          (pack_pairs ps array_size depth wb)
  pack_pairs-Packs no_pair array_size depth wb w = written wb w (sym (append_nil (content wb)))
  pack_pairs-Packs (pair k v ps) array_size depth wb w = elim (Bool-cases (in_array k array_size)) [
    | inl e ↦ rw e (pack_pairs-Packs ps array_size depth wb w)
    | inr e ↦ rw e (
        then-Packs wb _ _ _ _ _ _ (pack_one-Packs k depth wb w) (λ wb₁ v₁.
          then-Packs wb₁ _ _ _ _ _ _ (pack_one-Packs v depth wb₁ v₁)
            (λ wb₂ v₂. pack_pairs-Packs ps array_size depth wb₂ v₂)))
  ]

pack_from-Packs :
    (vs : List Value) (wb : WriteBlock)
    → IsValid wb
    → Packs wb (encode_all vs) (packable_all vs) (pack_from vs wb)
unfolding pack_from encode_all packable_all
pack_from-Packs [] wb w = written wb w (sym (append_nil (content wb)))
pack_from-Packs (v ∷ vs) wb w =
    then-Packs wb _ _ _ _ _ _ (pack_one-Packs v 0 wb w) (λ wb₁ v₁. pack_from-Packs vs wb₁ v₁)

-- `luaseri_pack` gives the bytes of the values, through as many blocks as they need, and fails exactly
-- where a value cannot be packed: its type is not supported, the iterator of its `__pairs` fails, or
-- a value in it stands at a depth above 32.
pub luaseri_pack_lem :
    (vs : List Value) → luaseri_pack vs ≡ (if packable_all vs then some (encode_all vs) else none)
unfolding luaseri_pack content
luaseri_pack_lem vs =
    go (packable_all vs) (pack_from vs wb_init) (pack_from-Packs vs wb_init empty-IsValid)
  where
    empty-IsValid : IsValid wb_init
    empty-IsValid = record { full = tt; fits = omega arith; counted = refl }

    go :
        (fine : Bool) (r : Option WriteBlock)
        → Packs wb_init (encode_all vs) fine r
        → to_bytes r ≡ (if fine then some (encode_all vs) else none)
    go _ _ fails = refl
    go _ _ (written wb v e) = ap some (seri_lem wb v ∙ e)

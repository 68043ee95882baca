-- ===== src/Seri/RoundTrip.antt =====
-- The values that were packed are read back.
use skynet_gameserver.Prelude.{
  ℕ, zero, suc, ◌+◌, ◌*◌, ◌/◌, ◌%◌, ◌≤◌, ◌≡◌, refl, sym, ap, subst, ◌∙◌, true, false, Bool-cases,
  inl, inr, some, List, [], ◌∷◌, ◌++◌, ◌==◌, length, length-append, arith,
}
use skynet_gameserver.Prelude.Split.{append_assoc}
use skynet_gameserver.Seri.Value.{
  Value, nil, boolean, integer, real, pointer, string, table, paired, unsupported, Items, no_item,
  item, Pairs, no_pair, pair, rawlen, in_array, is_nan,
}
use skynet_gameserver.Seri.Pack.{luaseri_pack}
use skynet_gameserver.Seri.Unpack.{
  Read, ok, then_read, get_size, is_nil, unpack_one, push_value, unpack_items, unpack_pairs,
  unpack_all, luaseri_unpack, unpack_on,
}
use skynet_gameserver.Seri.Encode.{
  encode, encode_items, encode_pairs, encode_all, packable_all, image, image_items, image_pairs,
  image_all, IsKey, IsValue, AreItems, ArePairs, AreValues,
}
use skynet_gameserver.Seri.Packing.{luaseri_pack_lem}
use skynet_gameserver.Seri.Reading.{read_byte}
use skynet_gameserver.Seri.Leaves.{
  PlainBytes, nil_bytes, boolean_bytes, number_bytes, real_bytes, pointer_bytes, string_bytes,
  size_bytes,
}

-- A value's first byte, and what is read from the bytes behind it.
record ValueBytes (v : Value) : Type 0 where
  pub first : ℕ
  pub bytes : List ℕ
  pub encoded : encode v ≡ first ∷ bytes
  pub reads :
      (fuel : ℕ) (rest : List ℕ)
      → 3 * length (bytes ++ rest) + 3 ≤ fuel
      → push_value fuel (bytes ++ rest) (first % 8) (first / 8) ≡ ok (image v) rest

then_ok {ℓ κ} :
    {A : Type ℓ} {B : Type κ} {r : Read A} {a : A} {rb : List ℕ} (next : A → List ℕ → Read B)
    → r ≡ ok a rb
    → then_read r next ≡ next a rb
then_ok next e = ap (λ r. then_read r next) e

of_plain : (v : Value) → image v ≡ v → PlainBytes v → ValueBytes v
unfolding push_value
of_plain v same p = record {
  first = p.first;
  bytes = p.bytes;
  encoded = p.encoded;
  reads = λ fuel rest h. go fuel rest h;
}
  where
    go :
        (fuel : ℕ) (rest : List ℕ)
        → 3 * length (p.bytes ++ rest) + 3 ≤ fuel
        → push_value fuel (p.bytes ++ rest) (p.first % 8) (p.first / 8) ≡ ok (image v) rest
    go zero rest h = absurd (omega arith)
    go (suc fuel) rest h =
        let b : (p.first % 8 == 6) ≡ false = ground (arith, p.no_table) in
        rw b (p.reads rest ∙ ap (λ w. ok w rest) (sym same))

-- A value with its first byte.
one_lem :
    (v : Value) (b : ValueBytes v) (fuel : ℕ) (rest : List ℕ)
    → 3 * length (encode v ++ rest) + 1 ≤ fuel
    → unpack_one fuel (encode v ++ rest) ≡ ok (image v) rest
unfolding unpack_one
one_lem v b zero rest h = absurd (omega arith)
one_lem v b (suc fuel) rest h =
    let h' : 3 * length (b.first ∷ (b.bytes ++ rest)) + 1 ≤ suc fuel =
      subst (λ (bs : List ℕ). 3 * length (bs ++ rest) + 1 ≤ suc fuel) b.encoded h in
    ap (λ bs. unpack_one (suc fuel) (bs ++ rest)) b.encoded
    ∙ then_ok (λ type rb. push_value fuel rb (type % 8) (type / 8))
        (read_byte b.first (b.bytes ++ rest))
    ∙ b.reads fuel rest (omega (arith, h'))

-- The pieces of a table, one after the other.
table_lem :
    (c : ℕ) (sb : List ℕ) (vs : Items) (ps : Pairs) (xs ys : List ℕ) (n : ℕ) (vs' : Items)
    (ps' : Pairs) (fuel : ℕ) (rest : List ℕ)
    → ((rest : List ℕ) → get_size (sb ++ rest) c ≡ ok n rest)
    → ((fuel : ℕ) (rest : List ℕ)
        → 3 * length (xs ++ rest) + 2 ≤ fuel
        → unpack_items fuel n (xs ++ rest) ≡ ok vs' rest)
    → ((fuel : ℕ) (rest : List ℕ)
        → 3 * length (ys ++ 0 ∷ rest) + 2 ≤ fuel
        → unpack_pairs fuel (ys ++ 0 ∷ rest) ≡ ok ps' rest)
    → 3 * length ((sb ++ (xs ++ (ys ++ 0 ∷ []))) ++ rest) + 3 ≤ fuel
    → push_value fuel ((sb ++ (xs ++ (ys ++ 0 ∷ []))) ++ rest) ((6 + 8 * c) % 8) ((6 + 8 * c) / 8)
      ≡ ok (table vs' ps') rest
unfolding push_value
table_lem c sb vs ps xs ys n vs' ps' zero rest s i p h = absurd (omega arith)
table_lem c sb vs ps xs ys n vs' ps' (suc fuel) rest s i p h =
    let type : (6 + 8 * c) % 8 ≡ 6 = omega arith in
    let cookie : (6 + 8 * c) / 8 ≡ c = omega arith in
    let split : (sb ++ (xs ++ (ys ++ 0 ∷ []))) ++ rest ≡ sb ++ (xs ++ (ys ++ 0 ∷ rest)) =
      append_assoc sb (xs ++ (ys ++ 0 ∷ [])) rest
      ∙ ap (λ zs. sb ++ zs)
          (append_assoc xs (ys ++ 0 ∷ []) rest
            ∙ ap (λ zs. xs ++ zs) (append_assoc ys (0 ∷ []) rest)) in
    let long : 3 * length (xs ++ (ys ++ 0 ∷ rest)) + 2 ≤ fuel =
      omega (arith, ap length split, length-append sb (xs ++ (ys ++ 0 ∷ rest))) in
    rw (type, cookie, split)
      (then_ok _ (s (xs ++ (ys ++ 0 ∷ rest)))
        ∙ then_ok _ (i fuel (ys ++ 0 ∷ rest) long)
        ∙ then_ok _ (p fuel rest (omega (arith, length-append xs (ys ++ 0 ∷ rest)))))

key_lem : (k : Value) → IsKey k → (is_nil (image k) ≡ false) × (is_nan (image k) ≡ false)
unfolding image is_nan
key_lem nil h = absurd h
key_lem (real x) h = (refl, h)
key_lem (boolean b) h = (refl, refl)
key_lem (integer x) h = (refl, refl)
key_lem (pointer x) h = (refl, refl)
key_lem (string s) h = (refl, refl)
key_lem (table vs ps) h = (refl, refl)
key_lem (paired ps ended) h = (refl, refl)
key_lem unsupported h = (refl, refl)

-- The nil behind the pairs.
no_pair_lem :
    (fuel : ℕ) (rest : List ℕ)
    → 3 * length (0 ∷ rest) + 2 ≤ fuel
    → unpack_pairs fuel (0 ∷ rest) ≡ ok no_pair rest
unfolding unpack_pairs encode image
no_pair_lem zero rest h = absurd (omega arith)
no_pair_lem (suc zero) rest h = absurd (omega arith)
no_pair_lem (suc (suc fuel)) rest h =
    then_ok _ (one_lem nil (of_plain nil refl nil_bytes) (suc fuel) rest (omega arith))

pair_lem :
    (k v : Value) (kb : ValueBytes k) (vb : ValueBytes v) (xs : List ℕ) (ps : Pairs) (fuel : ℕ)
    (rest : List ℕ)
    → IsKey k
    → ((fuel : ℕ)
        → 3 * length (xs ++ 0 ∷ rest) + 2 ≤ fuel
        → unpack_pairs fuel (xs ++ 0 ∷ rest) ≡ ok ps rest)
    → 3 * length ((encode k ++ (encode v ++ xs)) ++ 0 ∷ rest) + 2 ≤ fuel
    → unpack_pairs fuel ((encode k ++ (encode v ++ xs)) ++ 0 ∷ rest)
      ≡ ok (pair (image k) (image v) ps) rest
unfolding unpack_pairs
pair_lem k v kb vb xs ps zero rest key p h = absurd (omega arith)
pair_lem k v kb vb xs ps (suc zero) rest key p h = absurd (omega arith)
pair_lem k v kb vb xs ps (suc (suc fuel)) rest key p h =
    let split : (encode k ++ (encode v ++ xs)) ++ 0 ∷ rest
        ≡ encode k ++ (encode v ++ (xs ++ 0 ∷ rest)) =
      append_assoc (encode k) (encode v ++ xs) (0 ∷ rest)
      ∙ ap (λ zs. encode k ++ zs) (append_assoc (encode v) xs (0 ∷ rest)) in
    let some_k : 1 ≤ length (encode k) = omega (arith, ap length kb.encoded) in
    let some_v : 1 ≤ length (encode v) = omega (arith, ap length vb.encoded) in
    let whole = length-append (encode k) (encode v ++ (xs ++ 0 ∷ rest)) in
    let behind = length-append (encode v) (xs ++ 0 ∷ rest) in
    rw split (
      then_ok _
        (one_lem k kb (suc fuel) (encode v ++ (xs ++ 0 ∷ rest)) (omega (arith, ap length split)))
      ∙ rw ((key_lem k key).0, (key_lem k key).1)
          (then_ok _ (one_lem v vb fuel (xs ++ 0 ∷ rest) (omega (arith, ap length split)))
            ∙ then_ok _ (p fuel (omega (arith, ap length split)))))

no_items :
    (fuel : ℕ) (rest : List ℕ)
    → 3 * length rest + 2 ≤ fuel
    → unpack_items fuel 0 rest ≡ ok no_item rest
unfolding unpack_items
no_items zero rest h = absurd (omega arith)
no_items (suc fuel) rest h = refl

mutual
  unfolding encode image unpack_items get_size rawlen

  value_bytes : (v : Value) → IsValue v → ValueBytes v
  value_bytes nil h = of_plain nil refl nil_bytes
  value_bytes (boolean b) h = of_plain (boolean b) refl (boolean_bytes b)
  value_bytes (integer v) h = of_plain (integer v) refl (number_bytes v h)
  value_bytes (real v) h = of_plain (real v) refl (real_bytes v h)
  value_bytes (pointer v) h = of_plain (pointer v) refl (pointer_bytes v h)
  value_bytes (string s) h = of_plain (string s) refl (string_bytes s h)
  value_bytes (table vs ps) (small, hv, hp) =
      let b = size_bytes (rawlen vs) small in
      let tail = encode_items vs ++ (encode_pairs ps (rawlen vs) ++ 0 ∷ []) in
      record {
        first = 6 + 8 * b.cookie;
        bytes = b.bytes ++ tail;
        encoded = ap (λ zs. zs ++ tail) b.encoded;
        reads = λ fuel rest room.
            table_lem b.cookie b.bytes vs ps (encode_items vs) (encode_pairs ps (rawlen vs))
              (rawlen vs) (image_items vs) (image_pairs ps (rawlen vs)) fuel rest b.reads
              (items_lem vs hv) (pairs_lem ps (rawlen vs) hp) room;
      }
  value_bytes (paired ps ended) h = record {
    first = 6;
    bytes = encode_pairs ps 0 ++ 0 ∷ [];
    encoded = refl;
    reads = λ fuel rest room.
        table_lem 0 [] no_item ps [] (encode_pairs ps 0) 0 no_item (image_pairs ps 0) fuel rest
          (λ rest. refl) no_items (pairs_lem ps 0 h) room;
  }
  value_bytes unsupported h = absurd h

  items_lem :
      (vs : Items)
      → AreItems vs
      → (fuel : ℕ) (rest : List ℕ) → 3 * length (encode_items vs ++ rest) + 2 ≤ fuel
      → unpack_items fuel (rawlen vs) (encode_items vs ++ rest) ≡ ok (image_items vs) rest
  items_lem no_item h fuel rest room = no_items fuel rest room
  items_lem (item v vs) h zero rest room = absurd (omega arith)
  items_lem (item v vs) (hv, hs) (suc fuel) rest room =
      let vb = value_bytes v hv in
      let split = append_assoc (encode v) (encode_items vs) rest in
      let some_v : 1 ≤ length (encode v) = omega (arith, ap length vb.encoded) in
      rw split (
        then_ok _ (one_lem v vb fuel (encode_items vs ++ rest) (omega (arith, ap length split)))
        ∙ then_ok _ (
            items_lem vs hs fuel rest
              (omega (arith, ap length split, length-append (encode v) (encode_items vs ++ rest)))))

  pairs_lem :
      (ps : Pairs) (n : ℕ)
      → ArePairs ps
      → (fuel : ℕ) (rest : List ℕ) → 3 * length (encode_pairs ps n ++ 0 ∷ rest) + 2 ≤ fuel
      → unpack_pairs fuel (encode_pairs ps n ++ 0 ∷ rest) ≡ ok (image_pairs ps n) rest
  pairs_lem no_pair n h fuel rest room = no_pair_lem fuel rest room
  pairs_lem (pair k v ps) n (key, hk, hv, hs) fuel rest room = elim (Bool-cases (in_array k n)) [
    | inl e ↦ (let room' = rw e at room in rw e (pairs_lem ps n hs fuel rest room'))
    | inr e ↦
        (let room' = rw e at room in
          rw e (
            pair_lem k v (value_bytes k hk) (value_bytes v hv) (encode_pairs ps n)
              (image_pairs ps n) fuel rest key (λ fuel room. pairs_lem ps n hs fuel rest room)
              room'))
  ]

unpack_all_lem :
    (vs : List Value)
    → AreValues vs
    → (fuel : ℕ) → 3 * length (encode_all vs) + 1 ≤ fuel
    → unpack_all fuel (encode_all vs) ≡ ok (image_all vs) []
unfolding encode_all image_all unpack_all
unpack_all_lem [] h zero room = absurd (omega arith)
unpack_all_lem [] h (suc fuel) room = refl
unpack_all_lem (v ∷ vs) h zero room = absurd (omega arith)
unpack_all_lem (v ∷ vs) (hv, hs) (suc fuel) room =
    let b = value_bytes v hv in
    let room' : 3 * length (b.first ∷ (b.bytes ++ encode_all vs)) + 1 ≤ suc fuel =
      subst (λ (bs : List ℕ). 3 * length (bs ++ encode_all vs) + 1 ≤ suc fuel) b.encoded room in
    ap (λ bs. unpack_all (suc fuel) (bs ++ encode_all vs)) b.encoded
    ∙ then_ok _ (b.reads fuel (encode_all vs) (omega (arith, room')))
    ∙ then_ok _
        (unpack_all_lem vs hs fuel (omega (arith, room', length-append b.bytes (encode_all vs))))

-- Values that can be packed are packed into bytes from which `luaseri_unpack` reads them back, with
-- nothing left: each table as its array and then the pairs that do not stand in it, in order.
pub unpack-pack :
    (vs : List Value)
    → AreValues vs
    → packable_all vs ≡ true
    → (bytes : List ℕ) × (luaseri_pack vs ≡ some bytes)
      × (luaseri_unpack bytes ≡ ok (image_all vs) [])
unfolding luaseri_unpack unpack_on
unpack-pack vs h p = (
  encode_all vs,
  luaseri_pack_lem vs ∙ rw p refl,
  unpack_all_lem vs h (3 * length (encode_all vs) + 1) (omega arith),
)

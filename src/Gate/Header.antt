-- ===== src/Gate/Header.antt =====
-- The headers of packets: what `databuffer_readheader` finds in a stream of encoded packets.
use skynet_gameserver.Prelude.{
  ℕ, ◌^◌, ◌≤◌, ◌<◌, ◌≡◌, refl, inl, inr, Bool-cases, true, false, ap, sym, ◌∙◌, subst, Option, some,
  List, [], ◌∷◌, ◌++◌, ltb, ◌==◌, length, take, drop, arith, length-append, length-drop,
}
use skynet_gameserver.Prelude.Split.{take_front, drop_front, append_assoc, append_nil}
use skynet_gameserver.Databuffer.{
  DataBuffer, MessagePool, databuffer_read, databuffer_readheader, await, parse_header, minus_one,
  lt_int, after_header,
}
use skynet_gameserver.Databuffer.Stream.{
  stream, IsValid, KeepsNodes, Taken, taken, databuffer_read-Taken,
}
use skynet_gameserver.Gate.Encoding.{
  header_bytes, encode, limit, limit-le, Fits, done, fits, IsHeaderSize, length-header_bytes,
  parse_header-header_bytes, none_left,
}

-- The bytes of the buffer and those to come are the packets `ps`, of which the header of the first
-- may have been read.
pub data Owes (hs : ℕ) (db : DataBuffer) (later : List ℕ) : List (List ℕ) → Type 0 where
  between :
      (ps : List (List ℕ)) → db.header ≡ 0 → stream db ++ later ≡ encode hs ps → Owes hs db later ps
  within :
      (p : List ℕ) (ps : List (List ℕ))
      → db.header ≡ length p
      → stream db ++ later ≡ p ++ encode hs ps
      → Owes hs db later (p ∷ ps)

-- What `databuffer_readheader` finds: too few bytes, or the size of a packet that is all there.
pub data Header (hs : ℕ) (db : DataBuffer) (mp : MessagePool) (later : List ℕ) (ps : List (List ℕ))
    : Option (ℕ × DataBuffer × MessagePool) → Type 0 where
  waits :
      (db' : DataBuffer) (mp' : MessagePool)
      → IsValid db'
      → Owes hs db' later ps
      → length (stream db') < 0x1000000
      → (later ≡ [] → ps ≡ [])
      → KeepsNodes db mp db' mp'
      → Header hs db mp later ps (some (minus_one, db', mp'))
  ready :
      (p : List ℕ) (ps' : List (List ℕ)) (db' : DataBuffer) (mp' : MessagePool)
      → ps ≡ p ∷ ps'
      → IsValid db'
      → stream db' ++ later ≡ p ++ encode hs ps'
      → length p ≤ db'.size
      → db'.size ≤ db.size
      → KeepsNodes db mp db' mp'
      → Header hs db mp later ps (some (length p, db', mp'))

settle :
    (hs : ℕ) (db db' : DataBuffer) (mp mp' : MessagePool) (later p : List ℕ) (ps : List (List ℕ))
    → IsValid db'
    → db'.header ≡ length p
    → stream db' ++ later ≡ p ++ encode hs ps
    → 0 < length p
    → length p < 0x1000000
    → db'.size < 2 ^ 31
    → db'.size ≤ db.size
    → KeepsNodes db mp db' mp'
    → Header hs db mp later (p ∷ ps) (some (await db', db', mp'))
unfolding await
settle hs db db' mp mp' later p ps v e s h h' h'' le k =
    elim (Bool-cases (ltb db'.size db'.header)) [
      | inl b ↦
          let c : lt_int db'.size db'.header ≡ true = ground (arith, e) in
          let short : length (stream db') < length p = ground (arith, e, v.sized) in
          rw c (
            waits db' mp' v (within p ps e s) (omega arith)
              (λ z. absurd (
                omega (
                  arith,
                  ap length s,
                  ap length z,
                  length-append (stream db') later,
                  length-append p (encode hs ps),
                )))
              k)
      | inr b ↦
          let c : lt_int db'.size db'.header ≡ false = ground (arith, e) in
          rw c (
            subst (λ n. Header hs db mp later (p ∷ ps) (some (n, db', mp'))) (sym e)
              (ready p ps db' mp' refl v s (ground (arith, e)) le k))
    ]

-- The header of a packet is read where it is all there.
read_size :
    (hs : ℕ) (db : DataBuffer) (mp : MessagePool) (later p : List ℕ) (ps : List (List ℕ))
    (r : Option (List ℕ × DataBuffer × MessagePool))
    → IsHeaderSize hs
    → IsValid db
    → db.size < 2 ^ 31
    → 0 < length p
    → length p < limit hs
    → stream db ++ later ≡ encode hs (p ∷ ps)
    → hs ≤ db.size
    → Taken db mp hs r
    → Header hs db mp later (p ∷ ps) (after_header hs r)
unfolding encode
read_size hs db mp later p ps _ i v small h h' e le (taken db' mp' v' s _ k) =
    let n = length-header_bytes hs (length p) i in
    let room : length (header_bytes hs (length p)) ≤ length (stream db) =
      omega (arith, n, v.sized) in
    let bytes : take hs (stream db) ≡ header_bytes hs (length p) =
      ap (λ m. take m (stream db)) (sym n) ∙ take_front (stream db) later _ _ e room in
    let rest : drop hs (stream db) ++ later ≡ p ++ encode hs ps =
      ap (λ m. drop m (stream db) ++ later) (sym n) ∙ drop_front (stream db) later _ _ e room in
    let parsed : parse_header hs (take hs (stream db)) ≡ length p =
      ap (parse_header hs) bytes ∙ parse_header-header_bytes hs (length p) i h' in
    let shorter : db'.size ≤ db.size =
      omega (arith, v'.sized, v.sized, ap length s, length-drop hs (stream db)) in
    settle hs db (record db' { header = parse_header hs (take hs (stream db)) }) mp mp' later p ps
      (record { in_first = v'.in_first; sized = v'.sized }) parsed (ap (λ x. x ++ later) s ∙ rest) h
      (omega (arith, limit-le hs)) (omega arith) shorter k

read_first :
    (hs : ℕ) (db : DataBuffer) (mp : MessagePool) (later : List ℕ) (ps : List (List ℕ))
    → IsHeaderSize hs
    → IsValid db
    → db.size < 2 ^ 31
    → Fits hs ps
    → stream db ++ later ≡ encode hs ps
    → hs ≤ db.size
    → Header hs db mp later ps (after_header hs (databuffer_read db mp hs))
unfolding encode
read_first hs db mp later _ i v small done s le =
    absurd (omega (arith, i, ap length s, length-append (stream db) later, v.sized))
read_first hs db mp later _ i v small (fits p ps h h' f) s le =
    read_size hs db mp later p ps _ i v small h h' s le
      (databuffer_read-Taken db mp hs v (omega (arith, i)) le)

-- On a buffer of packets `databuffer_readheader` gives the size of the next packet where it is all
-- there, and otherwise says that it waits.
pub readheader-Header :
    (hs : ℕ) (db : DataBuffer) (mp : MessagePool) (later : List ℕ) (ps : List (List ℕ))
    → IsHeaderSize hs
    → IsValid db
    → db.size < 2 ^ 31
    → Fits hs ps
    → Owes hs db later ps
    → Header hs db mp later ps (databuffer_readheader db mp hs)
unfolding databuffer_readheader
readheader-Header hs db mp later _ i v small (fits p ps h h' f) (within _ _ e s) =
    let z : (db.header == 0) ≡ false = ground (arith, e) in
    rw z (
      settle hs db db mp mp later p ps v e s h (omega (arith, limit-le hs)) small (omega arith)
        refl)
readheader-Header hs db mp later ps i v small f (between _ z s) =
    let z' : (db.header == 0) ≡ true = ground (arith, z) in
    elim (Bool-cases (ltb db.size hs)) [
      | inl b ↦
          rw (z', b)
            (waits db mp v (between ps z s) (ground (arith, v.sized, i))
              (λ e.
                none_left hs ps (length (stream db)) i
                  (omega (arith, ap length s, ap length e, length-append (stream db) later))
                  (ground (arith, v.sized)))
              refl)
      | inr b ↦ rw (z', b) (read_first hs db mp later ps i v small f s (ground arith))
    ]

-- After the last byte.
pub finished :
    (hs : ℕ) (db : DataBuffer) (later : List ℕ) (ps : List (List ℕ))
    → Owes hs db later ps
    → later ≡ []
    → ps ≡ []
    → (db.header ≡ 0) × (stream db ≡ [])
unfolding encode
finished hs db later _ (between ps z s) e e' =
    (z, sym (append_nil (stream db)) ∙ ap (λ x. stream db ++ x) (sym e) ∙ s ∙ ap (encode hs) e')
finished hs db later _ (within p ps z s) e e' = absurd (ground (arith, e'))

-- More bytes.
pub Owes-push :
    (hs : ℕ) (db db' : DataBuffer) (bytes later : List ℕ) (ps : List (List ℕ))
    → stream db' ≡ stream db ++ bytes
    → db'.header ≡ db.header
    → Owes hs db (bytes ++ later) ps
    → Owes hs db' later ps
Owes-push hs db db' bytes later _ e z (between ps z' s) =
    between ps (z ∙ z') (ap (λ x. x ++ later) e ∙ append_assoc (stream db) bytes later ∙ s)
Owes-push hs db db' bytes later _ e z (within p ps z' s) =
    within p ps (z ∙ z') (ap (λ x. x ++ later) e ∙ append_assoc (stream db) bytes later ∙ s)

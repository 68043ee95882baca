-- ===== src/Seri/Reading.antt =====
-- What was written for an integer is read back.
use skynet_gameserver.Prelude.{
  ℕ, zero, suc, ◌+◌, ◌*◌, ◌/◌, ◌%◌, ◌^◌, ◌<◌, ◌≡◌, ◌≢◌, refl, sym, ap, ap₂, ◌∙◌, true, false,
  Bool-cases, inl, inr, some, List, [], ◌∷◌, ◌++◌, ltb, leb, ◌==◌, length, length-append, concat,
  arith,
}
use skynet_gameserver.Prelude.Split.{append_nil, take-append_self, drop-append_self}
use skynet_gameserver.Seri.Blocks.{rb_read, le_bytes, of_le}
use skynet_gameserver.Seri.Pack.{to_int32, integer_pushes}
use skynet_gameserver.Seri.Unpack.{ok, then_read, or_invalid, read_le, extend, get_integer}

pub rb_read_lem :
    (xs rest : List ℕ) (n : ℕ) → n ≡ length xs → rb_read (xs ++ rest) n ≡ some (xs, rest)
unfolding rb_read
rb_read_lem xs rest n e =
    let b : ltb (length (xs ++ rest)) n ≡ false = ground (arith, e, length-append xs rest) in
    rw (b, e)
      (ap₂ (λ (a b : List ℕ). some (a, b)) (take-append_self xs rest) (drop-append_self xs rest))

length-le_bytes : (n v : ℕ) → length (le_bytes n v) ≡ n
unfolding le_bytes
length-le_bytes zero v = refl
length-le_bytes (suc n) v = ap suc (length-le_bytes n (v / 256))

pub read_le_lem :
    (n v : ℕ) (rest : List ℕ) → read_le (le_bytes n v ++ rest) n ≡ ok (of_le (le_bytes n v)) rest
unfolding read_le
read_le_lem n v rest =
    ap (λ r. or_invalid r of_le) (rb_read_lem (le_bytes n v) rest n (sym (length-le_bytes n v)))

pub read_byte : (b : ℕ) (rb : List ℕ) → read_le (b ∷ rb) 1 ≡ ok b rb
unfolding read_le of_le
read_byte b rb =
    ap (λ r. or_invalid r of_le) (rb_read_lem (b ∷ []) rb 1 refl) ∙ ap (λ k. ok k rb) (omega arith)

pub of_le_1 : (v : ℕ) → of_le (le_bytes 1 v) ≡ v % 2 ^ 8
unfolding of_le le_bytes
of_le_1 v = omega arith

pub of_le_2 : (v : ℕ) → of_le (le_bytes 2 v) ≡ v % 2 ^ 16
unfolding of_le le_bytes
of_le_2 v = omega arith

pub of_le_4 : (v : ℕ) → of_le (le_bytes 4 v) ≡ v % 2 ^ 32
unfolding of_le le_bytes
of_le_4 v = omega arith

pub of_le_8 : (v : ℕ) → of_le (le_bytes 8 v) ≡ v % 2 ^ 64
unfolding of_le le_bytes
of_le_8 v = omega arith

-- The bytes behind the first, for an integer
pub record IntegerBytes (v : ℕ) : Type 0 where
  pub cookie : ℕ
  pub bytes : List ℕ
  pub encoded : concat (integer_pushes v) ≡ (2 + 8 * cookie) ∷ bytes
  pub no_real : cookie ≢ 8
  pub small : cookie < 32
  pub reads : (rest : List ℕ) → get_integer (bytes ++ rest) cookie ≡ ok v rest

-- `n` bytes of an integer, that are all of it.
pub read_back :
    (n v w : ℕ) (rest : List ℕ)
    → of_le (le_bytes n v) ≡ w
    → read_le ((le_bytes n v ++ []) ++ rest) n ≡ ok w rest
read_back n v w rest e =
    ap (λ bs. read_le (bs ++ rest) n) (append_nil (le_bytes n v))
    ∙ read_le_lem n v rest
    ∙ ap (λ k. ok k rest) e

pub integer_bytes : (v : ℕ) → v < 2 ^ 64 → IntegerBytes v
unfolding integer_pushes get_integer to_int32 extend
integer_bytes v h = elim (Bool-cases (v == 0)) [
  | inl a ↦ record {
    cookie = 0;
    bytes = [];
    encoded = rw a refl;
    no_real = omega arith;
    small = omega arith;
    reads = λ rest. ap (λ k. ok k rest) (ground (arith, a));
  }
  | inr a ↦ elim (Bool-cases (v == to_int32 v)) [
    | inr b ↦ record {
      cookie = 6;
      bytes = le_bytes 8 v ++ [];
      encoded = rw (a, b) refl;
      no_real = omega arith;
      small = omega arith;
      reads = λ rest. read_back 8 v v rest (of_le_8 v ∙ omega arith);
    }
    | inl b ↦ elim (Bool-cases (leb (2 ^ 63) v)) [
      | inl c ↦ record {
        cookie = 4;
        bytes = le_bytes 4 v ++ [];
        encoded = rw (a, b, c) refl;
        no_real = omega arith;
        small = omega arith;
        reads = λ rest. four rest b;
      }
      | inr c ↦ elim (Bool-cases (ltb v 0x100)) [
        | inl d ↦ record {
          cookie = 1;
          bytes = le_bytes 1 v ++ [];
          encoded = rw (a, b, c, d) refl;
          no_real = omega arith;
          small = omega arith;
          reads = λ rest. read_back 1 v v rest (of_le_1 v ∙ ground (arith, d));
        }
        | inr d ↦ elim (Bool-cases (ltb v 0x10000)) [
          | inl f ↦ record {
            cookie = 2;
            bytes = le_bytes 2 v ++ [];
            encoded = rw (a, b, c, d, f) refl;
            no_real = omega arith;
            small = omega arith;
            reads = λ rest. read_back 2 v v rest (of_le_2 v ∙ ground (arith, f));
          }
          | inr f ↦ record {
            cookie = 4;
            bytes = le_bytes 4 v ++ [];
            encoded = rw (a, b, c, d, f) refl;
            no_real = omega arith;
            small = omega arith;
            reads = λ rest. four rest b;
          }
        ]
      ]
    ]
  ]
]
  where
    same : (v == to_int32 v) ≡ true → extend (v % 2 ^ 32) ≡ v
    same b = ground (arith, b)

    four :
        (rest : List ℕ)
        → (v == to_int32 v) ≡ true
        → then_read (read_le ((le_bytes 4 v ++ []) ++ rest) 4) (λ n rb. ok (extend n) rb)
          ≡ ok v rest
    four rest b =
        ap (λ r. then_read r (λ n rb. ok (extend n) rb))
          (read_back 4 v (v % 2 ^ 32) rest (of_le_4 v))
        ∙ ap (λ k. ok k rest) (same b)

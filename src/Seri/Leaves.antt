-- ===== src/Seri/Leaves.antt =====
-- The first byte of a value tells its kind, and what is no table is read back from what follows it.
use skynet_gameserver.Prelude.{
  ℕ, ◌+◌, ◌-◌, ◌*◌, ◌/◌, ◌%◌, ◌^◌, ◌<◌, ◌≡◌, ◌≢◌, refl, ap, ◌∙◌, Bool, true, false, Bool-cases, inl,
  inr, not, ◌||◌, List, [], ◌∷◌, ◌++◌, ltb, leb, ◌==◌, if◌then◌else◌, length, concat, arith,
}
use skynet_gameserver.Prelude.Split.{append_assoc, append_nil}
use skynet_gameserver.Seri.Blocks.{le_bytes, of_le}
use skynet_gameserver.Seri.Value.{Value, nil, boolean, integer, real, pointer, string}
use skynet_gameserver.Seri.Pack.{
  combine_type, max_cookie, boolean_pushes, string_pushes, array_pushes,
}
use skynet_gameserver.Seri.Unpack.{
  ok, then_read, or_invalid, read_le, get_integer, get_buffer, get_long, get_size, typed_size,
  as_size, push_plain,
}
use skynet_gameserver.Seri.Encode.{encode}
use skynet_gameserver.Seri.Reading.{
  rb_read_lem, read_byte, read_le_lem, of_le_2, of_le_4, of_le_8, integer_bytes, read_back,
}

pub record PlainBytes (v : Value) : Type 0 where
  pub first : ℕ
  pub bytes : List ℕ
  pub encoded : encode v ≡ first ∷ bytes
  pub no_table : first % 8 ≢ 6
  pub reads : (rest : List ℕ) → push_plain (bytes ++ rest) (first % 8) (first / 8) ≡ ok v rest

pub nil_bytes : PlainBytes nil
unfolding encode push_plain
nil_bytes = record {
  first = 0;
  bytes = [];
  encoded = refl;
  no_table = omega arith;
  reads = λ rest. refl;
}

pub boolean_bytes : (b : Bool) → PlainBytes (boolean b)
unfolding encode push_plain boolean_pushes
boolean_bytes true = record {
  first = 9;
  bytes = [];
  encoded = refl;
  no_table = omega arith;
  reads = λ rest. refl;
}
boolean_bytes false = record {
  first = 1;
  bytes = [];
  encoded = refl;
  no_table = omega arith;
  reads = λ rest. refl;
}

pub real_bytes : (v : ℕ) → v < 2 ^ 64 → PlainBytes (real v)
unfolding encode push_plain
real_bytes v h = record {
  first = 66;
  bytes = le_bytes 8 v ++ [];
  encoded = refl;
  no_table = omega arith;
  reads = λ rest.
      ap (λ r. then_read r (λ n rb. ok (real n) rb))
        (read_back 8 v v rest (of_le_8 v ∙ omega arith));
}

pub pointer_bytes : (v : ℕ) → v < 2 ^ 64 → PlainBytes (pointer v)
unfolding encode push_plain
pointer_bytes v h = record {
  first = 3;
  bytes = le_bytes 8 v ++ [];
  encoded = refl;
  no_table = omega arith;
  reads = λ rest.
      ap (λ r. then_read r (λ n rb. ok (pointer n) rb))
        (read_back 8 v v rest (of_le_8 v ∙ omega arith));
}

pub number_bytes : (v : ℕ) → v < 2 ^ 64 → PlainBytes (integer v)
unfolding encode push_plain
number_bytes v h =
    let i = integer_bytes v h in
    let type : (2 + 8 * i.cookie) % 8 ≡ 2 = omega arith in
    let cookie : (2 + 8 * i.cookie) / 8 ≡ i.cookie = omega arith in
    let other : (i.cookie == 8) ≡ false = ground (arith, i.no_real) in
    record {
      first = 2 + 8 * i.cookie;
      bytes = i.bytes;
      encoded = i.encoded;
      no_table = omega arith;
      reads = λ rest.
          rw (type, cookie, other)
            (ap (λ r. then_read r (λ n rb. ok (integer n) rb)) (i.reads rest));
    }

get_buffer_lem :
    (s rest : List ℕ) (n : ℕ)
    → length s < 2 ^ 31
    → n ≡ length s
    → get_buffer (s ++ rest) n ≡ ok (string s) rest
unfolding get_buffer
get_buffer_lem s rest n h e =
    let b : leb (2 ^ 31) n ≡ false = ground arith in
    rw b (ap (λ r. or_invalid r (λ bytes. string bytes)) (rb_read_lem s rest n e))

-- The length of a string, in `n` bytes.
long_lem :
    (s rest : List ℕ) (n len : ℕ)
    → length s < 2 ^ 31
    → len ≡ length s
    → of_le (le_bytes n len) ≡ len
    → then_read (read_le ((le_bytes n len ++ (s ++ [])) ++ rest) n) (λ k rb. get_buffer rb k)
      ≡ ok (string s) rest
long_lem s rest n len h e w =
    ap (λ bs. then_read (read_le bs n) (λ k rb. get_buffer rb k))
      (append_assoc (le_bytes n len) (s ++ []) rest
        ∙ ap (λ zs. le_bytes n len ++ (zs ++ rest)) (append_nil s))
    ∙ ap (λ r. then_read r (λ k rb. get_buffer rb k)) (read_le_lem n len (s ++ rest))
    ∙ get_buffer_lem s rest (of_le (le_bytes n len)) h (w ∙ e)

pub string_bytes : (s : List ℕ) → length s < 2 ^ 31 → PlainBytes (string s)
unfolding encode push_plain string_pushes get_long
string_bytes s h =
    let len : length s % 2 ^ 32 ≡ length s = omega arith in
    let a : leb (2 ^ 31) (length s % 2 ^ 32) ≡ false = ground arith in
    elim (Bool-cases (ltb (length s % 2 ^ 32) max_cookie)) [
      | inl b ↦ elim (Bool-cases ((length s % 2 ^ 32) == 0)) [
        | inl c ↦ record {
          first = combine_type 4 (length s % 2 ^ 32);
          bytes = [];
          encoded = rw (a, b, c) refl;
          no_table = omega arith;
          reads = λ rest. short_lem rest b (zero_length c);
        }
        | inr c ↦ record {
          first = combine_type 4 (length s % 2 ^ 32);
          bytes = s ++ [];
          encoded = rw (a, b, c) refl;
          no_table = omega arith;
          reads = λ rest. short_lem rest b (append_nil s);
        }
      ]
      | inr b ↦ elim (Bool-cases (ltb (length s % 2 ^ 32) 0x10000)) [
        | inl c ↦ record {
          first = 21;
          bytes = le_bytes 2 (length s % 2 ^ 32) ++ (s ++ []);
          encoded = rw (a, b, c) refl;
          no_table = omega arith;
          reads = λ rest.
              long_lem s rest 2 (length s % 2 ^ 32) h len
                (of_le_2 (length s % 2 ^ 32) ∙ ground (arith, c));
        }
        | inr c ↦ record {
          first = 37;
          bytes = le_bytes 4 (length s % 2 ^ 32) ++ (s ++ []);
          encoded = rw (a, b, c) refl;
          no_table = omega arith;
          reads = λ rest.
              long_lem s rest 4 (length s % 2 ^ 32) h len
                (of_le_4 (length s % 2 ^ 32) ∙ omega arith);
        }
      ]
    ]
  where
    zero_length : ((length s % 2 ^ 32) == 0) ≡ true → [] ≡ s
    zero_length c = no_bytes s (ground (arith, c))
      where
        no_bytes : (s : List ℕ) → length s ≡ 0 → [] ≡ s
        no_bytes [] e = refl
        no_bytes (x ∷ s) e = absurd (omega arith)

    short_lem :
        (rest : List ℕ) {bytes : List ℕ}
        → ltb (length s % 2 ^ 32) max_cookie ≡ true
        → bytes ≡ s
        → push_plain
            (bytes ++ rest)
            (combine_type 4 (length s % 2 ^ 32) % 8)
            (combine_type 4 (length s % 2 ^ 32) / 8)
          ≡ ok (string s) rest
    short_lem rest b e =
        let type : combine_type 4 (length s % 2 ^ 32) % 8 ≡ 4 = ground (arith, b) in
        let cookie : combine_type 4 (length s % 2 ^ 32) / 8 ≡ length s = ground (arith, b) in
        rw (type, cookie, e) (get_buffer_lem s rest (length s) h refl)

pub record SizeBytes (n : ℕ) : Type 0 where
  pub cookie : ℕ
  pub bytes : List ℕ
  pub encoded : concat (array_pushes n) ≡ (6 + 8 * cookie) ∷ bytes
  pub reads : (rest : List ℕ) → get_size (bytes ++ rest) cookie ≡ ok n rest

pub size_bytes : (n : ℕ) → n < 2 ^ 31 → SizeBytes n
unfolding array_pushes get_size typed_size
size_bytes n h = elim (Bool-cases (leb (max_cookie - 1) n)) [
  | inl a ↦
      (let i = integer_bytes n (omega arith) in
        record {
          cookie = 31;
          bytes = (2 + 8 * i.cookie) ∷ i.bytes;
          encoded = rw a (ap (λ bs. 254 ∷ bs) i.encoded);
          reads = λ rest. size_lem i.cookie i.bytes i.no_real (i.reads rest);
        })
  | inr a ↦ record {
    cookie = n;
    bytes = [];
    encoded = rw a (ap (λ k. k ∷ []) (ground (arith, a)));
    reads = λ rest. small_lem rest a;
  }
]
  where
    small_lem : (rest : List ℕ) → leb (max_cookie - 1) n ≡ false → get_size rest n ≡ ok n rest
    small_lem rest a = let b : (n == max_cookie - 1) ≡ false = ground (arith, a) in rw b refl

    size_lem :
        (cookie : ℕ) (bytes : List ℕ) {rest : List ℕ}
        → cookie ≢ 8
        → get_integer (bytes ++ rest) cookie ≡ ok n rest
        → get_size (((2 + 8 * cookie) ∷ bytes) ++ rest) 31 ≡ ok n rest
    size_lem cookie bytes {rest} ne e =
        let type : (not ((2 + 8 * cookie) % 8 == 2) || (2 + 8 * cookie) / 8 == 8) ≡ false =
          ground (arith, ne) in
        let back : (2 + 8 * cookie) / 8 ≡ cookie = omega arith in
        let size : (if leb (2 ^ 31) (n % 2 ^ 32) then 0 else n % 2 ^ 32) ≡ n = ground arith in
        ap (λ r. then_read r typed_size) (read_byte (2 + 8 * cookie) (bytes ++ rest))
        ∙ rw type (ap (λ k. then_read (get_integer (bytes ++ rest) k) as_size) back)
        ∙ ap (λ r. then_read r as_size) e
        ∙ ap (λ k. ok k rest) size

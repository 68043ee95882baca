-- ===== src/Seri/Ends.antt =====
-- `luaseri_unpack` ends on any bytes.
use skynet_gameserver.Prelude.{
  ℕ, zero, suc, ◌+◌, ◌*◌, ◌/◌, ◌%◌, ◌^◌, ◌≤◌, ◌<◌, Bool, true, false, Bool-cases, inl, inr, not,
  ◌||◌, List, [], ◌∷◌, ltb, leb, ◌==◌, if◌then◌else◌, length, take, drop, length-drop, arith,
}
use skynet_gameserver.Seri.Blocks.{rb_read, of_le}
use skynet_gameserver.Seri.Value.{
  Value, nil, integer, real, pointer, string, no_item, no_pair, is_nan,
}
use skynet_gameserver.Seri.Reading.{read_byte}
use skynet_gameserver.Seri.Unpack.{
  Read, ok, invalid, then_read, or_invalid, read_le, extend, get_integer, get_buffer, get_long,
  as_size, typed_size, get_size, push_plain, is_nil, unpack_one, push_value, unpack_items,
  unpack_pairs, unpack_pair, unpack_all, unpack_on,
}

-- A Lua error, or a result with fewer than `n` bytes behind it.
pub data Within {ℓ} {A : Type ℓ} (n : ℕ) : Read A → Type ℓ where
  within : (a : A) (rb : List ℕ) → length rb < n → Within n (ok a rb)
  refused : Within n invalid

then-Within {ℓ κ} :
    {A : Type ℓ} {B : Type κ} (m n : ℕ) (r : Read A) (next : A → List ℕ → Read B)
    → Within m r
    → ((a : A) (rb : List ℕ) → length rb < m → Within n (next a rb))
    → Within n (then_read r next)
then-Within m n _ next (within a rb l) f = f a rb l
then-Within m n _ next refused f = refused

Within_le {ℓ} : {A : Type ℓ} (m n : ℕ) (r : Read A) → m ≤ n → Within m r → Within n r
Within_le m n _ le (within a rb l) = within a rb (omega arith)
Within_le m n _ le refused = refused

if-Within {ℓ} :
    {A : Type ℓ} (n : ℕ) (b : Bool) (r r' : Read A)
    → Within n r
    → Within n r'
    → Within n (if b then r else r')
if-Within n true r r' h h' = h
if-Within n false r r' h h' = h'

or_invalid-Within {ℓ} :
    {A : Type ℓ} (rb : List ℕ) (n : ℕ) (f : List ℕ → A)
    → Within (suc (length rb)) (or_invalid (rb_read rb n) f)
unfolding rb_read
or_invalid-Within rb n f = elim (Bool-cases (ltb (length rb) n)) [
  | inl e ↦ rw e refused
  | inr e ↦ rw e (within (f (take n rb)) (drop n rb) (omega (arith, length-drop n rb)))
]

read_le-Within : (rb : List ℕ) (n : ℕ) → Within (suc (length rb)) (read_le rb n)
unfolding read_le
read_le-Within rb n = or_invalid-Within rb n of_le

-- An integer, and a function of it.
map-Within {ℓ} :
    {A : Type ℓ} (n : ℕ) (r : Read ℕ) (f : ℕ → A)
    → Within n r
    → Within n (then_read r (λ k rb. ok (f k) rb))
map-Within n r f h = then-Within n n r (λ k rb. ok (f k) rb) h (λ a rb l. within (f a) rb l)

get_integer-Within : (rb : List ℕ) (cookie : ℕ) → Within (suc (length rb)) (get_integer rb cookie)
unfolding get_integer
get_integer-Within rb cookie =
    let n = suc (length rb) in
    if-Within n (cookie == 0) _ _ (within 0 rb (omega arith)) (
      if-Within n (cookie == 1) _ _ (read_le-Within rb 1) (
        if-Within n (cookie == 2) _ _ (read_le-Within rb 2) (
          if-Within n (cookie == 4) _ _ (map-Within n _ extend (read_le-Within rb 4))
            (if-Within n (cookie == 6) _ _ (read_le-Within rb 8) refused))))

get_buffer-Within : (rb : List ℕ) (len : ℕ) → Within (suc (length rb)) (get_buffer rb len)
unfolding get_buffer
get_buffer-Within rb len =
    if-Within (suc (length rb)) (leb (2 ^ 31) len) _ _ refused
      (or_invalid-Within rb len (λ bytes. string bytes))

get_long-Within : (rb : List ℕ) (cookie : ℕ) → Within (suc (length rb)) (get_long rb cookie)
unfolding get_long
get_long-Within rb cookie =
    let n = suc (length rb) in
    if-Within n (cookie == 2) _ _ (long 2) (if-Within n (cookie == 4) _ _ (long 4) refused)
  where
    long : (k : ℕ) → Within (suc (length rb)) (then_read (read_le rb k) (λ n rb. get_buffer rb n))
    long k =
        then-Within (suc (length rb)) (suc (length rb)) (read_le rb k) (λ n rb. get_buffer rb n)
          (read_le-Within rb k)
          (λ n rb' l.
            Within_le (suc (length rb')) (suc (length rb)) (get_buffer rb' n) l
              (get_buffer-Within rb' n))

get_size-Within : (rb : List ℕ) (cookie : ℕ) → Within (suc (length rb)) (get_size rb cookie)
unfolding get_size typed_size
get_size-Within rb cookie =
    let n = suc (length rb) in
    if-Within n (cookie == 31) _ _
      (then-Within n n (read_le rb 1) typed_size (read_le-Within rb 1) (λ type rb' l.
        if-Within n (not (type % 8 == 2) || type / 8 == 8) _ _ refused (
          then-Within n n (get_integer rb' (type / 8)) as_size
            (Within_le (suc (length rb')) n _ l (get_integer-Within rb' (type / 8)))
            (λ k rb₂ l₂. within _ rb₂ l₂))))
      (within cookie rb (omega arith))

push_plain-Within :
    (rb : List ℕ) (type cookie : ℕ) → Within (suc (length rb)) (push_plain rb type cookie)
unfolding push_plain
push_plain-Within rb type cookie =
    let n = suc (length rb) in
    if-Within n (type == 0) _ _ (within nil rb (omega arith)) (
      if-Within n (type == 1) _ _ (within _ rb (omega arith)) (
        if-Within n (type == 2) _ _
          (if-Within n (cookie == 8) _ _ (map-Within n _ real (read_le-Within rb 8))
            (map-Within n _ integer (get_integer-Within rb cookie)))
          (if-Within n (type == 3) _ _ (map-Within n _ pointer (read_le-Within rb 8)) (
            if-Within n (type == 4) _ _ (get_buffer-Within rb cookie)
              (if-Within n (type == 5) _ _ (get_long-Within rb cookie) refused)))))

-- The first byte of a value.
first {ℓ} :
    {A : Type ℓ} (fuel : ℕ) (rb : List ℕ) (next : ℕ → List ℕ → Read A)
    → 3 * length rb + 1 ≤ suc fuel
    → ((b : ℕ) (rb' : List ℕ) → 3 * length rb' + 3 ≤ fuel → Within (suc (length rb')) (next b rb'))
    → Within (length rb) (then_read (read_le rb 1) next)
unfolding read_le rb_read
first fuel [] next h f = refused
first fuel (b ∷ rb) next h f =
    rw (read_byte b rb) (
      Within_le (suc (length rb)) (suc (length rb)) (next b rb) (omega arith)
        (f b rb (omega arith)))

mutual
  unfolding unpack_one

  -- A value takes its first byte at least.
  unpack_one-Within :
      (fuel : ℕ) (rb : List ℕ) → 3 * length rb + 1 ≤ fuel → Within (length rb) (unpack_one fuel rb)
  unpack_one-Within zero rb h = absurd (omega arith)
  unpack_one-Within (suc fuel) rb h =
      first fuel rb (λ type rb. push_value fuel rb (type % 8) (type / 8)) h
        (λ b rb' h'. push_value-Within fuel rb' (b % 8) (b / 8) h')

  push_value-Within :
      (fuel : ℕ) (rb : List ℕ) (type cookie : ℕ)
      → 3 * length rb + 3 ≤ fuel
      → Within (suc (length rb)) (push_value fuel rb type cookie)
  push_value-Within zero rb type cookie h = absurd (omega arith)
  push_value-Within (suc fuel) rb type cookie h =
      let n = suc (length rb) in
      if-Within n (type == 6) _ _
        (then-Within n n (get_size rb cookie) _ (get_size-Within rb cookie) (λ size rb₁ l₁.
          then-Within n n (unpack_items fuel size rb₁) _
            (Within_le (suc (length rb₁)) n _ l₁ (unpack_items-Within fuel size rb₁ (omega arith)))
            (λ vs rb₂ l₂.
              then-Within n n (unpack_pairs fuel rb₂) _
                (Within_le (suc (length rb₂)) n _ l₂ (unpack_pairs-Within fuel rb₂ (omega arith)))
                (λ ps rb₃ l₃. within _ rb₃ l₃))))
        (push_plain-Within rb type cookie)

  unpack_items-Within :
      (fuel n : ℕ) (rb : List ℕ)
      → 3 * length rb + 2 ≤ fuel
      → Within (suc (length rb)) (unpack_items fuel n rb)
  unpack_items-Within zero n rb h = absurd (omega arith)
  unpack_items-Within (suc fuel) zero rb h = within no_item rb (omega arith)
  unpack_items-Within (suc fuel) (suc n) rb h =
      then-Within (length rb) (suc (length rb)) (unpack_one fuel rb) _
        (unpack_one-Within fuel rb (omega arith))
        (λ v rb₁ l₁.
          then-Within (suc (length rb₁)) (suc (length rb)) (unpack_items fuel n rb₁) _
            (unpack_items-Within fuel n rb₁ (omega arith))
            (λ vs rb₂ l₂. within _ rb₂ (omega arith)))

  unpack_pairs-Within :
      (fuel : ℕ) (rb : List ℕ)
      → 3 * length rb + 2 ≤ fuel
      → Within (suc (length rb)) (unpack_pairs fuel rb)
  unpack_pairs-Within zero rb h = absurd (omega arith)
  unpack_pairs-Within (suc fuel) rb h =
      then-Within (length rb) (suc (length rb)) (unpack_one fuel rb) _
        (unpack_one-Within fuel rb (omega arith))
        (λ k rb₁ l₁.
          Within_le (suc (length rb₁)) (suc (length rb)) _ (omega arith)
            (unpack_pair-Within fuel (is_nil k) (is_nan k) k rb₁ (omega arith)))

  unpack_pair-Within :
      (fuel : ℕ) (ends bad : Bool) (k : Value) (rb : List ℕ)
      → 3 * length rb + 2 ≤ fuel
      → Within (suc (length rb)) (unpack_pair fuel ends bad k rb)
  unpack_pair-Within zero ends bad k rb h = absurd (omega arith)
  unpack_pair-Within (suc fuel) true bad k rb h = within no_pair rb (omega arith)
  unpack_pair-Within (suc fuel) false bad k rb h =
      then-Within (length rb) (suc (length rb)) (unpack_one fuel rb) _
        (unpack_one-Within fuel rb (omega arith))
        (λ v rb₁ l₁. if-Within (suc (length rb)) bad _ _ refused (
          then-Within (suc (length rb₁)) (suc (length rb)) (unpack_pairs fuel rb₁) _
            (unpack_pairs-Within fuel rb₁ (omega arith)) (λ ps rb₂ l₂. within _ rb₂ (omega arith))))

unpack_all-Within :
    (fuel : ℕ) (rb : List ℕ) → 3 * length rb + 1 ≤ fuel → Within 1 (unpack_all fuel rb)
unfolding unpack_all
unpack_all-Within zero rb h = absurd (omega arith)
unpack_all-Within (suc fuel) [] h = within [] [] (omega arith)
unpack_all-Within (suc fuel) (type ∷ rb) h =
    then-Within (suc (length rb)) 1 (push_value fuel rb (type % 8) (type / 8)) _
      (push_value-Within fuel rb (type % 8) (type / 8) (omega arith))
      (λ v rb₁ l₁.
        then-Within 1 1 (unpack_all fuel rb₁) _ (unpack_all-Within fuel rb₁ (omega arith))
          (λ vs rb₂ l₂. within _ rb₂ l₂))

-- `luaseri_unpack` on a stack with room for three calls for each byte, and one: it ends on any bytes; it
-- gives values and leaves no byte, or it is a Lua error.
pub unpack_on-Within :
    (stack : ℕ) (bytes : List ℕ) → 3 * length bytes + 1 ≤ stack → Within 1 (unpack_on stack bytes)
unfolding unpack_on
unpack_on-Within stack bytes enough = unpack_all-Within stack bytes enough

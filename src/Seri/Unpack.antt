-- ===== src/Seri/Unpack.antt =====
-- `luaseri_unpack`.
use skynet_gameserver.Prelude.{
  ℕ, zero, suc, ◌+◌, ◌-◌, ◌*◌, ◌/◌, ◌%◌, ◌^◌, Bool, true, false, not, ◌||◌, Option, none, some,
  List, [], ◌∷◌, ltb, leb, ◌==◌, if◌then◌else◌, length,
}
use skynet_gameserver.Seri.Blocks.{rb_read, of_le}
use skynet_gameserver.Seri.Value.{
  Value, nil, boolean, integer, real, pointer, string, table, Items, no_item, item, Pairs, no_pair,
  pair, is_nan,
}
use skynet_gameserver.Seri.Pack.{max_cookie}

-- A result and the bytes behind it, a Lua error, or too little room on the stack.
pub data Read {ℓ} (A : Type ℓ) : Type ℓ where
  ok : A → (rb : List ℕ) → Read A
  invalid : Read A
  stuck : Read A

abbrev pub then_read {ℓ κ} : {A : Type ℓ} {B : Type κ} → Read A → (A → List ℕ → Read B) → Read B
then_read (ok a rb) next = next a rb
then_read invalid next = invalid
then_read stuck next = stuck

-- `rb_read`, and `invalid_stream` where it gives no pointer.
abbrev pub or_invalid {ℓ} : {A : Type ℓ} → Option (List ℕ × List ℕ) → (List ℕ → A) → Read A
or_invalid none f = invalid
or_invalid (some (bytes, rb)) f = ok (f bytes) rb

-- `memcpy` of an integer of `n` bytes.
unfoldable pub read_le : List ℕ → ℕ → Read ℕ
read_le rb n = or_invalid (rb_read rb n) of_le

-- An `int32_t` as a `lua_Integer`
unfoldable pub extend : ℕ → ℕ
extend n = if ltb n (2 ^ 31) then n else n + (2 ^ 64 - 2 ^ 32)

-- `get_integer`
unfoldable pub get_integer : List ℕ → ℕ → Read ℕ
get_integer rb cookie =
    if cookie == 0
    then ok 0 rb
    else (if cookie == 1
        then read_le rb 1
        else (if cookie == 2
            then read_le rb 2
            else (if cookie == 4
                then then_read (read_le rb 4) (λ n rb. ok (extend n) rb)
                else (if cookie == 6 then read_le rb 8 else invalid))))

-- `get_buffer`. A negative `len` passes the test of `rb_read`, and `lua_pushlstring` refuses it.
unfoldable pub get_buffer : List ℕ → ℕ → Read Value
get_buffer rb len =
    if leb (2 ^ 31) len then invalid else or_invalid (rb_read rb len) (λ bytes. string bytes)

unfoldable pub get_long : List ℕ → ℕ → Read Value
get_long rb cookie =
    if cookie == 2
    then then_read (read_le rb 2) (λ n rb. get_buffer rb n)
    else (if cookie == 4 then then_read (read_le rb 4) (λ n rb. get_buffer rb n) else invalid)

-- The integer as an `int`; where that is negative, the loop of `unpack_table` makes no round.
abbrev pub as_size : ℕ → List ℕ → Read ℕ
as_size n rb = ok (if leb (2 ^ 31) (n % 2 ^ 32) then 0 else n % 2 ^ 32) rb

unfoldable pub typed_size : ℕ → List ℕ → Read ℕ
typed_size type rb =
    if not (type % 8 == 2) || type / 8 == 8
    then invalid
    else then_read (get_integer rb (type / 8)) as_size

-- The size of the array at the start of `unpack_table`.
unfoldable pub get_size : List ℕ → ℕ → Read ℕ
get_size rb array_size =
    if array_size == max_cookie - 1 then then_read (read_le rb 1) typed_size else ok array_size rb

-- `push_value` for what is no table.
unfoldable pub push_plain : List ℕ → ℕ → ℕ → Read Value
push_plain rb type cookie =
    if type == 0
    then ok nil rb
    else (if type == 1
        then ok (boolean (not (cookie == 0))) rb
        else (if type == 2
            then (if cookie == 8
                then then_read (read_le rb 8) (λ n rb. ok (real n) rb)
                else then_read (get_integer rb cookie) (λ n rb. ok (integer n) rb))
            else (if type == 3
                then then_read (read_le rb 8) (λ n rb. ok (pointer n) rb)
                else (if type == 4
                    then get_buffer rb cookie
                    else (if type == 5 then get_long rb cookie else invalid)))))

abbrev pub is_nil : Value → Bool
is_nil nil = true
is_nil _ = false

-- `unpack_one` with `push_value`, and `unpack_table` with its two loops.
unfoldable mutual
  pub unpack_one : ℕ → List ℕ → Read Value
  unpack_one zero rb = stuck
  unpack_one (suc fuel) rb =
      then_read (read_le rb 1) (λ type rb. push_value fuel rb (type % 8) (type / 8))

  pub push_value : ℕ → List ℕ → ℕ → ℕ → Read Value
  push_value zero rb type cookie = stuck
  push_value (suc fuel) rb type cookie =
      let built = then_read (get_size rb cookie) (λ array_size rb.
        then_read (unpack_items fuel array_size rb)
          (λ vs rb. then_read (unpack_pairs fuel rb) (λ ps rb. ok (table vs ps) rb))) in
      if type == 6 then built else push_plain rb type cookie

  pub unpack_items : ℕ → ℕ → List ℕ → Read Items
  unpack_items zero n rb = stuck
  unpack_items (suc fuel) zero rb = ok no_item rb
  unpack_items (suc fuel) (suc n) rb =
      then_read (unpack_one fuel rb)
        (λ v rb. then_read (unpack_items fuel n rb) (λ vs rb. ok (item v vs) rb))

  pub unpack_pairs : ℕ → List ℕ → Read Pairs
  unpack_pairs zero rb = stuck
  unpack_pairs (suc fuel) rb =
      then_read (unpack_one fuel rb) (λ k rb. unpack_pair fuel (is_nil k) (is_nan k) k rb)

  -- What follows a key.
  pub unpack_pair : ℕ → Bool → Bool → Value → List ℕ → Read Pairs
  unpack_pair zero ends refused k rb = stuck
  unpack_pair (suc fuel) true refused k rb = ok no_pair rb
  unpack_pair (suc fuel) false refused k rb = then_read (unpack_one fuel rb) (λ v rb.
      if refused then invalid else then_read (unpack_pairs fuel rb) (λ ps rb. ok (pair k v ps) rb))

-- The loop of `luaseri_unpack`.
unfoldable pub unpack_all : ℕ → List ℕ → Read (List Value)
unpack_all zero rb = stuck
unpack_all (suc fuel) [] = ok [] []
unpack_all (suc fuel) (type ∷ rb) =
    then_read (push_value fuel rb (type % 8) (type / 8))
      (λ v rb. then_read (unpack_all fuel rb) (λ vs rb. ok (v ∷ vs) rb))

-- `luaseri_unpack` on a C stack with room for `stack` calls inside each other; where it is too small the
-- result is `stuck`. Each round of a loop takes one of them too, so that C needs at most as many.
unfoldable pub unpack_on : ℕ → List ℕ → Read (List Value)
unpack_on stack buffer = unpack_all stack buffer

-- `luaseri_unpack` on a stack that is large enough: three calls for each byte.
unfoldable pub luaseri_unpack : List ℕ → Read (List Value)
luaseri_unpack buffer = unpack_on (3 * length buffer + 1) buffer

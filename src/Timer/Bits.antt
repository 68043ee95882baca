-- ===== src/Timer/Bits.antt =====
-- The masks of skynet_timer.c: `x | (2^k - 1)` at every width.
use Prim.Native.Nat.{bit_or, digits, bit_or-bitwise}
use skynet_gameserver.Prelude.{
  ℕ, zero, suc, ◌+◌, ◌-◌, ◌*◌, ◌/◌, ◌%◌, ◌^◌, ◌≤◌, ◌<◌, max, ◌≡◌, refl, arith, ap, ap₂, sym, ◌∙◌,
}
use native.Mathlib.Nat.{pow-suc, pow-succ', div-div-eq-div-mul}
use skynet_gameserver.Timer.{or_mask}

abbrev or_digits : ℕ → ℕ → ℕ → ℕ
or_digits n a b = digits (λ b. b) max n a b

or_digits_fuel : (n m a b : ℕ) → a ≤ n → a ≤ m → or_digits n a b ≡ or_digits m a b
or_digits_fuel zero zero a b p q = refl
or_digits_fuel zero (suc m) zero b p q = refl
or_digits_fuel zero (suc m) (suc a) b p q = absurd (omega arith)
or_digits_fuel (suc n) zero zero b p q = refl
or_digits_fuel (suc n) zero (suc a) b p q = absurd (omega arith)
or_digits_fuel (suc n) (suc m) zero b p q = refl
or_digits_fuel (suc n) (suc m) (suc a) b p q =
    omega (arith, or_digits_fuel n m (suc a / 2) (b / 2) (omega arith) (omega arith))

zero-bit_or : (b : ℕ) → bit_or 0 b ≡ b
zero-bit_or b = bit_or-bitwise 0 b

bit_or_step : (a b : ℕ) → bit_or a b ≡ bit_or (a / 2) (b / 2) * 2 + max (a % 2) (b % 2)
bit_or_step zero b = omega (arith, zero-bit_or b, zero-bit_or (b / 2))
bit_or_step (suc a) b = omega (
  arith,
  bit_or-bitwise (suc a) b,
  bit_or-bitwise (suc a / 2) (b / 2),
  or_digits_fuel a (suc a / 2) (suc a / 2) (b / 2) (omega arith) (omega arith),
)

bit_or-zero_fuel : (n a : ℕ) → a ≤ n → bit_or a 0 ≡ a
bit_or-zero_fuel n zero h = zero-bit_or 0
bit_or-zero_fuel zero (suc a) h = absurd (omega arith)
bit_or-zero_fuel (suc n) (suc a) h =
    omega (arith, bit_or_step (suc a) 0, bit_or-zero_fuel n (suc a / 2) (omega arith))

or_zero : (x : ℕ) → bit_or x 0 ≡ or_mask x 0
or_zero x = omega (arith, bit_or-zero_fuel x x (omega arith))

pow_pos : (k : ℕ) → 0 < 2 ^ k
pow_pos zero = omega arith
pow_pos (suc k) = omega (arith, pow-suc 2 k, pow_pos k)

-- `x | (2^k - 1)` sets the lowest `k` bits, at every width `k`.
pub bit_or-or_mask : (k x : ℕ) → bit_or x (2 ^ k - 1) ≡ or_mask x k
bit_or-or_mask zero x = or_zero x
bit_or-or_mask (suc k) x = omega (
  arith,
  bit_or_step x (2 ^ suc k - 1),
  ap (bit_or (x / 2)) half,
  odd,
  bit_or-or_mask k (x / 2),
  scaled,
  pow-suc 2 k,
  pow_pos k,
)
  where
    half : (2 ^ suc k - 1) / 2 ≡ 2 ^ k - 1
    half = omega (arith, pow-suc 2 k, pow_pos k)

    odd : (2 ^ suc k - 1) % 2 ≡ 1
    odd = omega (arith, pow-suc 2 k, pow_pos k)

    scaled : x / 2 ^ suc k * 2 ^ suc k ≡ x / 2 / 2 ^ k * (2 ^ k * 2)
    scaled =
        ap₂ ◌*◌ (ap (◌/◌ x) (pow-succ' 2 k) ∙ sym (div-div-eq-div-mul x 2 (2 ^ k))) (pow-suc 2 k)

-- ===== src/Handles/Table.antt =====
-- The table of slots: each service stands where its handle says.
use skynet_gameserver.Prelude.{
  ℕ, leb, Bool-cases, inl, inr, zero, suc, ◌+◌, ◌-◌, ◌*◌, ◌/◌, ◌%◌, ◌^◌, ◌<◌, ◌≤◌, ◌≡◌, sym, ◌∙◌,
  ap, some, arith,
}
use native.Mathlib.Nat.{add-mul-mod_self_left, mod-add-div}
use skynet_gameserver.Handles.{Slots}

-- The size is 2 to some power and at most the number of handles, `harbor` is above the bits of a
-- handle, and a service stands in the slot of its handle.
pub record IsTable (s : Slots) (handles : ℕ → ℕ) : Type 0 where
  pub bits : ℕ
  pub sized : s.slot_size ≡ 2 ^ bits
  pub bound : bits ≤ 24
  pub harbor_high : s.harbor % 2 ^ 24 ≡ 0
  pub index_pos : 0 < s.handle_index
  pub placed : (i ctx : ℕ) → s.slot i ≡ some ctx → handles ctx % s.slot_size ≡ i

-- A remainder by a part of the modulus.
pub mod-mul-mod : (x m k : ℕ) → x % (m * k) % m ≡ x % m
mod-mul-mod x m k =
    sym (add-mul-mod_self_left (x % (m * k)) m (k * (x / (m * k))))
    ∙ ap (λ y. y % m) (grind (arith, mod-add-div x (m * k)))

pub pos-pow : (k : ℕ) → 0 < 2 ^ k
pos-pow zero = omega arith
pos-pow (suc k) = grind (arith, pos-pow k)

pub pow-suc : (k : ℕ) → 2 ^ suc k ≡ 2 ^ k * 2
pow-suc k = grind arith

pow-add : (a b : ℕ) → 2 ^ (a + b) ≡ 2 ^ a * 2 ^ b
pow-add zero b = ap (λ k. 2 ^ k) {y = b} (omega arith) ∙ omega arith
pow-add (suc a) b =
    ap (λ k. 2 ^ k) {y = suc (a + b)} (omega arith)
    ∙ pow-suc (a + b)
    ∙ grind (arith, pow-add a b, pow-suc a)

times_pos : (a b : ℕ) → 0 < b → a ≤ a * b
times_pos a b h = grind arith

pow_le : (a b : ℕ) → a ≤ b → 2 ^ a ≤ 2 ^ b
pow_le a b h =
    let p : 2 ^ b ≡ 2 ^ a * 2 ^ (b - a) =
      ap (λ (k : ℕ). 2 ^ k) {x = b} {y = a + (b - a)} (omega (arith, h)) ∙ pow-add a (b - a) in
    rw p (times_pos (2 ^ a) (2 ^ (b - a)) (pos-pow (b - a)))

-- A table of more than 2^23 slots has 2^24.
pub large_table : (size bits : ℕ) → size ≡ 2 ^ bits → 2 ^ 23 < size → 2 ^ 24 ≤ size
large_table size bits e big = elim (Bool-cases (leb 24 bits)) [
  | inl b ↦ (let l = pow_le 24 bits (ground (arith, b)) in rw e l)
  | inr b ↦ (let l = pow_le bits 23 (ground (arith, b)) in absurd (omega (arith, l, e, big)))
]

-- A multiple of 2^24 changes no slot.
pub high-mod :
    (h harbor bits : ℕ) → harbor % 2 ^ 24 ≡ 0 → bits ≤ 24 → (h + harbor) % 2 ^ bits ≡ h % 2 ^ bits
high-mod h harbor bits e le =
    let q = harbor / 2 ^ 24 in
    let p : 2 ^ 24 ≡ 2 ^ bits * 2 ^ (24 - bits) =
      ap (λ (k : ℕ). 2 ^ k) {x = 24} {y = bits + (24 - bits)} (omega arith)
      ∙ pow-add bits (24 - bits) in
    let z : harbor ≡ 2 ^ bits * (2 ^ (24 - bits) * q) =
      (let whole : harbor ≡ 2 ^ 24 * q = omega arith in whole ∙ ap (λ k. k * q) p ∙ grind arith) in
    ap (λ k. (h + k) % 2 ^ bits) z ∙ add-mul-mod_self_left h (2 ^ bits) (2 ^ (24 - bits) * q)

pub slot_size-le : (s : Slots) (handles : ℕ → ℕ) → IsTable s handles → s.slot_size ≤ 2 ^ 24
slot_size-le s handles t = rw t.sized (pow_le t.bits 24 t.bound)

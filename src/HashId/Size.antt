-- ===== src/HashId/Size.antt =====
-- The size of the table that `hashid_init` makes.
use skynet_gameserver.Prelude.{
  ℕ, zero, suc, ◌+◌, ◌*◌, ◌^◌, ◌<◌, ◌≤◌, ◌≡◌, refl, sym, arith, ltb, inl, inr, Bool-cases,
}
use skynet_gameserver.HashId.{double_until, init}
use skynet_gameserver.Handles.Table.{pow-suc, pos-pow}

-- Rounds that reach `max`, which each adds at least 1, are enough.
le-double_until : (fuel c max : ℕ) → 0 < c → max ≤ c + fuel → max ≤ double_until fuel c max
unfolding double_until
le-double_until zero c max p h = omega arith
le-double_until (suc fuel) c max p h = elim (Bool-cases (ltb c max)) [
  | inl e ↦ rw e (le-double_until fuel (c * 2) max (omega arith) (omega arith))
  | inr e ↦ rw e (ground arith)
]

double_until-pow : (fuel b max : ℕ) → (b' : ℕ) × (double_until fuel (2 ^ b) max ≡ 2 ^ b')
unfolding double_until
double_until-pow zero b max = (b, refl)
double_until-pow (suc fuel) b max = elim (Bool-cases (ltb (2 ^ b) max)) [
  | inl e ↦ rw (e, sym (pow-suc b)) (double_until-pow fuel (suc b) max)
  | inr e ↦ rw e (b, refl)
]

-- `hashid_init` makes at least as many chains as there are nodes, and their number is a power of 2.
pub init_sized :
    (max : ℕ) → (max ≤ (init max).hashmod + 1) × (b : ℕ) × ((init max).hashmod + 1 ≡ 2 ^ b)
unfolding init
init_sized max =
    let p = double_until-pow max 4 max in
    let pos = pos-pow p.0 in
    let le = le-double_until max 16 max (omega arith) (omega arith) in
    (omega arith, p.0, omega (arith, p.1))

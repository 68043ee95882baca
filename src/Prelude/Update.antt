-- ===== src/Prelude/Update.antt =====
-- Tables as functions of an index, changed at one index.
use Prim.Native.Nat.{ℕ}
use mathlib.Core.Path.{◌≡◌, subst}
use mathlib.Core.Logic.{◌≢◌}
use native.Mathlib.Decide.{ℕ_discrete}
use native.Mathlib.Omega.{arith}
use skynet_gameserver.Prelude.Tests.{◌==◌, if◌then◌else◌}

abbrev pub at {ℓ} : {A : Type ℓ} → (ℕ → A) → ℕ → A → ℕ → A
at f q v p = if q == p then v else f p

pub at_self {ℓ} : {A : Type ℓ} (f : ℕ → A) (q : ℕ) (v : A) → at f q v q ≡ v
at_self f q v = ground arith

pub at_ne {ℓ} : {A : Type ℓ} (f : ℕ → A) (q : ℕ) (v : A) (p : ℕ) → q ≢ p → at f q v p ≡ f p
at_ne f q v p h = ground arith

-- To prove something of each index, prove it of the one that is changed and of the others.
pub each_index {ℓ} : {P : ℕ → Type ℓ} (q : ℕ) → P q → ((p : ℕ) → q ≢ p → P p) → (p : ℕ) → P p
each_index {P} q here there p = elim (ℕ_discrete q p) [
  | yes e ↦ subst P e here
  | no ne ↦ there p ne
]

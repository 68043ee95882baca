-- ===== src/Prelude/Arrays.antt =====
-- C arrays as lists: reads with a default, writes, and the cells that a ring visits in order.
use Prim.Native.Nat.{ℕ, zero, suc, ◌+◌, ◌-◌, ◌%◌, ◌<◌, ◌≤◌}
use mathlib.Core.Path.{◌≡◌, refl, ap, ap₂, ◌∙◌}
use mathlib.Core.Logic.{◌≢◌}
use mathlib.Core.List.{List, [], ◌∷◌, ◌++◌}
use native.Mathlib.Nat.{mod-eq_of_lt, mod-eq-sub-mod}
use native.Mathlib.Omega.{arith}
use skynet_gameserver.Prelude.Lists.{length, get_or, set}

module _ {ℓ} {A : Type ℓ} where
  pub get_or-set_self :
      (xs : List A) (i : ℕ) (v d : A) → i < length xs → get_or (set xs i v) i d ≡ v
  get_or-set_self [] i v d h = absurd (omega arith)
  get_or-set_self (x ∷ xs) zero v d h = refl
  get_or-set_self (x ∷ xs) (suc i) v d h = get_or-set_self xs i v d (omega arith)

  pub get_or-set_ne :
      (xs : List A) (i j : ℕ) (v d : A) → i ≢ j → get_or (set xs i v) j d ≡ get_or xs j d
  get_or-set_ne [] i j v d h = refl
  get_or-set_ne (x ∷ xs) zero zero v d h = absurd (h refl)
  get_or-set_ne (x ∷ xs) zero (suc j) v d h = refl
  get_or-set_ne (x ∷ xs) (suc i) zero v d h = refl
  get_or-set_ne (x ∷ xs) (suc i) (suc j) v d h = get_or-set_ne xs i j v d (λ e. h (ap suc e))

  pub get_or-append :
      (xs ys : List A) (i : ℕ) (d : A) → i < length xs → get_or (xs ++ ys) i d ≡ get_or xs i d
  get_or-append [] ys i d h = absurd (omega arith)
  get_or-append (x ∷ xs) ys zero d h = refl
  get_or-append (x ∷ xs) ys (suc i) d h = get_or-append xs ys i d (omega arith)

-- A sum of an index and a distance of at most one round.
pub mod-wrap : (h j c : ℕ) → c ≤ h + j → h + j < c + c → (h + j) % c ≡ h + j - c
mod-wrap h j c p q =
    mod-eq-sub-mod {n = h + j} {m = c} (omega arith)
    ∙ mod-eq_of_lt {n = h + j - c} {m = c} (omega arith)

module _ {ℓ} {A : Type ℓ} (d : A) where
  -- The `n` cells from distance `i` past index `h`, going round at `c`.
  unfoldable pub cells : List A → ℕ → ℕ → ℕ → ℕ → List A
  cells buf c h i zero = []
  cells buf c h i (suc n) = get_or buf ((h + i) % c) d ∷ cells buf c h (i + 1) n

  pub length-cells : (buf : List A) (c h i n : ℕ) → length (cells buf c h i n) ≡ n
  unfolding cells
  length-cells buf c h i zero = refl
  length-cells buf c h i (suc n) = ap suc (length-cells buf c h (i + 1) n)

  pub get_or-cells :
      (buf : List A) (c h i n j : ℕ)
      → j < n
      → get_or (cells buf c h i n) j d ≡ get_or buf ((h + (i + j)) % c) d
  unfolding cells
  get_or-cells buf c h i zero j p = absurd (omega arith)
  get_or-cells buf c h i (suc n) zero p = ap (λ k. get_or buf ((h + k) % c) d) (omega arith)
  get_or-cells buf c h i (suc n) (suc j) p =
      get_or-cells buf c h (i + 1) n j (omega arith)
      ∙ ap (λ k. get_or buf ((h + k) % c) d) (omega arith)

  -- Rings that agree at each distance hold the same cells.
  pub cells_ext :
      (b b' : List A) (c c' h h' i i' n : ℕ)
      → ((j : ℕ) → j < n → get_or b ((h + (i + j)) % c) d ≡ get_or b' ((h' + (i' + j)) % c') d)
      → cells b c h i n ≡ cells b' c' h' i' n
  unfolding cells
  cells_ext b b' c c' h h' i i' zero e = refl
  cells_ext b b' c c' h h' i i' (suc n) e =
      ap₂ ◌∷◌
        (ap (λ k. get_or b ((h + k) % c) d) (omega arith)
          ∙ e 0 (omega arith)
          ∙ ap (λ k. get_or b' ((h' + k) % c') d) (omega arith))
        (cells_ext b b' c c' h h' (i + 1) (i' + 1) n λ j p.
          ap (λ k. get_or b ((h + k) % c) d) (omega arith)
          ∙ e (suc j) (omega arith)
          ∙ ap (λ k. get_or b' ((h' + k) % c') d) (omega arith))

  pub cells-snoc :
      (b : List A) (c h i n : ℕ)
      → cells b c h i (suc n) ≡ cells b c h i n ++ get_or b ((h + (i + n)) % c) d ∷ []
  unfolding cells
  cells-snoc b c h i zero = ap (λ k. get_or b ((h + k) % c) d ∷ []) (omega arith)
  cells-snoc b c h i (suc n) = ap (◌∷◌ (get_or b ((h + i) % c) d)) (
      cells-snoc b c h (i + 1) n
      ∙ ap (λ k. cells b c h (i + 1) n ++ get_or b ((h + k) % c) d ∷ []) (omega arith))

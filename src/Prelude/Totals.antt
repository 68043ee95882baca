-- ===== src/Prelude/Totals.antt =====
-- A number for each thread, summed over all threads.
use skynet_gameserver.Prelude.{
  ℕ, zero, suc, ◌+◌, ◌≤◌, ◌≡◌, ◌≢◌, refl, some, List, [], ◌∷◌, ◌++◌, arith, get_elem?, set,
}

module _ {A : Type 0} where
  abbrev pub total : (A → ℕ) → List A → ℕ
  total f [] = 0
  total f (pc ∷ ts) = f pc + total f ts

  pub total-snoc : (f : A → ℕ) (ts : List A) (pc : A) → total f (ts ++ pc ∷ []) ≡ total f ts + f pc
  total-snoc f [] pc = omega arith
  total-snoc f (x ∷ ts) pc = omega (arith, total-snoc f ts pc)

  -- A thread that moves takes its own part with it.
  pub total-set :
      (f : A → ℕ) (ts : List A) (i : ℕ) (pc pc' : A)
      → get_elem? ts i ≡ some pc
      → total f (set ts i pc') + f pc ≡ total f ts + f pc'
  total-set f [] i pc pc' e = absurd (cc)
  total-set f (x ∷ ts) zero pc pc' e = ground arith
  total-set f (x ∷ ts) (suc i) pc pc' e = omega (arith, total-set f ts i pc pc' e)

  pub le-total :
      (f : A → ℕ) (ts : List A) (i : ℕ) (pc : A) → get_elem? ts i ≡ some pc → f pc ≤ total f ts
  le-total f [] i pc e = absurd (cc)
  le-total f (x ∷ ts) zero pc e = ground arith
  le-total f (x ∷ ts) (suc i) pc e = omega (arith, le-total f ts i pc e)

  -- Two different threads add up.
  pub add-le-total :
      (f : A → ℕ) (ts : List A) (i j : ℕ) (pc pc' : A)
      → i ≢ j
      → get_elem? ts i ≡ some pc
      → get_elem? ts j ≡ some pc'
      → f pc + f pc' ≤ total f ts
  add-le-total f [] i j pc pc' ne e e' = absurd (cc)
  add-le-total f (x ∷ ts) zero zero pc pc' ne e e' = absurd (ne refl)
  add-le-total f (x ∷ ts) zero (suc j) pc pc' ne e e' = ground (arith, le-total f ts j pc' e')
  add-le-total f (x ∷ ts) (suc i) zero pc pc' ne e e' = ground (arith, le-total f ts i pc e)
  add-le-total f (x ∷ ts) (suc i) (suc j) pc pc' ne e e' =
      omega (arith, add-le-total f ts i j pc pc' (λ h. ne (omega arith)) e e')

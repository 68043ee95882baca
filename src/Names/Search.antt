-- ===== src/Names/Search.antt =====
-- The binary search of skynet_handle.c over the sorted names.
use Prim.Native.Nat.{Ordering}
use skynet_gameserver.Prelude.{
  ℕ, zero, suc, ◌+◌, ◌-◌, ◌/◌, ◌≤◌, ◌<◌, ◌≡◌, refl, ◌⊎◌, inl, inr, Bool-cases, List, [], ◌∷◌, arith,
  leb, length, get_or, subst, sym,
}
use skynet_gameserver.Names.{Name, HandleName, strcmp, Found, hit, miss, search_name, no_name}
use skynet_gameserver.Names.Order.{Below, Below-trans, Below-of_gt, strcmp-eq}

-- The name at index `i`.
abbrev pub name_at : List HandleName → ℕ → Name
name_at t i = (get_or t i no_name).name

abbrev pub AllAbove : Name → List HandleName → Type 0
AllAbove a [] = Unit {0}
AllAbove a (n ∷ t) = Below a n.name × AllAbove a t

-- The names rise strictly, so that each stands once.
abbrev pub Sorted : List HandleName → Type 0
Sorted [] = Unit {0}
Sorted (n ∷ t) = AllAbove n.name t × Sorted t

pub AllAbove-at :
    (a : Name) (t : List HandleName) (j : ℕ) → AllAbove a t → j < length t → Below a (name_at t j)
AllAbove-at a [] j h k = absurd (omega arith)
AllAbove-at a (n ∷ t) zero h k = h.0
AllAbove-at a (n ∷ t) (suc j) h k = AllAbove-at a t j h.1 (omega arith)

Sorted-at :
    (t : List HandleName) (i j : ℕ)
    → Sorted t
    → i < j
    → j < length t
    → Below (name_at t i) (name_at t j)
Sorted-at [] i j s h k = absurd (omega arith)
Sorted-at (n ∷ t) i zero s h k = absurd (omega arith)
Sorted-at (n ∷ t) zero (suc j) s h k = AllAbove-at n.name t j s.0 (omega arith)
Sorted-at (n ∷ t) (suc i) (suc j) s h k = Sorted-at t i j s.1 (omega arith) (omega arith)

pub Ordering-cases : (o : Ordering) → (o ≡ Ordering.lt) ⊎ (o ≡ Ordering.eq) ⊎ (o ≡ Ordering.gt)
Ordering-cases Ordering.lt = inl refl
Ordering-cases Ordering.eq = inr (inl refl)
Ordering-cases Ordering.gt = inr (inr refl)

abbrev pub BelowUpTo : List HandleName → Name → ℕ → Type 0
BelowUpTo t name i = (j : ℕ) → j < i → Below (name_at t j) name

abbrev pub AboveFrom : List HandleName → Name → ℕ → Type 0
AboveFrom t name i = (j : ℕ) → i ≤ j → j < length t → Below name (name_at t j)

-- What the search has to find: an entry of the name, or the place that parts the smaller names
-- from the greater ones.
abbrev pub Located : List HandleName → Name → Found → Type 0
Located t name (hit n) = (i : ℕ) × (i < length t) × (get_or t i no_name ≡ n) × (n.name ≡ name)
Located t name (miss i) = (i ≤ length t) × BelowUpTo t name i × AboveFrom t name i

below_mid :
    (t : List HandleName) (name : Name) (mid : ℕ)
    → Sorted t
    → mid < length t
    → strcmp (name_at t mid) name ≡ Ordering.lt
    → BelowUpTo t name (mid + 1)
below_mid t name mid s h e j k = elim (Bool-cases (leb mid j)) [
  | inl b ↦ let q : j ≡ mid = ground arith in subst (λ j. Below (name_at t j) name) (sym q) e
  | inr b ↦ Below-trans (name_at t j) (name_at t mid) name (Sorted-at t j mid s (ground arith) h) e
]

above_mid :
    (t : List HandleName) (name : Name) (mid : ℕ)
    → Sorted t
    → mid < length t
    → strcmp (name_at t mid) name ≡ Ordering.gt
    → AboveFrom t name mid
above_mid t name mid s h e j k k' = elim (Bool-cases (leb j mid)) [
  | inl b ↦
      let q : j ≡ mid = ground arith in
      subst (λ j. Below name (name_at t j)) (sym q) (Below-of_gt (name_at t mid) name e)
  | inr b ↦
      Below-trans name (name_at t mid) (name_at t j) (Below-of_gt (name_at t mid) name e)
        (Sorted-at t mid j s (ground arith) k')
]

pub search_name-Located :
    (fuel : ℕ) (t : List HandleName) (name : Name) (begin stop : ℕ)
    → Sorted t
    → stop ≤ begin + fuel
    → begin ≤ stop
    → stop ≤ length t
    → BelowUpTo t name begin
    → AboveFrom t name stop
    → Located t name (search_name fuel t name begin stop)
unfolding search_name
search_name-Located zero t name begin stop s h h' h'' b a =
    (omega arith, b, λ j k k'. a j (omega arith) k')
search_name-Located (suc fuel) t name begin stop s h h' h'' b a =
    elim (Bool-cases (leb stop begin)) [
      | inl e ↦ rw e (ground arith, b, λ j k k'. a j (ground arith) k')
      | inr e ↦
          let mid = (begin + (stop - 1)) / 2 in
          let inside : begin < stop = ground arith in
          let m : mid < stop = omega arith in
          elim (Ordering-cases (strcmp (name_at t mid) name)) [
            | inl lt ↦
                rw (e, lt)
                  (search_name-Located fuel t name (mid + 1) stop s (omega arith) (omega arith) h''
                    (below_mid t name mid s (omega arith) lt) a)
            | inr (inl eq) ↦ rw (e, eq) (mid, omega arith, refl, strcmp-eq (name_at t mid) name eq)
            | inr (inr gt) ↦
                rw (e, gt)
                  (search_name-Located fuel t name begin mid s (omega arith) (omega arith)
                    (omega arith) b (above_mid t name mid s (omega arith) gt))
          ]
    ]

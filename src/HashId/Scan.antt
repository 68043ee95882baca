-- ===== src/HashId/Scan.antt =====
-- The scan of `hashid_insert` for a node that is not in use.
use skynet_gameserver.Prelude.{
  ℕ, zero, suc, ◌+◌, ◌-◌, ◌*◌, ◌/◌, ◌%◌, ◌^◌, ltb, leb, ◌<◌, ◌≤◌, ◌≡◌, refl, Option, none, some,
  arith, true, false, Bool-cases, inl, inr, if◌then◌else◌, at, at_ne, at_self, sym, ap, ◌∙◌,
}
use native.Mathlib.Decide.{ℕ_discrete}
use native.Mathlib.Nat.{add-mul-mod_self_left, mod-add-div, mod-eq_of_lt}
use mathlib.Core.Option.{some-injective}
use skynet_gameserver.HashId.{HashId, in_use, free_node}

-- The number of nodes below `n` that are in use.
abbrev pub used : (ℕ → Option ℕ) → ℕ → ℕ
used ids zero = 0
used ids (suc n) = used ids n + (if in_use (ids n) then 1 else 0)

used-at_above :
    (ids : ℕ → Option ℕ) (k n : ℕ) (v : Option ℕ) → n ≤ k → used (at ids k v) n ≡ used ids n
used-at_above ids k zero v h = refl
used-at_above ids k (suc n) v h =
    rw (at_ne ids k v n (omega arith), used-at_above ids k n v (omega arith)) refl

abbrev weight : Option ℕ → ℕ
weight o = if in_use o then 1 else 0

used-at :
    (ids : ℕ → Option ℕ) (k n : ℕ) (v : Option ℕ)
    → k < n
    → used (at ids k v) n + weight (ids k) ≡ used ids n + weight v
used-at ids k zero v h = absurd (omega arith)
used-at ids k (suc n) v h = elim (ℕ_discrete k n) [
  | yes e ↦ (rw (sym e, at_self ids k v, used-at_above ids k k v (omega arith)) (omega arith))
  | no ne ↦ rw (at_ne ids k v n ne) (omega (arith, used-at ids k n v (omega arith)))
]

pub used-take :
    (ids : ℕ → Option ℕ) (k n x : ℕ)
    → k < n
    → ids k ≡ none
    → used (at ids k (some x)) n ≡ used ids n + 1
used-take ids k n x h e =
    let whole : used (at ids k (some x)) n + 0 ≡ used ids n + 1 =
      rw e at (used-at ids k n (some x) h) in
    omega arith

pub used-release :
    (ids : ℕ → Option ℕ) (k n x : ℕ)
    → k < n
    → ids k ≡ some x
    → used (at ids k none) n + 1 ≡ used ids n
used-release ids k n x h e =
    let whole : used (at ids k none) n + 1 ≡ used ids n + 0 = rw e at (used-at ids k n none h) in
    omega arith

pub used-all :
    (ids : ℕ → Option ℕ) (n : ℕ) → ((b : ℕ) → b < n → in_use (ids b) ≡ true) → used ids n ≡ n
used-all ids zero h = refl
used-all ids (suc n) h =
    rw (h n (omega arith), used-all ids n (λ b l. h b (omega arith))) (omega arith)

pub used-le : (ids : ℕ → Option ℕ) (n : ℕ) → used ids n ≤ n
used-le ids zero = omega arith
used-le ids (suc n) = ground (arith, used-le ids n)

module _ (hi : HashId) (x : ℕ) where
  -- A round whose index does not overflow
  in_int :
      (i rounds : ℕ) (o : Option ℕ)
      → ltb (i + x) (2 ^ 31) ≡ true
      → free_node hi x i (suc rounds) ≡ o
      → (if in_use (hi.id ((i + x) % hi.cap))
          then free_node hi x (i + 1) rounds
          else some ((i + x) % hi.cap))
        ≡ o
  unfolding free_node
  in_int i rounds o b e = rw b at e

  found_in_int :
      (i rounds c : ℕ) → free_node hi x i (suc rounds) ≡ some c → ltb (i + x) (2 ^ 31) ≡ true
  unfolding free_node
  found_in_int i rounds c e = elim (Bool-cases (ltb (i + x) (2 ^ 31))) [
    | inl b ↦ b
    | inr b ↦ absurd (let e' : none ≡ some c = rw b at e in cc)
  ]

  pub free_node-free :
      (i rounds c : ℕ)
      → 0 < hi.cap
      → free_node hi x i rounds ≡ some c
      → (hi.id c ≡ none) × (c < hi.cap)
  unfolding free_node
  free_node-free i zero c p e = absurd (cc)
  free_node-free i (suc rounds) c p e =
      let e₁ = in_int i rounds (some c) (found_in_int i rounds c e) e in
      elim (Bool-cases (in_use (hi.id ((i + x) % hi.cap)))) [
        | inl b ↦
            (let e' : free_node hi x (i + 1) rounds ≡ some c = rw b at e₁ in
              free_node-free (i + 1) rounds c p e')
        | inr b ↦
            (let e' : some ((i + x) % hi.cap) ≡ some c = rw b at e₁ in
              let same : (i + x) % hi.cap ≡ c = some-injective ((i + x) % hi.cap) c e' in
              let below : (i + x) % hi.cap < hi.cap = grind arith in
              rw (sym same) (unused (hi.id ((i + x) % hi.cap)) b, below))
      ]
    where
      unused : (o : Option ℕ) → in_use o ≡ false → o ≡ none
      unused none h = refl
      unused (some y) h = absurd (cc)

  taken_cells :
      (i rounds : ℕ)
      → i + rounds + x ≤ 2 ^ 31
      → free_node hi x i rounds ≡ none
      → (j : ℕ) → i ≤ j
      → j < i + rounds
      → in_use (hi.id ((j + x) % hi.cap)) ≡ true
  taken_cells i zero small e j l u = absurd (omega arith)
  taken_cells i (suc rounds) small e j l u =
      let e₁ = in_int i rounds none (ground (arith, small)) e in
      elim (Bool-cases (in_use (hi.id ((i + x) % hi.cap)))) [
        | inl b ↦
            (let e' : free_node hi x (i + 1) rounds ≡ none = rw b at e₁ in
              elim (ℕ_discrete i j) [
                | yes same ↦ rw (sym same) b
                | no ne ↦
                    taken_cells (i + 1) rounds (omega (arith, small)) e' j (omega arith)
                      (omega arith)
              ])
        | inr b ↦ absurd (let e' : some ((i + x) % hi.cap) ≡ none = rw b at e₁ in cc)
      ]

  -- The scan comes to every node.
  visit : (b c : ℕ) → b < c → (j : ℕ) × (j < c) × ((j + x) % c ≡ b)
  visit b c h = elim (Bool-cases (leb (x % c) b)) [
    | inl e ↦ (b - x % c, omega arith, wrap (b - x % c) 0 (grind (arith, mod-add-div x c)))
    | inr e ↦ (b + c - x % c, ground arith, wrap (b + c - x % c) 1 (grind (arith, mod-add-div x c)))
  ]
    where
      wrap : (j k : ℕ) → j + x ≡ b + c * (x / c + k) → (j + x) % c ≡ b
      wrap j k e = ap (λ y. y % c) e ∙ add-mul-mod_self_left b c (x / c + k) ∙ mod-eq_of_lt h

  -- The scan that finds none has seen every node.
  pub used-full : x + hi.cap ≤ 2 ^ 31 → free_node hi x 0 hi.cap ≡ none → used hi.id hi.cap ≡ hi.cap
  used-full small e = used-all hi.id hi.cap (λ b h.
      let v = visit b hi.cap h in
      let seen : in_use (hi.id ((v.0 + x) % hi.cap)) ≡ true =
        taken_cells 0 hi.cap (omega (arith, small)) e v.0 (omega arith) (omega (arith, v.1)) in
      rw v.2 at seen)

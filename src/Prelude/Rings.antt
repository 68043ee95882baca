-- ===== src/Prelude/Rings.antt =====
-- A ring: the cells from `head` up to `tail` in an array of `c` cells, where a ring that holds `c`
-- cells does not occur. A write goes to the cell at `tail`, a read takes the cell at `head`.
use skynet_gameserver.Prelude.{
  ℕ, suc, ◌+◌, ◌-◌, ◌%◌, ◌<◌, ◌≤◌, ◌≡◌, ◌≢◌, refl, ap, ap₂, ◌∙◌, inl, inr, Bool-cases, List, [],
  ◌∷◌, ◌++◌, arith, leb, if◌then◌else◌, length, get_or, set,
}
use skynet_gameserver.Prelude.Arrays.{
  cells, cells_ext, cells-snoc, get_or-set_self, get_or-set_ne, mod-wrap,
}
use native.Mathlib.Nat.{mod-eq_of_lt}

abbrev pub ring_length : ℕ → ℕ → ℕ → ℕ
ring_length h t c = if leb h t then t - h else t + c - h

-- The next index.
abbrev pub ring_next : ℕ → ℕ → ℕ
ring_next i c = if leb c (i + 1) then 0 else i + 1

pub ring_length-lt : (h t c : ℕ) → h < c → t < c → ring_length h t c < c
ring_length-lt h t c p q = ground arith

-- The tail is where the next cell goes.
pub tail-eq : (h t c : ℕ) → h < c → t < c → (h + ring_length h t c) % c ≡ t
tail-eq h t c hh ht = elim (Bool-cases (leb h t)) [
  | inl e ↦ rw e (ap (λ k. k % c) (ground arith) ∙ mod-eq_of_lt ht)
  | inr e ↦ rw e (mod-wrap h (t + c - h) c (ground arith) (ground arith) ∙ ground arith)
]

-- Fewer than `c` steps round a ring do not come back to the start.
turn-ne : (h j k c : ℕ) → h < c → j < k → k < c → (h + k) % c ≢ (h + j) % c
turn-ne h j k c hh hj hk e = grind arith

next_round : (j h c : ℕ) → h < c → c ≤ h + 1 → (h + (0 + 1 + j)) % c ≡ (0 + (0 + j)) % c
next_round j h c p r = grind arith

next_index : (j h c : ℕ) → h < c → (h + (0 + 1 + j)) % c ≡ (ring_next h c + (0 + j)) % c
next_index j h c p = elim (Bool-cases (leb c (h + 1))) [
  | inl e ↦ rw e (next_round j h c p (ground arith))
  | inr e ↦ rw e (ap (λ k. k % c) (omega arith))
]

pub ring_length-write :
    (h t c : ℕ)
    → h < c
    → t < c
    → h ≢ ring_next t c
    → ring_length h (ring_next t c) c ≡ suc (ring_length h t c)
ring_length-write h t c p q ne = ground arith

pub ring_length-full : (h t c : ℕ) → h < c → t < c → h ≡ ring_next t c → c ≡ suc (ring_length h t c)
ring_length-full h t c p q e = ground arith

pub ring_length-read :
    (h t c : ℕ) → h < c → t < c → h ≢ t → ring_length h t c ≡ suc (ring_length (ring_next h c) t c)
ring_length-read h t c p q ne = ground arith

module _ {ℓ} {A : Type ℓ} (d : A) where
  abbrev pub held : List A → ℕ → ℕ → ℕ → List A
  held buf c h t = cells d buf c h 0 (ring_length h t c)

  pub cells-write :
      (buf : List A) (c h t : ℕ) (v : A)
      → length buf ≡ c
      → h < c
      → t < c
      → cells d (set buf t v) c h 0 (suc (ring_length h t c)) ≡ held buf c h t ++ v ∷ []
  cells-write buf c h t v storage head_in tail_in =
      let n = ring_length h t c in
      let here : (h + (0 + n)) % c ≡ t =
        ap (λ k. (h + k) % c) (omega arith) ∙ tail-eq h t c head_in tail_in in
      cells-snoc d _ c h 0 n
      ∙ ap₂ (λ (xs : List A) x. xs ++ x ∷ [])
          (cells_ext d _ buf c c h h 0 0 n λ j p. get_or-set_ne buf t ((h + (0 + j)) % c) v d (λ e.
            turn-ne h j n c head_in p (ring_length-lt h t c head_in tail_in)
              (tail-eq h t c head_in tail_in ∙ e ∙ ap (λ k. (h + k) % c) (omega arith))))
          (ap (λ k. get_or (set buf t v) k d) here ∙ get_or-set_self buf t v d (omega arith))

  -- A write that leaves room.
  pub held-write :
      (buf : List A) (c h t : ℕ) (v : A)
      → length buf ≡ c
      → h < c
      → t < c
      → h ≢ ring_next t c
      → held (set buf t v) c h (ring_next t c) ≡ held buf c h t ++ v ∷ []
  held-write buf c h t v s p q ne =
      ap (λ n. cells d (set buf t v) c h 0 n) (ring_length-write h t c p q ne)
      ∙ cells-write buf c h t v s p q

  -- A write that fills the array.
  pub cells-write_full :
      (buf : List A) (c h t : ℕ) (v : A)
      → length buf ≡ c
      → h < c
      → t < c
      → h ≡ ring_next t c
      → cells d (set buf t v) c h 0 c ≡ held buf c h t ++ v ∷ []
  cells-write_full buf c h t v s p q e =
      ap (λ n. cells d (set buf t v) c h 0 n) (ring_length-full h t c p q e)
      ∙ cells-write buf c h t v s p q

  pub held-read :
      (buf : List A) (c h t : ℕ)
      → h < c
      → t < c
      → h ≢ t
      → held buf c h t ≡ get_or buf h d ∷ held buf c (ring_next h c) t
  unfolding cells
  held-read buf c h t p q ne =
      ap (λ n. cells d buf c h 0 n) (ring_length-read h t c p q ne)
      ∙ ap₂ ◌∷◌ (ap (λ k. get_or buf k d) (ap (λ k. k % c) (omega arith) ∙ mod-eq_of_lt p)) (
          cells_ext d buf buf c c h (ring_next h c) (0 + 1) 0 (ring_length (ring_next h c) t c)
            λ j k. ap (λ i. get_or buf i d) (next_index j h c p))

  pub held-empty : (buf : List A) (c h t : ℕ) → h ≡ t → held buf c h t ≡ []
  unfolding cells
  held-empty buf c h t e = ap (λ n. cells d buf c h 0 n) {y = 0} (ground arith) ∙ refl

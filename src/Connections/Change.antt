-- ===== src/Connections/Change.antt =====
-- One entry of the map changes.
use skynet_gameserver.Prelude.{
  ℕ, ◌<◌, ◌≡◌, ◌≢◌, refl, sym, ap, subst, ◌∙◌, Option, none, some, ◌==◌, if◌then◌else◌, arith,
}
use native.Mathlib.Decide.{ℕ_discrete}
use mathlib.Core.Option.{some-injective}
use skynet_gameserver.Databuffer.{empty_buffer}
use skynet_gameserver.HashId.{lookup}
use skynet_gameserver.HashId.Map.{IsMap}
use skynet_gameserver.Connections.{Connections, idle}
use skynet_gameserver.Connections.Table.{of_node, view, IsTable, with_entry}

-- What stands at the node `k` of the id `x`, or of none.
abbrev pub Owns : Connections → ℕ → ℕ → Option ℕ → Type 0
Owns s x k none = (s.conn k ≡ idle) × (s.buffer k ≡ empty_buffer)
Owns s x k (some j) = (j ≡ k) × ((s.conn k).id ≡ x)

-- At most the node `k` changes; the id `x` had it or none, and has now `o`.
pub record Change (s s' : Connections) (x k : ℕ) (o : Option ℕ) : Type 0 where
  pub others : (j : ℕ) → k ≢ j → (s'.conn j ≡ s.conn j) × (s'.buffer j ≡ s.buffer j)
  pub looked : (y : ℕ) → lookup s'.hash y ≡ (if y == x then o else lookup s.hash y)
  pub apart : (y j : ℕ) → y ≢ x → lookup s.hash y ≡ some j → k ≢ j
  pub before : (j : ℕ) → lookup s.hash x ≡ some j → j ≡ k
  pub owns : Owns s' x k o

module _ (s s' : Connections) (x k : ℕ) (o : Option ℕ) (d : Change s s' x k o) where
  looked_self : lookup s'.hash x ≡ o
  looked_self = d.looked x ∙ ground arith

  looked_other : (y : ℕ) → y ≢ x → lookup s'.hash y ≡ lookup s.hash y
  looked_other y ne = d.looked y ∙ ground (arith, ne)

  pub view-change : (y : ℕ) → view s' y ≡ with_entry (view s) x (of_node s'.conn s'.buffer o) y
  unfolding view
  view-change y = elim (ℕ_discrete y x) [
    | yes p ↦
        ap (of_node s'.conn s'.buffer) (ap (lookup s'.hash) p ∙ looked_self) ∙ ground (arith, p)
    | no ne ↦
        (ap (of_node s'.conn s'.buffer) (looked_other y ne)
          ∙ same (lookup s.hash y) (λ j. d.apart y j ne)
          ∙ ground (arith, ne))
  ]
    where
      same :
          (r : Option ℕ)
          → ((j : ℕ) → r ≡ some j → k ≢ j)
          → of_node s'.conn s'.buffer r ≡ of_node s.conn s.buffer r
      same none a = refl
      same (some j) a = rw ((d.others j (a j refl)).0, (d.others j (a j refl)).1) refl

  pub change-IsTable : IsTable s → IsMap s'.hash → 0 < s'.hash.cap → IsTable s'
  change-IsTable t m r = record {
    is_map = m;
    room = r;
    named = λ y j e. elim (ℕ_discrete y x) [
      | yes p ↦ owned o d.owns j (sym looked_self ∙ ap (lookup s'.hash) (sym p) ∙ e) ∙ sym p
      | no ne ↦
          (let old = sym (looked_other y ne) ∙ e in
            ap (λ c. c.id) (d.others j (d.apart y j ne old)).0 ∙ t.named y j old)
    ];
    unused = λ j n. elim (ℕ_discrete k j) [
      | yes p ↦ left o d.owns looked_self j p n
      | no ne ↦
          (let never : (y : ℕ) → lookup s.hash y ≢ some j = (λ y e. elim (ℕ_discrete y x) [
            | yes p ↦ ne (sym (d.before j (ap (lookup s.hash) (sym p) ∙ e)))
            | no q ↦ n y (looked_other y q ∙ e)
          ]) in
            ((d.others j ne).0 ∙ (t.unused j never).0, (d.others j ne).1 ∙ (t.unused j never).1))
    ];
  }
    where
      owned : (r : Option ℕ) → Owns s' x k r → (j : ℕ) → r ≡ some j → (s'.conn j).id ≡ x
      owned none w j e = absurd (cc)
      owned (some i) w j e = ap (λ h. (s'.conn h).id) (some-injective j i (sym e) ∙ w.0) ∙ w.1

      left :
          (r : Option ℕ)
          → Owns s' x k r
          → lookup s'.hash x ≡ r
          → (j : ℕ) → k ≡ j
          → ((y : ℕ) → lookup s'.hash y ≢ some j)
          → (s'.conn j ≡ idle) × (s'.buffer j ≡ empty_buffer)
      left none w e j p n = subst (λ h. (s'.conn h ≡ idle) × (s'.buffer h ≡ empty_buffer)) p w
      left (some i) w e j p n = absurd (n x (e ∙ ap some (w.0 ∙ p)))

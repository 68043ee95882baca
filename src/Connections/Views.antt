-- ===== src/Connections/Views.antt =====
-- The node of an id and its view.
use skynet_gameserver.Prelude.{
  ℕ, ◌<◌, ◌≡◌, refl, sym, ap, ◌∙◌, Option, none, some, ◌==◌, if◌then◌else◌, arith,
}
use native.Mathlib.Decide.{ℕ_discrete}
use skynet_gameserver.HashId.{HashId, lookup}
use skynet_gameserver.HashId.Map.{IsMap}
use skynet_gameserver.Connections.{Connections}
use skynet_gameserver.Connections.Table.{of_node, view, IsTable, Becomes}

module _ (s : Connections) (t : IsTable s) where
  pub view-some : (x k : ℕ) → lookup s.hash x ≡ some k → view s x ≡ some (s.conn k, s.buffer k)
  unfolding view
  view-some x k e = rw e refl

  pub view-none : (x : ℕ) → lookup s.hash x ≡ none → view s x ≡ none
  unfolding view
  view-none x e = rw e refl

  pub none-view : (x : ℕ) → view s x ≡ none → lookup s.hash x ≡ none
  unfolding view
  none-view x e = go (lookup s.hash x) e
    where
      go : (o : Option ℕ) → of_node s.conn s.buffer o ≡ none → o ≡ none
      go none q = refl
      go (some k) q = absurd (cc)

  pub without :
      (y x : ℕ)
      → lookup s.hash x ≡ none
      → (if y == x then none else lookup s.hash y) ≡ lookup s.hash y
  without y x e = elim (ℕ_discrete y x) [
    | yes p ↦ ground (arith, p) ∙ sym (ap (lookup s.hash) p ∙ e)
    | no ne ↦ ground (arith, ne)
  ]

  pub same_map :
      (hash : HashId)
      → ((y : ℕ) → lookup hash y ≡ lookup s.hash y)
      → IsMap hash
      → 0 < hash.cap
      → Becomes s (view s) s.mp (record s { hash = hash })
  unfolding view
  same_map hash same m r = record {
    is_table = record {
      is_map = m;
      room = r;
      named = λ x k e. t.named x k (sym (same x) ∙ e);
      unused = λ k n. t.unused k (λ x e. n x (same x ∙ e));
    };
    viewed = λ y. ap (of_node s.conn s.buffer) (same y);
    pool = refl;
    same_gate = refl;
    same_listen = refl;
  }

  pub same_lookup :
      (x k : ℕ)
      → lookup s.hash x ≡ some k
      → (y : ℕ) → lookup s.hash y ≡ (if y == x then some k else lookup s.hash y)
  same_lookup x k e y = elim (ℕ_discrete y x) [
    | yes p ↦ ap (lookup s.hash) p ∙ e ∙ ground (arith, p)
    | no ne ↦ ground (arith, ne)
  ]

-- ===== src/HashId/Remove.antt =====
-- `hashid_remove`.
use skynet_gameserver.Prelude.{
  ℕ, ◌+◌, ◌-◌, ◌%◌, ◌≡◌, ◌≢◌, refl, sym, ap, subst, ◌∙◌, Option, none, some, arith, ◌==◌,
  if◌then◌else◌, at, at_self, at_ne,
}
use native.Mathlib.Decide.{ℕ_discrete}
use mathlib.Core.Option.{some-injective}
use skynet_gameserver.GlobalMq.Linked.{NotIn, Distinct}
use skynet_gameserver.HashId.{HashId, unlink, lookup, remove}
use skynet_gameserver.HashId.Chain.{
  find-id, find-at_other, NotIn-unlink, Distinct-unlink, NotIn-unlink_found, find-unlink_other,
}
use skynet_gameserver.HashId.Scan.{used-release}
use skynet_gameserver.HashId.Map.{IsMap, Removed, at_chain}

module _ (hi : HashId) (x c : ℕ) (m : IsMap hi) (e : lookup hi x ≡ some c) where
  abbrev g : ℕ
  g = x % (hi.hashmod + 1)

  abbrev released : HashId
  released = record hi {
    id = at hi.id c none;
    hash = at hi.hash g (unlink hi.id (hi.hash g) x);
    count = hi.count - 1;
  }

  its_id : hi.id c ≡ some x
  unfolding lookup
  its_id = find-id hi.id (hi.hash g) x c e

  out_of_chain : NotIn c (unlink hi.id (hi.hash g) x)
  unfolding lookup
  out_of_chain = NotIn-unlink_found hi.id (hi.hash g) x c (m.distinct g) e

  NotIn-released : (h' b : ℕ) → NotIn b (hi.hash h') → NotIn b (released.hash h')
  NotIn-released h' b n = elim (ℕ_discrete g h') [
    | yes p ↦
        rw (sym p, at_self hi.hash g (unlink hi.id (hi.hash g) x))
          (NotIn-unlink hi.id (hi.hash g) x b (rw (sym p) at n))
    | no ne ↦ rw (at_ne hi.hash g (unlink hi.id (hi.hash g) x) h' ne) n
  ]

  NotIn-released_node : (h' : ℕ) → NotIn c (released.hash h')
  NotIn-released_node =
      at_chain (NotIn c) hi.hash g (unlink hi.id (hi.hash g) x) out_of_chain
        (λ h' ne. m.own_chain h' c x its_id ne)

  kept : (b y : ℕ) → at hi.id c none b ≡ some y → (c ≢ b) × (hi.id b ≡ some y)
  kept b y q = elim (ℕ_discrete c b) [
    | yes p ↦ absurd (ground (arith, q, p))
    | no n ↦ (n, rw (at_ne hi.id c none b n) at q)
  ]

  lookup-released : (y : ℕ) → lookup released y ≡ (if y == x then none else lookup hi y)
  unfolding lookup
  lookup-released y = elim (ℕ_discrete y x) [
    | yes p ↦ none_left (lookup released y) refl p ∙ ground (arith, p)
    | no ne ↦ others y ne ∙ ground (arith, ne)
  ]
    where
      none_left : (o : Option ℕ) → lookup released y ≡ o → y ≡ x → lookup released y ≡ none
      none_left none q p = q
      none_left (some b) q p =
          let id : at hi.id c none b ≡ some y =
            find-id released.id (released.hash (y % (hi.hashmod + 1))) y b q in
          let k = kept b y id in
          let again : lookup hi x ≡ some b = m.found b x (rw p at k.1) in
          absurd (k.0 (some-injective c b (sym e ∙ again)))

      others : (y : ℕ) → y ≢ x → lookup released y ≡ lookup hi y
      others y ne =
          let h' = y % (hi.hashmod + 1) in
          find-at_other hi.id c none (released.hash h') y (NotIn-released_node h')
          ∙ elim (ℕ_discrete g h') [
            | yes p ↦
                rw (sym p, at_self hi.hash g (unlink hi.id (hi.hash g) x))
                  (find-unlink_other hi.id (hi.hash g) x y ne)
            | no n ↦ rw (at_ne hi.hash g (unlink hi.id (hi.hash g) x) h' n) refl
          ]

  released-IsMap : IsMap released
  released-IsMap = record {
    free_out = λ h' b q. elim (ℕ_discrete c b) [
      | yes p ↦ rw (sym p) (NotIn-released_node h')
      | no n ↦ NotIn-released h' b (m.free_out h' b (rw (at_ne hi.id c none b n) at q))
    ];
    own_chain = λ h' b y q ne. NotIn-released h' b (m.own_chain h' b y (kept b y q).1 ne);
    distinct =
        at_chain Distinct hi.hash g (unlink hi.id (hi.hash g) x)
          (Distinct-unlink hi.id (hi.hash g) x (m.distinct g)) (λ h' ne. m.distinct h');
    found = λ b y q.
        let k = kept b y q in
        let old : lookup hi y ≡ some b = m.found b y k.1 in
        let apart : y ≢ x = (λ p.
          let same : lookup hi x ≡ some b = rw p at old in
          k.0 (some-injective c b (sym e ∙ same))) in
        lookup-released y ∙ ground (arith, apart, old);
    below = λ b y q. m.below b y (kept b y q).1;
    counted = ground (arith, used-release hi.id c hi.cap x (m.below c x its_id) its_id, m.counted);
  }

abbrev pub Removing : HashId → ℕ → Option ℕ × HashId → Type 0
Removing hi x (c, hi') = (c ≡ lookup hi x) × Removed hi x hi'

-- In a well-formed table, `hashid_remove` returns what a lookup of the id finds, or nothing. After it,
-- a lookup of the id finds nothing and of any other id what it found before, and the table is
-- well-formed.
pub remove-Removed : (hi : HashId) (x : ℕ) → IsMap hi → Removing hi x (remove hi x)
unfolding remove
remove-Removed hi x m = go (lookup hi x) refl
  where
    absent : lookup hi x ≡ none → (y : ℕ) → lookup hi y ≡ (if y == x then none else lookup hi y)
    absent e y = elim (ℕ_discrete y x) [
      | yes p ↦ ap (lookup hi) p ∙ e ∙ ground (arith, p)
      | no ne ↦ ground (arith, ne)
    ]

    go : (o : Option ℕ) → lookup hi x ≡ o → Removing hi x (remove hi x)
    go none e =
        let result : remove hi x ≡ (none, hi) = rw (e, remove) refl in
        let what : Removed hi x hi = record { room = refl; looked_up = absent e; is_map = m } in
        subst (Removing hi x) (sym result) (sym e, what)
    go (some c) e =
        let result : remove hi x ≡ (some c, released hi x c m e) = rw (e, remove) refl in
        let what : Removed hi x (released hi x c m e) = record {
          room = refl;
          looked_up = lookup-released hi x c m e;
          is_map = released-IsMap hi x c m e;
        } in
        subst (Removing hi x) (sym result) (sym e, what)

-- ===== src/HashId/Insert.antt =====
-- `hashid_insert`.
use skynet_gameserver.Prelude.{
  ℕ, ◌+◌, ◌%◌, ◌^◌, ◌≤◌, ◌<◌, ◌≡◌, ◌≢◌, refl, sym, ap, subst, ◌∙◌, Option, none, some, ◌∷◌, arith,
  ◌==◌, if◌then◌else◌, at, at_self, at_ne, each_index, true, false,
}
use native.Mathlib.Decide.{ℕ_discrete}
use mathlib.Core.Option.{some-injective}
use skynet_gameserver.GlobalMq.Linked.{NotIn}
use skynet_gameserver.HashId.{HashId, find, lookup, free_node, insert, full}
use skynet_gameserver.HashId.Chain.{find-at_other}
use skynet_gameserver.HashId.Scan.{used-take, used-le, free_node-free, used-full}
use skynet_gameserver.HashId.Map.{IsMap, Inserted}

module _ (hi : HashId) (x k : ℕ) (m : IsMap hi) (free : hi.id k ≡ none) (index : k < hi.cap) where
  abbrev h : ℕ
  h = x % (hi.hashmod + 1)

  abbrev taken : HashId
  taken = record hi {
    count = hi.count + 1;
    id = at hi.id k (some x);
    hash = at hi.hash h (k ∷ hi.hash h);
  }

  lookup-taken : (y : ℕ) → lookup taken y ≡ (if y == x then some k else lookup hi y)
  unfolding lookup find
  lookup-taken y = elim (ℕ_discrete h (y % (hi.hashmod + 1))) [
    | yes e ↦
        (let old : find (at hi.id k (some x)) (hi.hash h) y ≡ find hi.id (hi.hash h) y =
            find-at_other hi.id k (some x) (hi.hash h) y (m.free_out h k free) in
          rw (sym e, at_self hi.hash h (k ∷ hi.hash h), at_self hi.id k (some x), old)
            (ground arith))
    | no ne ↦
        (let other : y ≢ x = (λ p. ne (ap (λ z. z % (hi.hashmod + 1)) (sym p))) in
          rw (at_ne hi.hash h (k ∷ hi.hash h) (y % (hi.hashmod + 1)) ne) (
            find-at_other hi.id k (some x) (hi.hash (y % (hi.hashmod + 1))) y
              (m.free_out (y % (hi.hashmod + 1)) k free)
            ∙ ground (arith, other)))
  ]

  NotIn-taken : (h' b : ℕ) → k ≢ b → NotIn b (hi.hash h') → NotIn b (taken.hash h')
  NotIn-taken h' b ne n = elim (ℕ_discrete h h') [
    | yes e ↦ rw (sym e, at_self hi.hash h (k ∷ hi.hash h)) (λ p. ne (sym p), rw (sym e) at n)
    | no ne' ↦ rw (at_ne hi.hash h (k ∷ hi.hash h) h' ne') n
  ]

  other_node :
      (b : ℕ) (v : Option ℕ) → v ≢ some x → at hi.id k (some x) b ≡ v → (k ≢ b) × (hi.id b ≡ v)
  other_node b v ne e = elim (ℕ_discrete k b) [
    | yes p ↦ absurd (ground (arith, ne, e, p))
    | no n ↦ (n, rw (at_ne hi.id k (some x) b n) at e)
  ]

  taken-IsMap : lookup hi x ≡ none → IsMap taken
  taken-IsMap new = record {
    free_out = λ h' b e.
        (let o = other_node b none (λ p. cc) e in NotIn-taken h' b o.0 (m.free_out h' b o.1));
    own_chain = λ h' b z e ne. elim (ℕ_discrete k b) [
      | yes p ↦
          (let same : x ≡ z =
              some-injective x z (sym (at_self hi.id k (some x)) ∙ rw (sym p) at e) in
            let apart : h ≢ h' = rw (sym same) at ne in
            rw (sym p, at_ne hi.hash h (k ∷ hi.hash h) h' apart) (m.free_out h' k free))
      | no n ↦ NotIn-taken h' b n (m.own_chain h' b z (rw (at_ne hi.id k (some x) b n) at e) ne)
    ];
    distinct =
        each_index h (rw (at_self hi.hash h (k ∷ hi.hash h)) (m.free_out h k free, m.distinct h))
          (λ h' ne. rw (at_ne hi.hash h (k ∷ hi.hash h) h' ne) (m.distinct h'));
    found = λ b z e. elim (ℕ_discrete k b) [
      | yes p ↦
          (let same : x ≡ z =
              some-injective x z (sym (at_self hi.id k (some x)) ∙ rw (sym p) at e) in
            lookup-taken z ∙ ground (arith, same, p))
      | no n ↦
          (let old : lookup hi z ≡ some b = m.found b z (rw (at_ne hi.id k (some x) b n) at e) in
            let apart : z ≢ x =
              (λ q. absurd (let bad : lookup hi x ≡ some b = rw q at old in cc)) in
            lookup-taken z ∙ ground (arith, apart, old))
    ];
    below =
        each_index k (λ z e. index)
          (λ b ne z e. m.below b z (rw (at_ne hi.id k (some x) b ne) at e));
    counted = rw (m.counted) (sym (used-take hi.id k hi.cap x index free));
  }

-- The table is full and nothing was inserted, or it is not and the id has a node.
abbrev pub Inserting : HashId → ℕ → Option (ℕ × HashId) → Type 0
Inserting hi x none = full hi ≡ true
Inserting hi x (some (k, hi')) = (full hi ≡ false) × Inserted hi x k hi'

-- In a well-formed table of at least one node, `hashid_insert` of an id that has no node, and whose sum
-- with the number of nodes is at most 2^31, so that no index overflows, finds a node if and only if `hashid_full` is false. The node was not in use and its index is below `cap`; after
-- it, a lookup of the id finds that node and of any other id what it found before, and the table is
-- well-formed with one more node in use.
pub insert-Inserting :
    (hi : HashId) (x : ℕ)
    → IsMap hi
    → lookup hi x ≡ none
    → 0 < hi.cap
    → x + hi.cap ≤ 2 ^ 31
    → Inserting hi x (insert hi x)
unfolding insert full
insert-Inserting hi x m new pos small = go (free_node hi x 0 hi.cap) refl
  where
    room : (k : ℕ) → hi.id k ≡ none → k < hi.cap → full hi ≡ false
    room k e b =
        let more = used-take hi.id k hi.cap x b e in
        let le = used-le (at hi.id k (some x)) hi.cap in ground (arith, m.counted, more, le)

    go : (o : Option ℕ) → free_node hi x 0 hi.cap ≡ o → Inserting hi x (insert hi x)
    go none e =
        let result : insert hi x ≡ none = rw (e, insert) refl in
        subst (Inserting hi x) (sym result) (ground (arith, used-full hi x small e, m.counted))
    go (some k) e =
        let f = free_node-free hi x 0 hi.cap k pos e in
        let what : Inserted hi x k (taken hi x k m f.0 f.1) = record {
          fresh = f.0;
          index = f.1;
          room = refl;
          one_more = refl;
          looked_up = lookup-taken hi x k m f.0 f.1;
          is_map = taken-IsMap hi x k m f.0 f.1 new;
        } in
        let result : insert hi x ≡ some (k, taken hi x k m f.0 f.1) = rw (e, insert) refl in
        subst (Inserting hi x) (sym result) (room k f.0 f.1, what)

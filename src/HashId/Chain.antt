-- ===== src/HashId/Chain.antt =====
-- One chain of nodes.
use skynet_gameserver.Prelude.{
  ℕ, ◌≡◌, ◌≢◌, refl, ap, Option, none, some, List, [], ◌∷◌, arith, at, at_ne, Bool-cases, inl, inr,
  true, false,
}
use mathlib.Core.Option.{some-injective}
use skynet_gameserver.GlobalMq.Linked.{NotIn, Distinct}
use skynet_gameserver.HashId.{is_id, find, unlink}

pub find-id : (ids : ℕ → Option ℕ) (l : List ℕ) (x c : ℕ) → find ids l x ≡ some c → ids c ≡ some x
unfolding find
find-id ids [] x c e = absurd (cc)
find-id ids (d ∷ l) x c e = elim (Bool-cases (is_id (ids d) x)) [
  | inl b ↦
      (let e' : some d ≡ some c = rw b at e in is_id-eq (ids c) (rw (some-injective d c e') at b))
  | inr b ↦ (let e' : find ids l x ≡ some c = rw b at e in find-id ids l x c e')
]
  where
    is_id-eq : (o : Option ℕ) → is_id o x ≡ true → o ≡ some x
    is_id-eq none e = absurd (cc)
    is_id-eq (some y) e = ground arith

-- A node outside of the chain may change.
pub find-at_other :
    (ids : ℕ → Option ℕ) (k : ℕ) (v : Option ℕ) (l : List ℕ) (x : ℕ)
    → NotIn k l
    → find (at ids k v) l x ≡ find ids l x
unfolding find
find-at_other ids k v [] x n = refl
find-at_other ids k v (c ∷ l) x n = rw (at_ne ids k v c n.0, find-at_other ids k v l x n.1) refl

pub NotIn-unlink :
    (ids : ℕ → Option ℕ) (l : List ℕ) (x k : ℕ) → NotIn k l → NotIn k (unlink ids l x)
unfolding unlink
NotIn-unlink ids [] x k n = tt
NotIn-unlink ids (c ∷ l) x k n = ground (arith, NotIn-unlink ids l x k n.1, n.0, n.1)

pub Distinct-unlink :
    (ids : ℕ → Option ℕ) (l : List ℕ) (x : ℕ) → Distinct l → Distinct (unlink ids l x)
unfolding unlink
Distinct-unlink ids [] x d = tt
Distinct-unlink ids (c ∷ l) x d =
    ground (arith, NotIn-unlink ids l x c d.0, Distinct-unlink ids l x d.1, d.1)

-- The node that was found is no longer in the chain.
pub NotIn-unlink_found :
    (ids : ℕ → Option ℕ) (l : List ℕ) (x c : ℕ)
    → Distinct l
    → find ids l x ≡ some c
    → NotIn c (unlink ids l x)
unfolding find unlink
NotIn-unlink_found ids [] x c d e = tt
NotIn-unlink_found ids (b ∷ l) x c d e = elim (Bool-cases (is_id (ids b) x)) [
  | inl h ↦
      (let same : b ≡ c = (let e' : some b ≡ some c = rw h at e in some-injective b c e') in
        let n : NotIn c l = rw same at d.0 in rw h n)
  | inr h ↦
      (let e' : find ids l x ≡ some c = rw h at e in
        rw h (other_id (find-id ids l x c e') h, NotIn-unlink_found ids l x c d.1 e'))
]
  where
    other_id : ids c ≡ some x → is_id (ids b) x ≡ false → c ≢ b
    other_id e h p = absurd (ground (arith, ap ids p, e, h))

-- Without a node of the id `x`, all other ids are found where they were.
pub find-unlink_other :
    (ids : ℕ → Option ℕ) (l : List ℕ) (x y : ℕ) → y ≢ x → find ids (unlink ids l x) y ≡ find ids l y
unfolding find unlink
find-unlink_other ids [] x y ne = refl
find-unlink_other ids (b ∷ l) x y ne = elim (Bool-cases (is_id (ids b) x)) [
  | inl h ↦ rw (h, skip (ids b) h) refl
  | inr h ↦ rw h (rw (find-unlink_other ids l x y ne) refl)
]
  where
    skip : (o : Option ℕ) → is_id o x ≡ true → is_id o y ≡ false
    skip none h = refl
    skip (some z) h = ground (arith, ne)

-- ===== src/HashId/Map.antt =====
-- The table as a map of ids to nodes: its invariant, and what `insert` and `remove` leave.
use skynet_gameserver.Prelude.{
  ℕ, zero, suc, ◌+◌, ◌%◌, ◌<◌, ◌≡◌, ◌≢◌, refl, sym, none, some, List, ◌==◌, if◌then◌else◌, at,
  at_self, at_ne,
}
use native.Mathlib.Decide.{ℕ_discrete}
use skynet_gameserver.GlobalMq.Linked.{NotIn, Distinct}
use skynet_gameserver.HashId.{find, HashId, lookup, init}
use skynet_gameserver.HashId.Chain.{find-id}
use skynet_gameserver.HashId.Scan.{used}

-- A node in use stands in the chain of its id and is the one that is found there, a node that is not
-- in use stands in no chain, and `count` is the number of nodes in use.
pub record IsMap (hi : HashId) : Type 0 where
  pub free_out : (h b : ℕ) → hi.id b ≡ none → NotIn b (hi.hash h)
  pub own_chain : (h b x : ℕ) → hi.id b ≡ some x → x % (hi.hashmod + 1) ≢ h → NotIn b (hi.hash h)
  pub distinct : (h : ℕ) → Distinct (hi.hash h)
  pub found : (b x : ℕ) → hi.id b ≡ some x → lookup hi x ≡ some b
  pub below : (b x : ℕ) → hi.id b ≡ some x → b < hi.cap
  pub counted : hi.count ≡ used hi.id hi.cap

-- What `insert` leaves: the id has the node `k`, and all others keep theirs.
pub record Inserted (hi : HashId) (x k : ℕ) (hi' : HashId) : Type 0 where
  pub fresh : hi.id k ≡ none
  pub index : k < hi.cap
  pub room : hi'.cap ≡ hi.cap
  pub one_more : hi'.count ≡ hi.count + 1
  pub looked_up : (y : ℕ) → lookup hi' y ≡ (if y == x then some k else lookup hi y)
  pub is_map : IsMap hi'

-- What `remove` leaves: the id has no node, and all others keep theirs.
pub record Removed (hi : HashId) (x : ℕ) (hi' : HashId) : Type 0 where
  pub room : hi'.cap ≡ hi.cap
  pub looked_up : (y : ℕ) → lookup hi' y ≡ (if y == x then none else lookup hi y)
  pub is_map : IsMap hi'

pub init-IsMap : (max : ℕ) → IsMap (init max)
unfolding init
init-IsMap max = record {
  free_out = λ h b e. tt;
  own_chain = λ h b x e n. tt;
  distinct = λ h. tt;
  found = λ b x e. absurd (cc);
  below = λ b x e. absurd (cc);
  counted = sym (used-none max);
}
  where
    used-none : (n : ℕ) → used (λ i. none) n ≡ 0
    used-none zero = refl
    used-none (suc n) = rw (used-none n) refl

-- A chain changes where it is looked up.
pub at_chain :
    (P : List ℕ → Type 0) (hash : ℕ → List ℕ) (h : ℕ) (l : List ℕ)
    → P l
    → ((h' : ℕ) → h ≢ h' → P (hash h'))
    → (h' : ℕ) → P (at hash h l h')
at_chain P hash h l here there h' = elim (ℕ_discrete h h') [
  | yes e ↦ rw (sym e, at_self hash h l) here
  | no ne ↦ rw (at_ne hash h l h' ne) (there h' ne)
]

-- The node that is found has the id.
pub lookup-id : (hi : HashId) (x c : ℕ) → lookup hi x ≡ some c → hi.id c ≡ some x
unfolding lookup
lookup-id hi x c e = find-id hi.id (hi.hash (x % (hi.hashmod + 1))) x c e

pub lookup-init : (max x : ℕ) → lookup (init max) x ≡ none
unfolding lookup init find
lookup-init max x = refl

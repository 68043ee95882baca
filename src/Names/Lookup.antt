-- ===== src/Names/Lookup.antt =====
-- `skynet_handle_findname`: the binary search finds what a look through all names would.
use Prim.Native.Nat.{Ordering}
use skynet_gameserver.Prelude.{
  ℕ, zero, suc, ◌<◌, ◌≡◌, ◌≢◌, refl, inl, inr, Bool-cases, List, [], ◌∷◌, arith, leb, length,
  get_or, subst, sym, ◌∙◌, ap,
}
use skynet_gameserver.Names.{
  Name, HandleName, Names, strcmp, Found, hit, miss, search_all, no_name, findname,
}
use skynet_gameserver.Names.Order.{Below, strcmp-eq, strcmp_self}
use skynet_gameserver.Names.Search.{
  name_at, AllAbove-at, Sorted, BelowUpTo, AboveFrom, Located, search_name-Located,
}

-- The specification: the handle of the first entry of the name, 0 if there is none.
unfoldable pub handle_of : List HandleName → Name → ℕ
handle_of [] name = 0
handle_of (n ∷ t) name =
    let rest = handle_of t name in elim (strcmp n.name name) [ Ordering.eq ↦ n.handle | _ ↦ rest ]

pub Below-ne : (a b : Name) → Below a b → a ≢ b
Below-ne a b p e = let q = strcmp_self b in let r = rw e at p in cc

pub handle_of_hit :
    (t : List HandleName) (i : ℕ) (name : Name)
    → Sorted t
    → i < length t
    → name_at t i ≡ name
    → handle_of t name ≡ (get_or t i no_name).handle
unfolding handle_of
handle_of_hit [] i name s h e = absurd (omega arith)
handle_of_hit (n ∷ t) zero name s h e = ground (arith, strcmp_self name)
handle_of_hit (n ∷ t) (suc i) name s h e =
    rw (subst (Below n.name) e (AllAbove-at n.name t i s.0 (omega arith)), handle_of)
      (handle_of_hit t i name s.1 (omega arith) e)

pub handle_of_miss :
    (t : List HandleName) (name : Name)
    → ((j : ℕ) → j < length t → strcmp (name_at t j) name ≢ Ordering.eq)
    → handle_of t name ≡ 0
unfolding handle_of
handle_of_miss [] name f = refl
handle_of_miss (n ∷ t) name f =
    ground (arith, f 0 (omega arith), handle_of_miss t name (λ j h. f (suc j) (omega arith)))

parted-ne :
    (t : List HandleName) (name : Name) (i : ℕ)
    → BelowUpTo t name i
    → AboveFrom t name i
    → (j : ℕ) → j < length t
    → strcmp (name_at t j) name ≢ Ordering.eq
parted-ne t name i b a j h e = elim (Bool-cases (leb i j)) [
  | inl k ↦
      Below-ne name (name_at t j) (a j (ground arith) h) (sym (strcmp-eq (name_at t j) name e))
  | inr k ↦ Below-ne (name_at t j) name (b j (ground arith)) (strcmp-eq (name_at t j) name e)
]

pub searched : (s : Names) (name : Name) → Sorted s.name → Located s.name name (search_all s name)
searched s name v =
    search_name-Located (length s.name) s.name name 0 (length s.name) v (omega arith) (omega arith)
      (omega arith) (λ j h. absurd (omega arith)) (λ j h k. absurd (omega arith))

-- On sorted names `skynet_handle_findname` finds the handle of a name, as a look through
-- all entries would, with 0 for a name that has no entry.
pub findname_lem :
    (s : Names) (name : Name) → Sorted s.name → findname s name ≡ handle_of s.name name
unfolding findname
findname_lem s name v = go (search_all s name) (searched s name v)
  where
    go :
        (f : Found)
        → Located s.name name f
        → (elim f [ hit n ↦ n.handle | miss i ↦ 0 ]) ≡ handle_of s.name name
    go (hit n) (i, h, e, e') = sym (
        handle_of_hit s.name i name v h (ap (λ (n : HandleName). n.name) e ∙ e')
        ∙ ap (λ (n : HandleName). n.handle) e)
    go (miss i) (h, b, a) = sym (handle_of_miss s.name name (parted-ne s.name name i b a))

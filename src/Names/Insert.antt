-- ===== src/Names/Insert.antt =====
-- `skynet_handle_namehandle`: a new name goes where it belongs.
use Prim.Native.Nat.{Ordering}
use skynet_gameserver.Prelude.{
  ℕ, zero, suc, ◌*◌, ◌≤◌, ◌<◌, ◌≡◌, ◌≢◌, refl, inl, inr, Bool-cases, Bool, true, false, Option,
  none, some, List, [], ◌∷◌, ◌++◌, arith, leb, length, take, drop, sym, ◌∙◌, ap,
}
use skynet_gameserver.Names.{
  Name, HandleName, Names, strcmp, Found, hit, miss, search_all, insert_name_before, insert_name,
  max_slot_size,
}
use skynet_gameserver.Names.Order.{Below, strcmp-eq}
use skynet_gameserver.Names.Search.{
  Ordering-cases, name_at, AllAbove, Sorted, BelowUpTo, AboveFrom, Located,
}
use skynet_gameserver.Names.Lookup.{handle_of, Below-ne, searched}

-- An entry put between the smaller and the greater names.
abbrev inserted : List HandleName → HandleName → ℕ → List HandleName
inserted t n i = take i t ++ (n ∷ drop i t)

AllAbove-of_at :
    (a : Name) (t : List HandleName)
    → ((j : ℕ) → j < length t → Below a (name_at t j))
    → AllAbove a t
AllAbove-of_at a [] f = tt
AllAbove-of_at a (n ∷ t) f =
    (f 0 (omega arith), AllAbove-of_at a t (λ j h. f (suc j) (omega arith)))

AllAbove-inserted :
    (a : Name) (t : List HandleName) (n : HandleName) (i : ℕ)
    → AllAbove a t
    → Below a n.name
    → AllAbove a (inserted t n i)
AllAbove-inserted a t n zero h b = (b, h)
AllAbove-inserted a [] n (suc i) h b = (b, tt)
AllAbove-inserted a (m ∷ t) n (suc i) h b = (h.0, AllAbove-inserted a t n i h.1 b)

Sorted-inserted :
    (t : List HandleName) (n : HandleName) (i : ℕ)
    → Sorted t
    → i ≤ length t
    → BelowUpTo t n.name i
    → AboveFrom t n.name i
    → Sorted (inserted t n i)
Sorted-inserted t n zero s h b a = (AllAbove-of_at n.name t (λ j k. a j (omega arith) k), s)
Sorted-inserted [] n (suc i) s h b a = (tt, tt)
Sorted-inserted (m ∷ t) n (suc i) s h b a = (
  AllAbove-inserted m.name t n i s.0 (b 0 (omega arith)),
  Sorted-inserted t n i s.1 (omega arith) (λ j k. b (suc j) (omega arith))
      (λ j k k'. a (suc j) (omega arith) (omega arith)),
)

equal_once : (a b x : Name) → Below a b → strcmp a x ≡ Ordering.eq → strcmp b x ≢ Ordering.eq
equal_once a b x h e e' = Below-ne a b h (strcmp-eq a x e ∙ sym (strcmp-eq b x e'))

handle_of-inserted :
    (t : List HandleName) (n : HandleName) (i : ℕ) (x : Name)
    → BelowUpTo t n.name i
    → i ≤ length t
    → handle_of (inserted t n i) x
      ≡ elim (strcmp n.name x) [ Ordering.eq ↦ n.handle | _ ↦ handle_of t x ]
unfolding handle_of
handle_of-inserted t n zero x b h = refl
handle_of-inserted [] n (suc i) x b h = absurd (omega arith)
handle_of-inserted (m ∷ t) n (suc i) x b h =
    let ih = handle_of-inserted t n i x (λ j k. b (suc j) (omega arith)) (omega arith) in
    elim (Ordering-cases (strcmp m.name x)) [
      | inl lt ↦ ground (arith, lt, ih)
      | inr (inl eq) ↦ ground (arith, eq, equal_once m.name n.name x (b 0 (omega arith)) eq)
      | inr (inr gt) ↦ ground (arith, gt, ih)
    ]

-- What `skynet_handle_namehandle` does to the names: a name that is registered stays as it was, and
-- any other is added, with all the others as they were. It fails where the array would have to
-- grow above `MAX_SLOT_SIZE`.
pub data Registered (s : Names) (name : Name) (handle : ℕ) : Option (Bool × Names) → Type 0 where
  taken :
      (i : ℕ)
      → i < length s.name
      → name_at s.name i ≡ name
      → Registered s name handle (some (false, s))
  added :
      (s' : Names)
      → Sorted s'.name
      → ((x : Name)
          → handle_of s'.name x
            ≡ elim (strcmp name x) [ Ordering.eq ↦ handle | _ ↦ handle_of s.name x ])
      → Registered s name handle (some (true, s'))
  full : s.name_cap ≤ length s.name → max_slot_size < s.name_cap * 2 → Registered s name handle none

insert_at :
    (s : Names) (name : Name) (handle i : ℕ)
    → Sorted s.name
    → Located s.name name (miss i)
    → Registered s name handle
        (elim (insert_name_before s name handle i) [ none ↦ none | some s' ↦ some (true, s') ])
unfolding insert_name_before
insert_at s name handle i v (h, b, a) =
    let n : HandleName = record { name = name; handle = handle } in
    let s₁ = Sorted-inserted s.name n i v h b a in
    let f = λ (x : Name). handle_of-inserted s.name n i x b h in
    elim (Bool-cases (leb s.name_cap (length s.name))) [
      | inr e ↦ rw e (added (record s { name = inserted s.name n i }) s₁ f)
      | inl e ↦ elim (Bool-cases (leb (s.name_cap * 2) max_slot_size)) [
        | inl e' ↦
            rw (e, e')
              (added (record { name_cap = s.name_cap * 2; name = inserted s.name n i }) s₁ f)
        | inr e' ↦ rw (e, e') (full (ground arith) (ground arith))
      ]
    ]

-- On sorted names `skynet_handle_namehandle` leaves everything as it was where the name has an entry,
-- fails where the array would grow above `MAX_SLOT_SIZE`, and otherwise gives sorted names with the
-- new one, in which every other name is found as before.
pub insert_name-Registered :
    (s : Names) (name : Name) (handle : ℕ)
    → Sorted s.name
    → Registered s name handle (insert_name s name handle)
unfolding insert_name
insert_name-Registered s name handle v = go (search_all s name) (searched s name v)
  where
    go :
        (f : Found)
        → Located s.name name f
        → Registered s name handle (elim f [
          | hit n ↦ some (false, s)
          | miss i ↦ elim (insert_name_before s name handle i) [
            | none ↦ none
            | some s' ↦ some (true, s')
          ]
        ])
    go (hit n) (i, h, e, e') = taken i h (ap (λ (n : HandleName). n.name) e ∙ e')
    go (miss i) l = insert_at s name handle i v l

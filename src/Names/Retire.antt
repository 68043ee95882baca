-- ===== src/Names/Retire.antt =====
-- The names of a service that `skynet_handle_retire` retires.
use skynet_gameserver.Prelude.{
  ℕ, ◌≡◌, inl, inr, List, [], ◌∷◌, arith, ◌==◌, if◌then◌else◌, subst, sym, ◌∙◌,
}
use skynet_gameserver.Names.{Name, HandleName, Names, strcmp, findname, remove_handle, retire_names}
use skynet_gameserver.Names.Order.{strcmp-eq}
use skynet_gameserver.Names.Search.{Ordering-cases, name_at, AllAbove, AllAbove-at, Sorted}
use skynet_gameserver.Names.Lookup.{handle_of, Below-ne, handle_of_miss, findname_lem}

AllAbove-remove :
    (a : Name) (t : List HandleName) (h : ℕ) → AllAbove a t → AllAbove a (remove_handle t h)
unfolding remove_handle
AllAbove-remove a [] h k = tt
AllAbove-remove a (n ∷ t) h k = ground (arith, AllAbove-remove a t h k.1, k.0)

Sorted-remove : (t : List HandleName) (h : ℕ) → Sorted t → Sorted (remove_handle t h)
unfolding remove_handle
Sorted-remove [] h s = tt
Sorted-remove (n ∷ t) h s = ground (arith, AllAbove-remove n.name t h s.0, Sorted-remove t h s.1)

handle_of-above : (a : Name) (t : List HandleName) → AllAbove a t → handle_of t a ≡ 0
unfolding handle_of
handle_of-above a t k =
    handle_of_miss t a (λ j h e.
      Below-ne a (name_at t j) (AllAbove-at a t j k h) (sym (strcmp-eq (name_at t j) a e)))

handle_of-remove :
    (t : List HandleName) (h : ℕ) (x : Name)
    → Sorted t
    → handle_of (remove_handle t h) x ≡ (if handle_of t x == h then 0 else handle_of t x)
unfolding handle_of remove_handle
handle_of-remove [] h x s = ground arith
handle_of-remove (n ∷ t) h x s =
    let ih = handle_of-remove t h x s.1 in
    elim (Ordering-cases (strcmp n.name x)) [
      | inl lt ↦ ground (arith, lt, ih)
      | inr (inl eq) ↦
          let z : handle_of t x ≡ 0 =
            subst (λ a. handle_of t a ≡ 0) (strcmp-eq n.name x eq) (handle_of-above n.name t s.0) in
          ground (arith, eq, z, ih)
      | inr (inr gt) ↦ ground (arith, gt, ih)
    ]

-- When a service is retired, sorted names stay sorted; its names are no longer found, and every other
-- name is found as before.
pub retire_names_lem :
    (s : Names) (handle : ℕ)
    → Sorted s.name
    → let s' = retire_names s handle in
      Sorted s'.name
      × ((x : Name) → findname s' x ≡ (if findname s x == handle then 0 else findname s x))
unfolding retire_names
retire_names_lem s handle v =
    let v' = Sorted-remove s.name handle v in
    let s' = record s { name = remove_handle s.name handle } in
    (v', λ x. rw (findname_lem s x v) (findname_lem s' x v' ∙ handle_of-remove s.name handle x v))

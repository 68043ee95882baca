-- ===== src/Handles/Search.antt =====
-- The search of `skynet_handle_register` for a free slot.
use skynet_gameserver.Prelude.{
  ℕ, zero, suc, ◌+◌, ◌-◌, ◌*◌, ◌%◌, ◌^◌, ◌<◌, ◌≤◌, ◌≡◌, ◌≢◌, refl, sym, Option, none, some, arith,
  if◌then◌else◌, ltb, leb, ℕ_discrete, Bool-cases, ◌⊎◌, inl, inr, true, false,
}
use skynet_gameserver.Handles.{Slots, handle_mask, is_free, find_free}
use skynet_gameserver.Handles.Table.{IsTable, large_table}

-- What the search for a free slot finds: a handle that is not 0 and fits below the harbor, with a free
-- slot.
pub data Finds (s : Slots) : Option ℕ → Type 0 where
  free : (h : ℕ) → 0 < h → h ≤ handle_mask → s.slot (h % s.slot_size) ≡ none → Finds s (some h)
  none_free : Finds s none

is_free-none : (o : Option ℕ) → is_free o ≡ true → o ≡ none
is_free-none none e = refl
is_free-none (some ctx) e = absurd (cc)

pub find_free-Finds : (s : Slots) (n handle : ℕ) → 0 < handle → Finds s (find_free s n handle)
unfolding find_free
find_free-Finds s zero handle p = none_free
find_free-Finds s (suc n) handle p =
    let h = if ltb handle_mask handle then 1 else handle in
    let pos : 0 < h = ground arith in
    elim (Bool-cases (is_free (s.slot (h % s.slot_size)))) [
      | inl b ↦ rw b (free h pos (ground arith) (is_free-none _ b))
      | inr b ↦ rw b (find_free-Finds s n (h + 1) (omega arith))
    ]

taken_slot : (o : Option ℕ) → is_free o ≡ false → (ctx : ℕ) × (o ≡ some ctx)
taken_slot none e = absurd (cc)
taken_slot (some ctx) e = (ctx, refl)

-- The search that finds no slot has gone over the handles from `handle` on, and round to those from 1.
module _ (s : Slots) where
  abbrev Seen : ℕ → ℕ → ℕ → Type 0
  Seen n handle h =
      ((handle ≤ h) × (h < handle + n))
      ⊎ ((h + handle_mask < handle + n) × (h + handle_mask < handle_mask + 1 + n))

  next :
      (n handle h : ℕ)
      → 0 < h
      → h ≤ handle_mask
      → Seen (suc n) handle h
      → (if ltb handle_mask handle then 1 else handle) ≢ h
      → Seen n ((if ltb handle_mask handle then 1 else handle) + 1) h
  next n handle h pos le seen ne = elim (Bool-cases (ltb handle_mask handle)) [
    | inl b ↦
        (let ne' : 1 ≢ h = rw b at ne in rw b (inl (first_after n handle h b le seen ne' pos)))
    | inr b ↦ (let ne' : handle ≢ h = rw b at ne in rw b (ground (arith, b, seen, ne', pos, le)))
  ]
    where
      first_after :
          (n handle h : ℕ)
          → ltb handle_mask handle ≡ true
          → h ≤ handle_mask
          → Seen (suc n) handle h
          → 1 ≢ h
          → 0 < h
          → (1 + 1 ≤ h) × (h < 1 + 1 + n)
      first_after n handle h b le seen ne pos = ground (arith, b, le, seen, ne, pos)

  none_free_taken :
      (n handle : ℕ)
      → find_free s n handle ≡ none
      → (h : ℕ) → 0 < h
      → h ≤ handle_mask
      → Seen n handle h
      → (ctx : ℕ) × (s.slot (h % s.slot_size) ≡ some ctx)
  unfolding find_free
  none_free_taken zero handle e h pos le seen = absurd (ground (arith, seen))
  none_free_taken (suc n) handle e h pos le seen =
      let h' = if ltb handle_mask handle then 1 else handle in
      elim (Bool-cases (is_free (s.slot (h' % s.slot_size)))) [
        | inl b ↦ absurd (let e' : some h' ≡ none = rw b at e in cc)
        | inr b ↦
            (let e' : find_free s n (h' + 1) ≡ none = rw b at e in
              elim (ℕ_discrete h' h) [
                | yes same ↦ (let t = taken_slot _ b in rw (sym same) t)
                | no ne ↦ none_free_taken n (h' + 1) e' h pos le (next n handle h pos le seen ne)
              ])
      ]

-- Every handle below the harbor has a slot with a service.
abbrev pub AllTaken : Slots → Type 0
AllTaken s = (h : ℕ) → 0 < h → h ≤ handle_mask → (ctx : ℕ) × (s.slot (h % s.slot_size) ≡ some ctx)

pub full_taken :
    (s : Slots) (handles : ℕ → ℕ)
    → IsTable s handles
    → handle_mask < s.slot_size * 2 - 1
    → find_free s s.slot_size s.handle_index ≡ none
    → AllTaken s
full_taken s handles t large e h pos le =
    let big = large_table s.slot_size t.bits t.sized (omega (arith, large)) in
    none_free_taken s s.slot_size s.handle_index e h pos le (seen s.slot_size s.handle_index big)
  where
    seen : (size index : ℕ) → 2 ^ 24 ≤ size → Seen s size index h
    seen size index big = elim (Bool-cases (leb index h)) [
      | inl b ↦ inl (ground (arith, b, big, le))
      | inr b ↦ inr (ground (arith, b, big, le))
    ]

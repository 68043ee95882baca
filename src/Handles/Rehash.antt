-- ===== src/Handles/Rehash.antt =====
-- The doubling of the table: no assertion fails, and every service is found as before.
use skynet_gameserver.Prelude.{
  ℕ, zero, suc, ◌-◌, ◌*◌, ◌%◌, ◌^◌, ◌<◌, ◌≤◌, ◌≡◌, ◌≢◌, refl, sym, ◌∙◌, ap, subst, Option, none,
  some, arith, ◌==◌, if◌then◌else◌, ltb, lt→ltb, at, at_self, at_ne, ℕ_discrete, true, false,
}
use native.Mathlib.Nat.{mod-lt}
use skynet_gameserver.Handles.{Slots, handle_mask, and_move, rehash, doubled, owner, grab_handle}
use skynet_gameserver.Handles.Table.{IsTable, mod-mul-mod, pos-pow, pow-suc}

-- What stands at `j` in the new table if the service `o` stood in the slot of `j` in the old one.
abbrev kept : (ℕ → ℕ) → ℕ → ℕ → Option ℕ → Option ℕ
kept handles size j none = none
kept handles size j (some ctx) = if handles ctx % size == j then some ctx else none

abbrev new_slot : Slots → (ℕ → ℕ) → ℕ → ℕ → Option ℕ
new_slot s handles n j =
    if ltb (j % s.slot_size) n
    then kept handles (s.slot_size * 2) j (s.slot (j % s.slot_size))
    else none

data Moved (s : Slots) (handles : ℕ → ℕ) (n : ℕ) : Option (ℕ → Option ℕ) → Type 0 where
  moved :
      (new : ℕ → Option ℕ)
      → ((j : ℕ) → new j ≡ new_slot s handles n j)
      → Moved s handles n (some new)

new_slot-empty :
    (s : Slots) (handles : ℕ → ℕ) (n j : ℕ)
    → s.slot n ≡ none
    → new_slot s handles (suc n) j ≡ new_slot s handles n j
new_slot-empty s handles n j e = elim (ℕ_discrete (j % s.slot_size) n) [
  | yes h ↦
      let b : ltb (j % s.slot_size) (suc n) ≡ true = ground arith in
      let b' : ltb (j % s.slot_size) n ≡ false = ground arith in rw (b, b', h, e) refl
  | no ne ↦
      let b : ltb (j % s.slot_size) (suc n) ≡ ltb (j % s.slot_size) n = ground arith in rw b refl
]

new_slot-other :
    (s : Slots) (handles : ℕ → ℕ) (n ctx j : ℕ)
    → s.slot n ≡ some ctx
    → handles ctx % (s.slot_size * 2) ≢ j
    → new_slot s handles (suc n) j ≡ new_slot s handles n j
new_slot-other s handles n ctx j e ne = elim (ℕ_discrete (j % s.slot_size) n) [
  | yes h ↦
      let b : ltb (j % s.slot_size) (suc n) ≡ true = ground arith in
      let b' : ltb (j % s.slot_size) n ≡ false = ground arith in
      let c : (handles ctx % (s.slot_size * 2) == j) ≡ false = ground arith in
      rw (b, b', h, e, c) refl
  | no h ↦
      let b : ltb (j % s.slot_size) (suc n) ≡ ltb (j % s.slot_size) n = ground arith in rw b refl
]

move-Moved :
    (s : Slots) (handles : ℕ → ℕ) (n : ℕ) (o : Option ℕ) (r : Option (ℕ → Option ℕ))
    → s.slot n ≡ o
    → ((ctx : ℕ) → o ≡ some ctx → handles ctx % s.slot_size ≡ n)
    → Moved s handles n r
    → Moved s handles (suc n) (and_move handles (s.slot_size * 2) o r)
move-Moved s handles n none _ e p (moved new f) =
    moved new (λ j. f j ∙ sym (new_slot-empty s handles n j e))
move-Moved s handles n (some ctx) _ e p (moved new f) =
    let hash = handles ctx % (s.slot_size * 2) in
    let home : hash % s.slot_size ≡ n = mod-mul-mod (handles ctx) s.slot_size 2 ∙ p ctx refl in
    let b : ltb (hash % s.slot_size) n ≡ false = ground arith in
    let free : new hash ≡ none = f hash ∙ rw b refl in
    rw free (
      moved (at new hash (some ctx)) (λ j. elim (ℕ_discrete hash j) [
        | yes h ↦
            let b' : ltb (hash % s.slot_size) (suc n) ≡ true = ground arith in
            let c : (hash == hash) ≡ true = ground arith in
            subst (λ k. at new hash (some ctx) k ≡ new_slot s handles (suc n) k) h
              (at_self new hash (some ctx) ∙ rw (b', home, e, c) refl)
        | no ne ↦ at_ne new hash (some ctx) j ne ∙ f j ∙ sym (new_slot-other s handles n ctx j e ne)
      ]))

rehash-Moved :
    (s : Slots) (handles : ℕ → ℕ) (n : ℕ)
    → IsTable s handles
    → Moved s handles n (rehash s handles n)
unfolding rehash
rehash-Moved s handles zero t = moved (λ i. none) (λ j. ground arith)
rehash-Moved s handles (suc n) t =
    move-Moved s handles n (s.slot n) _ refl (t.placed n) (rehash-Moved s handles n t)

-- The doubled table.
pub data Doubled (s : Slots) (handles : ℕ → ℕ) : Option Slots → Type 0 where
  doubles :
      (s' : Slots)
      → IsTable s' handles
      → s'.slot_size ≡ s.slot_size * 2
      → s'.harbor ≡ s.harbor
      → ((h : ℕ) → grab_handle s' handles h ≡ grab_handle s handles h)
      → ((ctx i : ℕ) → s'.slot i ≡ some ctx → (j : ℕ) × (s.slot j ≡ some ctx))
      → Doubled s handles (some s')

owner-kept :
    (handles : ℕ → ℕ) (h size : ℕ) (o : Option ℕ)
    → owner handles h (kept handles size (h % size) o) ≡ owner handles h o
owner-kept handles h size none = refl
owner-kept handles h size (some ctx) = elim (ℕ_discrete (handles ctx) h) [
  | yes e ↦ rw e (ground arith)
  | no ne ↦ ground arith
]

kept-some :
    (handles : ℕ → ℕ) (size j ctx : ℕ) (o : Option ℕ)
    → kept handles size j o ≡ some ctx
    → (o ≡ some ctx) × (handles ctx % size ≡ j)
kept-some handles size j ctx none e = absurd (cc)
kept-some handles size j ctx (some c) e = ground arith

room_bits :
    (s : Slots) (handles : ℕ → ℕ)
    → (t : IsTable s handles) → s.slot_size * 2 - 1 ≤ handle_mask
    → suc t.bits ≤ 24
room_bits s handles t room = elim (ℕ_discrete t.bits 24) [
  | yes e ↦ absurd (omega (arith, t.sized, ap (λ (k : ℕ). 2 ^ k) e))
  | no ne ↦ omega (arith, ne, t.bound)
]

moved-Doubled :
    (s : Slots) (handles : ℕ → ℕ) (r : Option (ℕ → Option ℕ))
    → IsTable s handles
    → s.slot_size * 2 - 1 ≤ handle_mask
    → Moved s handles s.slot_size r
    → Doubled s handles (doubled s r)
unfolding grab_handle
moved-Doubled s handles _ t room (moved new f) =
    let pos : 0 < s.slot_size = rw t.sized (pos-pow t.bits) in
    let here : (j : ℕ) → new j ≡ kept handles (s.slot_size * 2) j (s.slot (j % s.slot_size)) =
      λ j. f j ∙ rw (lt→ltb _ _ (mod-lt j pos)) refl in
    let found : (j ctx : ℕ)
        → new j ≡ some ctx
        → (s.slot (j % s.slot_size) ≡ some ctx) × (handles ctx % (s.slot_size * 2) ≡ j) =
      λ j ctx e. kept-some handles (s.slot_size * 2) j ctx _ (sym (here j) ∙ e) in
    doubles (record s { slot = new; slot_size = s.slot_size * 2 })
      (record {
        bits = suc t.bits;
        sized = ap (λ n. n * 2) t.sized ∙ sym (pow-suc t.bits);
        bound = room_bits s handles t room;
        harbor_high = t.harbor_high;
        index_pos = t.index_pos;
        placed = λ i ctx e. (found i ctx e).1;
      })
      refl refl
      (λ h.
        ap (owner handles h) (here (h % (s.slot_size * 2)))
        ∙ owner-kept handles h (s.slot_size * 2) _
        ∙ ap (λ k. owner handles h (s.slot k)) (mod-mul-mod h s.slot_size 2))
      (λ ctx i e. (i % s.slot_size, (found i ctx e).0))

pub rehash-Doubled :
    (s : Slots) (handles : ℕ → ℕ)
    → IsTable s handles
    → s.slot_size * 2 - 1 ≤ handle_mask
    → Doubled s handles (doubled s (rehash s handles s.slot_size))
rehash-Doubled s handles t room =
    moved-Doubled s handles _ t room (rehash-Moved s handles s.slot_size t)

-- ===== src/Handles/Retire.antt =====
-- `skynet_handle_retire` and `skynet_handle_retireall`.
use skynet_gameserver.Prelude.{
  ℕ, zero, suc, ◌%◌, ◌<◌, ◌≤◌, ◌≡◌, ◌≢◌, refl, sym, ◌∙◌, ap, Option, none, some, arith, ◌==◌,
  if◌then◌else◌, at, at_self, at_ne, ℕ_discrete, false,
}
use skynet_gameserver.Handles.{
  Slots, owner, grab_handle, retire_slot, retire_owner, retire_round, retire_all,
}
use skynet_gameserver.Handles.Table.{IsTable}

owner-some :
    (handles : ℕ → ℕ) (h ctx : ℕ) (o : Option ℕ)
    → owner handles h o ≡ some ctx
    → (o ≡ some ctx) × (handles ctx ≡ h)
owner-some handles h ctx none e = absurd (cc)
owner-some handles h ctx (some c) e = ground arith

-- What is known of a table without the service of the handle `h`.
pub record Retired (s : Slots) (handles : ℕ → ℕ) (h : ℕ) (s' : Slots) : Type 0 where
  pub table : IsTable s' handles
  pub found :
      (x : ℕ) → grab_handle s' handles x ≡ (if h == x then none else grab_handle s handles x)

clear-Retired :
    (s : Slots) (handles : ℕ → ℕ) (h ctx : ℕ)
    → IsTable s handles
    → grab_handle s handles h ≡ some ctx
    → Retired s handles h (record s { slot = at s.slot (h % s.slot_size) none })
unfolding grab_handle
clear-Retired s handles h ctx t e =
    let k = h % s.slot_size in
    let (there, own) = owner-some handles h ctx (s.slot k) e in
    record {
      table = record {
        bits = t.bits;
        sized = t.sized;
        bound = t.bound;
        harbor_high = t.harbor_high;
        index_pos = t.index_pos;
        placed = λ i c e'. elim (ℕ_discrete k i) [
          | yes z ↦ absurd (cc (at_self s.slot k none, e', z))
          | no ne ↦ t.placed i c (sym (at_ne s.slot k none i ne) ∙ e')
        ];
      };
      found = λ x. elim (ℕ_discrete k (x % s.slot_size)) [
        | yes z ↦
            let new : at s.slot k none (x % s.slot_size) ≡ none =
              ap (at s.slot k none) (sym z) ∙ at_self s.slot k none in
            let old : s.slot (x % s.slot_size) ≡ some ctx = ap s.slot (sym z) ∙ there in
            rw (new, old, own) (ground arith)
        | no ne ↦
            let other : (h == x) ≡ false =
              ground (arith, λ (z : h ≡ x). ne (ap (λ n. n % s.slot_size) z)) in
            rw (other, at_ne s.slot k none (x % s.slot_size) ne) refl
      ];
    }

same-Retired :
    (s : Slots) (handles : ℕ → ℕ) (h : ℕ)
    → IsTable s handles
    → grab_handle s handles h ≡ none
    → Retired s handles h s
same-Retired s handles h t e = record {
  table = t;
  found =
      λ x. elim (ℕ_discrete h x) [ yes z ↦ rw (sym z, e) (ground arith) | no ne ↦ ground arith ];
}

-- `skynet_handle_retire` gives the service of the handle, if there is one. After it no service has
-- the handle, all others are found as before, and the table stays well formed.
pub retire_slot-Retired :
    (s : Slots) (handles : ℕ → ℕ) (h : ℕ)
    → IsTable s handles
    → ((retire_slot s handles h).0 ≡ grab_handle s handles h)
      × Retired s handles h (retire_slot s handles h).1
unfolding retire_slot
retire_slot-Retired s handles h t = go (grab_handle s handles h) refl
  where
    go :
        (o : Option ℕ)
        → grab_handle s handles h ≡ o
        → let r : Option ℕ × Slots = elim o [
          | none ↦ (none, s)
          | some ctx ↦ (some ctx, record s { slot = at s.slot (h % s.slot_size) none })
        ] in
          (r.0 ≡ o) × Retired s handles h r.1
    go none e = (refl, same-Retired s handles h t e)
    go (some ctx) e = (refl, clear-Retired s handles h ctx t e)

-- After a round of `skynet_handle_retireall` over the slots below `n` these are empty, and the others
-- are as before.
pub record Cleared (s : Slots) (handles : ℕ → ℕ) (n : ℕ) (s' : Slots) : Type 0 where
  pub table : IsTable s' handles
  pub size : s'.slot_size ≡ s.slot_size
  pub below : (i : ℕ) → i < n → s'.slot i ≡ none
  pub above : (i : ℕ) → n ≤ i → s'.slot i ≡ s.slot i

grab_handle-own :
    (s : Slots) (handles : ℕ → ℕ) (n ctx : ℕ)
    → IsTable s handles
    → s.slot n ≡ some ctx
    → grab_handle s handles (handles ctx) ≡ some ctx
unfolding grab_handle
grab_handle-own s handles n ctx t e =
    ap (λ k. owner handles (handles ctx) (s.slot k)) (t.placed n ctx e)
    ∙ ap (owner handles (handles ctx)) e
    ∙ ground arith

retire_slot-own :
    (s : Slots) (handles : ℕ → ℕ) (n ctx : ℕ)
    → IsTable s handles
    → s.slot n ≡ some ctx
    → (retire_slot s handles (handles ctx)).1 ≡ record s { slot = at s.slot n none }
unfolding retire_slot
retire_slot-own s handles n ctx t e =
    rw (grab_handle-own s handles n ctx t e, retire_slot)
      (ap (λ k. record s { slot = at s.slot k none }) (t.placed n ctx e))

retire_owner-Cleared :
    (s s' : Slots) (handles : ℕ → ℕ) (n : ℕ) (o : Option ℕ)
    → Cleared s handles n s'
    → s'.slot n ≡ o
    → ((ctx : ℕ) → o ≡ some ctx → handles ctx ≢ 0)
    → Cleared s handles (suc n) (retire_owner s' handles o)
retire_owner-Cleared s s' handles n none c e h = record {
  table = c.table;
  size = c.size;
  below = λ i lt. elim (ℕ_discrete n i) [
    | yes z ↦ ap s'.slot (sym z) ∙ e
    | no ne ↦ c.below i (omega arith)
  ];
  above = λ i le. c.above i (omega arith);
}
retire_owner-Cleared s s' handles n (some ctx) c e h =
    let b : (handles ctx == 0) ≡ false = ground (arith, h ctx refl) in
    let same = retire_slot-own s' handles n ctx c.table e in
    let t = c.table in
    rw (b, same)
      (record {
        table = record {
          bits = t.bits;
          sized = t.sized;
          bound = t.bound;
          harbor_high = t.harbor_high;
          index_pos = t.index_pos;
          placed = λ i d e'. elim (ℕ_discrete n i) [
            | yes z ↦ absurd (cc (at_self s'.slot n none, e', z))
            | no ne ↦ t.placed i d (sym (at_ne s'.slot n none i ne) ∙ e')
          ];
        };
        size = c.size;
        below = λ i lt. elim (ℕ_discrete n i) [
          | yes z ↦ ap (at s'.slot n none) (sym z) ∙ at_self s'.slot n none
          | no ne ↦ at_ne s'.slot n none i ne ∙ c.below i (omega arith)
        ];
        above = λ i le. at_ne s'.slot n none i (omega arith) ∙ c.above i (omega arith);
      })

round-Cleared :
    (n : ℕ) (s : Slots) (handles : ℕ → ℕ)
    → IsTable s handles
    → ((i ctx : ℕ) → s.slot i ≡ some ctx → handles ctx ≢ 0)
    → Cleared s handles n (retire_round s handles n).1
unfolding retire_round
round-Cleared zero s handles t h = record {
  table = t;
  size = refl;
  below = λ i lt. absurd (omega arith);
  above = λ i le. refl;
}
round-Cleared (suc n) s handles t h =
    let c = round-Cleared n s handles t h in
    retire_owner-Cleared s (retire_round s handles n).1 handles n _ c refl
      (λ ctx e. h n ctx (sym (c.above n (omega arith)) ∙ e))

-- A round over empty slots counts none and changes nothing.
empty_round :
    (n : ℕ) (s : Slots) (handles : ℕ → ℕ)
    → ((i : ℕ) → i < n → s.slot i ≡ none)
    → ((retire_round s handles n).0 ≡ 0) × ((retire_round s handles n).1 ≡ s)
unfolding retire_round
empty_round zero s handles e = (refl, refl)
empty_round (suc n) s handles e =
    let (k, same) = empty_round n s handles (λ i l. e i (omega (arith, l))) in
    let there : (retire_round s handles n).1.slot n ≡ none =
      ap (λ (x : Slots). x.slot n) same ∙ e n (omega arith) in
    (rw there (omega (arith, k)), rw there same)

ends_with :
    (s s' : Slots) (k : ℕ) (rest : Option Slots)
    → (k ≢ 0 → rest ≡ some s')
    → (if k == 0 then some s' else rest) ≡ some s'
ends_with s s' zero rest h = refl
ends_with s s' (suc k) rest h = ground (arith, h)

-- `skynet_handle_retireall`, where each service in the table has its handle, which is not 0, and no other
-- service is registered meanwhile: the loop ends after at most two rounds, and every slot is empty then.
pub retire_all-Cleared :
    (fuel : ℕ) (s : Slots) (handles : ℕ → ℕ)
    → IsTable s handles
    → ((i ctx : ℕ) → s.slot i ≡ some ctx → handles ctx ≢ 0)
    → 2 ≤ fuel
    → (s' : Slots) × (retire_all fuel s handles ≡ some s') × Cleared s handles s.slot_size s'
unfolding retire_all
retire_all-Cleared zero s handles t h enough = absurd (omega arith)
retire_all-Cleared (suc zero) s handles t h enough = absurd (omega arith)
retire_all-Cleared (suc (suc fuel)) s handles t h enough =
    let c = round-Cleared s.slot_size s handles t h in
    let s' = (retire_round s handles s.slot_size).1 in
    let (none_left, same) =
      empty_round s'.slot_size s' handles (λ i l. c.below i (omega (arith, l, c.size))) in
    let again : retire_all (suc fuel) s' handles ≡ some s' = rw (none_left) (ap some same) in
    (s', ends_with s s' _ _ (λ ne. again), c)

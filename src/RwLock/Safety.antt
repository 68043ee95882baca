-- ===== src/RwLock/Safety.antt =====
-- What the lock promises, for any number of threads and any interleaving.
use skynet_gameserver.Prelude.{
  ℕ, zero, suc, ◌+◌, ◌-◌, ◌≤◌, ◌≡◌, ◌≢◌, refl, sym, ap, none, some, List, [], ◌∷◌, get_elem?, set,
  arith,
}
use mathlib.Core.Option.{some-injective}
use skynet_gameserver.Prelude.Totals.{total, total-set, le-total, add-le-total}
use skynet_gameserver.RwLock.{
  RwLock, init, Pc, outside, waiting, reading, swapping, writing, Moved, advance, State, Step,
  moves, reads, writes, all_outside, start, Reach, starts, steps,
}
use skynet_gameserver.RwLock.Invariant.{
  counted, owning, is_reading, is_writing, IsSafe, Goes, goes, advance-Goes,
}

-- The sums over the other threads.
abbrev others : (Pc → ℕ) → List Pc → Pc → ℕ
others f ts pc = total f ts - f pc

set-eq :
    (f : Pc → ℕ) (ts : List Pc) (i : ℕ) (pc pc' : Pc)
    → get_elem? ts i ≡ some pc
    → total f (set ts i pc') ≡ others f ts pc + f pc'
set-eq f ts i pc pc' e = omega (arith, total-set f ts i pc pc' e, le-total f ts i pc e)

own-eq :
    (f : Pc → ℕ) (ts : List Pc) (i : ℕ) (pc : Pc)
    → get_elem? ts i ≡ some pc
    → total f ts ≡ others f ts pc + f pc
own-eq f ts i pc e = omega (arith, le-total f ts i pc e)

-- The threads that read are counted, and those that write own the lock, also without the thread `i`.
le-others :
    (f g : Pc → ℕ) (ts : List Pc) (i : ℕ) (pc : Pc)
    → ((pc : Pc) → f pc ≤ g pc)
    → get_elem? ts i ≡ some pc
    → others f ts pc ≤ others g ts pc
le-others f g [] i pc h e = absurd (cc)
le-others f g (x ∷ ts) zero pc h e =
    let y : x ≡ pc = some-injective x pc e in omega (arith, ap f y, ap g y, all ts)
  where
    all : (ts : List Pc) → total f ts ≤ total g ts
    all [] = omega arith
    all (x ∷ ts) = omega (arith, h x, all ts)
le-others f g (x ∷ ts) (suc i) pc h e =
    omega (arith, le-others f g ts i pc h e, h x, le-total f ts i pc e, le-total g ts i pc e)

reading-le-counted : (pc : Pc) → is_reading pc ≤ counted pc
reading-le-counted reading = omega arith
reading-le-counted _ = omega arith

writing-le-owning : (pc : Pc) → is_writing pc ≤ owning pc
writing-le-owning writing = omega arith
writing-le-owning _ = omega arith

-- The step of the thread `i`.
advance-IsSafe :
    (s : State) (i : ℕ) (pc : Pc)
    → get_elem? s.threads i ≡ some pc
    → IsSafe s
    → Goes s.lock
        (others counted s.threads pc)
        (others owning s.threads pc)
        (others is_reading s.threads pc)
        (others is_writing s.threads pc)
        (advance s.lock pc)
advance-IsSafe s i pc e v =
    advance-Goes s.lock pc _ _ _ _
      (le-others is_reading counted s.threads i pc reading-le-counted e)
      (le-others is_writing owning s.threads i pc writing-le-owning e)
      (rw
        (
          sym (own-eq counted s.threads i pc e),
          sym (own-eq owning s.threads i pc e),
          sym (own-eq is_reading s.threads i pc e),
          sym (own-eq is_writing s.threads i pc e),
        )
        v)

moved-IsSafe :
    (s : State) (lock : RwLock) (i : ℕ) (pc pc' : Pc) (m : Moved)
    → get_elem? s.threads i ≡ some pc
    → m ≡ some (lock, pc')
    → Goes s.lock
        (others counted s.threads pc)
        (others owning s.threads pc)
        (others is_reading s.threads pc)
        (others is_writing s.threads pc)
        m
    → IsSafe (record { lock = lock; threads = set s.threads i pc' })
moved-IsSafe s lock i pc pc' _ e a (goes lock₁ pc₁ v) =
    let z = some-injective (lock₁, pc₁) (lock, pc') a in
    let v' = rw (ap (λ (x : RwLock × Pc). x.0) z, ap (λ (x : RwLock × Pc). x.1) z) at v in
    rw
      (
        set-eq counted s.threads i pc pc' e,
        set-eq owning s.threads i pc pc' e,
        set-eq is_reading s.threads i pc pc' e,
        set-eq is_writing s.threads i pc pc' e,
      )
      v'

-- A thread that comes from outside and is neither counted nor an owner.
enter-IsSafe :
    (s : State) (i : ℕ) (pc : Pc)
    → get_elem? s.threads i ≡ some outside
    → counted pc ≡ 0
    → owning pc ≡ 0
    → is_reading pc ≡ 0
    → is_writing pc ≡ 0
    → IsSafe s
    → IsSafe (record s { threads = set s.threads i pc })
enter-IsSafe s i pc e a b c d v =
    let same : (f : Pc → ℕ)
        → f outside ≡ 0
        → f pc ≡ 0
        → total f (set s.threads i pc) ≡ total f s.threads =
      λ f h h'. omega (arith, h, h', total-set f s.threads i outside pc e) in
    rw (same counted refl a, same owning refl b, same is_reading refl c, same is_writing refl d) v

Step-IsSafe : {s s' : State} → Step s s' → IsSafe s → IsSafe s'
Step-IsSafe (moves s lock i pc pc' e a) v =
    moved-IsSafe s lock i pc pc' _ e a (advance-IsSafe s i pc e v)
Step-IsSafe (reads s i e) v = enter-IsSafe s i waiting e refl refl refl refl v
Step-IsSafe (writes s i e) v = enter-IsSafe s i swapping e refl refl refl refl v

total-all_outside : (f : Pc → ℕ) (n : ℕ) → f outside ≡ 0 → total f (all_outside n) ≡ 0
total-all_outside f zero e = refl
total-all_outside f (suc n) e = omega (arith, e, total-all_outside f n e)

start-IsSafe : (n : ℕ) → IsSafe (start n)
unfolding start init
start-IsSafe n =
    rw
      (
        total-all_outside counted n refl,
        total-all_outside owning n refl,
        total-all_outside is_reading n refl,
        total-all_outside is_writing n refl,
      )
      (record {
        readers = refl;
        owner = refl;
        one_owner = omega arith;
        among = omega arith;
        writer_owns = omega arith;
        exclusive = λ h. refl;
      })

pub Reach-IsSafe : {n : ℕ} {s : State} → Reach n s → IsSafe s
Reach-IsSafe {n} starts = start-IsSafe n
Reach-IsSafe (steps r st) = Step-IsSafe st (Reach-IsSafe r)

abbrev pub InSection : Pc → Type 0
InSection reading = Unit {0}
InSection writing = Unit {0}
InSection _ = ⊥

module _ {n : ℕ} {s : State} (r : Reach n s) where
  -- While a thread is in its section for writing, no other thread is in a section, for reading or for
  -- writing.
  pub writer_is_alone :
      (i j : ℕ) (pc : Pc)
      → i ≢ j
      → get_elem? s.threads i ≡ some writing
      → get_elem? s.threads j ≡ some pc
      → ¬ InSection pc
  writer_is_alone i j reading ne e e' z =
      let v = Reach-IsSafe r in
      omega (
        arith,
        v.exclusive (le-total is_writing s.threads i writing e),
        le-total is_reading s.threads j reading e',
      )
  writer_is_alone i j writing ne e e' z =
      let v = Reach-IsSafe r in
      omega (
        arith,
        v.one_owner,
        v.writer_owns,
        add-le-total is_writing s.threads i j writing writing ne e e',
      )
  writer_is_alone i j _ ne e e' z = z

  -- No step of a thread takes a count below 0.
  pub no_underflow : (i : ℕ) (pc : Pc) → get_elem? s.threads i ≡ some pc → advance s.lock pc ≢ none
  no_underflow i pc e z = go _ z (advance-IsSafe s i pc e (Reach-IsSafe r))
    where
      go :
          (m : Moved)
          → m ≡ none
          → Goes s.lock
              (others counted s.threads pc)
              (others owning s.threads pc)
              (others is_reading s.threads pc)
              (others is_writing s.threads pc)
              m
          → ⊥
      go _ z (goes lock pc' v) = cc

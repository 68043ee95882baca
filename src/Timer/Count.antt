-- ===== src/Timer/Count.antt =====
-- Counting the timers of the wheel that satisfy a test: no operation of skynet_timer.c loses one or
-- makes one up.
use skynet_gameserver.Prelude.{
  ℕ, zero, suc, ◌%◌, ◌+◌, ◌*◌, ◌≤◌, ◌<◌, ◌≡◌, ◌≢◌, refl, ap, ap₂, ◌∙◌, Bool, List, [], ◌∷◌, ◌++◌,
  arith, ◌==◌, if◌then◌else◌, at, at_self, at_ne, ℕ_discrete, Bool-cases, inl, inr,
}
use skynet_gameserver.Timer.{
  Node, Timer, or_mask, low_bits, shr, link_near, link_level, find_level, add_node, add_nodes,
  clear_level, move_list, timer_shift, timer_execute,
}
use skynet_gameserver.Timer.Wheel.{find_level-le}
use skynet_gameserver.Timer.Shift.{Shift, stays, shifts, next}

pub sum_below : ℕ → (ℕ → ℕ) → ℕ
sum_below zero f = 0
sum_below (suc n) f = f n + sum_below n f

sum_below-ext :
    (n : ℕ) (f g : ℕ → ℕ) → ((i : ℕ) → i < n → f i ≡ g i) → sum_below n f ≡ sum_below n g
unfolding sum_below
sum_below-ext zero f g e = refl
sum_below-ext (suc n) f g e =
    ap₂ ◌+◌ (e n (omega arith)) (sum_below-ext n f g (λ i h. e i (omega arith)))

-- Two sums that differ at one index.
sum_below-at :
    (n j : ℕ) (f g : ℕ → ℕ)
    → j < n
    → ((i : ℕ) → j ≢ i → g i ≡ f i)
    → sum_below n g + f j ≡ sum_below n f + g j
unfolding sum_below
sum_below-at zero j f g h e = absurd (omega arith)
sum_below-at (suc n) j f g h e = elim (ℕ_discrete j n) [
  | yes q ↦ rw q (omega (arith, sum_below-ext n g f (λ i k. e i (omega arith))))
  | no ne ↦ omega (arith, sum_below-at n j f g (omega arith) e, e n ne)
]

abbrev pub one : (Node → Bool) → Node → ℕ
one p n = if p n then 1 else 0

abbrev pub count : (Node → Bool) → List Node → ℕ
count p [] = 0
count p (n ∷ ns) = one p n + count p ns

pub count-append :
    (p : Node → Bool) (ms ns : List Node) → count p (ms ++ ns) ≡ count p ms + count p ns
count-append p [] ns = omega arith
count-append p (m ∷ ms) ns = omega (arith, count-append p ms ns)

near_total : (Node → Bool) → Timer → ℕ
near_total p T = sum_below 256 (λ j. count p (T.near j))

row_total : (Node → Bool) → (ℕ → List Node) → ℕ
row_total p row = sum_below 64 (λ j. count p (row j))

level_total : (Node → Bool) → Timer → ℕ
level_total p T = sum_below 4 (λ i. row_total p (T.t i))

-- The number of pending timers that satisfy `p`.
pub pending : (Node → Bool) → Timer → ℕ
pending p T = near_total p T + level_total p T

module _ (p : Node → Bool) where
  pending-near :
      (T T' : Timer) (j : ℕ)
      → j < 256
      → ((i : ℕ) → j ≢ i → T'.near i ≡ T.near i)
      → T'.t ≡ T.t
      → pending p T' + count p (T.near j) ≡ pending p T + count p (T'.near j)
  unfolding pending near_total level_total
  pending-near T T' j h e et = rw et (
      omega (
        arith,
        sum_below-at 256 j (λ i. count p (T.near i)) (λ i. count p (T'.near i)) h
            (λ i ne. ap (count p) (e i ne)),
      ))

  pending-level :
      (T T' : Timer) (i j : ℕ)
      → i < 4
      → j < 64
      → ((k : ℕ) → i ≢ k → T'.t k ≡ T.t k)
      → ((m : ℕ) → j ≢ m → T'.t i m ≡ T.t i m)
      → T'.near ≡ T.near
      → pending p T' + count p (T.t i j) ≡ pending p T + count p (T'.t i j)
  unfolding pending near_total level_total row_total
  pending-level T T' i j hi hj e e' en = rw en (
      omega (
        arith,
        sum_below-at 4 i (λ k. row_total p (T.t k)) (λ k. row_total p (T'.t k)) hi
            (λ k ne. ap (row_total p) (e k ne)),
        sum_below-at 64 j (λ m. count p (T.t i m)) (λ m. count p (T'.t i m)) hj
            (λ m ne. ap (count p) (e' m ne)),
      ))

  pending-link_near :
      (T : Timer) (j : ℕ) (n : Node) → j < 256 → pending p (link_near T j n) ≡ pending p T + one p n
  unfolding link_near
  pending-link_near T j n h = omega (
    arith,
    pending-near T (record T { near = at T.near j (T.near j ++ n ∷ []) }) j h
        (λ i ne. at_ne T.near j _ i ne) refl,
    ap (count p) (at_self T.near j (T.near j ++ n ∷ [])),
    count-append p (T.near j) (n ∷ []),
  )

  pending-set_level :
      (T : Timer) (i j : ℕ) (ns : List Node)
      → i < 4
      → j < 64
      → pending p (record T { t = at T.t i (at (T.t i) j ns) }) + count p (T.t i j)
        ≡ pending p T + count p ns
  pending-set_level T i j ns hi hj = omega (
    arith,
    pending-level T (record T { t = at T.t i (at (T.t i) j ns) }) i j hi hj
        (λ k ne. at_ne T.t i (at (T.t i) j ns) k ne)
        (λ m ne.
          ap (λ (row : ℕ → List Node). row m) (at_self T.t i (at (T.t i) j ns))
          ∙ at_ne (T.t i) j ns m ne)
        refl,
    ap (λ (row : ℕ → List Node). count p (row j)) (at_self T.t i (at (T.t i) j ns)),
    ap (count p) (at_self (T.t i) j ns),
  )

  pending-link_level :
      (T : Timer) (i j : ℕ) (n : Node)
      → i < 4
      → j < 64
      → pending p (link_level T i j n) ≡ pending p T + one p n
  unfolding link_level
  pending-link_level T i j n hi hj =
      omega (
        arith,
        pending-set_level T i j (T.t i j ++ n ∷ []) hi hj,
        count-append p (T.t i j) (n ∷ []),
      )

  pub pending-add_node : (T : Timer) (n : Node) → pending p (add_node T n) ≡ pending p T + one p n
  unfolding add_node
  pending-add_node T n = elim (Bool-cases (or_mask n.expire 8 == or_mask T.time 8)) [
    | inl e ↦ rw e (pending-link_near T (low_bits n.expire 8) n (omega arith))
    | inr e ↦ rw e (far (find_level 3 0 n.expire T.time) (find_level-le T.time n.expire))
  ]
    where
      far :
          (i : ℕ)
          → i ≤ 3
          → pending p (link_level T i (low_bits (shr n.expire (8 + 6 * i)) 6) n)
            ≡ pending p T + one p n
      far i h =
          pending-link_level T i (low_bits (shr n.expire (8 + 6 * i)) 6) n (omega arith)
            (omega arith)

  pub pending-add_nodes :
      (T : Timer) (ns : List Node) → pending p (add_nodes T ns) ≡ pending p T + count p ns
  unfolding add_nodes
  pending-add_nodes T [] = omega arith
  pending-add_nodes T (n ∷ ns) =
      omega (arith, pending-add_nodes (add_node T n) ns, pending-add_node T n)

  -- `move_list` places each timer of the list again.
  pub pending-move_list :
      (T : Timer) (i j : ℕ) → i < 4 → j < 64 → pending p (move_list T i j) ≡ pending p T
  unfolding move_list clear_level
  pending-move_list T i j hi hj = omega (
    arith,
    pending-set_level T i j [] hi hj,
    pending-add_nodes (record T { t = at T.t i (at (T.t i) j []) }) (T.t i j),
  )

  pending_time : (T : Timer) (c : ℕ) → pending p (record T { time = c }) ≡ pending p T
  unfolding pending near_total level_total
  pending_time T c = refl

  pub pending_clock :
      (T : Timer) (c point : ℕ)
      → pending p (record T { current_point = point; current = c }) ≡ pending p T
  unfolding pending near_total level_total
  pending_clock T c point = refl

  pub pending-timer_shift : (T : Timer) → Shift T → pending p (timer_shift T) ≡ pending p T
  pending-timer_shift T (stays e kept) = rw e (pending_time T (next T.time))
  pending-timer_shift T (shifts i idx hi hj e kept ahead) = rw e (
      pending-move_list (record T { time = next T.time }) i idx hi hj
      ∙ pending_time T (next T.time))

  pub pending-timer_execute :
      (T : Timer) → let (ns, T') = timer_execute T in pending p T' + count p ns ≡ pending p T
  unfolding timer_execute
  pending-timer_execute T = omega (
    arith,
    pending-near T (record T { near = at T.near (T.time % 256) [] }) (T.time % 256) (omega arith)
        (λ i ne. at_ne T.near (T.time % 256) [] i ne) refl,
    ap (count p) (at_self T.near (T.time % 256) []),
  )

sum_below-zero : (n : ℕ) (f : ℕ → ℕ) → ((i : ℕ) → i < n → f i ≡ 0) → sum_below n f ≡ 0
unfolding sum_below
sum_below-zero zero f e = refl
sum_below-zero (suc n) f e =
    omega (arith, e n (omega arith), sum_below-zero n f (λ i h. e i (omega arith)))

-- Nothing is pending where no list holds anything.
pub pending-zero :
    (p : Node → Bool) (T : Timer)
    → ((j : ℕ) → count p (T.near j) ≡ 0)
    → ((i j : ℕ) → i < 4 → count p (T.t i j) ≡ 0)
    → pending p T ≡ 0
unfolding pending near_total level_total row_total
pending-zero p T e f = omega (
  arith,
  sum_below-zero 256 (λ j. count p (T.near j)) (λ j h. e j),
  sum_below-zero 4 (λ i. sum_below 64 (λ j. count p (T.t i j)))
      (λ i h. sum_below-zero 64 (λ j. count p (T.t i j)) (λ j k. f i j h)),
)

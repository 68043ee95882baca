-- ===== src/Timer/Shift.antt =====
-- One tick of the timer wheel of skynet_timer.c: `timer_shift` moves at most one list, and every
-- timer is again where the wheel will find it.
use skynet_gameserver.Prelude.{
  ℕ, zero, suc, ◌+◌, ◌/◌, ◌%◌, ◌<◌, ◌≡◌, ◌≢◌, refl, ◌⊎◌, inl, inr, List, [], ◌∷◌, arith, at,
  at_self, at_ne, ℕ_discrete, subst, sym,
}
use skynet_gameserver.Timer.{Node, Timer, u32, clear_level, move_list, shift_levels, timer_shift}
use skynet_gameserver.Timer.Wheel.{
  All, Near, Far, IsWheel, Ahead, add_nodes-IsWheel, time-add_nodes,
}

abbrev pub next : ℕ → ℕ
next c = (c + 1) % u32

-- At the time `c`, slot `j` of level `i` is not the one that `timer_shift` moves.
abbrev pub Kept : ℕ → ℕ → ℕ → Type 0
Kept c zero j = (c % 256 ≢ 0) ⊎ (c / 256 % 64 ≡ 0) ⊎ (j ≢ c / 256 % 64)
Kept c (suc zero) j = (c % 16384 ≢ 0) ⊎ (c / 16384 % 64 ≡ 0) ⊎ (j ≢ c / 16384 % 64)
Kept c (suc (suc zero)) j = (c % 1048576 ≢ 0) ⊎ (c / 1048576 % 64 ≡ 0) ⊎ (j ≢ c / 1048576 % 64)
Kept c (suc (suc (suc zero))) j = (c % 67108864 ≢ 0) ⊎ (j ≢ c / 67108864)
Kept c (suc (suc (suc (suc i)))) j = Unit {0}

Near-next : (c j : ℕ) (n : Node) → c < u32 → j ≢ c % 256 → Near c j n → Near (next c) j n
Near-next c j n h ne p = omega arith

Far-next : (c i j : ℕ) (n : Node) → c < u32 → Kept (next c) i j → Far c i j n → Far (next c) i j n
Far-next c zero j n h k p = omega arith
Far-next c (suc zero) j n h k p = omega arith
Far-next c (suc (suc zero)) j n h k p = omega arith
Far-next c (suc (suc (suc zero))) j n h k p = omega arith
Far-next c (suc (suc (suc (suc i)))) j n h k p = p

All-map : (P Q : Node → Type 0) → ((n : Node) → P n → Q n) → (ns : List Node) → All P ns → All Q ns
All-map P Q f [] h = tt
All-map P Q f (n ∷ ns) h = (f n h.0, All-map P Q f ns h.1)

-- The list that `timer_shift` moves, if any.
pub data Shift (T : Timer) : Type 0 where
  stays :
      timer_shift T ≡ record T { time = next T.time }
      → ((k m : ℕ) → Kept (next T.time) k m)
      → Shift T
  shifts :
      (i idx : ℕ)
      → i < 4
      → idx < 64
      → timer_shift T ≡ move_list (record T { time = next T.time }) i idx
      → ((k m : ℕ) → (k ≡ i → m ≢ idx) → Kept (next T.time) k m)
      → ((n : Node) → Far T.time i idx n → Ahead (next T.time) n.expire)
      → Shift T

keep_none : (c : ℕ) → c % 256 ≢ 0 → (k m : ℕ) → Kept c k m
keep_none c h zero m = inl h
keep_none c h (suc zero) m = omega arith
keep_none c h (suc (suc zero)) m = omega arith
keep_none c h (suc (suc (suc zero))) m = omega arith
keep_none c h (suc (suc (suc (suc k)))) m = tt

keep_zero :
    (c : ℕ) → c % 256 ≡ 0 → c / 256 % 64 ≢ 0 → (k m : ℕ) → (k ≡ 0 → m ≢ c / 256 % 64) → Kept c k m
keep_zero c h e zero m f = inr (inr (f refl))
keep_zero c h e (suc zero) m f = omega arith
keep_zero c h e (suc (suc zero)) m f = omega arith
keep_zero c h e (suc (suc (suc zero))) m f = omega arith
keep_zero c h e (suc (suc (suc (suc k)))) m f = tt

keep_one :
    (c : ℕ)
    → c % 16384 ≡ 0
    → c / 16384 % 64 ≢ 0
    → (k m : ℕ) → (k ≡ 1 → m ≢ c / 16384 % 64)
    → Kept c k m
keep_one c h e zero m f = omega arith
keep_one c h e (suc zero) m f = inr (inr (f refl))
keep_one c h e (suc (suc zero)) m f = omega arith
keep_one c h e (suc (suc (suc zero))) m f = omega arith
keep_one c h e (suc (suc (suc (suc k)))) m f = tt

keep_two :
    (c : ℕ)
    → c % 1048576 ≡ 0
    → c / 1048576 % 64 ≢ 0
    → (k m : ℕ) → (k ≡ 2 → m ≢ c / 1048576 % 64)
    → Kept c k m
keep_two c h e zero m f = omega arith
keep_two c h e (suc zero) m f = omega arith
keep_two c h e (suc (suc zero)) m f = inr (inr (f refl))
keep_two c h e (suc (suc (suc zero))) m f = omega arith
keep_two c h e (suc (suc (suc (suc k)))) m f = tt

keep_three : (c : ℕ) → c % 67108864 ≡ 0 → (k m : ℕ) → (k ≡ 3 → m ≢ c / 67108864) → Kept c k m
keep_three c h zero m f = omega arith
keep_three c h (suc zero) m f = omega arith
keep_three c h (suc (suc zero)) m f = omega arith
keep_three c h (suc (suc (suc zero))) m f = inr (f refl)
keep_three c h (suc (suc (suc (suc k)))) m f = tt

-- `timer_shift` moves the one list that is due, and four rounds of its loop are enough.
pub Shift-cases : (T : Timer) → T.time < u32 → Shift T
unfolding timer_shift shift_levels
Shift-cases T h =
    let c = next T.time in
    elim (ℕ_discrete c 0) [
      | yes z ↦
          shifts 3 0 (omega arith) (omega arith) (ground arith)
            (λ k m f. keep_three c (omega arith) k m (λ e g. f e (omega arith)))
            (λ n p. omega arith)
      | no nz ↦ elim (ℕ_discrete (c % 256) 0) [
        | no a ↦ stays (ground arith) (keep_none c a)
        | yes a ↦ elim (ℕ_discrete (c / 256 % 64) 0) [
          | no b ↦
              shifts 0 (c / 256 % 64) (omega arith) (omega arith) (ground arith) (keep_zero c a b)
                (λ n p. omega arith)
          | yes b ↦ elim (ℕ_discrete (c / 16384 % 64) 0) [
            | no d ↦
                shifts 1 (c / 16384 % 64) (omega arith) (omega arith)
                  (let a₁ : c % 16384 ≡ 0 = omega arith in ground arith)
                  (keep_one c (omega arith) d) (λ n p. omega arith)
            | yes d ↦ elim (ℕ_discrete (c / 1048576 % 64) 0) [
              | no e ↦
                  shifts 2 (c / 1048576 % 64) (omega arith) (omega arith)
                    (let a₁ : c % 16384 ≡ 0 = omega arith in
                      let a₂ : c % 1048576 ≡ 0 = omega arith in ground arith)
                    (keep_two c (omega arith) e) (λ n p. omega arith)
              | yes e ↦
                  shifts 3 (c / 67108864 % 64) (omega arith) (omega arith)
                    (let a₁ : c % 16384 ≡ 0 = omega arith in
                      let a₂ : c % 1048576 ≡ 0 = omega arith in
                      let a₃ : c % 67108864 ≡ 0 = omega arith in
                      let f : c / 67108864 % 64 ≢ 0 = omega arith in ground arith)
                    (λ k m f. keep_three c (omega arith) k m (λ e g. f e (omega arith)))
                    (λ n p. omega arith)
            ]
          ]
        ]
      ]
    ]

moved-Near :
    (c j : ℕ) (ns : List Node)
    → c < u32
    → (j ≡ c % 256 → ns ≡ [])
    → All (Near c j) ns
    → All (Near (next c) j) ns
moved-Near c j ns h e a = elim (ℕ_discrete j (c % 256)) [
  | yes q ↦ rw (e q) tt
  | no ne ↦ All-map (Near c j) (Near (next c) j) (λ n. Near-next c j n h ne) ns a
]

-- The wheel at the next tick, before the due list is placed again.
stepped-IsWheel :
    (T : Timer) (t' : ℕ → ℕ → List Node)
    → IsWheel T
    → T.near (T.time % 256) ≡ []
    → ((k m : ℕ) → All (Far (next T.time) k m) (t' k m))
    → IsWheel (record T { time = next T.time; t = t' })
stepped-IsWheel T t' v e f = record {
  in_range = omega arith;
  near_ok = λ j. moved-Near T.time j (T.near j) v.in_range (λ q. rw q e) (v.near_ok j);
  far_ok = f;
}

Kept-Far :
    (T : Timer) (k m : ℕ)
    → IsWheel T
    → Kept (next T.time) k m
    → All (Far (next T.time) k m) (T.t k m)
Kept-Far T k m v h =
    All-map (Far T.time k m) (Far (next T.time) k m) (λ n. Far-next T.time k m n v.in_range h)
      (T.t k m) (v.far_ok k m)

-- `timer_shift` advances the time by one and keeps the wheel in order, where the list of the old
-- tick has been dispatched.
pub timer_shift-IsWheel :
    (T : Timer)
    → IsWheel T
    → T.near (T.time % 256) ≡ []
    → IsWheel (timer_shift T) × ((timer_shift T).time ≡ next T.time)
timer_shift-IsWheel T v e = go (Shift-cases T v.in_range)
  where
    emptied :
        (i idx : ℕ)
        → ((k m : ℕ) → (k ≡ i → m ≢ idx) → Kept (next T.time) k m)
        → (k m : ℕ) → All (Far (next T.time) k m) (at T.t i (at (T.t i) idx []) k m)
    emptied i idx kept k m = elim (ℕ_discrete i k) [
      | no ne ↦
          rw (at_ne T.t i (at (T.t i) idx []) k ne)
            (Kept-Far T k m v (kept k m (λ q. absurd (ne (sym q)))))
      | yes q ↦
          subst (λ k. All (Far (next T.time) k m) (at T.t i (at (T.t i) idx []) k m)) q
            (rw (at_self T.t i) (elim (ℕ_discrete idx m) [
              | no ne ↦
                  rw (at_ne (T.t i) idx [] m ne) (Kept-Far T i m v (kept i m (λ q g. ne (sym g))))
              | yes g ↦
                  subst (λ m. All (Far (next T.time) i m) (at (T.t i) idx [] m)) g
                    (rw (at_self (T.t i) idx) tt)
            ]))
    ]

    go : Shift T → IsWheel (timer_shift T) × ((timer_shift T).time ≡ next T.time)
    go (stays s kept) = rw s (stepped-IsWheel T T.t v e (λ k m. Kept-Far T k m v (kept k m)), refl)
    go (shifts i idx hi hj s kept ahead) = rw s (
        unfold move_list clear_level in
        (
          add_nodes-IsWheel _ (T.t i idx) (stepped-IsWheel T _ v e (emptied i idx kept)) (
              All-map (Far T.time i idx) (λ n. Ahead (next T.time) n.expire) ahead (T.t i idx)
                (v.far_ok i idx)),
          time-add_nodes _ (T.t i idx),
        ))

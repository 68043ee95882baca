-- ===== src/Timer/Wheel.antt =====
-- Where the timer wheel of skynet_timer.c keeps a timer, and that `add_node` puts it there.
use skynet_gameserver.Prelude.{
  ℕ, zero, suc, ◌+◌, ◌*◌, ◌/◌, ◌%◌, ◌≤◌, ◌<◌, ◌≡◌, ◌≢◌, refl, ◌⊎◌, inl, inr, Bool-cases, false,
  List, [], ◌∷◌, ◌++◌, arith, ◌==◌, at, at_self, at_ne, each_index, ◌∙◌,
}
use skynet_gameserver.Timer.{
  Node, Timer, u32, or_mask, low_bits, shr, link_near, link_level, find_level, add_node, add_nodes,
}

abbrev pub All : (Node → Type 0) → List Node → Type 0
All P [] = Unit {0}
All P (n ∷ ns) = P n × All P ns

pub All-snoc :
    (P : Node → Type 0) (ns : List Node) (n : Node) → All P ns → P n → All P (ns ++ n ∷ [])
All-snoc P [] n h p = (p, tt)
All-snoc P (m ∷ ns) n h p = (h.0, All-snoc P ns n h.1 p)

-- A timer of the current round of 256 ticks, which ends at or after the time `c`.
abbrev pub Near : ℕ → ℕ → Node → Type 0
Near c j n = (n.expire % 256 ≡ j) × (n.expire / 256 ≡ c / 256) × (c ≤ n.expire)

-- A timer of level `i`: the levels above agree with the time, its own is still ahead. Time goes
-- round at the last level.
abbrev pub Far : ℕ → ℕ → ℕ → Node → Type 0
Far c zero j n =
    (n.expire / 256 % 64 ≡ j) × (n.expire / 16384 ≡ c / 16384) × (c / 256 < n.expire / 256)
Far c (suc zero) j n =
    (n.expire / 16384 % 64 ≡ j)
    × (n.expire / 1048576 ≡ c / 1048576)
    × (c / 16384 < n.expire / 16384)
Far c (suc (suc zero)) j n =
    (n.expire / 1048576 % 64 ≡ j)
    × (n.expire / 67108864 ≡ c / 67108864)
    × (c / 1048576 < n.expire / 1048576)
Far c (suc (suc (suc zero))) j n =
    (n.expire / 67108864 ≡ j) × (n.expire / 67108864 ≢ c / 67108864) × (n.expire < u32)
Far c (suc (suc (suc (suc i)))) j n = ⊥

pub record IsWheel (T : Timer) : Type 0 where
  pub in_range : T.time < u32
  pub near_ok : (j : ℕ) → All (Near T.time j) (T.near j)
  pub far_ok : (i j : ℕ) → All (Far T.time i j) (T.t i j)

-- A timer that the wheel can place: it ends at or after the time, or in another part of the highest
-- level.
abbrev pub Ahead : ℕ → ℕ → Type 0
Ahead c e = (e < u32) × ((c ≤ e) ⊎ (e / 67108864 ≢ c / 67108864))

find_level-Far :
    (c : ℕ) (n : Node)
    → c < u32
    → Ahead c n.expire
    → (or_mask n.expire 8 == or_mask c 8) ≡ false
    → let i = find_level 3 0 n.expire c in Far c i (low_bits (shr n.expire (8 + 6 * i)) 6) n
unfolding find_level
find_level-Far c n h a b = elim (Bool-cases (or_mask n.expire 14 == or_mask c 14)) [
  | inl e ↦ rw e (ground arith)
  | inr e ↦ rw e (elim (Bool-cases (or_mask n.expire 20 == or_mask c 20)) [
    | inl e' ↦ rw e' (ground arith)
    | inr e' ↦ rw e' (elim (Bool-cases (or_mask n.expire 26 == or_mask c 26)) [
      | inl e'' ↦ rw e'' (ground arith)
      | inr e'' ↦ rw e'' (ground arith)
    ])
  ])
]

pub find_level-le : (c e : ℕ) → find_level 3 0 e c ≤ 3
unfolding find_level
find_level-le c e = ground arith

link_near-IsWheel :
    (T : Timer) (j : ℕ) (n : Node) → IsWheel T → Near T.time j n → IsWheel (link_near T j n)
unfolding link_near
link_near-IsWheel T j n v h = record {
  in_range = v.in_range;
  near_ok =
      each_index {P = λ i. All (Near T.time i) (at T.near j (T.near j ++ n ∷ []) i)} j
        (rw (at_self T.near j) (All-snoc (Near T.time j) (T.near j) n (v.near_ok j) h))
        (λ i ne. rw (at_ne T.near j (T.near j ++ n ∷ []) i ne) (v.near_ok i));
  far_ok = v.far_ok;
}

link_level-IsWheel :
    (T : Timer) (i j : ℕ) (n : Node) → IsWheel T → Far T.time i j n → IsWheel (link_level T i j n)
unfolding link_level
link_level-IsWheel T i j n v h = record {
  in_range = v.in_range;
  near_ok = v.near_ok;
  far_ok =
      each_index {P = λ k. (m : ℕ) → All (Far T.time k m) (at T.t i row k m)} i
        (rw (at_self T.t i row) (
          each_index {P = λ m. All (Far T.time i m) (row m)} j
            (rw (at_self (T.t i) j) (All-snoc (Far T.time i j) (T.t i j) n (v.far_ok i j) h))
            (λ m ne. rw (at_ne (T.t i) j (T.t i j ++ n ∷ []) m ne) (v.far_ok i m))))
        (λ k ne. rw (at_ne T.t i row k ne) (v.far_ok k));
}
  where
    row : ℕ → List Node
    row = at (T.t i) j (T.t i j ++ n ∷ [])

-- `add_node` puts a timer where the wheel will find it.
pub add_node-IsWheel :
    (T : Timer) (n : Node) → IsWheel T → Ahead T.time n.expire → IsWheel (add_node T n)
unfolding add_node
add_node-IsWheel T n v a = elim (Bool-cases (or_mask n.expire 8 == or_mask T.time 8)) [
  | inl e ↦ rw e (link_near-IsWheel T (low_bits n.expire 8) n v (ground arith))
  | inr e ↦ rw e (link_level-IsWheel T _ _ n v (find_level-Far T.time n v.in_range a e))
]

pub time-add_node : (T : Timer) (n : Node) → (add_node T n).time ≡ T.time
unfolding add_node link_near link_level
time-add_node T n = ground arith

pub time-add_nodes : (T : Timer) (ns : List Node) → (add_nodes T ns).time ≡ T.time
unfolding add_nodes
time-add_nodes T [] = refl
time-add_nodes T (n ∷ ns) = time-add_nodes (add_node T n) ns ∙ time-add_node T n

pub add_nodes-IsWheel :
    (T : Timer) (ns : List Node)
    → IsWheel T
    → All (λ n. Ahead T.time n.expire) ns
    → IsWheel (add_nodes T ns)
unfolding add_nodes
add_nodes-IsWheel T [] v h = v
add_nodes-IsWheel T (n ∷ ns) v h =
    add_nodes-IsWheel (add_node T n) ns (add_node-IsWheel T n v h.0) (rw (time-add_node T n) h.1)

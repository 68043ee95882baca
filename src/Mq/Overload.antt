-- ===== src/Mq/Overload.antt =====
-- The overload mark of a message queue (skynet_mq.c): when `skynet_mq_pop` raises it, and what
-- `skynet_mq_overload` reports.
use skynet_gameserver.Prelude.{
  ℕ, zero, suc, ◌+◌, ◌*◌, ◌^◌, ◌==◌, ◌∙◌, subst, false, Bool-cases, inl, inr, ◌≤◌, ◌<◌, ◌≡◌, ◌≢◌,
  arith, ltb, if◌then◌else◌,
}
use skynet_gameserver.Mq.{
  MessageQueue, mq_length, length_between, raise_threshold, watch_overload, advance_head, pop,
  take_overload,
}
use skynet_gameserver.Mq.Ring.{IsValid}
use skynet_gameserver.Mq.Pop.{watch-same}

raise_overload :
    (fuel len : ℕ) (q : MessageQueue)
    → q.overload ≡ len
    → (raise_threshold fuel len q).overload ≡ len
unfolding raise_threshold
raise_overload zero len q e = e
raise_overload (suc fuel) len q e = ground (
  arith,
  raise_overload fuel len
      (record q { overload = len; overload_threshold = q.overload_threshold * 2 }),
)

raise_when :
    (fuel len : ℕ) (q : MessageQueue)
    → 0 < fuel
    → (raise_threshold fuel len q).overload
      ≡ (if ltb q.overload_threshold len then len else q.overload)
unfolding raise_threshold
raise_when zero len q h = absurd (omega arith)
raise_when (suc fuel) len q h = ground (
  arith,
  raise_overload fuel len
      (record q { overload = len; overload_threshold = q.overload_threshold * 2 }),
)

-- The threshold `old` was doubled as often as it was below the length, and not more.
abbrev pub Doubled : ℕ → ℕ → ℕ → Type 0
Doubled old len new =
    (k : ℕ) × (new ≡ old * 2 ^ k) × ((j : ℕ) → j < k → old * 2 ^ j < len) × (len ≤ new)

double_first : (a k : ℕ) → a * 2 * 2 ^ k ≡ a * 2 ^ suc k
double_first a k = grind arith

no_doubling : (old len : ℕ) → len ≤ old → Doubled old len old
no_doubling old len h = (0, omega arith, (λ j l. absurd (omega arith)), h)

one_doubling : (old len new : ℕ) → old < len → Doubled (old * 2) len new → Doubled old len new
one_doubling old len new lt (k, e, below, le) = (suc k, e ∙ double_first old k, each, le)
  where
    each : (j : ℕ) → j < suc k → old * 2 ^ j < len
    each zero l = omega (arith, lt)
    each (suc j) l = subst (λ n. n < len) (double_first old j) (below j (omega (arith, l)))

raise-Doubled :
    (fuel len : ℕ) (q : MessageQueue)
    → 0 < q.overload_threshold
    → len < q.overload_threshold + fuel
    → Doubled q.overload_threshold len (raise_threshold fuel len q).overload_threshold
unfolding raise_threshold
raise-Doubled zero len q p h = no_doubling q.overload_threshold len (omega arith)
raise-Doubled (suc fuel) len q p h = elim (Bool-cases (ltb q.overload_threshold len)) [
  | inl b ↦ rw b (
      one_doubling q.overload_threshold len _ (ground (arith, b)) (
        raise-Doubled fuel len
          (record q { overload = len; overload_threshold = q.overload_threshold * 2 }) (omega arith)
          (omega arith)))
  | inr b ↦ rw b (no_doubling q.overload_threshold len (ground (arith, b)))
]

raise_lem :
    (len : ℕ) (q : MessageQueue)
    → 0 < q.overload_threshold
    → let q' = raise_threshold len len q in
      Doubled q.overload_threshold len q'.overload_threshold
      × (q'.overload ≡ (if ltb q.overload_threshold len then len else q.overload))
unfolding raise_threshold
raise_lem zero q h = (no_doubling q.overload_threshold 0 (omega arith), ground arith)
raise_lem (suc n) q h =
    (raise-Doubled (suc n) (suc n) q h (omega arith), raise_when (suc n) (suc n) q (omega arith))

mq_length-watch :
    (q : MessageQueue) → mq_length (watch_overload q) ≡ length_between q.head q.tail q.cap
unfolding mq_length watch_overload length_between
mq_length-watch q =
    let len = length_between q.head q.tail q.cap in ground (arith, watch-same len len q)

watch_lem :
    (q : MessageQueue)
    → 0 < q.overload_threshold
    → let q' = watch_overload q in
      Doubled q.overload_threshold (mq_length q') q'.overload_threshold
      × (q'.overload
          ≡ (if ltb q.overload_threshold (mq_length q') then mq_length q' else q.overload))
watch_lem q h =
    rw (mq_length-watch q)
      (unfold watch_overload in raise_lem (length_between q.head q.tail q.cap) q h)

-- `skynet_mq_pop` on a queue that has messages: with the number of messages that are left, the
-- threshold is doubled as often as it is below that number and not more, so that it stays where the
-- number is not above it; and the mark becomes that number exactly when it was above the old
-- threshold, and stays else.
pub pop_overload :
    (q : MessageQueue)
    → IsValid q
    → q.head ≢ q.tail
    → let q' = (pop q).2 in
      Doubled q.overload_threshold (mq_length q') q'.overload_threshold
      × (q'.overload
          ≡ (if ltb q.overload_threshold (mq_length q') then mq_length q' else q.overload))
unfolding pop advance_head
pop_overload q v ne =
    let other : (q.head == q.tail) ≡ false = ground (arith, ne) in
    rw other (watch_lem (advance_head q) v.threshold_pos)

-- `skynet_mq_overload` reports a mark once: the next call returns 0 until a pop raises it again.
pub take_overload_once : (q : MessageQueue) → (take_overload (take_overload q).1).0 ≡ 0
unfolding take_overload
take_overload_once q = ground arith

-- ===== src/Mq/Pop.antt =====
-- `skynet_mq_pop`: the oldest message leaves, and the rest stays in order.
use skynet_gameserver.Prelude.{
  ℕ, zero, suc, ◌*◌, ◌≤◌, ◌≡◌, ◌≢◌, refl, ap, ◌∙◌, Option, none, List, [], ◌∷◌, arith, get_or,
  ℕ_discrete,
}
use skynet_gameserver.Prelude.Arrays.{cells}
use skynet_gameserver.Prelude.Rings.{held-read}
use skynet_gameserver.Mq.{
  Message, MessageQueue, mq_length, pop, advance_head, watch_overload, raise_threshold,
  length_between,
}
use skynet_gameserver.Mq.Ring.{IsValid, contents}

pub watch-same :
    (fuel len : ℕ) (q : MessageQueue)
    → let q' = raise_threshold fuel len q in
      (q'.queue ≡ q.queue)
      × (q'.cap ≡ q.cap)
      × (q'.head ≡ q.head)
      × (q'.tail ≡ q.tail)
      × (q'.in_global ≡ q.in_global)
      × (q'.release ≡ q.release)
      × (q.overload_threshold ≤ q'.overload_threshold)
unfolding raise_threshold
watch-same zero len q = ground arith
watch-same (suc fuel) len q = ground (
  arith,
  watch-same fuel len (record q { overload = len; overload_threshold = q.overload_threshold * 2 }),
)

contents-advance_head :
    (q : MessageQueue)
    → IsValid q
    → q.head ≢ q.tail
    → contents q ≡ get_or q.queue q.head none ∷ contents (advance_head q)
unfolding mq_length advance_head
contents-advance_head q v ne = held-read none q.queue q.cap q.head q.tail v.head_in v.tail_in ne

contents_empty : (q : MessageQueue) → q.head ≡ q.tail → contents q ≡ []
unfolding cells
contents_empty q e =
    ap (λ n. cells none q.queue q.cap q.head 0 n) {y = 0} (unfold mq_length in ground arith) ∙ refl

watch-contents : (q : MessageQueue) → contents (watch_overload q) ≡ contents q
unfolding watch_overload mq_length
watch-contents q =
    let len = length_between q.head q.tail q.cap in ground (arith, watch-same len len q)

contents-idle :
    (q : MessageQueue) (n k : ℕ)
    → contents (record q { overload_threshold = n; in_global = k }) ≡ contents q
unfolding mq_length
contents-idle q n k = refl

-- What `skynet_mq_pop` does to the list of messages: nothing and 1 on an empty one; else 0, the
-- oldest, and the rest stays.
abbrev pub Popped : List (Option Message) → ℕ × Option Message × MessageQueue → Type 0
Popped [] (ret, m, q') = (ret ≡ 1) × (m ≡ none) × (contents q' ≡ []) × (q'.in_global ≡ 0)
Popped (x ∷ xs) (ret, m, q') = (ret ≡ 0) × (m ≡ x) × (contents q' ≡ xs)

pub pop-Popped : (q : MessageQueue) → IsValid q → Popped (contents q) (pop q)
unfolding pop
pop-Popped q v = elim (ℕ_discrete q.head q.tail) [
  | yes e ↦ rw (contents_empty q e) (ground (arith, contents_empty q e, contents-idle q 1024 0))
  | no e ↦ rw (contents-advance_head q v e) (ground (arith, watch-contents (advance_head q)))
]

watch-IsValid : (q : MessageQueue) → IsValid q → IsValid (watch_overload q)
unfolding watch_overload
watch-IsValid q v =
    let len = length_between q.head q.tail q.cap in ground (arith, watch-same len len q)

advance_head-IsValid : (q : MessageQueue) → IsValid q → IsValid (advance_head q)
unfolding advance_head
advance_head-IsValid q v = ground arith

pub pop-IsValid : (q : MessageQueue) → IsValid q → IsValid (pop q).2
unfolding pop
pop-IsValid q v = ground (arith, watch-IsValid _ (advance_head-IsValid q v))

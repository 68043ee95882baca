-- ===== src/Mq/Push.antt =====
-- `skynet_mq_push`: the message goes to the end, also where the ring has to grow.
use skynet_gameserver.Prelude.{◌≡◌, ◌≢◌, ap, ◌∙◌, none, some, [], ◌∷◌, ◌++◌, arith, set, ℕ_discrete}
use skynet_gameserver.Prelude.Arrays.{cells}
use skynet_gameserver.Mq.{Message, MessageQueue, mq_length, put, grow, expand_queue, wake, push}
use skynet_gameserver.Mq.Ring.{
  IsValid, contents, put-IsValid, mq_length-put_full, contents-put, cells-put,
  contents-expand_queue, expand_queue-IsValid,
}

grow_full : (q : MessageQueue) → q.head ≡ q.tail → grow q ≡ expand_queue q
unfolding grow
grow_full q e = ground arith

grow_room : (q : MessageQueue) → q.head ≢ q.tail → grow q ≡ q
unfolding grow
grow_room q e = ground arith

grow-IsValid : (q : MessageQueue) → IsValid q → IsValid (grow q)
grow-IsValid q v = elim (ℕ_discrete q.head q.tail) [
  | yes e ↦ rw (grow_full q e) (expand_queue-IsValid q v)
  | no e ↦ rw (grow_room q e) v
]

wake-IsValid : (q : MessageQueue) → IsValid q → IsValid (wake q).0
unfolding wake
wake-IsValid q v = ground arith

pub contents-wake : (q : MessageQueue) → contents (wake q).0 ≡ contents q
unfolding wake mq_length
contents-wake q = ground arith

-- `skynet_mq_push` keeps the ring well formed.
pub push-IsValid : (q : MessageQueue) (m : Message) → IsValid q → IsValid (push q m).0
unfolding push
push-IsValid q m v = wake-IsValid _ (grow-IsValid _ (put-IsValid q m v))

contents-grow-put :
    (q : MessageQueue) (m : Message)
    → IsValid q
    → contents (grow (put q m)) ≡ contents q ++ some m ∷ []
contents-grow-put q m v = elim (ℕ_discrete (put q m).head (put q m).tail) [
  | yes e ↦
      rw (grow_full (put q m) e)
        (contents-expand_queue (put q m) (put-IsValid q m v).head_in ∙ full e)
  | no e ↦ rw (grow_room (put q m) e) (contents-put q m v e)
]
  where
    full :
        (put q m).head ≡ (put q m).tail
        → cells none (put q m).queue (put q m).cap (put q m).head 0 (put q m).cap
          ≡ contents q ++ some m ∷ []
    full e =
        unfold put in
        (ap (λ n. cells none (set q.queue q.tail (some m)) q.cap q.head 0 n)
            (mq_length-put_full q m v e)
          ∙ cells-put q m v)

-- `skynet_mq_push` appends the message, and grows the ring where it has to.
pub contents-push :
    (q : MessageQueue) (m : Message) → IsValid q → contents (push q m).0 ≡ contents q ++ some m ∷ []
unfolding push
contents-push q m v = contents-wake (grow (put q m)) ∙ contents-grow-put q m v

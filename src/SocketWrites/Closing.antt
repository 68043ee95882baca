-- ===== src/SocketWrites/Closing.antt =====
-- `force_close` and `close_write` on the order of messages.
use skynet_gameserver.Prelude.{
  ℕ, ◌≡◌, refl, ◌∙◌, Bool, false, Bool-cases, inl, inr, ◌||◌, List, [], ◌++◌, arith,
}
use skynet_gameserver.Prelude.Split.{append_assoc, append_nil}
use skynet_gameserver.SocketWrites.State.{
  Priority, Message, halfclose_write, SocketType, is_invalid, is_halfclose_read, is_halfclose_write,
  Socket,
}
use skynet_gameserver.SocketWrites.Sending.{force_close, close_write}
use skynet_gameserver.SocketWrites.Lists.{both_branches, messages}
use skynet_gameserver.SocketWrites.Order.{
  of_priority, of_priority-append, requested, queue, shut, Orderly, OrderlyAfter,
}

-- `writing` and `warn_size` are not looked at.
pub Orderly-flags :
    (s : Socket) (acc : List Message) (writing : Bool) (warn_size : ℕ)
    → Orderly s acc
    → Orderly (record s { writing = writing; warn_size = warn_size }) acc
Orderly-flags s acc writing warn_size o = record {
  done = o.done;
  lost = o.lost;
  front = o.front;
  low_whole = o.low_whole;
  low_only = o.low_only;
  direct_high = o.direct_high;
  one_low = o.one_low;
  bytes = o.bytes;
  order = o.order;
  lost_shut = o.lost_shut;
  sized = o.sized;
}

-- Nor is the number of threads that have the command W to send.
pub Orderly-waking :
    (s : Socket) (acc : List Message) (waking : ℕ)
    → Orderly s acc
    → Orderly (record s { waking = waking }) acc
Orderly-waking s acc waking o = record {
  done = o.done;
  lost = o.lost;
  front = o.front;
  low_whole = o.low_whole;
  low_only = o.low_only;
  direct_high = o.direct_high;
  one_low = o.one_low;
  bytes = o.bytes;
  order = o.order;
  lost_shut = o.lost_shut;
  sized = o.sized;
}

move_to_lost :
    (p : Priority) (a b c d : List Message)
    → of_priority p (a ++ b) ++ of_priority p (c ++ d)
      ≡ of_priority p (a ++ []) ++ of_priority p ((b ++ c) ++ d)
move_to_lost p a b c d = simp (of_priority-append, append_assoc, append_nil) refl

pub force_close-Orderly :
    (s : Socket) (acc : List Message) → Orderly s acc → Orderly (force_close s) acc
unfolding force_close
force_close-Orderly s acc o = elim (Bool-cases (is_invalid s.type)) [
  | inl e ↦ rw e o
  | inr e ↦ rw e (record {
    done = o.done;
    lost = messages (queue s) ++ o.lost;
    front = tt;
    low_whole = tt;
    low_only = tt;
    direct_high = refl;
    one_low = omega arith;
    bytes = λ b. absurd (cc);
    order = λ p. o.order p ∙ move_to_lost p o.done (messages (queue s)) o.lost (requested s.pipe);
    lost_shut = λ b. absurd (cc);
    sized = λ b. absurd (cc);
  })
]

-- The type and `closing` change, without the socket getting closed.
pub Orderly-type :
    (s : Socket) (acc : List Message) (type : SocketType) (closing writing : Bool)
    → is_invalid s.type ≡ false
    → ((is_invalid type || is_halfclose_write type || closing) ≡ false → shut s ≡ false)
    → Orderly s acc
    → Orderly (record s { type = type; closing = closing; writing = writing }) acc
Orderly-type s acc type closing writing valid h o = record {
  done = o.done;
  lost = o.lost;
  front = o.front;
  low_whole = o.low_whole;
  low_only = o.low_only;
  direct_high = o.direct_high;
  one_low = o.one_low;
  bytes = λ b. o.bytes valid;
  order = o.order;
  lost_shut = λ b. o.lost_shut (h b);
  sized = λ b. o.sized valid;
}

pub close_write-Orderly :
    (s : Socket) (acc : List Message)
    → is_invalid s.type ≡ false
    → Orderly s acc
    → Orderly (close_write s).1 acc
unfolding close_write
close_write-Orderly s acc valid o =
    both_branches (OrderlyAfter acc) s.closing (λ a. force_close-Orderly s acc o)
      (λ a.
        both_branches (OrderlyAfter acc) (is_halfclose_read s.type)
          (λ b. force_close-Orderly s acc o)
          (λ b.
            both_branches (OrderlyAfter acc) (is_halfclose_write s.type) (λ c. o)
              (λ c. Orderly-type s acc halfclose_write s.closing false valid (λ e. absurd (cc)) o)))

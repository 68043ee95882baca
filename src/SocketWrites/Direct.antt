-- ===== src/SocketWrites/Direct.antt =====
-- `socket_server_send` and `socket_server_send_lowpriority` on the order of messages.
use skynet_gameserver.Prelude.{
  ℕ, ◌≤◌, ◌≡◌, refl, sym, ap, ap₂, subst, ◌∙◌, Bool, true, false, ◌&&◌, ◌||◌, ◌==◌, Option, none,
  some, List, [], ◌∷◌, ◌++◌, length, take, arith, ◌+◌,
}
use skynet_gameserver.Prelude.Split.{append_assoc, append_nil, take_all}
use skynet_gameserver.SocketWrites.State.{
  Priority, high_priority, low_priority, Message, WriteBuffer, Socket, SocketType, connected,
  halfclose_read, halfclose_write, invalid, is_invalid, is_connected, is_halfclose_write, is_empty,
  Request, send_request, write_request, close_request, sending, no_direct, nomore_sending_data,
  Answer, took, would_block, interrupted, failed,
}
use skynet_gameserver.SocketWrites.Calls.{
  can_direct_write, direct_size, direct_write, server_send, server_send_low,
}
use skynet_gameserver.SocketWrites.Events.{accept}
use skynet_gameserver.SocketWrites.Lists.{both_branches, messages, all_bytes, AllWhole, started}
use skynet_gameserver.SocketWrites.Order.{
  of_priority, of_priority-append, requested, direct, queue, shut, Orderly,
}
use skynet_gameserver.SocketWrites.Writing.{all_bytes-append, empty_list}
use skynet_gameserver.SocketWrites.Commands.{push-Orderly}

no_sends : (rs : List Request) → (sending rs == 0) ≡ true → requested rs ≡ []
unfolding sending
no_sends [] e = refl
no_sends (send_request m ∷ rs) e = absurd (ground (arith, e))
no_sends (write_request ∷ rs) e = no_sends rs e
no_sends (close_request shutdown ∷ rs) e = no_sends rs e

pub no_direct-none : (d : Option WriteBuffer) → no_direct d ≡ true → d ≡ none
no_direct-none none e = refl
no_direct-none (some wb) e = absurd (cc)

direct_size_fits : (a : Answer) (n : ℕ) → direct_size a n ≤ n
direct_size_fits (took k) n = omega arith
direct_size_fits would_block n = omega arith
direct_size_fits interrupted n = omega arith
direct_size_fits failed n = omega arith

connected_only :
    (t : SocketType)
    → is_connected t ≡ true
    → (is_invalid t ≡ false) × (is_halfclose_write t ≡ false)
connected_only connected e = (refl, refl)
connected_only halfclose_read e = absurd (cc)
connected_only halfclose_write e = absurd (cc)
connected_only invalid e = absurd (cc)

direct_facts :
    (hs ls nd ns hw c : Bool)
    → (((hs && ls && nd && ns) || hw) && c) ≡ true
    → hw ≡ false
    → (hs ≡ true) × (ls ≡ true) × (nd ≡ true) × (ns ≡ true)
direct_facts hs ls nd ns hw c e f =
    (ground (arith, e, f), ground (arith, e, f), ground (arith, e, f), ground (arith, e, f))

shut_facts : (i w c : Bool) → (i || c) ≡ false → w ≡ false → (i || w || c) ≡ false
shut_facts i w c e f = ground (arith, e, f)

connected_right : (w c : Bool) → (w && c) ≡ true → c ≡ true
connected_right w c e = ground (arith, e)

-- Where nothing waits and nothing is lost
pub settle :
    (p : Priority) (ds qs l rq : List Message)
    → qs ≡ []
    → l ≡ []
    → rq ≡ []
    → of_priority p (ds ++ qs) ++ of_priority p (l ++ rq) ≡ of_priority p ds
settle p ds qs l rq a b c = simp (a, b, c, append_nil) refl

abbrev message : List ℕ → Message
message bytes = record { priority = high_priority; bytes = bytes }

-- A direct write: nothing waits.
module _ (s : Socket) (acc : List Message) (o : Orderly s acc) (bytes : List ℕ)
    (valid : is_invalid s.type ≡ false) (still_open : shut s ≡ false) (high : s.high ≡ [])
    (low : s.low ≡ []) (direct_none : s.dw_buffer ≡ none) (pipe : requested s.pipe ≡ []) where
  no_front : direct s.dw_buffer ++ s.high ≡ []
  no_front = ap₂ (λ (d : Option WriteBuffer) (h : List WriteBuffer). direct d ++ h) direct_none high

  no_lists : s.high ++ s.low ≡ []
  no_lists = ap₂ (λ (h l : List WriteBuffer). h ++ l) high low

  no_queue : queue s ≡ []
  no_queue =
      ap₂ (λ (d : Option WriteBuffer) (l : List WriteBuffer). direct d ++ l) direct_none no_lists

  no_lost : o.lost ≡ []
  no_lost = o.lost_shut still_open

  direct_bytes : s.wrote ≡ all_bytes o.done
  direct_bytes =
      o.bytes valid
      ∙ ap (λ (h : List WriteBuffer). all_bytes o.done ++ started h) no_front
      ∙ append_nil (all_bytes o.done)

  direct_order :
      (p : Priority)
      → of_priority p (acc ++ message bytes ∷ []) ≡ of_priority p (o.done ++ message bytes ∷ [])
  direct_order p =
      of_priority-append p acc (message bytes ∷ [])
      ∙ ap (λ ms. ms ++ of_priority p (message bytes ∷ []))
          (o.order p
            ∙ settle p o.done (messages (queue s)) o.lost (requested s.pipe) (ap messages no_queue)
                no_lost pipe)
      ∙ sym (of_priority-append p o.done (message bytes ∷ []))

  all_written :
      (n : ℕ)
      → n ≡ length bytes
      → Orderly (record s { wrote = s.wrote ++ take n bytes }) (acc ++ message bytes ∷ [])
  all_written n e = record {
    done = o.done ++ message bytes ∷ [];
    lost = o.lost;
    front = o.front;
    low_whole = o.low_whole;
    low_only = o.low_only;
    direct_high = o.direct_high;
    one_low = o.one_low;
    bytes = λ b.
        (let all : take n bytes ≡ bytes ++ [] =
            ap (λ k. take k bytes) e ∙ take_all bytes ∙ sym (append_nil bytes) in
          ap₂ (λ (xs ys : List ℕ). xs ++ ys) direct_bytes all
          ∙ sym (all_bytes-append o.done (message bytes ∷ []))
          ∙ sym (append_nil (all_bytes (o.done ++ message bytes ∷ [])))
          ∙ ap (λ (h : List WriteBuffer). all_bytes (o.done ++ message bytes ∷ []) ++ started h)
              (sym no_front));
    order = λ p.
        direct_order p
        ∙ sym (
            settle p (o.done ++ message bytes ∷ []) (messages (queue s)) o.lost (requested s.pipe)
              (ap messages no_queue) no_lost pipe);
    lost_shut = o.lost_shut;
    sized = o.sized;
  }

  partly_written :
      (n : ℕ)
      → n ≤ length bytes
      → Orderly
          (record s {
            wrote = s.wrote ++ take n bytes;
            dw_buffer = some (record { message = message bytes; offset = n });
            waking = s.waking + 1;
          })
          (acc ++ message bytes ∷ [])
  partly_written n fits = record {
    done = o.done;
    lost = o.lost;
    front = (fits, subst AllWhole (sym high) tt);
    low_whole = o.low_whole;
    low_only = o.low_only;
    direct_high = refl;
    one_low =
        (let none_high : length (of_priority low_priority (messages s.high)) ≡ 0 =
            ap (λ (wbs : List WriteBuffer). length (of_priority low_priority (messages wbs)))
              high in
          omega (arith, none_high));
    bytes = λ b. ap (λ bs. bs ++ take n bytes) direct_bytes;
    order = λ p.
        direct_order p
        ∙ sym (
            settle p (o.done ++ message bytes ∷ []) (messages (s.high ++ s.low)) o.lost
              (requested s.pipe) (ap messages no_lists) no_lost pipe)
        ∙ ap (λ ms. of_priority p ms ++ of_priority p (o.lost ++ requested s.pipe))
            (append_assoc o.done (message bytes ∷ []) (messages (s.high ++ s.low)));
    lost_shut = o.lost_shut;
    sized = o.sized;
  }

  direct_write-Orderly :
      (n : ℕ) → n ≤ length bytes → Orderly (direct_write s bytes n) (acc ++ message bytes ∷ [])
  unfolding direct_write
  direct_write-Orderly n fits =
      both_branches (λ s. Orderly s (acc ++ message bytes ∷ [])) (n == length bytes)
        (λ e. all_written n (ground (arith, e))) (λ e. partly_written n fits)

-- The messages that a call accepted come behind the others.
abbrev pub OrderlyAccepted : List Message → List Message × Socket → Type 0
OrderlyAccepted acc (ms, s) = Orderly s (acc ++ ms)

rejected : (s : Socket) (acc : List Message) → Orderly s acc → Orderly s (acc ++ [])
rejected s acc o = subst (Orderly s) (sym (append_nil acc)) o

left_fact : (a b : Bool) → (a && b) ≡ true → a ≡ true
left_fact a b e = ground (arith, e)

pub server_send-Orderly :
    (s : Socket) (acc : List Message) (bytes : List ℕ) (free : Bool) (answer : Answer)
    → Orderly s acc
    → OrderlyAccepted acc (accept (message bytes) (server_send s bytes free answer))
unfolding server_send nomore_sending_data
server_send-Orderly s acc bytes free answer o =
    both_branches (λ r. OrderlyAccepted acc (accept (message bytes) r))
      (is_invalid s.type || s.closing) (λ e. rejected s acc o)
      (λ e.
        both_branches (λ s. Orderly s (acc ++ message bytes ∷ [])) (can_direct_write s && free)
          (λ can. direct_send (left_fact (can_direct_write s) free can) e)
          (λ e. push-Orderly s acc (send_request (message bytes)) o))
  where
    direct_send :
        can_direct_write s ≡ true
        → (is_invalid s.type || s.closing) ≡ false
        → Orderly
            (direct_write s bytes (direct_size answer (length bytes)))
            (acc ++ message bytes ∷ [])
    direct_send can e =
        let (valid, writes) =
          connected_only s.type
            (connected_right (nomore_sending_data s) (is_connected s.type) can) in
        let (highs, lows, none_direct, none_sent) =
          direct_facts (is_empty s.high) (is_empty s.low) (no_direct s.dw_buffer)
            (sending s.pipe == 0) (is_halfclose_write s.type) (is_connected s.type) can writes in
        direct_write-Orderly s acc o bytes valid
          (shut_facts (is_invalid s.type) (is_halfclose_write s.type) s.closing e writes)
          (empty_list s.high highs) (empty_list s.low lows) (no_direct-none s.dw_buffer none_direct)
          (no_sends s.pipe none_sent) (direct_size answer (length bytes))
          (direct_size_fits answer (length bytes))

pub server_send_low-Orderly :
    (s : Socket) (acc : List Message) (bytes : List ℕ)
    → Orderly s acc
    → OrderlyAccepted acc
        (accept (record { priority = low_priority; bytes = bytes }) (server_send_low s bytes))
unfolding server_send_low
server_send_low-Orderly s acc bytes o =
    let m : Message = record { priority = low_priority; bytes = bytes } in
    both_branches (λ r. OrderlyAccepted acc (accept m r)) (is_invalid s.type)
      (λ e. rejected s acc o) (λ e. push-Orderly s acc (send_request m) o)

-- ===== src/SocketWrites/Steps.antt =====
-- Sequences of events at a connected socket, whatever their order.
use skynet_gameserver.Prelude.{
  ◌≡◌, refl, sym, ap, subst, ◌∙◌, false, Option, none, some, List, [], ◌∷◌, ◌++◌, arith, ℕ, zero,
  suc,
}
use skynet_gameserver.Prelude.Split.{append_nil}
use skynet_gameserver.SocketWrites.State.{
  write_request, WriteBuffer, Priority, high_priority, low_priority, Message, halfclose_read,
  Socket, is_invalid, is_halfclose_read, is_halfclose_write, close_request, nomore_sending_data,
  new_socket,
}
use skynet_gameserver.SocketWrites.Sending.{Done, send_buffer}
use skynet_gameserver.SocketWrites.Calls.{send_wake, push_request, read_end}
use skynet_gameserver.SocketWrites.Events.{
  wakes_up, Event, sends, sends_low, closes, commands, writable, ends, unless_failed, happen,
  then_happen, happen_all,
}
use skynet_gameserver.SocketWrites.Lists.{all_bytes, started, messages, both_branches}
use skynet_gameserver.SocketWrites.Order.{
  of_priority, requested, queue, direct, shut, Orderly, OrderlyAfter, new-Orderly,
}
use skynet_gameserver.SocketWrites.Closing.{Orderly-waking, Orderly-type, force_close-Orderly}
use skynet_gameserver.SocketWrites.Writing.{Kept}
use skynet_gameserver.SocketWrites.LowList.{send_buffer-Kept}
use skynet_gameserver.SocketWrites.Commands.{
  push-Orderly_nothing, push-Orderly, next_command-Orderly,
}
use skynet_gameserver.SocketWrites.Direct.{
  settle, OrderlyAccepted, server_send-Orderly, server_send_low-Orderly,
}

read_end-Orderly :
    (s : Socket) (acc : List Message)
    → is_invalid s.type ≡ false
    → Orderly s acc
    → Orderly (read_end s).1 acc
unfolding read_end
read_end-Orderly s acc valid o =
    both_branches (OrderlyAfter acc) s.closing
      (λ c.
        both_branches (λ s. Orderly s acc) (nomore_sending_data s)
          (λ e. force_close-Orderly s acc o) (λ e. o))
      (λ c.
        both_branches (OrderlyAfter acc) (is_halfclose_read s.type) (λ e. o)
          (λ r.
            both_branches (OrderlyAfter acc) (is_halfclose_write s.type)
              (λ e. force_close-Orderly s acc o)
              (λ w.
                Orderly-type s acc halfclose_read s.closing s.writing valid
                  (λ b. ground (arith, b, valid, w)) o)))

send_wake-Orderly :
    (s : Socket) (acc : List Message) (n : ℕ) → Orderly s acc → Orderly (send_wake s n) acc
send_wake-Orderly s acc zero o = o
send_wake-Orderly s acc (suc n) o =
    Orderly-waking (push_request s write_request) acc n
      (push-Orderly_nothing s acc write_request refl o)

-- No assertion fails, and the messages that were accepted keep their order.
abbrev pub Going : List Message → Option (List Message × Socket) → Type 0
Going acc none = ⊥
Going acc (some r) = OrderlyAccepted acc r

none_accepted : (s : Socket) (acc : List Message) → Orderly s acc → OrderlyAccepted acc ([], s)
none_accepted s acc o = subst (Orderly s) (sym (append_nil acc)) o

unless-Going : (acc : List Message) (d : Done) → Kept acc d → Going acc (unless_failed d)
unless-Going acc none k = k
unless-Going acc (some (report, s)) k = none_accepted s acc k

pub happen-Going :
    (s : Socket) (acc : List Message) (e : Event) → Orderly s acc → Going acc (happen s e)
unfolding happen
happen-Going s acc (sends bytes free answer) o = server_send-Orderly s acc bytes free answer o
happen-Going s acc (sends_low bytes) o = server_send_low-Orderly s acc bytes o
happen-Going s acc (closes shutdown) o = push-Orderly s acc (close_request shutdown) o
happen-Going s acc wakes_up o = none_accepted _ acc (send_wake-Orderly s acc s.waking o)
happen-Going s acc commands o = none_accepted _ acc (next_command-Orderly s acc o)
happen-Going s acc (writable answers) o =
    both_branches (Going acc) (is_invalid s.type) (λ e. none_accepted s acc o)
      (λ valid. unless-Going acc (send_buffer s answers) (send_buffer-Kept s acc answers valid o))
happen-Going s acc ends o =
    both_branches (Going acc) (is_invalid s.type) (λ e. none_accepted s acc o)
      (λ valid. none_accepted _ acc (read_end-Orderly s acc valid o))

-- After all events
abbrev pub AllOrderly : Option (List Message × Socket) → Type 0
AllOrderly none = ⊥
AllOrderly (some (acc, s)) = Orderly s acc

next-AllOrderly :
    (next : Socket → List Message → Option (List Message × Socket)) (acc : List Message)
    → ((s : Socket) (acc : List Message) → Orderly s acc → AllOrderly (next s acc))
    → (r : Option (List Message × Socket)) → Going acc r
    → AllOrderly (then_happen next acc r)
next-AllOrderly next acc h none k = k
next-AllOrderly next acc h (some (ms, s)) k = h s (acc ++ ms) k

all_from :
    (es : List Event) (s : Socket) (acc : List Message)
    → Orderly s acc
    → AllOrderly (happen_all es s acc)
unfolding happen_all
all_from [] s acc o = o
all_from (e ∷ es) s acc o =
    next-AllOrderly _ acc (all_from es) (happen s e) (happen-Going s acc e o)

pub happen_all-Orderly : (es : List Event) → AllOrderly (happen_all es new_socket [])
happen_all-Orderly es = all_from es new_socket [] new-Orderly

no_low : (ms : List Message) → of_priority low_priority ms ≡ [] → of_priority high_priority ms ≡ ms
no_low [] e = refl
no_low (m ∷ ms) e = go m.priority refl (no_low ms)
  where
    go :
        (p : Priority)
        → m.priority ≡ p
        → (of_priority low_priority ms ≡ [] → of_priority high_priority ms ≡ ms)
        → of_priority high_priority (m ∷ ms) ≡ m ∷ ms
    go high_priority h ih =
        let e' : of_priority low_priority ms ≡ [] = simp h at e in
        simp h (ap (λ ms. m ∷ ms) (ih e'))
    go low_priority h ih =
        let e' : m ∷ of_priority low_priority ms ≡ [] = simp h at e in absurd (cc)

no_front_left : (ds hs ls : List WriteBuffer) → ds ++ (hs ++ ls) ≡ [] → ds ++ hs ≡ []
no_front_left [] [] ls e = refl
no_front_left [] (h ∷ hs) ls e = absurd (cc)
no_front_left (d ∷ ds) hs ls e = absurd (cc)

-- Where no message of low priority was accepted, the socket is not shut, and nothing waits, the kernel
-- took the bytes of all messages that were accepted, one after the other.
pub all_sent :
    (es : List Event) (acc : List Message) (s : Socket)
    → happen_all es new_socket [] ≡ some (acc, s)
    → of_priority low_priority acc ≡ []
    → shut s ≡ false
    → queue s ≡ []
    → requested s.pipe ≡ []
    → s.wrote ≡ all_bytes acc
all_sent es acc s e high still_open no_queue no_pipe =
    let o : Orderly s acc = subst AllOrderly e (happen_all-Orderly es) in
    let settled : (p : Priority) → of_priority p acc ≡ of_priority p o.done = λ p.
      o.order p
      ∙ settle p o.done (messages (queue s)) o.lost (requested s.pipe) (ap messages no_queue)
          (o.lost_shut still_open) no_pipe in
    let all_done : acc ≡ o.done =
      sym (no_low acc high)
      ∙ settled high_priority
      ∙ no_low o.done (sym (settled low_priority) ∙ high) in
    o.bytes (ground (arith, still_open))
    ∙ ap (λ (h : List WriteBuffer). all_bytes o.done ++ started h)
        (no_front_left (direct s.dw_buffer) s.high s.low no_queue)
    ∙ append_nil (all_bytes o.done)
    ∙ ap all_bytes (sym all_done)

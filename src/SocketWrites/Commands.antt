-- ===== src/SocketWrites/Commands.antt =====
-- The commands of the pipe on the order of messages.
use skynet_gameserver.Prelude.{
  ◌≡◌, refl, sym, ap, subst, ◌∙◌, Bool, true, false, ◌||◌, List, [], ◌∷◌, ◌++◌,
}
use skynet_gameserver.Prelude.Split.{append_assoc, append_nil}
use skynet_gameserver.SocketWrites.State.{
  Message, Socket, halfclose_read, is_invalid, is_halfclose_read, is_halfclose_write, Request,
  send_request, write_request, close_request, nomore_sending_data,
}
use skynet_gameserver.SocketWrites.Calls.{close_socket, ctrl_cmd, push_request}
use skynet_gameserver.SocketWrites.Events.{next_command}
use skynet_gameserver.SocketWrites.Lists.{both_branches, messages}
use skynet_gameserver.SocketWrites.Order.{
  of_priority, of_priority-append, requested, requested-append, queue, Orderly, OrderlyAfter,
}
use skynet_gameserver.SocketWrites.Closing.{Orderly-flags, Orderly-type, force_close-Orderly}
use skynet_gameserver.SocketWrites.Requests.{send_socket-Orderly}

or_true : (a b : Bool) → (a || b || true) ≡ true
or_true true true = refl
or_true true false = refl
or_true false true = refl
or_true false false = refl

close_socket-Orderly :
    (s : Socket) (acc : List Message) (shutdown : Bool)
    → Orderly s acc
    → Orderly (close_socket s shutdown).1 acc
unfolding close_socket
close_socket-Orderly s acc shutdown o =
    let closing = or_true (is_invalid s.type) (is_halfclose_write s.type) in
    both_branches (OrderlyAfter acc) (is_invalid s.type) (λ e. o)
      (λ valid.
        both_branches (OrderlyAfter acc) (shutdown || nomore_sending_data s)
          (λ e. force_close-Orderly s acc o)
          (λ e.
            both_branches (OrderlyAfter acc) (is_halfclose_read s.type)
              (λ h. Orderly-type s acc s.type true s.writing valid (λ b. absurd (cc)) o)
              (λ h. Orderly-type s acc halfclose_read true s.writing valid (λ b. absurd (cc)) o)))

-- The first request of the pipe, which is no longer in it
ctrl_cmd-Orderly :
    (s : Socket) (acc : List Message) (r : Request)
    → Orderly (record s { pipe = r ∷ s.pipe }) acc
    → Orderly (ctrl_cmd s r).1 acc
ctrl_cmd-Orderly s acc (send_request m) o = send_socket-Orderly s acc m o
ctrl_cmd-Orderly s acc write_request o =
    let o' = popped o in
    both_branches (OrderlyAfter acc) (is_invalid s.type) (λ e. o')
      (λ e. Orderly-flags s acc true s.warn_size o')
  where
    popped : Orderly (record s { pipe = write_request ∷ s.pipe }) acc → Orderly s acc
    popped o = record {
      done = o.done;
      lost = o.lost;
      front = o.front;
      low_whole = o.low_whole;
      low_only = o.low_only;
      direct_high = o.direct_high;
      one_low = o.one_low;
      bytes = o.bytes;
      order = o.order;
      lost_shut = o.lost_shut;
      sized = o.sized;
    }
ctrl_cmd-Orderly s acc (close_request shutdown) o = close_socket-Orderly s acc shutdown (record {
  done = o.done;
  lost = o.lost;
  front = o.front;
  low_whole = o.low_whole;
  low_only = o.low_only;
  direct_high = o.direct_high;
  one_low = o.one_low;
  bytes = o.bytes;
  order = o.order;
  lost_shut = o.lost_shut;
  sized = o.sized;
})

pub next_command-Orderly :
    (s : Socket) (acc : List Message) → Orderly s acc → Orderly (next_command s s.pipe) acc
next_command-Orderly s acc o = go s.pipe refl
  where
    go : (pipe : List Request) → s.pipe ≡ pipe → Orderly (next_command s pipe) acc
    go [] e = o
    go (r ∷ rs) e =
        let o' = subst (λ p. Orderly (record s { pipe = p }) acc) e o in
        ctrl_cmd-Orderly (record s { pipe = rs }) acc r o'

-- A request behind the others: `more` are the messages that it accepts.
pub push-Orderly :
    (s : Socket) (acc : List Message) (r : Request)
    → Orderly s acc
    → Orderly (push_request s r) (acc ++ requested (r ∷ []))
push-Orderly s acc r o = record {
  done = o.done;
  lost = o.lost;
  front = o.front;
  low_whole = o.low_whole;
  low_only = o.low_only;
  direct_high = o.direct_high;
  one_low = o.one_low;
  bytes = o.bytes;
  order = λ p.
      (let ms = requested (r ∷ []) in
        let waiting = of_priority p (o.done ++ messages (queue s)) in
        of_priority-append p acc ms
        ∙ ap (λ xs. xs ++ of_priority p ms) (o.order p)
        ∙ append_assoc waiting (of_priority p (o.lost ++ requested s.pipe)) (of_priority p ms)
        ∙ ap (λ xs. waiting ++ xs)
            (sym (of_priority-append p (o.lost ++ requested s.pipe) ms)
              ∙ ap (of_priority p) (
                  append_assoc o.lost (requested s.pipe) ms
                  ∙ ap (λ xs. o.lost ++ xs) (sym (requested-append s.pipe (r ∷ []))))));
  lost_shut = o.lost_shut;
  sized = o.sized;
}

pub push-Orderly_nothing :
    (s : Socket) (acc : List Message) (r : Request)
    → requested (r ∷ []) ≡ []
    → Orderly s acc
    → Orderly (push_request s r) acc
push-Orderly_nothing s acc r e o =
    subst (Orderly (push_request s r)) (ap (λ ms. acc ++ ms) e ∙ append_nil acc)
      (push-Orderly s acc r o)

-- ===== src/SocketWrites/WakeUp.antt =====
-- Whether the socket thread will be woken to write: the calls, the commands and all events.
use skynet_gameserver.Prelude.{
  ℕ, ◌≡◌, refl, subst, inl, inr, Bool, true, false, Bool-cases, ◌&&◌, ◌||◌, Option, none, some,
  List, [], ◌∷◌, ◌++◌, leb, ◌==◌, length, arith, zero, suc,
}
use skynet_gameserver.SocketWrites.State.{
  Priority, high_priority, low_priority, Message, Socket, is_invalid, is_halfclose_read,
  is_halfclose_write, is_empty, nomore_sending_data, Request, send_request, write_request,
  close_request, Answer, new_socket,
}
use skynet_gameserver.SocketWrites.Sending.{Done, send_buffer}
use skynet_gameserver.SocketWrites.Calls.{
  send_wake, warn, warning_size, by_priority, send_socket, close_socket, ctrl_cmd, push_request,
  direct_write, direct_size, can_direct_write, server_send, server_send_low, read_end,
  append_sendbuffer,
}
use skynet_gameserver.SocketWrites.Events.{
  wakes_up, Event, sends, sends_low, closes, commands, writable, ends, accept, next_command,
  unless_failed, happen, then_happen, happen_all,
}
use skynet_gameserver.SocketWrites.Lists.{both_branches}
use skynet_gameserver.SocketWrites.Awake.{
  signals, nothing_waits, wakes, wakes-append, wakes_last, Awake, AwakeAfter, AwakeDone,
  force_close-Awake, send_buffer-Awake,
}

warn-Awake : (s : Socket) → Awake s → AwakeAfter (warn s)
unfolding warn
warn-Awake s a =
    both_branches AwakeAfter (leb warning_size s.wb_size && leb s.warn_size s.wb_size) (λ e. a)
      (λ e. a)

on_Awake : (s : Socket) → s.writing ≡ true → Awake s
on_Awake s e = ground (arith, e)

send_socket-Awake : (s : Socket) (m : Message) → Awake s → AwakeAfter (send_socket s m)
unfolding send_socket
send_socket-Awake s m a =
    both_branches AwakeAfter (is_invalid s.type || is_halfclose_write s.type || s.closing) (λ e. a)
      (λ e.
        both_branches AwakeAfter (is_empty s.high && is_empty s.low)
          (λ empty.
            warn-Awake _ (on_Awake (record (append_sendbuffer s m) { writing = true }) refl))
          (λ waits. warn-Awake _ (go m.priority waits)))
  where
    go : (p : Priority) → (is_empty s.high && is_empty s.low) ≡ false → Awake (by_priority s m p)
    go high_priority waits = ground (arith, a, waits)
    go low_priority waits = ground (arith, a, waits)

close_socket-Awake : (s : Socket) (shutdown : Bool) → Awake s → AwakeAfter (close_socket s shutdown)
unfolding close_socket nomore_sending_data
close_socket-Awake s shutdown a =
    both_branches AwakeAfter (is_invalid s.type) (λ e. a)
      (λ valid.
        both_branches AwakeAfter (shutdown || nomore_sending_data s) (λ e. force_close-Awake s)
          (λ more.
            both_branches AwakeAfter (is_halfclose_read s.type) (λ e. a)
              (λ e. ground (arith, a, valid, more))))

ctrl_cmd-Awake :
    (s : Socket) (r : Request) → Awake (record s { pipe = r ∷ s.pipe }) → AwakeAfter (ctrl_cmd s r)
ctrl_cmd-Awake s (send_request m) a = send_socket-Awake s m a
ctrl_cmd-Awake s write_request a =
    both_branches AwakeAfter (is_invalid s.type) (λ e. ground (arith, e))
      (λ e. on_Awake (record s { writing = true }) refl)
ctrl_cmd-Awake s (close_request shutdown) a = close_socket-Awake s shutdown a

next_command-Awake : (s : Socket) → Awake s → Awake (next_command s s.pipe)
next_command-Awake s a = go s.pipe refl
  where
    go : (pipe : List Request) → s.pipe ≡ pipe → Awake (next_command s pipe)
    go [] e = a
    go (r ∷ rs) e =
        let a' : Awake (record s { pipe = r ∷ rs }) =
          subst (λ p. Awake (record s { pipe = p })) e a in
        ctrl_cmd-Awake (record s { pipe = rs }) r a'

read_end-Awake : (s : Socket) → is_invalid s.type ≡ false → Awake s → Awake (read_end s).1
unfolding read_end
read_end-Awake s valid a =
    both_branches AwakeAfter s.closing
      (λ e. both_branches Awake (nomore_sending_data s) (λ e. force_close-Awake s) (λ e. a))
      (λ e.
        both_branches AwakeAfter (is_halfclose_read s.type) (λ e. a)
          (λ e.
            both_branches AwakeAfter (is_halfclose_write s.type) (λ e. force_close-Awake s)
              (λ e. ground (arith, a, valid, e))))

push-Awake : (s : Socket) (r : Request) → Awake s → Awake (push_request s r)
push-Awake s r a = elim (Bool-cases (wakes s.pipe)) [
  | inl e ↦ (let e' = wakes-append s.pipe (r ∷ []) e in ground (arith, e'))
  | inr e ↦ ground (arith, a, e)
]

direct_write-Awake :
    (s : Socket) (bytes : List ℕ) (n : ℕ) → Awake s → Awake (direct_write s bytes n)
unfolding direct_write
direct_write-Awake s bytes n a =
    both_branches Awake (n == length bytes) (λ e. a) (λ e. ground (arith))

send_wake-Awake : (s : Socket) (n : ℕ) → Awake s → Awake (send_wake s n)
send_wake-Awake s zero a = a
send_wake-Awake s (suc n) a = let w = wakes_last s.pipe in ground (arith, w)

abbrev AwakeAccepted : List Message × Socket → Type 0
AwakeAccepted (ms, s) = Awake s

server_send-Awake :
    (s : Socket) (m : Message) (bytes : List ℕ) (free : Bool) (answer : Answer)
    → Awake s
    → AwakeAccepted (accept m (server_send s bytes free answer))
unfolding server_send
server_send-Awake s m bytes free answer a =
    both_branches (λ r. AwakeAccepted (accept m r)) (is_invalid s.type || s.closing) (λ e. a)
      (λ e.
        both_branches Awake (can_direct_write s && free)
          (λ e. direct_write-Awake s bytes (direct_size answer (length bytes)) a)
          (λ e. push-Awake s _ a))

server_send_low-Awake :
    (s : Socket) (m : Message) (bytes : List ℕ)
    → Awake s
    → AwakeAccepted (accept m (server_send_low s bytes))
unfolding server_send_low
server_send_low-Awake s m bytes a =
    both_branches (λ r. AwakeAccepted (accept m r)) (is_invalid s.type) (λ e. a)
      (λ e. push-Awake s _ a)

abbrev AwakeStep : Option (List Message × Socket) → Type 0
AwakeStep none = Unit {0}
AwakeStep (some r) = AwakeAccepted r

unless-Awake : (d : Done) → AwakeDone d → AwakeStep (unless_failed d)
unless-Awake none k = tt
unless-Awake (some (report, s)) k = k

happen-Awake : (s : Socket) (e : Event) → Awake s → AwakeStep (happen s e)
unfolding happen
happen-Awake s (sends bytes free answer) a = server_send-Awake s _ bytes free answer a
happen-Awake s (sends_low bytes) a = server_send_low-Awake s _ bytes a
happen-Awake s (closes shutdown) a = push-Awake s (close_request shutdown) a
happen-Awake s wakes_up a = send_wake-Awake s s.waking a
happen-Awake s commands a = next_command-Awake s a
happen-Awake s (writable answers) a =
    both_branches AwakeStep (is_invalid s.type) (λ e. a)
      (λ e. unless-Awake (send_buffer s answers) (send_buffer-Awake s answers a))
happen-Awake s ends a =
    both_branches AwakeStep (is_invalid s.type) (λ e. a) (λ e. read_end-Awake s e a)

next-AwakeStep :
    (next : Socket → List Message → Option (List Message × Socket)) (acc : List Message)
    → ((s : Socket) (acc : List Message) → Awake s → AwakeStep (next s acc))
    → (r : Option (List Message × Socket)) → AwakeStep r
    → AwakeStep (then_happen next acc r)
next-AwakeStep next acc h none k = tt
next-AwakeStep next acc h (some (ms, s)) k = h s (acc ++ ms) k

any_events :
    (es : List Event) (s : Socket) (acc : List Message) → Awake s → AwakeStep (happen_all es s acc)
unfolding happen_all
any_events [] s acc a = a
any_events (e ∷ es) s acc a = next-AwakeStep _ acc (any_events es) (happen s e) (happen-Awake s e a)

-- After any events, where a message waits in the lists or the rest of a direct write does, and the socket
-- is not closed and not shut for writing, the write event is on, a command W is in the pipe, or a thread
-- has written directly and has the command W still to send.
pub happen_all-awake :
    (es : List Event) (acc : List Message) (s : Socket)
    → happen_all es new_socket [] ≡ some (acc, s)
    → is_invalid s.type ≡ false
    → is_halfclose_write s.type ≡ false
    → nothing_waits s ≡ false
    → signals s ≡ true
happen_all-awake es acc s e valid writes waits =
    let a : Awake s = subst AwakeStep e (any_events es new_socket [] refl) in
    ground (arith, a, valid, writes, waits)

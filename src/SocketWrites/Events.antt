-- ===== src/SocketWrites/Events.antt =====
-- skynet/skynet-src/socket_server.c: each critical section and each command of the pipe is one event.
use skynet_gameserver.Prelude.{
  ℕ, Bool, true, false, Option, none, some, List, [], ◌∷◌, ◌++◌, if◌then◌else◌,
}
use skynet_gameserver.SocketWrites.State.{
  high_priority, low_priority, Message, Request, close_request, Socket, Answer, is_invalid,
}
use skynet_gameserver.SocketWrites.Sending.{Done, send_buffer}
use skynet_gameserver.SocketWrites.Calls.{
  ctrl_cmd, push_request, server_send, send_wake, server_send_low, read_end,
}

-- What happens to a socket: the calls of the worker threads, whose messages are accepted or not, a
-- command of the pipe, the socket that can be written, and the end of what can be read.
pub data Event : Type 0 where
  sends : List ℕ → (free : Bool) → Answer → Event
  sends_low : List ℕ → Event
  closes : (shutdown : Bool) → Event
  wakes_up : Event
  commands : Event
  writable : List Answer → Event
  ends : Event

abbrev pub accept : Message → Bool × Socket → List Message × Socket
accept m (true, s) = (m ∷ [], s)
accept m (false, s) = ([], s)

abbrev pub next_command : Socket → List Request → Socket
next_command s [] = s
next_command s (r ∷ rs) = (ctrl_cmd (record s { pipe = rs }) r).1

abbrev pub unless_failed : Done → Option (List Message × Socket)
unless_failed none = none
unless_failed (some (report, s)) = some ([], s)

-- The messages that were accepted, and the socket; `none` is a failed assertion.
unfoldable pub happen : Socket → Event → Option (List Message × Socket)
happen s (sends bytes free answer) =
    some (
      accept (record { priority = high_priority; bytes = bytes }) (server_send s bytes free answer))
happen s (sends_low bytes) =
    some (accept (record { priority = low_priority; bytes = bytes }) (server_send_low s bytes))
happen s (closes shutdown) = some ([], push_request s (close_request shutdown))
happen s wakes_up = some ([], send_wake s s.waking)
happen s commands = some ([], next_command s s.pipe)
happen s (writable answers) =
    if is_invalid s.type then some ([], s) else unless_failed (send_buffer s answers)
happen s ends = if is_invalid s.type then some ([], s) else some ([], (read_end s).1)

abbrev pub then_happen :
    (Socket → List Message → Option (List Message × Socket))
    → List Message
    → Option (List Message × Socket)
    → Option (List Message × Socket)
then_happen next accepted none = none
then_happen next accepted (some (more, s)) = next s (accepted ++ more)

-- Events one after the other, with all messages that were accepted.
unfoldable pub happen_all : List Event → Socket → List Message → Option (List Message × Socket)
happen_all [] s accepted = some (accepted, s)
happen_all (e ∷ es) s accepted =
    then_happen (λ s accepted. happen_all es s accepted) accepted (happen s e)

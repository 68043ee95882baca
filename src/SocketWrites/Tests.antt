-- ===== src/SocketWrites/Tests.antt =====
-- Runs of a socket.
use skynet_gameserver.Prelude.{ℕ, ◌≡◌, refl, true, false, none, some, List, [], ◌∷◌}
use skynet_gameserver.SocketWrites.State.{
  high_priority, low_priority, Message, connected, halfclose_read, Socket, took, would_block,
  interrupted, new_socket, nomore_sending_data, sending,
}
use skynet_gameserver.SocketWrites.Sending.{
  force_close, close_write, send_list, raise_uncomplete, finish_writing, after_low, send_low,
  send_both, send_buffer,
}
use skynet_gameserver.SocketWrites.Calls.{
  warn, send_socket, close_socket, direct_write, server_send, server_send_low, read_end,
}
use skynet_gameserver.SocketWrites.Events.{
  wakes_up, Event, sends, sends_low, closes, commands, writable, happen, happen_all,
}
use skynet_gameserver.SocketWrites.Lists.{all_bytes}
use skynet_gameserver.SocketWrites.Steps.{all_sent}
use skynet_gameserver.SocketWrites.Awake.{signals}
use skynet_gameserver.SocketWrites.WakeUp.{happen_all-awake}

abbrev high : List ℕ → Message
high bytes = record { priority = high_priority; bytes = bytes }

-- A direct write takes one byte of three; a second message and one of low priority follow. The
-- socket gets closed while they wait.
abbrev some_events : List Event
some_events =
    sends (1 ∷ 2 ∷ 3 ∷ []) true (took 1)
    ∷ wakes_up
    ∷ sends (4 ∷ []) false would_block
    ∷ sends_low (8 ∷ 9 ∷ [])
    ∷ commands
    ∷ commands
    ∷ commands
    ∷ writable (took 2 ∷ took 1 ∷ took 1 ∷ would_block ∷ [])
    ∷ closes false
    ∷ commands
    ∷ []

abbrev socket_waiting : Socket
socket_waiting = record {
  type = halfclose_read;
  closing = true;
  writing = true;
  high =
      record { message = record { priority = low_priority; bytes = 8 ∷ 9 ∷ [] }; offset = 1 } ∷ [];
  low = [];
  wb_size = 1;
  warn_size = 0;
  dw_buffer = none;
  pipe = [];
  waking = 0;
  wrote = 1 ∷ 2 ∷ 3 ∷ 4 ∷ 8 ∷ [];
}

abbrev some_accepted : List Message
some_accepted =
    high (1 ∷ 2 ∷ 3 ∷ [])
    ∷ high (4 ∷ [])
    ∷ record { priority = low_priority; bytes = 8 ∷ 9 ∷ [] }
    ∷ []

abbrev sent_events : List Event
sent_events =
    sends (1 ∷ 2 ∷ 3 ∷ []) true (took 1)
    ∷ wakes_up
    ∷ sends (4 ∷ []) false would_block
    ∷ commands
    ∷ commands
    ∷ writable (took 2 ∷ interrupted ∷ took 1 ∷ [])
    ∷ []

abbrev socket_sent : Socket
socket_sent = record {
  type = connected;
  closing = false;
  writing = false;
  high = [];
  low = [];
  wb_size = 0;
  warn_size = 0;
  dw_buffer = none;
  pipe = [];
  waking = 0;
  wrote = 1 ∷ 2 ∷ 3 ∷ 4 ∷ [];
}

sent_events_run :
    happen_all sent_events new_socket []
    ≡ some (high (1 ∷ 2 ∷ 3 ∷ []) ∷ high (4 ∷ []) ∷ [], socket_sent)
unfolding happen_all happen force_close close_write send_list raise_uncomplete finish_writing
    after_low send_low send_both send_buffer warn send_socket nomore_sending_data close_socket
    direct_write server_send server_send_low sending read_end
sent_events_run = refl

all_sent_example : 1 ∷ 2 ∷ 3 ∷ 4 ∷ [] ≡ all_bytes (high (1 ∷ 2 ∷ 3 ∷ []) ∷ high (4 ∷ []) ∷ [])
all_sent_example =
    all_sent sent_events (high (1 ∷ 2 ∷ 3 ∷ []) ∷ high (4 ∷ []) ∷ []) socket_sent sent_events_run
      refl refl refl refl

-- A message of low priority behind the request to close: the socket stays closing with nothing to write.
closing_stays :
    happen_all (closes false ∷ sends_low (9 ∷ []) ∷ commands ∷ commands ∷ []) new_socket []
    ≡ some (
      record { priority = low_priority; bytes = 9 ∷ [] } ∷ [],
      record new_socket { type = halfclose_read; closing = true },
    )
unfolding happen_all happen force_close close_write send_list raise_uncomplete finish_writing
    after_low send_low send_both send_buffer warn send_socket nomore_sending_data close_socket
    direct_write server_send server_send_low sending read_end
closing_stays = refl

-- A direct write of which the kernel took a byte
abbrev socket_direct : Socket
socket_direct = record new_socket {
  dw_buffer = some (record { message = high (1 ∷ 2 ∷ 3 ∷ []); offset = 1 });
  waking = 1;
  wrote = 1 ∷ [];
}

direct_run :
    happen_all (sends (1 ∷ 2 ∷ 3 ∷ []) true (took 1) ∷ []) new_socket []
    ≡ some (high (1 ∷ 2 ∷ 3 ∷ []) ∷ [], socket_direct)
unfolding happen_all happen nomore_sending_data direct_write server_send sending
direct_run = refl

happen_all-awake_example : signals socket_direct ≡ true
happen_all-awake_example =
    happen_all-awake (sends (1 ∷ 2 ∷ 3 ∷ []) true (took 1) ∷ []) (high (1 ∷ 2 ∷ 3 ∷ []) ∷ [])
      socket_direct direct_run refl refl refl

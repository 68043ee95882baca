-- ===== src/SocketWrites/Calls.antt =====
-- skynet/skynet-src/socket_server.c: the calls of the worker threads, the commands of the pipe, and the
-- end of what can be read. `sp_enable` is taken to succeed.
use skynet_gameserver.Prelude.{
  ℕ, zero, suc, ◌+◌, ◌*◌, ◌/◌, ◌%◌, Bool, true, false, ◌&&◌, ◌||◌, some, List, [], ◌∷◌, ◌++◌, leb,
  ◌==◌, if◌then◌else◌, length, take, min,
}
use skynet_gameserver.SocketWrites.State.{
  Priority, high_priority, low_priority, Message, halfclose_read, Request, send_request,
  write_request, close_request, Socket, Report, nothing, socket_close, socket_warning, Answer, took,
  would_block, interrupted, failed, is_invalid, is_connected, is_halfclose_read, is_halfclose_write,
  is_empty, whole, nomore_sending_data,
}
use skynet_gameserver.SocketWrites.Sending.{force_close}

-- `append_sendbuffer` and `append_sendbuffer_low`
abbrev pub append_sendbuffer : Socket → Message → Socket
append_sendbuffer s m = record s {
  high = s.high ++ whole m ∷ [];
  wb_size = s.wb_size + length m.bytes;
}

abbrev pub append_sendbuffer_low : Socket → Message → Socket
append_sendbuffer_low s m = record s {
  low = s.low ++ whole m ∷ [];
  wb_size = s.wb_size + length m.bytes;
}

abbrev pub by_priority : Socket → Message → Priority → Socket
by_priority s m high_priority = append_sendbuffer s m
by_priority s m low_priority = append_sendbuffer_low s m

abbrev pub warning_size : ℕ
warning_size = 1024 * 1024

-- The end of `send_socket`.
unfoldable pub warn : Socket → Report × Socket
warn s =
    if leb warning_size s.wb_size && leb s.warn_size s.wb_size
    then (
      socket_warning (if s.wb_size % 1024 == 0 then s.wb_size / 1024 else s.wb_size / 1024 + 1),
      record s { warn_size = if s.warn_size == 0 then warning_size * 2 else s.warn_size * 2 },
    )
    else (nothing, s)

-- `send_socket`
unfoldable pub send_socket : Socket → Message → Report × Socket
send_socket s m =
    if is_invalid s.type || is_halfclose_write s.type || s.closing
    then (nothing, s)
    else (if is_empty s.high && is_empty s.low
        then warn (record (append_sendbuffer s m) { writing = true })
        else warn (by_priority s m m.priority))

-- `close_socket`
unfoldable pub close_socket : Socket → Bool → Report × Socket
close_socket s shutdown =
    if is_invalid s.type
    then (nothing, s)
    else (if shutdown || nomore_sending_data s
        then ((if is_halfclose_read s.type then nothing else socket_close), force_close s)
        else (if is_halfclose_read s.type
            then (nothing, record s { closing = true })
            else (socket_close, record s { closing = true; type = halfclose_read })))

-- The command in `ctrl_cmd`; the count of `sending` goes down after `send_socket`.
abbrev pub ctrl_cmd : Socket → Request → Report × Socket
ctrl_cmd s (send_request m) = send_socket s m
ctrl_cmd s write_request =
    if is_invalid s.type then (nothing, s) else (nothing, record s { writing = true })
ctrl_cmd s (close_request shutdown) = close_socket s shutdown

abbrev pub push_request : Socket → Request → Socket
push_request s r = record s { pipe = s.pipe ++ r ∷ [] }

-- `can_direct_write`
abbrev pub can_direct_write : Socket → Bool
can_direct_write s = nomore_sending_data s && is_connected s.type

-- How many bytes a direct `write` has written; an error is tried again by the socket thread.
abbrev pub direct_size : Answer → ℕ → ℕ
direct_size (took n) sz = min n sz
direct_size would_block sz = 0
direct_size interrupted sz = 0
direct_size failed sz = 0

-- What is left stands in `dw_buffer`, and the thread has still to send the command W, outside the lock.
unfoldable pub direct_write : Socket → List ℕ → ℕ → Socket
direct_write s bytes n =
    let s' = record s { wrote = s.wrote ++ take n bytes } in
    if n == length bytes then s' else record s' {
      dw_buffer =
          some
            (record { message = record { priority = high_priority; bytes = bytes }; offset = n });
      waking = s.waking + 1;
    }

-- A thread sends the command W after its direct write.
abbrev pub send_wake : Socket → ℕ → Socket
send_wake s zero = s
send_wake s (suc n) = record (push_request s write_request) { waking = n }

-- `socket_server_send`, where `free` says whether `socket_trylock` gets the lock, and the kernel would
-- give `answer` to a direct write: whether it took the message.
unfoldable pub server_send : Socket → List ℕ → (free : Bool) → Answer → Bool × Socket
server_send s bytes free answer = if is_invalid s.type || s.closing then (false, s) else (
  true,
  (if can_direct_write s && free
      then direct_write s bytes (direct_size answer (length bytes))
      else push_request s (send_request (record { priority = high_priority; bytes = bytes }))),
)

-- `socket_server_send_lowpriority`
unfoldable pub server_send_low : Socket → List ℕ → Bool × Socket
server_send_low s bytes =
    if is_invalid s.type
    then (false, s)
    else (true, push_request s (send_request (record { priority = low_priority; bytes = bytes })))

-- `forward_message_tcp` when `read` gives 0.
unfoldable pub read_end : Socket → Report × Socket
read_end s =
    if s.closing
    then (nothing, (if nomore_sending_data s then force_close s else s))
    else (if is_halfclose_read s.type
        then (nothing, s)
        else (if is_halfclose_write s.type
            then (socket_close, force_close s)
            else (socket_close, record s { type = halfclose_read })))

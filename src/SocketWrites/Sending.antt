-- ===== src/SocketWrites/Sending.antt =====
-- skynet/skynet-src/socket_server.c: the socket thread writes the two lists and closes. What the kernel
-- answers to `write` is an argument, and `sp_enable` is taken to succeed.
use skynet_gameserver.Prelude.{
  ℕ, ◌+◌, ◌-◌, Bool, true, false, not, ◌&&◌, Option, none, some, List, [], ◌∷◌, ◌++◌, ltb, ◌==◌,
  if◌then◌else◌, length, take, drop, min,
}
use skynet_gameserver.SocketWrites.State.{
  WriteBuffer, size_left, halfclose_write, invalid, Socket, Report, nothing, socket_err,
  socket_warning, Answer, took, would_block, interrupted, failed, is_invalid, is_halfclose_read,
  is_halfclose_write, is_empty,
}

-- `force_close`
unfoldable pub force_close : Socket → Socket
force_close s =
    if is_invalid s.type
    then s
    else record s { type = invalid; high = []; low = []; dw_buffer = none }

-- `close_write`
unfoldable pub close_write : Socket → Report × Socket
close_write s =
    if s.closing
    then (nothing, force_close s)
    else (if is_halfclose_read s.type
        then (nothing, force_close s)
        else (if is_halfclose_write s.type
            then (nothing, s)
            else (socket_err, record s { type = halfclose_write; writing = false })))

-- The loop of `send_list_tcp`: the bytes that were written, the buffers left, whether a `write` failed,
-- and the answers left. Where no answer is left, the kernel would block.
pub record Sent : Type 0 where
  pub bytes : List ℕ
  pub left : List WriteBuffer
  pub broken : Bool
  pub answers : List Answer

-- The answer to the `write` of a buffer is `n` bytes.
abbrev pub after_write : List ℕ → Sent → Sent
after_write bytes s = record s { bytes = bytes ++ s.bytes }

unfoldable pub send_list : List Answer → List WriteBuffer → Sent
send_list answers [] = record { bytes = []; left = []; broken = false; answers = answers }
send_list [] (wb ∷ wbs) = record { bytes = []; left = wb ∷ wbs; broken = false; answers = [] }
send_list (would_block ∷ more) (wb ∷ wbs) = record {
  bytes = [];
  left = wb ∷ wbs;
  broken = false;
  answers = more;
}
send_list (interrupted ∷ more) (wb ∷ wbs) = send_list more (wb ∷ wbs)
send_list (failed ∷ more) (wb ∷ wbs) = record {
  bytes = [];
  left = wb ∷ wbs;
  broken = true;
  answers = more;
}
send_list (took n ∷ more) (wb ∷ wbs) =
    let sz = min n (size_left wb) in
    let bytes = take sz (drop wb.offset wb.message.bytes) in
    let rest = send_list more wbs in
    if sz == size_left wb then after_write bytes rest else record {
      bytes = bytes;
      left = record wb { offset = wb.offset + sz } ∷ wbs;
      broken = false;
      answers = more;
    }

-- `list_uncomplete`
abbrev pub list_uncomplete : List WriteBuffer → Bool
list_uncomplete [] = false
list_uncomplete (wb ∷ wbs) = not (wb.offset == 0)

-- `raise_uncomplete`; `none` is the failed assertion, or a null pointer.
unfoldable pub raise_uncomplete : Socket → List WriteBuffer → List WriteBuffer → Option Socket
raise_uncomplete s (wb ∷ high) low = none
raise_uncomplete s [] [] = none
raise_uncomplete s [] (wb ∷ low) = some (record s { high = wb ∷ []; low = low })

abbrev pub Done : Type 0
Done = Option (Report × Socket)

-- Step 4 of `send_buffer_`.
unfoldable pub finish_writing : Socket → Done
finish_writing s =
    if not (is_empty s.high && is_empty s.low && s.wb_size == 0)
    then none
    else (if s.closing
        then some (nothing, force_close s)
        else (if ltb 0 s.warn_size
            then some (socket_warning 0, record s { writing = false; warn_size = 0 })
            else some (nothing, record s { writing = false })))

abbrev pub quietly : Option Socket → Done
quietly none = none
quietly (some s) = some (nothing, s)

-- Steps 2 to 4, after the low list was written.
unfoldable pub after_low : Socket → Done
after_low s =
    if list_uncomplete s.low
    then quietly (raise_uncomplete s s.high s.low)
    else (if is_empty s.low then finish_writing s else some (nothing, s))

-- What `send_list` did to one of the lists.
abbrev pub low_sent : Socket → Sent → Socket
low_sent s r = record s {
  low = r.left;
  wrote = s.wrote ++ r.bytes;
  wb_size = s.wb_size - length r.bytes;
}

abbrev pub high_sent : Socket → Sent → Socket
high_sent s r = record s {
  high = r.left;
  wrote = s.wrote ++ r.bytes;
  wb_size = s.wb_size - length r.bytes;
}

unfoldable pub send_low : Socket → List Answer → Done
send_low s answers =
    let r = send_list answers s.low in
    if r.broken then some (close_write (low_sent s r)) else after_low (low_sent s r)

-- `send_buffer_`
unfoldable pub send_both : Socket → List Answer → Done
send_both s answers =
    let r = send_list answers s.high in
    let s' = high_sent s r in
    if list_uncomplete s.low
    then none
    else (if r.broken
        then some (close_write s')
        else (if is_empty r.left
            then (if is_empty s.low then finish_writing s' else send_low s' r.answers)
            else some (nothing, s')))

abbrev pub raise_direct : Socket → Option WriteBuffer → Socket
raise_direct s none = record s { dw_buffer = none }
raise_direct s (some wb) = record s {
  high = wb ∷ s.high;
  dw_buffer = none;
  wb_size = s.wb_size + size_left wb;
}

-- `send_buffer`, when the socket can be written and no thread writes directly.
unfoldable pub send_buffer : Socket → List Answer → Done
send_buffer s answers = send_both (raise_direct s s.dw_buffer) answers

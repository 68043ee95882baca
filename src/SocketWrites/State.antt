-- ===== src/SocketWrites/State.antt =====
-- skynet/skynet-src/socket_server.c: a connected TCP socket, its two lists of buffers, and the requests for
-- it in the control pipe. A user object is its bytes.
use skynet_gameserver.Prelude.{
  ℕ, suc, ◌-◌, Bool, true, false, ◌&&◌, ◌||◌, Option, none, some, List, [], ◌∷◌, ◌==◌, length,
}

-- `PRIORITY_HIGH` and `PRIORITY_LOW`
pub data Priority : Type 0 where
  high_priority low_priority : Priority

pub record Message : Type 0 where
  pub priority : Priority
  pub bytes : List ℕ

-- `struct write_buffer`: `offset` is how far `ptr` is behind `buffer`.
pub record WriteBuffer : Type 0 where
  pub message : Message
  pub offset : ℕ

-- `sz`
abbrev pub size_left : WriteBuffer → ℕ
size_left wb = length wb.message.bytes - wb.offset

-- The types of a socket from the connection on.
pub data SocketType : Type 0 where
  connected halfclose_read halfclose_write invalid : SocketType

-- The commands D and P, W, and K of the control pipe.
pub data Request : Type 0 where
  send_request : Message → Request
  write_request : Request
  close_request : (shutdown : Bool) → Request

-- `struct socket` with the requests for it in the pipe, and the bytes that the kernel took. `dw_buffer`
-- is with `dw_offset`.
pub record Socket : Type 0 where
  pub type : SocketType
  pub closing : Bool
  pub writing : Bool
  pub high : List WriteBuffer
  pub low : List WriteBuffer
  pub wb_size : ℕ
  pub warn_size : ℕ
  pub dw_buffer : Option WriteBuffer
  pub pipe : List Request
  pub waking : ℕ
  pub wrote : List ℕ

-- What a step reports: nothing (-1), `SOCKET_ERR`, `SOCKET_CLOSE`, or `SOCKET_WARNING` with `ud`.
pub data Report : Type 0 where
  nothing socket_err socket_close : Report
  socket_warning : (ud : ℕ) → Report

-- The answer of the kernel to `write`: how many bytes it took, or `errno`.
pub data Answer : Type 0 where
  took : ℕ → Answer
  would_block interrupted failed : Answer

abbrev pub is_invalid : SocketType → Bool
is_invalid invalid = true
is_invalid _ = false

abbrev pub is_connected : SocketType → Bool
is_connected connected = true
is_connected _ = false

abbrev pub is_halfclose_read : SocketType → Bool
is_halfclose_read halfclose_read = true
is_halfclose_read _ = false

abbrev pub is_halfclose_write : SocketType → Bool
is_halfclose_write halfclose_write = true
is_halfclose_write _ = false

abbrev pub is_empty {ℓ} : {A : Type ℓ} → List A → Bool
is_empty [] = true
is_empty (x ∷ xs) = false

-- `sending & 0xffff`: the requests D and P that are in the pipe.
unfoldable pub sending : List Request → ℕ
sending [] = 0
sending (send_request m ∷ rs) = suc (sending rs)
sending (write_request ∷ rs) = sending rs
sending (close_request shutdown ∷ rs) = sending rs

abbrev pub whole : Message → WriteBuffer
whole m = record { message = m; offset = 0 }

abbrev pub no_direct : Option WriteBuffer → Bool
no_direct none = true
no_direct (some wb) = false

-- `nomore_sending_data`
unfoldable pub nomore_sending_data : Socket → Bool
nomore_sending_data s =
    (is_empty s.high && is_empty s.low && no_direct s.dw_buffer && sending s.pipe == 0)
    || is_halfclose_write s.type

-- A new socket, from `new_fd`.
abbrev pub new_socket : Socket
new_socket = record {
  type = connected;
  closing = false;
  writing = false;
  high = [];
  low = [];
  wb_size = 0;
  warn_size = 0;
  dw_buffer = none;
  pipe = [];
  waking = 0;
  wrote = [];
}

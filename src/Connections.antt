-- ===== src/Connections.antt =====
-- skynet/service-src/service_gate.c: the connections of the gate. The hash table gives each socket id
-- a node, and the node's index is that of its connection and buffer. What the source logs, and the
-- name of the peer in `struct connection`, which only the report reads, are left out. Of the commands
-- of `_ctrl` only the effect of `forward` on a connection is modelled.
pub mod Table
pub mod Change
pub mod Views
pub mod Steps
pub mod Events
pub mod Clients
mod Tests
use skynet_gameserver.Prelude.{
  ℕ, ◌+◌, ◌-◌, ◌*◌, ◌^◌, Bool, Option, none, some, List, [], ◌∷◌, ◌++◌, map, leb, ◌==◌,
  if◌then◌else◌, at, length, take, drop, get_or,
}
use skynet_gameserver.Databuffer.{
  DataBuffer, MessagePool, databuffer_clear, empty_buffer, minus_one,
}
use skynet_gameserver.HashId.{HashId, init, lookup, insert, remove, full}
use skynet_gameserver.Gate.{Gate, Connection, Action, closes, dispatch_message}

-- `struct gate`; `listen_id` is -1 where the gate does not listen.
pub record Connections : Type 0 where
  pub gate : Gate
  pub listen_id : ℕ
  pub hash : HashId
  pub conn : ℕ → Connection
  pub buffer : ℕ → DataBuffer
  pub mp : MessagePool

-- The texts `"%d open %d %s:0"` and `"%d close"` to the watchdog.
pub data Report : Type 0 where
  opened : (id : ℕ) (remote_name : List ℕ) → Report
  closed : (id : ℕ) → Report

-- What `dispatch_message` does, a report, and `skynet_socket_send`.
pub data Effect : Type 0 where
  acts : Action → Effect
  reports : (destination : ℕ) → Report → Effect
  writes : (id : ℕ) → List ℕ → Effect

-- `struct skynet_socket_message`, by its type
pub data SocketMessage : Type 0 where
  data_of : (id : ℕ) → List ℕ → SocketMessage
  connect : (id : ℕ) → SocketMessage
  close : (id : ℕ) → SocketMessage
  error : (id : ℕ) → SocketMessage
  accept : (id ud : ℕ) (name : List ℕ) → SocketMessage
  warning : (id ud : ℕ) → SocketMessage

-- What is done, and the state after it; `none` is a failed assertion.
abbrev pub Done : Type 0
Done = Option (List Effect × Connections)

-- A connection that is not in use
abbrev pub idle : Connection
idle = record { id = minus_one; agent = 0; client = 0 }

-- The state that `gate_init` makes, before it listens.
unfoldable pub start : Gate → ℕ → Connections
start g max = record {
  gate = g;
  listen_id = minus_one;
  hash = init max;
  conn = λ i. idle;
  buffer = λ i. empty_buffer;
  mp = record { blocks = 0; free = 0 };
}

-- `_report`
unfoldable pub report : Gate → Report → List Effect
report g r = if g.watchdog == 0 then [] else reports g.watchdog r ∷ []

abbrev pub keep_frames : Connections → ℕ → Option (List Action × DataBuffer × MessagePool) → Done
keep_frames s k none = none
keep_frames s k (some (sent, db, mp)) =
    some (map acts sent, record s { buffer = at s.buffer k db; mp = mp })

-- `SKYNET_SOCKET_TYPE_DATA`, for the node of the id.
unfoldable pub on_data : Connections → ℕ → List ℕ → Option ℕ → Done
on_data s id bytes none = some (acts (closes id) ∷ [], s)
on_data s id bytes (some k) =
    keep_frames s k (dispatch_message s.gate (s.conn k) id (s.buffer k) s.mp bytes)

-- `SKYNET_SOCKET_TYPE_CONNECT`, for the node of the id.
abbrev pub on_connect : Connections → ℕ → Option ℕ → Done
on_connect s id none = some (acts (closes id) ∷ [], s)
on_connect s id (some k) = some ([], s)

-- `SKYNET_SOCKET_TYPE_CLOSE` and `SKYNET_SOCKET_TYPE_ERROR`, for what `hashid_remove` returns.
abbrev pub on_close : Connections → ℕ → Option ℕ × HashId → Done
on_close s id (none, hash) = some ([], record s { hash = hash })
on_close s id (some k, hash) =
    let (db, mp) = databuffer_clear (s.buffer k) s.mp in
    some (
      report s.gate (closed id),
      record s {
        hash = hash;
        conn = at s.conn k idle;
        buffer = at s.buffer k empty_buffer;
        mp = mp;
      },
    )

-- `SKYNET_SOCKET_TYPE_ACCEPT`, for what `hashid_insert` returns.
abbrev pub on_accept : Connections → ℕ → List ℕ → Option (ℕ × HashId) → Done
on_accept s ud name none = none
on_accept s ud name (some (k, hash)) = some (
  report s.gate (opened ud (take 31 name)),
  record s { hash = hash; conn = at s.conn k (record (s.conn k) { id = ud }) },
)

-- `dispatch_socket_message`
unfoldable pub dispatch_socket_message : Connections → SocketMessage → Done
dispatch_socket_message s (data_of id bytes) = on_data s id bytes (lookup s.hash id)
dispatch_socket_message s (connect id) =
    if s.listen_id == id then some ([], s) else on_connect s id (lookup s.hash id)
dispatch_socket_message s (close id) = on_close s id (remove s.hash id)
dispatch_socket_message s (error id) = on_close s id (remove s.hash id)
dispatch_socket_message s (accept id ud name) =
    if s.listen_id == id
    then (if full s.hash
        then some (acts (closes ud) ∷ [], s)
        else on_accept s ud name (insert s.hash ud))
    else none
dispatch_socket_message s (warning id ud) = some ([], s)

-- `_forward_agent`, for the node of the id.
abbrev pub set_agent : Connections → ℕ → ℕ → Option ℕ → Connections
set_agent s agent client none = s
set_agent s agent client (some k) = record s {
  conn = at s.conn k (record (s.conn k) { agent = agent; client = client });
}

unfoldable pub forward_agent : Connections → ℕ → ℕ → ℕ → Connections
forward_agent s fd agent client = set_agent s agent client (lookup s.hash fd)

-- The id in the last 4 bytes of a client message.
unfoldable pub uid_of : List ℕ → ℕ
uid_of idbuf =
    get_or idbuf 0 0
    + get_or idbuf 1 0 * 2 ^ 8
    + get_or idbuf 2 0 * 2 ^ 16
    + get_or idbuf 3 0 * 2 ^ 24

-- `skynet_socket_send`, for the node of the id.
abbrev pub write_to : ℕ → List ℕ → Option ℕ → List Effect
write_to uid bytes none = []
write_to uid bytes (some k) = writes uid bytes ∷ []

-- A message `PTYPE_CLIENT` in `_cb`.
unfoldable pub client_message : Connections → List ℕ → List Effect
client_message s msg =
    let n = length msg - 4 in
    let uid = uid_of (drop n msg) in
    if leb (length msg) 4 then [] else write_to uid (take n msg) (lookup s.hash uid)

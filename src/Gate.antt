-- ===== src/Gate.antt =====
-- skynet/service-src/service_gate.c: how the gate cuts the bytes of a connection into packets and
-- forwards them. The node pool, which the connections share, is passed along beside the buffer.
pub mod Encoding
pub mod Header
pub mod Frames
pub mod Packets
pub mod Returns
mod Tests
use skynet_gameserver.Prelude.{
  ℕ, zero, suc, ◌+◌, ◌^◌, Bool, ◌||◌, Option, none, some, List, [], ◌∷◌, ◌++◌, leb, ◌==◌,
  if◌then◌else◌,
}
use skynet_gameserver.Databuffer.{
  DataBuffer, MessagePool, databuffer_push, databuffer_read, databuffer_readheader,
  databuffer_reset, databuffer_clear,
}

pub record Gate : Type 0 where
  pub watchdog : ℕ
  pub broker : ℕ
  pub client_tag : ℕ
  pub header_size : ℕ

pub record Connection : Type 0 where
  pub id : ℕ
  pub agent : ℕ
  pub client : ℕ

-- `skynet_send` of the bytes with the type `client_tag`, `skynet_send` of the text `"%d data "` and
-- the bytes, and `skynet_socket_close`.
pub data Action : Type 0 where
  sends_client : (source destination tag session : ℕ) → List ℕ → Action
  sends_text : (destination session : ℕ) → List ℕ → Action
  closes : (id : ℕ) → Action

-- Where `_forward` sends a packet, `none` where it returns without reading it.
unfoldable pub target : Gate → Connection → Option (List ℕ → Action)
target g c =
    if c.id == 0 || leb (2 ^ 31) c.id
    then none
    else (if g.broker == 0
        then (if c.agent == 0
            then (if g.watchdog == 0 then none else some (sends_text g.watchdog c.id))
            else some (sends_client c.client c.agent g.client_tag c.id))
        else some (sends_client 0 g.broker g.client_tag c.id))

abbrev pub Frames : Type 0
Frames = Option (List Action × DataBuffer × MessagePool)

abbrev pub send_read : (List ℕ → Action) → Option (List ℕ × DataBuffer × MessagePool) → Frames
send_read t none = none
send_read t (some (bytes, db, mp)) = some (t bytes ∷ [], db, mp)

-- `_forward`
unfoldable pub forward : Gate → Connection → DataBuffer → MessagePool → ℕ → Frames
forward g c db mp size = elim (target g c) [
  | none ↦ some ([], db, mp)
  | some t ↦ send_read t (databuffer_read db mp size)
]

abbrev pub then_frames : List Action → Frames → Frames
then_frames early none = none
then_frames early (some (later, db, mp)) = some (early ++ later, db, mp)

-- `databuffer_reset` after `_forward`, and the next rounds.
unfoldable pub reset_frames : (DataBuffer → MessagePool → Frames) → Frames → Frames
reset_frames next none = none
reset_frames next (some (sent, db, mp)) = then_frames sent (next (databuffer_reset db) mp)

-- A round of `dispatch_message`, from the result of `databuffer_readheader`.
unfoldable pub frame :
    (DataBuffer → MessagePool → Frames)
    → Gate
    → Connection
    → ℕ
    → Option (ℕ × DataBuffer × MessagePool)
    → Frames
frame next g c id none = none
frame next g c id (some (size, db, mp)) =
    let (cleared, mp') = databuffer_clear db mp in
    if leb (2 ^ 31) size
    then some ([], db, mp)
    else (if size == 0
        then next db mp
        else (if leb 0x1000000 size
            then some (closes id ∷ [], cleared, mp')
            else reset_frames next (forward g c db mp size)))

-- The `for (;;)` of `dispatch_message`.
unfoldable pub frame_loop : ℕ → Gate → Connection → ℕ → DataBuffer → MessagePool → Frames
frame_loop zero g c id db mp = none
frame_loop (suc fuel) g c id db mp =
    frame (λ db mp. frame_loop fuel g c id db mp) g c id (databuffer_readheader db mp g.header_size)

-- `dispatch_message`. Each round but the last uses a byte, save the first, which may find its header
-- already read.
unfoldable pub dispatch_message : Gate → Connection → ℕ → DataBuffer → MessagePool → List ℕ → Frames
dispatch_message g c id db mp bytes =
    let (db, mp) = databuffer_push db mp bytes in frame_loop (db.size + 2) g c id db mp

unfoldable pub next_message : (DataBuffer → MessagePool → Frames) → Frames → Frames
next_message next none = none
next_message next (some (sent, db, mp)) = then_frames sent (next db mp)

-- The messages `SKYNET_SOCKET_TYPE_DATA` of one connection, as they come.
unfoldable pub dispatch_messages :
    Gate → Connection → ℕ → DataBuffer → MessagePool → List (List ℕ) → Frames
dispatch_messages g c id db mp [] = some ([], db, mp)
dispatch_messages g c id db mp (bytes ∷ ds) =
    next_message (λ db mp. dispatch_messages g c id db mp ds) (dispatch_message g c id db mp bytes)

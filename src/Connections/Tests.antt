-- ===== src/Connections/Tests.antt =====
-- A gate that listens at the socket 5, with room for three connections: socket 21 is accepted, gets
-- an agent, and its agent writes to it.
use skynet_gameserver.Prelude.{ℕ, ◌≡◌, refl, Option, none, some, [], ◌∷◌, ◌++◌, arith, at}
use skynet_gameserver.HashId.{HashId, double_until, init, find, free_node, insert, lookup}
use skynet_gameserver.Gate.{Gate, Connection}
use skynet_gameserver.Connections.{
  Connections, writes, accept, idle, start, dispatch_socket_message, client_message,
}
use skynet_gameserver.Connections.Table.{view, IsTable, start-IsTable}
use skynet_gameserver.Connections.Steps.{Step}
use skynet_gameserver.Connections.Events.{dispatch_socket_message-Step}
use skynet_gameserver.Connections.Clients.{id_bytes, written, client_message_lem}

abbrev gate : Gate
gate = record { watchdog = 7; broker = 0; client_tag = 3; header_size = 2 }

abbrev listening : Connections
listening = record (start gate 3) { listen_id = 5 }

listening-IsTable : IsTable listening
unfolding start init
listening-IsTable =
    let t = start-IsTable gate 3 (omega arith) in
    record { is_map = t.is_map; room = t.room; named = t.named; unused = t.unused }

dispatch_socket_message-Step_example :
    Step listening
      (accept 5 21 (49 ∷ []))
      (dispatch_socket_message listening (accept 5 21 (49 ∷ [])))
unfolding view lookup find start init
dispatch_socket_message-Step_example =
    dispatch_socket_message-Step listening listening-IsTable (accept 5 21 (49 ∷ []))
      (refl, omega arith)

abbrev hash_of : Option (ℕ × HashId) → HashId
hash_of none = init 3
hash_of (some (k, hash)) = hash

abbrev one : HashId
one = hash_of (insert (init 3) 21)

abbrev client : Connection
client = record { id = 21; agent = 0; client = 0 }

abbrev connected : Connections
connected = record listening { hash = one; conn = at (λ i. idle) 0 client }

client_message_lem_example :
    client_message connected ((104 ∷ 105 ∷ []) ++ id_bytes 21)
    ≡ written 21 (104 ∷ 105 ∷ []) (view connected 21)
client_message_lem_example =
    client_message_lem connected (104 ∷ 105 ∷ []) 21 (omega arith) (omega arith)

-- What is written.
to_client : written 21 (104 ∷ 105 ∷ []) (view connected 21) ≡ writes 21 (104 ∷ 105 ∷ []) ∷ []
unfolding view lookup find insert free_node init double_until start
to_client = refl

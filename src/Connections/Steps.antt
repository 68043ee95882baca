-- ===== src/Connections/Steps.antt =====
-- The steps of the gate on the map of ids to connections, one constructor for each branch of
-- `dispatch_socket_message`.
use skynet_gameserver.Prelude.{
  ◌+◌, ◌≤◌, ◌^◌, ℕ, ◌≡◌, ◌≢◌, true, false, none, some, List, [], ◌∷◌, map, take,
}
use skynet_gameserver.Databuffer.{DataBuffer, MessagePool, databuffer_clear, empty_buffer}
use skynet_gameserver.HashId.{full}
use skynet_gameserver.Gate.{Connection, Action, closes, dispatch_message}
use skynet_gameserver.Connections.{
  Connections, SocketMessage, data_of, connect, close, error, accept, warning, acts, Done, opened,
  closed, report,
}
use skynet_gameserver.Connections.Table.{Entry, view, with_entry, Becomes}

abbrev pub fresh_connection : ℕ → Entry
fresh_connection x = (record { id = x; agent = 0; client = 0 }, empty_buffer)

-- The message says that the socket `x` is no longer there.
pub data Ends : SocketMessage → ℕ → Type 0 where
  by_close : (x : ℕ) → Ends (close x) x
  by_error : (x : ℕ) → Ends (error x) x

-- The socket server reports only sockets of ids that are not in use, and the id is so far below 2^31
-- that `hashid_insert` does not overflow.
abbrev pub Fresh : Connections → SocketMessage → Type 0
Fresh s (accept x ud name) = (view s ud ≡ none) × (ud + s.hash.cap ≤ 2 ^ 31)
Fresh s (data_of x bytes) = Unit {0}
Fresh s (connect x) = Unit {0}
Fresh s (close x) = Unit {0}
Fresh s (error x) = Unit {0}
Fresh s (warning x ud) = Unit {0}

module _ (s : Connections) where
  pub data Step : SocketMessage → Done → Type 0 where
    received :
        (x : ℕ) (bytes : List ℕ) (c : Connection) (db db' : DataBuffer) (mp' : MessagePool)
        (sent : List Action) (s' : Connections)
        → view s x ≡ some (c, db)
        → dispatch_message s.gate c x db s.mp bytes ≡ some (sent, db', mp')
        → Becomes s (with_entry (view s) x (some (c, db'))) mp' s'
        → Step (data_of x bytes) (some (map acts sent, s'))
    failed :
        (x : ℕ) (bytes : List ℕ) (c : Connection) (db : DataBuffer)
        → view s x ≡ some (c, db)
        → dispatch_message s.gate c x db s.mp bytes ≡ none
        → Step (data_of x bytes) none
    dropped :
        (x : ℕ) (bytes : List ℕ)
        → view s x ≡ none
        → Step (data_of x bytes) (some (acts (closes x) ∷ [], s))
    listens : (x : ℕ) → s.listen_id ≡ x → Step (connect x) (some ([], s))
    connects :
        (x : ℕ) (e : Entry) → s.listen_id ≢ x → view s x ≡ some e → Step (connect x) (some ([], s))
    refused :
        (x : ℕ)
        → s.listen_id ≢ x
        → view s x ≡ none
        → Step (connect x) (some (acts (closes x) ∷ [], s))
    ended :
        (m : SocketMessage) (x : ℕ) (c : Connection) (db : DataBuffer) (s' : Connections)
        → Ends m x
        → view s x ≡ some (c, db)
        → Becomes s (with_entry (view s) x none) (databuffer_clear db s.mp).1 s'
        → Step m (some (report s.gate (closed x), s'))
    ended_before :
        (m : SocketMessage) (x : ℕ) (s' : Connections)
        → Ends m x
        → view s x ≡ none
        → Becomes s (view s) s.mp s'
        → Step m (some ([], s'))
    accepted :
        (x ud : ℕ) (name : List ℕ) (s' : Connections)
        → s.listen_id ≡ x
        → full s.hash ≡ false
        → Becomes s (with_entry (view s) ud (some (fresh_connection ud))) s.mp s'
        → Step (accept x ud name) (some (report s.gate (opened ud (take 31 name)), s'))
    no_room :
        (x ud : ℕ) (name : List ℕ)
        → s.listen_id ≡ x
        → full s.hash ≡ true
        → Step (accept x ud name) (some (acts (closes ud) ∷ [], s))
    wrong_listener : (x ud : ℕ) (name : List ℕ) → s.listen_id ≢ x → Step (accept x ud name) none
    warned : (x ud : ℕ) → Step (warning x ud) (some ([], s))

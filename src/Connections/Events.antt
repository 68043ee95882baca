-- ===== src/Connections/Events.antt =====
-- `dispatch_socket_message` makes these steps.
use skynet_gameserver.Prelude.{
  ℕ, ◌≡◌, ◌≢◌, refl, sym, ap, ap₂, ◌∙◌, Bool, true, false, Bool-cases, inl, inr, Option, none, some,
  List, ◌==◌, if◌then◌else◌, at, at_self, at_ne, arith,
}
use native.Mathlib.Decide.{ℕ_discrete}
use mathlib.Core.Option.{some-injective}
use skynet_gameserver.Databuffer.{DataBuffer, MessagePool, databuffer_clear, empty_buffer}
use skynet_gameserver.HashId.{HashId, lookup, remove, full}
use skynet_gameserver.HashId.Map.{lookup-id}
use skynet_gameserver.HashId.Insert.{Inserting, insert-Inserting}
use skynet_gameserver.HashId.Remove.{Removing, remove-Removed}
use skynet_gameserver.Gate.{Connection, Action, dispatch_message}
use skynet_gameserver.Connections.{
  Connections, SocketMessage, data_of, connect, close, error, accept, warning, Done, idle,
  keep_frames, on_data, on_connect, on_close, on_accept, dispatch_socket_message,
}
use skynet_gameserver.Connections.Change.{Change, view-change, change-IsTable}
use skynet_gameserver.Connections.Table.{Entry, view, IsTable, with_entry, node-ne}
use skynet_gameserver.Connections.Steps.{
  fresh_connection, Ends, by_close, by_error, Fresh, Step, received, failed, dropped, listens,
  connects, refused, ended, ended_before, accepted, no_room, wrong_listener, warned,
}
use skynet_gameserver.Connections.Views.{
  view-some, view-none, none-view, without, same_map, same_lookup,
}

module _ (s : Connections) (t : IsTable s) where
  keep_frames-Step :
      (x k : ℕ) (bytes : List ℕ)
      → lookup s.hash x ≡ some k
      → (r : Option (List Action × DataBuffer × MessagePool))
      → dispatch_message s.gate (s.conn k) x (s.buffer k) s.mp bytes ≡ r
      → Step s (data_of x bytes) (keep_frames s k r)
  keep_frames-Step x k bytes e none q =
      failed x bytes (s.conn k) (s.buffer k) (view-some s t x k e) q
  keep_frames-Step x k bytes e (some (sent, db', mp')) q =
      received x bytes (s.conn k) (s.buffer k) db' mp' sent
        (record s { buffer = at s.buffer k db'; mp = mp' }) (view-some s t x k e) q
        (record {
          is_table = change-IsTable s s' x k (some k) change t t.is_map t.room;
          viewed = λ y.
              view-change s s' x k (some k) change y
              ∙ ap (λ b. with_entry (view s) x (some (s.conn k, b)) y) (at_self s.buffer k db');
          pool = refl;
          same_gate = refl;
          same_listen = refl;
        })
    where
      s' : Connections
      s' = record s { buffer = at s.buffer k db'; mp = mp' }

      change : Change s s' x k (some k)
      change = record {
        others = λ j ne. (refl, at_ne s.buffer k db' j ne);
        looked = λ y. same_lookup s t x k e y;
        apart = λ y j ne f. node-ne s x y k j t e f ne;
        before = λ j f. some-injective j k (sym f ∙ e);
        owns = (refl, t.named x k e);
      }

  on_data-Step :
      (x : ℕ) (bytes : List ℕ) (o : Option ℕ)
      → lookup s.hash x ≡ o
      → Step s (data_of x bytes) (on_data s x bytes o)
  unfolding on_data
  on_data-Step x bytes none e = dropped x bytes (view-none s t x e)
  on_data-Step x bytes (some k) e = keep_frames-Step x k bytes e _ refl

  on_connect-Step :
      (x : ℕ)
      → s.listen_id ≢ x
      → (o : Option ℕ) → lookup s.hash x ≡ o
      → Step s (connect x) (on_connect s x o)
  on_connect-Step x ne none e = refused x ne (view-none s t x e)
  on_connect-Step x ne (some k) e = connects x (s.conn k, s.buffer k) ne (view-some s t x k e)

  on_close-Step :
      (m : SocketMessage) (x : ℕ)
      → Ends m x
      → (r : Option ℕ × HashId) → remove s.hash x ≡ r
      → Removing s.hash x r
      → Step s m (on_close s x r)
  on_close-Step m x ends (none, hash) q rm =
      let absent : lookup s.hash x ≡ none = sym rm.0 in
      let s' = record s { hash = hash } in
      let same : (y : ℕ) → lookup hash y ≡ lookup s.hash y =
        (λ y. rm.1.looked_up y ∙ without s t y x absent) in
      ended_before m x s' ends (view-none s t x absent)
        (same_map s t hash same rm.1.is_map (rw (sym rm.1.room) at t.room))
  on_close-Step m x ends (some k, hash) q rm =
      let e : lookup s.hash x ≡ some k = sym rm.0 in
      ended m x (s.conn k) (s.buffer k) s' ends (view-some s t x k e) (record {
        is_table = change-IsTable s s' x k none change t rm.1.is_map (rw (sym rm.1.room) at t.room);
        viewed = view-change s s' x k none change;
        pool = refl;
        same_gate = refl;
        same_listen = refl;
      })
    where
      s' : Connections
      s' = record s {
        hash = hash;
        conn = at s.conn k idle;
        buffer = at s.buffer k empty_buffer;
        mp = (databuffer_clear (s.buffer k) s.mp).1;
      }

      change : Change s s' x k none
      change = record {
        others = λ j ne. (at_ne s.conn k idle j ne, at_ne s.buffer k empty_buffer j ne);
        looked = rm.1.looked_up;
        apart = λ y j ne f. node-ne s x y k j t (sym rm.0) f ne;
        before = λ j f. some-injective j k (sym f ∙ sym rm.0);
        owns = (at_self s.conn k idle, at_self s.buffer k empty_buffer);
      }

  on_accept-Step :
      (x ud : ℕ) (name : List ℕ)
      → s.listen_id ≡ x
      → lookup s.hash ud ≡ none
      → full s.hash ≡ false
      → (r : Option (ℕ × HashId)) → Inserting s.hash ud r
      → Step s (accept x ud name) (on_accept s ud name r)
  on_accept-Step x ud name l f room none i = absurd (cc)
  on_accept-Step x ud name l f room (some (k, hash)) i = accepted x ud name s' l room (record {
    is_table = change-IsTable s s' ud k (some k) change t i.1.is_map (rw (sym i.1.room) at t.room);
    viewed = λ y.
        view-change s s' ud k (some k) change y ∙ ap (λ e. with_entry (view s) ud (some e) y) entry;
    pool = refl;
    same_gate = refl;
    same_listen = refl;
  })
    where
      never : (y : ℕ) → lookup s.hash y ≢ some k
      never y e =
          absurd
            (let old : s.hash.id k ≡ some y = lookup-id s.hash y k e in let new = i.1.fresh in cc)

      c : Connection
      c = record (s.conn k) { id = ud }

      s' : Connections
      s' = record s { hash = hash; conn = at s.conn k c }

      change : Change s s' ud k (some k)
      change = record {
        others = λ j ne. (at_ne s.conn k c j ne, refl);
        looked = i.1.looked_up;
        apart = λ y j ne e p. never y (e ∙ ap some (sym p));
        before = λ j e. absurd (cc);
        owns = (refl, ap (λ c. c.id) (at_self s.conn k c));
      }

      entry : Path Entry (s'.conn k, s'.buffer k) (fresh_connection ud)
      entry =
          let u = t.unused k never in
          ap₂ (λ (d : Connection) (b : DataBuffer). (d, b))
            (at_self s.conn k c ∙ ap (λ (d : Connection). record d { id = ud }) u.0) u.1

  on_true :
      {m : SocketMessage} {r : Done} (r' : Done) (b : Bool)
      → b ≡ true
      → Step s m r
      → Step s m (if b then r else r')
  on_true r' b e h = rw e h

  on_false :
      {m : SocketMessage} {r' : Done} (r : Done) (b : Bool)
      → b ≡ false
      → Step s m r'
      → Step s m (if b then r else r')
  on_false r b e h = rw e h

  -- Each socket message takes a gate with a well-formed table one step on the map of ids to
  -- connections: data is cut into the packets of its connection alone, an accepted socket gets a new
  -- connection unless there is no room, a closed one loses its connection, and what is unknown is
  -- closed; all other connections stay and the table stays well-formed. An accepted socket has an id
  -- that is not in use, and its sum with the number of connections is at most 2^31.
  pub dispatch_socket_message-Step :
      (m : SocketMessage) → Fresh s m → Step s m (dispatch_socket_message s m)
  unfolding dispatch_socket_message
  dispatch_socket_message-Step (data_of x bytes) f = on_data-Step x bytes _ refl
  dispatch_socket_message-Step (connect x) f = elim (ℕ_discrete s.listen_id x) [
    | yes e ↦ on_true _ (s.listen_id == x) (ground (arith, e)) (listens x e)
    | no ne ↦ on_false _ (s.listen_id == x) (ground (arith, ne)) (on_connect-Step x ne _ refl)
  ]
  dispatch_socket_message-Step (close x) f =
      on_close-Step (close x) x (by_close x) _ refl (remove-Removed s.hash x t.is_map)
  dispatch_socket_message-Step (error x) f =
      on_close-Step (error x) x (by_error x) _ refl (remove-Removed s.hash x t.is_map)
  dispatch_socket_message-Step (accept x ud name) f = elim (ℕ_discrete s.listen_id x) [
    | yes e ↦ on_true _ (s.listen_id == x) (ground (arith, e)) (elim (Bool-cases (full s.hash)) [
      | inl b ↦ on_true _ (full s.hash) b (no_room x ud name e b)
      | inr b ↦ on_false _ (full s.hash) b (
          on_accept-Step x ud name e (none-view s t ud f.0) b _
            (insert-Inserting s.hash ud t.is_map (none-view s t ud f.0) t.room f.1))
    ])
    | no ne ↦ on_false _ (s.listen_id == x) (ground (arith, ne)) (wrong_listener x ud name ne)
  ]
  dispatch_socket_message-Step (warning x ud) f = warned x ud

-- ===== src/Connections/Clients.antt =====
-- The messages of other services: the agent of a connection, and bytes for a client.
use skynet_gameserver.Prelude.{
  ℕ, ◌+◌, ◌-◌, ◌*◌, ◌/◌, ◌%◌, ◌^◌, ◌<◌, ◌≡◌, refl, sym, ap, ◌∙◌, Option, none, some, false, List,
  [], ◌∷◌, ◌++◌, leb, at_self, at_ne, arith, length, length-append,
}
use mathlib.Core.Option.{some-injective}
use skynet_gameserver.Prelude.Split.{take-append_self, drop-append_self}
use skynet_gameserver.Databuffer.{DataBuffer}
use skynet_gameserver.HashId.{lookup}
use skynet_gameserver.Gate.{Connection}
use skynet_gameserver.Connections.{
  Connections, Effect, writes, set_agent, forward_agent, client_message, uid_of, write_to,
}
use skynet_gameserver.Connections.Table.{
  Entry, of_node, view, IsTable, with_entry, node-ne, Becomes,
}
use skynet_gameserver.Connections.Change.{Change, view-change, change-IsTable}
use skynet_gameserver.Connections.Views.{same_lookup}

-- The node of a view
node_of :
    (s : Connections) (x : ℕ) (e : Entry)
    → view s x ≡ some e
    → (k : ℕ) × (lookup s.hash x ≡ some k) × (Path Entry (s.conn k, s.buffer k) e)
unfolding view
node_of s x e q = go (lookup s.hash x) q
  where
    go :
        (o : Option ℕ)
        → of_node s.conn s.buffer o ≡ some e
        → (k : ℕ) × (o ≡ some k) × (Path Entry (s.conn k, s.buffer k) e)
    go none q = absurd (cc)
    go (some k) q = (k, refl, some-injective (s.conn k, s.buffer k) e q)

-- `_forward_agent` gives the connection of the id its agent and client, and keeps the buffer, all
-- other connections and the well-formed table.
pub forward_agent-Becomes :
    (s : Connections) (x agent client : ℕ) (c : Connection) (db : DataBuffer)
    → IsTable s
    → view s x ≡ some (c, db)
    → Becomes s
        (with_entry (view s) x (some (record c { agent = agent; client = client }, db)))
        s.mp
        (forward_agent s x agent client)
unfolding forward_agent
forward_agent-Becomes s x agent client c db t v =
    let n = node_of s x (c, db) v in rw n.1 (becomes n.0 n.1 n.2)
  where
    becomes :
        (k : ℕ)
        → lookup s.hash x ≡ some k
        → Path Entry (s.conn k, s.buffer k) (c, db)
        → Becomes s
            (with_entry (view s) x (some (record c { agent = agent; client = client }, db)))
            s.mp
            (set_agent s agent client (some k))
    becomes k e q = record {
      is_table = change-IsTable s (s' k) x k (some k) (change k e) t t.is_map t.room;
      viewed = λ y.
          view-change s (s' k) x k (some k) (change k e) y
          ∙ ap (λ e. with_entry (view s) x (some e) y) (entry k q);
      pool = refl;
      same_gate = refl;
      same_listen = refl;
    }
      where
        s' : ℕ → Connections
        s' k = set_agent s agent client (some k)

        change : (k : ℕ) → lookup s.hash x ≡ some k → Change s (s' k) x k (some k)
        change k e = record {
          others = λ j ne.
              (at_ne s.conn k (record (s.conn k) { agent = agent; client = client }) j ne, refl);
          looked = same_lookup s t x k e;
          apart = λ y j ne f. node-ne s x y k j t e f ne;
          before = λ j f. some-injective j k (sym f ∙ e);
          owns = (
            refl,
            ap (λ c. c.id) (at_self s.conn k (record (s.conn k) { agent = agent; client = client }))
                ∙ t.named x k e,
          );
        }

        entry :
            (k : ℕ)
            → Path Entry (s.conn k, s.buffer k) (c, db)
            → Path Entry
                ((s' k).conn k, (s' k).buffer k)
                (record c { agent = agent; client = client }, db)
        entry k q =
            ap (λ (d : Connection). (d, s.buffer k))
              (at_self s.conn k (record (s.conn k) { agent = agent; client = client }))
            ∙ ap (λ (e : Entry). (record (e.0) { agent = agent; client = client }, e.1)) q

-- The id in 4 bytes, the lowest first
abbrev pub id_bytes : ℕ → List ℕ
id_bytes x = x % 2 ^ 8 ∷ x / 2 ^ 8 % 2 ^ 8 ∷ x / 2 ^ 16 % 2 ^ 8 ∷ x / 2 ^ 24 % 2 ^ 8 ∷ []

-- The bytes are written where the id has a connection.
abbrev pub written : ℕ → List ℕ → Option Entry → List Effect
written x body none = []
written x body (some e) = writes x body ∷ []

-- A message of a client's bytes and its id: the bytes are written to the socket of the id, if it has
-- a connection, and else nothing is done. The bytes are not empty, and the id has 32 bits.
pub client_message_lem :
    (s : Connections) (body : List ℕ) (x : ℕ)
    → 0 < length body
    → x < 2 ^ 32
    → client_message s (body ++ id_bytes x) ≡ written x body (view s x)
unfolding client_message view uid_of
client_message_lem s body x h b =
    let n : length (body ++ id_bytes x) - 4 ≡ length body =
      omega (arith, length-append body (id_bytes x)) in
    let long : leb (length (body ++ id_bytes x)) 4 ≡ false =
      ground (arith, length-append body (id_bytes x)) in
    let uid : uid_of (id_bytes x) ≡ x = read_id x b in
    rw (long, n, take-append_self body (id_bytes x), drop-append_self body (id_bytes x), uid)
      (at_node (lookup s.hash x))
  where
    read_id :
        (x : ℕ)
        → x < 2 ^ 32
        → x % 2 ^ 8
            + x / 2 ^ 8 % 2 ^ 8 * 2 ^ 8
            + x / 2 ^ 16 % 2 ^ 8 * 2 ^ 16
            + x / 2 ^ 24 % 2 ^ 8 * 2 ^ 24
          ≡ x
    read_id x h = omega arith

    at_node : (o : Option ℕ) → write_to x body o ≡ written x body (of_node s.conn s.buffer o)
    at_node none = refl
    at_node (some k) = refl

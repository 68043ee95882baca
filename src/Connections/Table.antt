-- ===== src/Connections/Table.antt =====
-- The connections as a map of socket ids to connections and their buffers.
use skynet_gameserver.Prelude.{
  ℕ, ◌<◌, ◌≡◌, ◌≢◌, refl, sym, ap, ◌∙◌, Option, none, some, ◌==◌, if◌then◌else◌,
}
use mathlib.Core.Option.{some-injective}
use skynet_gameserver.Databuffer.{DataBuffer, MessagePool, empty_buffer}
use skynet_gameserver.HashId.{init, lookup}
use skynet_gameserver.HashId.Map.{IsMap, lookup-id, lookup-init, init-IsMap}
use skynet_gameserver.Gate.{Gate, Connection}
use skynet_gameserver.Connections.{Connections, idle, start}

abbrev pub Entry : Type 0
Entry = Connection × DataBuffer

abbrev pub of_node : (ℕ → Connection) → (ℕ → DataBuffer) → Option ℕ → Option Entry
of_node conn buffer none = none
of_node conn buffer (some k) = some (conn k, buffer k)

-- The connection of an id and what it has received
unfoldable pub view : Connections → ℕ → Option Entry
view s x = of_node s.conn s.buffer (lookup s.hash x)

-- The hash table is well-formed, a connection has the id of its node, and a connection without a
-- node is as `gate_init` made it.
pub record IsTable (s : Connections) : Type 0 where
  pub is_map : IsMap s.hash
  pub room : 0 < s.hash.cap
  pub named : (x k : ℕ) → lookup s.hash x ≡ some k → (s.conn k).id ≡ x
  pub unused :
      (k : ℕ)
      → ((x : ℕ) → lookup s.hash x ≢ some k)
      → (s.conn k ≡ idle) × (s.buffer k ≡ empty_buffer)

-- The view with one id changed
abbrev pub with_entry : (ℕ → Option Entry) → ℕ → Option Entry → ℕ → Option Entry
with_entry v x e y = if y == x then e else v y

-- Different ids have different nodes.
pub node-ne :
    (s : Connections) (x y k j : ℕ)
    → IsTable s
    → lookup s.hash x ≡ some k
    → lookup s.hash y ≡ some j
    → y ≢ x
    → k ≢ j
node-ne s x y k j t e f ne p = ne (
    some-injective y x
      (sym (lookup-id s.hash y j f) ∙ ap s.hash.id (sym p) ∙ lookup-id s.hash x k e))

-- The state after an event: its view is `v`, and its pool `mp`.
pub record Becomes (s : Connections) (v : ℕ → Option Entry) (mp : MessagePool) (s' : Connections)
    : Type 0 where
  pub is_table : IsTable s'
  pub viewed : (y : ℕ) → view s' y ≡ v y
  pub pool : s'.mp ≡ mp
  pub same_gate : s'.gate ≡ s.gate
  pub same_listen : s'.listen_id ≡ s.listen_id

-- The state at the start has no connection.
pub start-IsTable : (g : Gate) (max : ℕ) → 0 < max → IsTable (start g max)
unfolding start init
start-IsTable g max h = record {
  is_map = init-IsMap max;
  room = h;
  named = λ x k e. absurd (let none_yet = lookup-init max x in cc);
  unused = λ k n. (refl, refl);
}

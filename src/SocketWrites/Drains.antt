-- ===== src/SocketWrites/Drains.antt =====
-- `send_buffer` where the kernel takes what waits.
use skynet_gameserver.Prelude.{
  ◌≤◌, ◌≡◌, Bool, true, false, none, some, List, [], ◌∷◌, ◌++◌, ℕ, drop,
}
use skynet_gameserver.SocketWrites.State.{
  WriteBuffer, size_left, is_invalid, Answer, took, would_block, interrupted, failed,
}
use skynet_gameserver.SocketWrites.Sending.{Sent, Done}
use skynet_gameserver.SocketWrites.Order.{queue}

-- For every buffer the kernel takes what is left of it, and it may be interrupted before.
abbrev pub TakesAll : List Answer → List WriteBuffer → Type 0
TakesAll answers [] = Unit {0}
TakesAll [] (wb ∷ wbs) = ⊥
TakesAll (took n ∷ more) (wb ∷ wbs) = (size_left wb ≤ n) × TakesAll more wbs
TakesAll (interrupted ∷ more) (wb ∷ wbs) = TakesAll more (wb ∷ wbs)
TakesAll (would_block ∷ more) (wb ∷ wbs) = ⊥
TakesAll (failed ∷ more) (wb ∷ wbs) = ⊥

-- The bytes of the buffers that are not written
abbrev pub bytes_left : List WriteBuffer → List ℕ
bytes_left [] = []
bytes_left (wb ∷ wbs) = drop wb.offset wb.message.bytes ++ bytes_left wbs

-- Nothing waits, the kernel has taken `wrote` in all, and a socket that is closing is closed.
abbrev pub Drained : Bool → List ℕ → Done → Type 0
Drained closing wrote none = ⊥
Drained closing wrote (some (report, s)) =
    (queue s ≡ []) × (s.wrote ≡ wrote) × (closing ≡ true → is_invalid s.type ≡ true)

-- A list was written, and the answers left are for a later one.
record Empties (later wbs : List WriteBuffer) (r : Sent) : Type 0 where
  left_nothing : r.left ≡ []
  unbroken : r.broken ≡ false
  takes_later : TakesAll r.answers later
  all_sent : r.bytes ≡ bytes_left wbs

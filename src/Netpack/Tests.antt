-- ===== src/Netpack/Tests.antt =====
-- lua-netpack.c at two connections whose bytes come in turn.
use skynet_gameserver.Prelude.{ℕ, ◌≡◌, refl, Option, none, some, List, [], ◌∷◌, ◌++◌, arith}
use skynet_gameserver.Netpack.{Queue, get_queue, filter_data, pop_packet}
use skynet_gameserver.Netpack.Table.{waiting}
use skynet_gameserver.Netpack.Queues.{
  queued, Popped, pop_packet-Popped, get_queue-IsRing, queued-get_queue,
}
use skynet_gameserver.Netpack.Packing.{wire, partial}
use skynet_gameserver.Netpack.Filter.{Delivers, filter_data-Delivers}
use skynet_gameserver.Netpack.Streams.{Packets, receive, sent, delivered}
use skynet_gameserver.Netpack.Receive.{Receiving, receive-Receiving, receive-wire, fresh-IsValid}

abbrev messages : List (ℕ × List ℕ)
messages =
    (7, 0 ∷ []) ∷ (9, 0 ∷ 3 ∷ 5 ∷ []) ∷ (7, 2 ∷ 1 ∷ 2 ∷ 0 ∷ 1 ∷ 3 ∷ 0 ∷ []) ∷ (7, 0 ∷ []) ∷ []

abbrev packets : List (List ℕ)
packets = (1 ∷ 2 ∷ []) ∷ (3 ∷ []) ∷ [] ∷ []

sent_by_seven : sent 7 messages ≡ wire packets
unfolding sent wire
sent_by_seven = refl

receive-wire_example :
    (ds : Packets) × (slot : Option Queue) × (receive none messages ≡ some (ds, slot))
    × (delivered 7 ds ≡ packets)
    × (waiting (get_queue slot) 7 ≡ none)
receive-wire_example = receive-wire messages 7 packets (omega arith) (omega arith) sent_by_seven

receive-Receiving_example : Receiving (get_queue none) messages (receive none messages)
receive-Receiving_example =
    receive-Receiving messages none fresh-IsValid queued-get_queue (omega arith)

filter_data-Delivers_example :
    Delivers
      (get_queue none)
      9
      (partial (waiting (get_queue none) 9) ++ (0 ∷ 1 ∷ 4 ∷ 0 ∷ []))
      (filter_data none 9 (0 ∷ 1 ∷ 4 ∷ 0 ∷ []))
filter_data-Delivers_example =
    filter_data-Delivers none 9 (0 ∷ 1 ∷ 4 ∷ 0 ∷ []) fresh-IsValid (omega arith) (omega arith)

pop_packet-Popped_example : Popped (queued (get_queue none)) (pop_packet none)
pop_packet-Popped_example = pop_packet-Popped none get_queue-IsRing

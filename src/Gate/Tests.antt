-- ===== src/Gate/Tests.antt =====
-- The gate at two packets that come in three socket messages.
use skynet_gameserver.Prelude.{concat, ℕ, ◌≡◌, refl, inl, some, List, [], ◌∷◌, arith}
use skynet_gameserver.Databuffer.{DataBuffer, MessagePool, empty_buffer}
use skynet_gameserver.Databuffer.Read.{stream_from}
use skynet_gameserver.Databuffer.Stream.{IsValid}
use skynet_gameserver.Gate.{
  Gate, Connection, sends_client, target, dispatch_message, dispatch_messages,
}
use skynet_gameserver.Gate.Encoding.{Fits, done, fits, header_bytes, encode}
use skynet_gameserver.Gate.Header.{Owes, within}
use skynet_gameserver.Gate.Returns.{Returned, dispatch_message-Returned}
use skynet_gameserver.Gate.Packets.{AllFramed, dispatch_messages-AllFramed}

abbrev gate : Gate
gate = record { watchdog = 7; broker = 0; client_tag = 3; header_size = 2 }

abbrev connection : Connection
connection = record { id = 21; agent = 8; client = 9 }

abbrev pool : MessagePool
pool = record { blocks = 0; free = 0 }

abbrev packets : List (List ℕ)
packets = (1 ∷ 2 ∷ []) ∷ (3 ∷ []) ∷ []

abbrev pieces : List (List ℕ)
pieces = (0 ∷ []) ∷ (2 ∷ 1 ∷ []) ∷ (2 ∷ 0 ∷ 1 ∷ 3 ∷ []) ∷ []

packets-Fits : Fits 2 packets
packets-Fits =
    fits (1 ∷ 2 ∷ []) ((3 ∷ []) ∷ []) (omega arith) (omega arith)
      (fits (3 ∷ []) [] (omega arith) (omega arith) done)

to_agent : target gate connection ≡ some (sends_client 9 8 3 21)
unfolding target
to_agent = refl

encoded : concat pieces ≡ encode 2 packets
unfolding encode header_bytes
encoded = refl

dispatch_messages-AllFramed_example :
    AllFramed gate connection 21
      (sends_client 9 8 3 21)
      to_agent
      (inl refl)
      empty_buffer
      pool
      packets
      (dispatch_messages gate connection 21 empty_buffer pool pieces)
dispatch_messages-AllFramed_example =
    dispatch_messages-AllFramed gate connection 21 (sends_client 9 8 3 21) to_agent (inl refl)
      pieces pool packets packets-Fits (omega arith, (omega arith, (omega arith, tt))) encoded

-- The header was read, and two of the three bytes of the packet are there.
abbrev started : DataBuffer
started = record { header = 3; offset = 0; size = 2; messages = (5 ∷ 6 ∷ []) ∷ [] }

started-IsValid : IsValid started
unfolding stream_from
started-IsValid = record { in_first = omega arith; sized = refl }

started-Owes : Owes 2 started (7 ∷ []) ((5 ∷ 6 ∷ 7 ∷ []) ∷ [])
unfolding stream_from encode
started-Owes = within (5 ∷ 6 ∷ 7 ∷ []) [] refl refl

-- A header that is not finished, after a packet of no bytes.
dispatch_message-Returned_example :
    Returned started pool (dispatch_message gate connection 21 started pool (7 ∷ 0 ∷ 0 ∷ 255 ∷ []))
dispatch_message-Returned_example =
    dispatch_message-Returned gate connection 21 (inl refl) started pool (7 ∷ 0 ∷ 0 ∷ 255 ∷ [])
      started-IsValid (omega arith)

-- ===== src/Databuffer/Tests.antt =====
-- databuffer.h at two blocks.
use skynet_gameserver.Prelude.{◌≡◌, refl, some, [], ◌∷◌, arith}
use skynet_gameserver.Databuffer.{
  DataBuffer, MessagePool, databuffer_read, read_loop, return_message,
}
use skynet_gameserver.Databuffer.Read.{stream_from}
use skynet_gameserver.Databuffer.Stream.{IsValid, Taken, databuffer_read-Taken}

abbrev two_blocks : DataBuffer
two_blocks = record {
  header = 0;
  offset = 1;
  size = 4;
  messages = (9 ∷ 1 ∷ 2 ∷ []) ∷ (3 ∷ 4 ∷ []) ∷ [];
}

abbrev pool : MessagePool
pool = record { blocks = 1; free = 0 }

two_blocks-IsValid : IsValid two_blocks
unfolding stream_from
two_blocks-IsValid = record { in_first = omega arith; sized = refl }

read_three :
    databuffer_read two_blocks pool 3
    ≡ some (
      1 ∷ 2 ∷ 3 ∷ [],
      record { header = 0; offset = 1; size = 1; messages = (3 ∷ 4 ∷ []) ∷ [] },
      record { blocks = 1; free = 1 },
    )
unfolding databuffer_read read_loop return_message
read_three = refl

databuffer_read-Taken_example : Taken two_blocks pool 3 (databuffer_read two_blocks pool 3)
databuffer_read-Taken_example =
    databuffer_read-Taken two_blocks pool 3 two_blocks-IsValid (omega arith) (omega arith)

-- ===== src/Databuffer.antt =====
-- skynet/service-src/databuffer.h: the bytes that a connection has received and not yet used, as the
-- list of the blocks in which they came, with the pool of list nodes that the connections share.
-- An `int` that can be negative is its 32 bits. A failed assertion or a null pointer is `none`; the last
-- node of the list is `tail`, so that the assertions on `tail` have no counterpart.
pub mod Read
pub mod Stream
mod Tests
use skynet_gameserver.Prelude.{
  ℕ, zero, suc, ◌+◌, ◌-◌, ◌*◌, ◌%◌, ◌^◌, Bool, Option, none, some, List, [], ◌∷◌, ◌++◌, ltb, leb,
  ◌==◌, if◌then◌else◌, length, get_or, take, drop,
}

-- The nodes from `head` to `tail` are `messages`, each the bytes of its `buffer`.
pub record DataBuffer : Type 0 where
  pub header : ℕ
  pub offset : ℕ
  pub size : ℕ
  pub messages : List (List ℕ)

-- How many arrays of nodes were allocated, and how many nodes stand in `freelist`.
pub record MessagePool : Type 0 where
  pub blocks : ℕ
  pub free : ℕ

abbrev pub messagepool : ℕ
messagepool = 1023

-- `_return_message`, for the node of the head
unfoldable pub return_message : MessagePool → MessagePool
return_message mp = record mp { free = mp.free + 1 }

-- The node that `databuffer_push` takes: with an empty `freelist` an array is allocated, and its
-- first node is taken.
unfoldable pub take_message : MessagePool → MessagePool
take_message mp =
    if mp.free == 0
    then record { blocks = mp.blocks + 1; free = messagepool - 1 }
    else record mp { free = mp.free - 1 }

unfoldable pub databuffer_push : DataBuffer → MessagePool → List ℕ → DataBuffer × MessagePool
databuffer_push db mp bytes = (
  record db { size = db.size + length bytes; messages = db.messages ++ bytes ∷ [] },
  take_message mp,
)

abbrev pub ReadState : Type 0
ReadState = List ℕ × List (List ℕ) × ℕ × MessagePool

abbrev pub after_copy : List ℕ → Option ReadState → Option ReadState
after_copy copied none = none
after_copy copied (some (bytes, ms, offset, mp)) = some (copied ++ bytes, ms, offset, mp)

-- The `for (;;)` of `databuffer_read`: what it copies, the nodes left, the offset and the pool.
unfoldable pub read_loop : List (List ℕ) → ℕ → ℕ → MessagePool → Option ReadState
read_loop [] offset sz mp = none
read_loop (current ∷ next) offset sz mp =
    let bsz = length current - offset in
    let copied = take (if ltb bsz sz then bsz else sz) (drop offset current) in
    let rest = read_loop next 0 (sz - bsz) (return_message mp) in
    if ltb sz bsz
    then some (copied, current ∷ next, offset + sz, mp)
    else (if bsz == sz then some (copied, next, 0, return_message mp) else after_copy copied rest)

abbrev pub after_read :
    DataBuffer → ℕ → Option ReadState → Option (List ℕ × DataBuffer × MessagePool)
after_read db sz none = none
after_read db sz (some (bytes, ms, offset, mp)) =
    some (bytes, record db { size = db.size - sz; offset = offset; messages = ms }, mp)

unfoldable pub databuffer_read :
    DataBuffer → MessagePool → ℕ → Option (List ℕ × DataBuffer × MessagePool)
databuffer_read db mp sz =
    if ltb db.size sz then none else after_read db sz (read_loop db.messages db.offset sz mp)

-- `a < b` for the 32 bits of two `int`s
abbrev pub lt_int : ℕ → ℕ → Bool
lt_int a b = ltb ((a + 2 ^ 31) % 2 ^ 32) ((b + 2 ^ 31) % 2 ^ 32)

abbrev pub minus_one : ℕ
minus_one = 2 ^ 32 - 1

-- The bytes of the header, big-endian; the shifts do not overlap, so that `|` adds.
unfoldable pub parse_header : ℕ → List ℕ → ℕ
parse_header header_size plen =
    if header_size == 2
    then get_or plen 0 0 * 2 ^ 8 + get_or plen 1 0
    else (get_or plen 0 0 * 2 ^ 24
        + get_or plen 1 0 * 2 ^ 16
        + get_or plen 2 0 * 2 ^ 8
        + get_or plen 3 0)
      % 2 ^ 32

-- The end of `databuffer_readheader`.
unfoldable pub await : DataBuffer → ℕ
await db = if lt_int db.size db.header then minus_one else db.header

abbrev pub after_header :
    ℕ → Option (List ℕ × DataBuffer × MessagePool) → Option (ℕ × DataBuffer × MessagePool)
after_header header_size none = none
after_header header_size (some (plen, db, mp)) =
    let db' = record db { header = parse_header header_size plen } in some (await db', db', mp)

unfoldable pub databuffer_readheader :
    DataBuffer → MessagePool → ℕ → Option (ℕ × DataBuffer × MessagePool)
databuffer_readheader db mp header_size =
    if db.header == 0
    then (if ltb db.size header_size
        then some (minus_one, db, mp)
        else after_header header_size (databuffer_read db mp header_size))
    else some (await db, db, mp)

unfoldable pub databuffer_reset : DataBuffer → DataBuffer
databuffer_reset db = record db { header = 0 }

-- `databuffer_clear`: every node goes back to the pool.
unfoldable pub return_all : List (List ℕ) → MessagePool → MessagePool
return_all [] mp = mp
return_all (m ∷ ms) mp = return_all ms (return_message mp)

abbrev pub empty_buffer : DataBuffer
empty_buffer = record { header = 0; offset = 0; size = 0; messages = [] }

unfoldable pub databuffer_clear : DataBuffer → MessagePool → DataBuffer × MessagePool
databuffer_clear db mp = (empty_buffer, return_all db.messages mp)

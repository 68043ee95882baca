-- ===== src/Netpack.antt =====
-- skynet/lualib-src/lua-netpack.c: the packets of many connections. A socket message is cut into
-- packets, each after a size of two bytes; a packet that is not complete waits in a hash table by its
-- connection, and the packets of a message that holds several wait in a queue, a ring that grows.
-- The queue is a Lua value that is nil at first: `none`. A read outside of a buffer is a fault.
pub mod Table
pub mod Queues
pub mod Packing
pub mod Cuts
pub mod Filter
pub mod Unique
pub mod Streams
pub mod Receive
pub mod Close
mod Tests
use skynet_gameserver.Prelude.{
  ℕ, zero, suc, ◌+◌, ◌-◌, ◌*◌, ◌/◌, ◌%◌, ◌^◌, Bool, true, false, Option, none, some, List, [], ◌∷◌,
  ◌++◌, ltb, leb, ◌==◌, if◌then◌else◌, length, get_or, set, take, drop, replicate, at,
}
use skynet_gameserver.Prelude.Arrays.{cells}

-- `struct netpack`, with the bytes of its buffer
pub record Netpack : Type 0 where
  pub id : ℕ
  pub bytes : List ℕ

-- `struct uncomplete`. `read` is `none` for -1, where only the first byte of the size was read, which
-- is `header`; otherwise it is the bytes that are read of `size`.
pub record Uncomplete : Type 0 where
  pub id : ℕ
  pub size : ℕ
  pub read : Option (List ℕ)
  pub header : ℕ

-- The nodes from `hash[h]` on are a list; memory that was never written is `none`.
pub record Queue : Type 0 where
  pub cap : ℕ
  pub head : ℕ
  pub tail : ℕ
  pub hash : ℕ → List Uncomplete
  pub queue : List (Option Netpack)

abbrev pub queue_size : ℕ
queue_size = 1024

abbrev pub hash_size : ℕ
hash_size = 4096

-- `hash_fd`
unfoldable pub hash_fd : ℕ → ℕ
hash_fd fd = (fd / 2 ^ 24 + fd / 2 ^ 12 + fd) % 2 ^ 32 % hash_size

-- The list without the first node of `fd`, and that node.
unfoldable pub take_out : List Uncomplete → ℕ → Option Uncomplete × List Uncomplete
take_out [] fd = (none, [])
take_out (uc ∷ next) fd =
    let (found, rest) = take_out next fd in
    if uc.id == fd then (some uc, next) else (found, uc ∷ rest)

-- `find_uncomplete`
unfoldable pub find_uncomplete : Option Queue → ℕ → Option Uncomplete × Option Queue
find_uncomplete none fd = (none, none)
find_uncomplete (some q) fd =
    let h = hash_fd fd in
    let (found, rest) = take_out (q.hash h) fd in
    (found, some (record q { hash = at q.hash h rest }))

-- `get_queue`
unfoldable pub get_queue : Option Queue → Queue
get_queue (some q) = q
get_queue none = record {
  cap = queue_size;
  head = 0;
  tail = 0;
  hash = λ h. [];
  queue = replicate queue_size none;
}

-- `expand_queue`
unfoldable pub expand_queue : Queue → Queue
expand_queue q = record q {
  cap = q.cap + queue_size;
  head = 0;
  tail = q.cap;
  queue = cells none q.queue q.cap q.head 0 q.cap ++ replicate queue_size none;
}

-- `push_data`; a clone of the buffer has the same bytes.
unfoldable pub push_data : Option Queue → ℕ → List ℕ → Queue
push_data slot fd bytes =
    let q = get_queue slot in
    let tail = if leb q.cap (q.tail + 1) then q.tail + 1 - q.cap else q.tail + 1 in
    let q' = record q {
      tail = tail;
      queue = set q.queue q.tail (some (record { id = fd; bytes = bytes }));
    } in
    if q.head == tail then expand_queue q' else q'

-- `save_uncomplete`, and the fields that its callers set
unfoldable pub save_uncomplete : Option Queue → Uncomplete → Queue
save_uncomplete slot uc =
    let q = get_queue slot in
    let h = hash_fd uc.id in record q { hash = at q.hash h (uc ∷ q.hash h) }

-- `read_size`
unfoldable pub read_size : ℕ → ℕ → ℕ
read_size a b = a * 2 ^ 8 + b

-- `push_more`; a round uses at least two bytes, and the fuel is the number of bytes.
unfoldable pub push_more : ℕ → Option Queue → ℕ → List ℕ → Option Queue
push_more zero slot fd bytes = none
push_more (suc fuel) slot fd [] = none
push_more (suc fuel) slot fd (a ∷ []) =
    some (save_uncomplete slot (record { id = fd; size = 0; read = none; header = a }))
push_more (suc fuel) slot fd (a ∷ b ∷ bytes) =
    let pack_size = read_size a b in
    let more = drop pack_size bytes in
    let q = push_data slot fd (take pack_size bytes) in
    let rest = push_more fuel (some q) fd more in
    if ltb (length bytes) pack_size
    then some
        (save_uncomplete slot (record { id = fd; size = pack_size; read = some bytes; header = 0 }))
    else (if length more == 0 then some q else rest)

-- What `filter` returns beside the queue: nothing, one packet, or that packets are in the queue.
pub data Reply : Type 0 where
  nothing : Reply
  packet : ℕ → List ℕ → Reply
  more : Reply

abbrev pub Filtered : Type 0
Filtered = Option (Reply × Option Queue)

abbrev pub replies : Reply → Option Queue → Filtered
replies r none = none
replies r (some q) = some (r, some q)

-- `filter_data_` where a packet waits for its rest, of which the bytes `read` are there.
unfoldable pub fill : Option Queue → ℕ → Uncomplete → List ℕ → List ℕ → Filtered
fill slot fd uc read bytes =
    let need = uc.size - length read in
    let whole = read ++ take need bytes in
    let rest = drop need bytes in
    if ltb (length bytes) need
    then some (nothing, some (save_uncomplete slot (record uc { read = some (read ++ bytes) })))
    else (if length rest == 0
        then some (packet fd whole, slot)
        else replies more (push_more (length rest) (some (push_data slot fd whole)) fd rest))

-- `filter_data_` where no packet waits.
unfoldable pub begin_packet : Option Queue → ℕ → List ℕ → Filtered
begin_packet slot fd [] = none
begin_packet slot fd (a ∷ []) =
    some
      (nothing, some (save_uncomplete slot (record { id = fd; size = 0; read = none; header = a })))
begin_packet slot fd (a ∷ b ∷ bytes) =
    let pack_size = read_size a b in
    let rest = drop pack_size bytes in
    if ltb (length bytes) pack_size
    then some (
      nothing,
      some (
          save_uncomplete slot
            (record { id = fd; size = pack_size; read = some bytes; header = 0 })),
    )
    else (if length bytes == pack_size
        then some (packet fd bytes, slot)
        else replies more
            (push_more (length rest) (some (push_data slot fd (take pack_size bytes))) fd rest))

-- `filter_data_` where the second byte of the size is still to come.
unfoldable pub read_rest : Option Queue → ℕ → Uncomplete → List ℕ → Filtered
read_rest slot fd uc [] = none
read_rest slot fd uc (b ∷ bytes) =
    fill slot fd (record uc { size = read_size uc.header b; read = some [] }) [] bytes

abbrev pub filter_found : Option Uncomplete → Option Queue → ℕ → List ℕ → Filtered
filter_found none slot fd bytes = begin_packet slot fd bytes
filter_found (some uc) slot fd bytes = elim uc.read [
  | none ↦ read_rest slot fd uc bytes
  | some read ↦ fill slot fd uc read bytes
]

-- `filter_data`
unfoldable pub filter_data : Option Queue → ℕ → List ℕ → Filtered
filter_data slot fd bytes =
    let (uc, slot') = find_uncomplete slot fd in filter_found uc slot' fd bytes

-- `close_uncomplete`
unfoldable pub close_uncomplete : Option Queue → ℕ → Option Queue
close_uncomplete slot fd = (find_uncomplete slot fd).1

-- `lpop`: the packet, and the queue.
unfoldable pub pop_packet : Option Queue → Option (Option Netpack) × Option Queue
pop_packet none = (none, none)
pop_packet (some q) = if q.head == q.tail then (none, some q) else (
  some (get_or q.queue q.head none),
  some (record q { head = if leb q.cap (q.head + 1) then 0 else q.head + 1 }),
)

-- `lclear`: the packets whose buffers it frees, from the queue, and the queue.
unfoldable pub clear : Option Queue → List (Option Netpack) × Option Queue
clear none = ([], none)
clear (some q) =
    let tail = if ltb q.tail q.head then q.tail + q.cap else q.tail in
    (
      cells none q.queue q.cap q.head 0 (tail - q.head),
      some (record q { hash = λ h. []; head = 0; tail = 0 }),
    )

-- `lpack`, with `write_size`; `none` is its error.
unfoldable pub pack : List ℕ → Option (List ℕ)
pack bytes =
    let len = length bytes in
    if leb 0x10000 len then none else some (len / 2 ^ 8 % 2 ^ 8 ∷ len % 2 ^ 8 ∷ bytes)

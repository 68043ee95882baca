-- ===== src/Databuffer/Stream.antt =====
-- The operations of databuffer.h on the stream of bytes, and the nodes of the pool.
use skynet_gameserver.Prelude.{
  concat, ℕ, ◌+◌, ◌-◌, ◌*◌, ◌≤◌, ◌<◌, ◌≡◌, refl, false, ap, sym, ◌∙◌, Option, some, List, [], ◌∷◌,
  ◌++◌, ltb, length, take, drop, arith, length-append, length-drop,
}
use skynet_gameserver.Prelude.Split.{append_assoc, append_nil}
use skynet_gameserver.Databuffer.{
  DataBuffer, MessagePool, ReadState, after_read, databuffer_read, databuffer_push, return_message,
  take_message, return_all, databuffer_clear, messagepool,
}
use skynet_gameserver.Databuffer.Read.{stream_from, InFirst, Reads, reads, read_loop-Reads}

abbrev pub stream : DataBuffer → List ℕ
stream db = stream_from db.messages db.offset

pub record IsValid (db : DataBuffer) : Type 0 where
  pub in_first : InFirst db.messages db.offset
  pub sized : db.size ≡ length (stream db)

-- Between two states no node was lost or doubled: each is in the list of free nodes or holds a block
-- of this buffer or (the same before and after) of another.
abbrev pub KeepsNodes : DataBuffer → MessagePool → DataBuffer → MessagePool → Type 0
KeepsNodes db mp db' mp' =
    mp'.free + length db'.messages + messagepool * mp.blocks
    ≡ mp.free + length db.messages + messagepool * mp'.blocks

pub data Taken (db : DataBuffer) (mp : MessagePool) (sz : ℕ)
    : Option (List ℕ × DataBuffer × MessagePool) → Type 0 where
  taken :
      (db' : DataBuffer) (mp' : MessagePool)
      → IsValid db'
      → stream db' ≡ drop sz (stream db)
      → db'.header ≡ db.header
      → KeepsNodes db mp db' mp'
      → Taken db mp sz (some (take sz (stream db), db', mp'))

take-Reads :
    (db : DataBuffer) (mp : MessagePool) (sz : ℕ) (r : Option ReadState)
    → IsValid db
    → Reads (stream db) (length db.messages) sz mp r
    → Taken db mp sz (after_read db sz r)
take-Reads db mp sz _ v (reads ms offset mp' e f b n) =
    let s = v.sized in
    taken (record db { size = db.size - sz; offset = offset; messages = ms }) mp'
      (record { in_first = f; sized = omega (arith, s, ap length e, length-drop sz (stream db)) }) e
      refl (omega (arith, b, n))

-- On a well-formed buffer `databuffer_read` of at least one byte and at most all copies the next
-- bytes of the stream, leaves the rest, and loses no node.
pub databuffer_read-Taken :
    (db : DataBuffer) (mp : MessagePool) (sz : ℕ)
    → IsValid db
    → 0 < sz
    → sz ≤ db.size
    → Taken db mp sz (databuffer_read db mp sz)
unfolding databuffer_read
databuffer_read-Taken db mp sz v h h' =
    let b : ltb db.size sz ≡ false = ground arith in
    rw b (
      take-Reads db mp sz _ v
        (read_loop-Reads db.messages db.offset sz mp v.in_first h (omega (arith, v.sized))))

concat-snoc : (ms : List (List ℕ)) (bytes : List ℕ) → concat (ms ++ bytes ∷ []) ≡ concat ms ++ bytes
concat-snoc [] bytes = append_nil bytes
concat-snoc (m ∷ ms) bytes =
    ap (λ s. m ++ s) (concat-snoc ms bytes) ∙ sym (append_assoc m (concat ms) bytes)

stream_from-snoc :
    (ms : List (List ℕ)) (offset : ℕ) (bytes : List ℕ)
    → InFirst ms offset
    → stream_from (ms ++ bytes ∷ []) offset ≡ stream_from ms offset ++ bytes
unfolding stream_from
stream_from-snoc [] offset bytes v = rw v (append_nil bytes)
stream_from-snoc (m ∷ ms) offset bytes v =
    ap (λ s. drop offset m ++ s) (concat-snoc ms bytes)
    ∙ sym (append_assoc (drop offset m) (concat ms) bytes)

InFirst-snoc :
    (ms : List (List ℕ)) (offset : ℕ) (bytes : List ℕ)
    → InFirst ms offset
    → InFirst (ms ++ bytes ∷ []) offset
InFirst-snoc [] offset bytes v = omega (arith, v)
InFirst-snoc (m ∷ ms) offset bytes v = v

take_message-free :
    (mp : MessagePool)
    → (take_message mp).free + 1 + messagepool * mp.blocks
      ≡ mp.free + messagepool * (take_message mp).blocks
unfolding take_message
take_message-free mp = ground arith

-- `databuffer_push` puts the bytes at the end of the stream and loses no node, also where it has to
-- allocate nodes.
pub databuffer_push_lem :
    (db : DataBuffer) (mp : MessagePool) (bytes : List ℕ)
    → IsValid db
    → let (db', mp') = databuffer_push db mp bytes in
      IsValid db'
      × (stream db' ≡ stream db ++ bytes)
      × (db'.header ≡ db.header)
      × KeepsNodes db mp db' mp'
unfolding databuffer_push
databuffer_push_lem db mp bytes v =
    let e = stream_from-snoc db.messages db.offset bytes v.in_first in
    (
      record {
        in_first = InFirst-snoc db.messages db.offset bytes v.in_first;
        sized = omega (arith, v.sized, ap length e, length-append (stream db) bytes);
      },
      e,
      refl,
      omega (arith, take_message-free mp, length-append db.messages (bytes ∷ [])),
    )

return_all-free :
    (ms : List (List ℕ)) (mp : MessagePool)
    → ((return_all ms mp).free ≡ mp.free + length ms) × ((return_all ms mp).blocks ≡ mp.blocks)
unfolding return_all return_message
return_all-free [] mp = (omega arith, refl)
return_all-free (m ∷ ms) mp =
    let (e, e') = return_all-free ms (return_message mp) in (omega (arith, e), e')

-- `databuffer_clear` leaves an empty, well-formed buffer and loses no node.
pub databuffer_clear_lem :
    (db : DataBuffer) (mp : MessagePool)
    → let (db', mp') = databuffer_clear db mp in
      IsValid db' × (stream db' ≡ []) × KeepsNodes db mp db' mp'
unfolding databuffer_clear stream_from
databuffer_clear_lem db mp =
    let (e, e') = return_all-free db.messages mp in
    (record { in_first = refl; sized = refl }, refl, omega (arith, e, e'))

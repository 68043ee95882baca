-- ===== src/Gate/Returns.antt =====
-- `dispatch_message` on any bytes, whether or not they are the packets that a client should send.
use skynet_gameserver.Prelude.{
  ℕ, zero, suc, ◌+◌, ◌^◌, ◌<◌, ◌≤◌, ◌≡◌, refl, ap, Bool-cases, inl, inr, Option, none, some, List,
  [], ◌∷◌, ◌++◌, leb, ltb, ◌==◌, if◌then◌else◌, length, take, arith, length-append, length-drop,
}
use skynet_gameserver.Databuffer.{
  DataBuffer, MessagePool, databuffer_push, databuffer_readheader, databuffer_reset,
  databuffer_clear, await, lt_int, minus_one, after_header, parse_header,
}
use skynet_gameserver.Databuffer.Stream.{
  stream, IsValid, KeepsNodes, Taken, taken, databuffer_read-Taken, databuffer_push_lem,
  databuffer_clear_lem,
}
use skynet_gameserver.Gate.{
  Gate, Connection, Action, Frames, target, forward, frame, reset_frames, frame_loop, then_frames,
  send_read, dispatch_message, closes,
}
use skynet_gameserver.Gate.Encoding.{IsHeaderSize}

-- There is a result, with a valid buffer and no node lost.
pub data Returned (db : DataBuffer) (mp : MessagePool) : Frames → Type 0 where
  returned :
      (sent : List Action) (db' : DataBuffer) (mp' : MessagePool)
      → IsValid db'
      → KeepsNodes db mp db' mp'
      → Returned db mp (some (sent, db', mp'))

-- The bytes, and one more where a header was read: each round has less.
abbrev measure : DataBuffer → ℕ
measure db = db.size + (if db.header == 0 then 0 else 1)

then-Returned :
    (sent : List Action) (db db' : DataBuffer) (mp mp' : MessagePool) (r : Frames)
    → KeepsNodes db mp db' mp'
    → Returned db' mp' r
    → Returned db mp (then_frames sent r)
then-Returned sent db db' mp mp' _ k (returned later db₂ mp₂ v k') =
    returned (sent ++ later) db₂ mp₂ v (omega (arith, k, k'))

moved-Returned :
    (db db' : DataBuffer) (mp mp' : MessagePool) (r : Frames)
    → KeepsNodes db mp db' mp'
    → Returned db' mp' r
    → Returned db mp r
moved-Returned db db' mp mp' _ k (returned sent db₂ mp₂ v k') =
    returned sent db₂ mp₂ v (omega (arith, k, k'))

-- The result of `databuffer_readheader`: nothing was read, or a header is there.
data HeaderRead (db : DataBuffer) (mp : MessagePool)
    : Option (ℕ × DataBuffer × MessagePool) → Type 0 where
  short : HeaderRead db mp (some (minus_one, db, mp))
  header_read :
      (db' : DataBuffer) (mp' : MessagePool)
      → IsValid db'
      → db'.size < measure db
      → KeepsNodes db mp db' mp'
      → HeaderRead db mp (some (await db', db', mp'))

-- What the next rounds do.
abbrev Next : (DataBuffer → MessagePool → Frames) → ℕ → Type 0
Next next n =
    (db : DataBuffer) (mp : MessagePool)
    → IsValid db
    → db.size < 2 ^ 31
    → measure db < n
    → Returned db mp (next db mp)

module _ (g : Gate) (c : Connection) (id : ℕ) (size_ok : IsHeaderSize g.header_size) where
  readheader-HeaderRead :
      (db : DataBuffer) (mp : MessagePool)
      → IsValid db
      → HeaderRead db mp (databuffer_readheader db mp g.header_size)
  unfolding databuffer_readheader
  readheader-HeaderRead db mp v = elim (Bool-cases (db.header == 0)) [
    | inl z ↦ elim (Bool-cases (ltb db.size g.header_size)) [
      | inl l ↦ rw (z, l) short
      | inr l ↦
          rw (z, l)
            (go (ground (arith, size_ok)) _
              (databuffer_read-Taken db mp g.header_size v (omega (arith, size_ok)) (ground arith)))
    ]
    | inr z ↦ rw z (header_read db mp v (ground arith) refl)
  ]
    where
      go :
          0 < db.size
          → (r : Option (List ℕ × DataBuffer × MessagePool)) → Taken db mp g.header_size r
          → HeaderRead db mp (after_header g.header_size r)
      go pos _ (taken db' mp' v' e h k) =
          header_read (record db' { header = parse_header g.header_size _ }) mp'
            (record { in_first = v'.in_first; sized = v'.sized })
            (let less : db'.size < db.size = omega (
              arith,
              v'.sized,
              v.sized,
              ap length e,
              length-drop g.header_size (stream db),
              size_ok,
              pos,
            ) in
              ground (arith, less))
            k

  module _ (next : DataBuffer → MessagePool → Frames) (n : ℕ) (ih : Next next n) where
    reset-Returned :
        (db : DataBuffer) (mp : MessagePool)
        → IsValid db
        → db.size < 2 ^ 31
        → db.size < n
        → Returned db mp (next (databuffer_reset db) mp)
    unfolding databuffer_reset
    reset-Returned db mp v small le = moved-Returned db (databuffer_reset db) mp mp _ refl (
        ih (databuffer_reset db) mp (record { in_first = v.in_first; sized = v.sized }) small
          (omega arith))

    forward-Returned :
        (db : DataBuffer) (mp : MessagePool) (size : ℕ)
        → IsValid db
        → 0 < size
        → size ≤ db.size
        → db.size < 2 ^ 31
        → db.size < n
        → Returned db mp (reset_frames next (forward g c db mp size))
    unfolding forward reset_frames
    forward-Returned db mp size v h le small l = go (target g c) refl
      where
        read :
            (t : List ℕ → Action) (r : Option (List ℕ × DataBuffer × MessagePool))
            → Taken db mp size r
            → Returned db mp (reset_frames next (send_read t r))
        read t _ (taken db' mp' v' e _ k) =
            let shorter : db'.size ≤ db.size =
              omega (arith, v'.sized, v.sized, ap length e, length-drop size (stream db)) in
            let fewer : db'.size < db.size =
              omega (arith, v'.sized, v.sized, ap length e, length-drop size (stream db), h, le) in
            then-Returned (t (take size (stream db)) ∷ []) db db' mp mp' _ k
              (reset-Returned db' mp' v' (omega arith) (omega arith))

        go :
            (o : Option (List ℕ → Action))
            → target g c ≡ o
            → Returned db mp (reset_frames next (forward g c db mp size))
        go none e =
            rw (forward, e) (then-Returned [] db db mp mp _ refl (reset-Returned db mp v small l))
        go (some t) e = rw (forward, e) (read t _ (databuffer_read-Taken db mp size v h le))

    -- The round for a size that `await` gave.
    sized-Returned :
        (db : DataBuffer) (mp : MessagePool) (size : ℕ)
        → IsValid db
        → db.size < 2 ^ 31
        → db.size < n
        → (size < 2 ^ 31 → (size ≡ db.header) × (size ≤ db.size))
        → Returned db mp (frame next g c id (some (size, db, mp)))
    unfolding frame
    sized-Returned db mp size v small l have = elim (Bool-cases (leb (2 ^ 31) size)) [
      | inl b₁ ↦ rw b₁ (returned [] db mp v refl)
      | inr b₁ ↦
          (let (same, le) = have (ground arith) in
            elim (Bool-cases (size == 0)) [
              | inl b₂ ↦ rw (b₁, b₂) (ih db mp v small (ground (arith, same)))
              | inr b₂ ↦ elim (Bool-cases (leb 0x1000000 size)) [
                | inl b₃ ↦
                    rw (b₁, b₂, b₃)
                      (let (v', e, k) = databuffer_clear_lem db mp in
                        returned (closes id ∷ []) (databuffer_clear db mp).0
                          (databuffer_clear db mp).1 v' k)
                | inr b₃ ↦ rw (b₁, b₂, b₃) (forward-Returned db mp size v (ground arith) le small l)
              ]
            ])
    ]

    await_size :
        (db : DataBuffer)
        → db.size < 2 ^ 31
        → await db < 2 ^ 31
        → (await db ≡ db.header) × (await db ≤ db.size)
    unfolding await
    await_size db small h = elim (Bool-cases (lt_int db.size db.header)) [
      | inl b ↦ absurd (let bad : minus_one < 2 ^ 31 = rw b at h in omega (arith, bad))
      | inr b ↦ (let h' : db.header < 2 ^ 31 = rw b at h in rw b (refl, ground arith))
    ]

    frame-Returned :
        (db : DataBuffer) (mp : MessagePool) (r : Option (ℕ × DataBuffer × MessagePool))
        → IsValid db
        → db.size < 2 ^ 31
        → measure db < suc n
        → HeaderRead db mp r
        → Returned db mp (frame next g c id r)
    unfolding frame
    frame-Returned db mp _ v small m short = returned [] db mp v refl
    frame-Returned db mp _ v small m (header_read db' mp' v' l k) =
        let small' : db'.size < 2 ^ 31 = ground arith in
        moved-Returned db db' mp mp' _ k
          (sized-Returned db' mp' (await db') v' small' (omega arith) (await_size db' small'))

  frame_loop-Returned : (fuel : ℕ) → Next (frame_loop fuel g c id) fuel
  unfolding frame_loop
  frame_loop-Returned zero db mp v small l = absurd (omega arith)
  frame_loop-Returned (suc fuel) db mp v small l =
      frame-Returned (frame_loop fuel g c id) fuel (frame_loop-Returned fuel) db mp _ v small l
        (readheader-HeaderRead db mp v)

  -- Whatever bytes a connection sends, `dispatch_message` returns: the assertion of
  -- `databuffer_read` on the size holds, no null pointer is used, and the loop ends. The buffer stays valid and no node of the pool is lost. The buffer is valid before, it holds
  -- less than 2^31 bytes with the new ones, and the header has 2 or 4 bytes.
  pub dispatch_message-Returned :
      (db : DataBuffer) (mp : MessagePool) (bytes : List ℕ)
      → IsValid db
      → db.size + length bytes < 2 ^ 31
      → Returned db mp (dispatch_message g c id db mp bytes)
  unfolding dispatch_message
  dispatch_message-Returned db mp bytes v h =
      let (v', e, z, k) = databuffer_push_lem db mp bytes v in
      let db' = (databuffer_push db mp bytes).0 in
      let mp' = (databuffer_push db mp bytes).1 in
      let loop =
        frame_loop-Returned (db'.size + 2) db' mp' v'
          (omega (arith, v'.sized, v.sized, ap length e, length-append (stream db) bytes))
          (ground arith) in
      moved-Returned db db' mp mp' _ k loop

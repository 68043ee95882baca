-- ===== src/Gate/Packets.antt =====
-- The packets of a connection, however its bytes were cut into socket messages.
use skynet_gameserver.Prelude.{
  concat, ℕ, ◌+◌, ◌^◌, ◌<◌, ◌≡◌, refl, ap, sym, ◌∙◌, subst, some, List, [], ◌∷◌, ◌++◌, map, length,
  arith, length-append,
}
use mathlib.Core.List.{map-append}
use skynet_gameserver.Databuffer.{DataBuffer, MessagePool, databuffer_push, empty_buffer}
use skynet_gameserver.Databuffer.Read.{stream_from}
use skynet_gameserver.Databuffer.Stream.{stream, IsValid, KeepsNodes, databuffer_push_lem}
use skynet_gameserver.Gate.{
  Gate, Connection, Action, Frames, target, then_frames, next_message, dispatch_message,
  dispatch_messages,
}
use skynet_gameserver.Gate.Encoding.{IsHeaderSize, Fits, encode, none_left}
use skynet_gameserver.Gate.Header.{Owes, between, finished, Owes-push}
use skynet_gameserver.Gate.Frames.{Framed, framed, frame_loop-Framed}

-- A socket message is shorter than this.
abbrev pub Small : List (List ℕ) → Type 0
Small [] = Unit
Small (bytes ∷ ds) = (length bytes < 2 ^ 30) × Small ds

module _ (g : Gate) (c : Connection) (id : ℕ) (t : List ℕ → Action) (sends : target g c ≡ some t)
    (size_ok : IsHeaderSize g.header_size) where
  dispatch_message-Framed :
      (db : DataBuffer) (mp : MessagePool) (bytes later : List ℕ) (ps : List (List ℕ))
      → IsValid db
      → length (stream db) < 0x1000000
      → length bytes < 2 ^ 30
      → Fits g.header_size ps
      → Owes g.header_size db (bytes ++ later) ps
      → let (db', mp') = databuffer_push db mp bytes in
        KeepsNodes db mp db' mp'
        × Framed g c id t sends size_ok db' mp' later ps (dispatch_message g c id db mp bytes)
  unfolding dispatch_message
  dispatch_message-Framed db mp bytes later ps v small h f o =
      let (v', e, z, k) = databuffer_push_lem db mp bytes v in
      let db' = (databuffer_push db mp bytes).0 in
      let mp' = (databuffer_push db mp bytes).1 in
      (
        k,
        frame_loop-Framed g c id t sends size_ok (db'.size + 2) later db' mp' ps v'
            (omega (arith, v'.sized, ap length e, length-append (stream db) bytes)) f
            (Owes-push g.header_size db db' bytes later ps e z o) (omega arith),
      )

  -- All packets were forwarded and nothing is left.
  pub data AllFramed (db : DataBuffer) (mp : MessagePool) (ps : List (List ℕ))
      : Frames → Type 0 where
    all_framed :
        (db' : DataBuffer) (mp' : MessagePool)
        → db'.header ≡ 0
        → stream db' ≡ []
        → KeepsNodes db mp db' mp'
        → AllFramed db mp ps (some (map t ps, db', mp'))

  later-AllFramed :
      (db db' : DataBuffer) (mp mp' : MessagePool) (ps₁ ps₂ : List (List ℕ)) (r : Frames)
      → KeepsNodes db mp db' mp'
      → AllFramed db' mp' ps₂ r
      → AllFramed db mp (ps₁ ++ ps₂) (then_frames (map t ps₁) r)
  later-AllFramed db db' mp mp' ps₁ ps₂ _ k (all_framed db₂ mp₂ z e k') =
      subst (λ ts. AllFramed db mp (ps₁ ++ ps₂) (some (ts, db₂, mp₂))) (map-append t ps₁ ps₂)
        (all_framed db₂ mp₂ z e (omega (arith, k, k')))

  next_message-AllFramed :
      (next : DataBuffer → MessagePool → Frames) (db db' : DataBuffer) (mp mp' : MessagePool)
      (later : List ℕ) (ps : List (List ℕ)) (r : Frames)
      → KeepsNodes db mp db' mp'
      → ((db : DataBuffer) (mp : MessagePool) (ps : List (List ℕ))
          → IsValid db
          → length (stream db) < 0x1000000
          → Fits g.header_size ps
          → Owes g.header_size db later ps
          → (later ≡ [] → ps ≡ [])
          → AllFramed db mp ps (next db mp))
      → Framed g c id t sends size_ok db' mp' later ps r
      → AllFramed db mp ps (next_message next r)
  unfolding next_message
  next_message-AllFramed next db db' mp mp' later ps _ k ih
        (framed ps₁ ps₂ db₂ mp₂ e v o f small l k') =
      subst (λ qs. AllFramed db mp qs (then_frames (map t ps₁) (next db₂ mp₂))) (sym e)
        (later-AllFramed db db₂ mp mp₂ ps₁ ps₂ _ (omega (arith, k, k'))
          (ih db₂ mp₂ ps₂ v small f o l))

  dispatch_all :
      (ds : List (List ℕ)) (db : DataBuffer) (mp : MessagePool) (ps : List (List ℕ))
      → IsValid db
      → length (stream db) < 0x1000000
      → Small ds
      → Fits g.header_size ps
      → Owes g.header_size db (concat ds) ps
      → (concat ds ≡ [] → ps ≡ [])
      → AllFramed db mp ps (dispatch_messages g c id db mp ds)
  unfolding dispatch_messages
  dispatch_all [] db mp ps v small s f o l =
      let (z, e) = finished g.header_size db [] ps o refl (l refl) in
      rw (l refl) (all_framed db mp z e refl)
  dispatch_all (bytes ∷ ds) db mp ps v small s f o l =
      let (k, fr) = dispatch_message-Framed db mp bytes (concat ds) ps v small s.0 f o in
      next_message-AllFramed (λ db mp. dispatch_messages g c id db mp ds) db _ mp _ (concat ds) ps _
        k (λ db mp ps v small f o l. dispatch_all ds db mp ps v small s.1 f o l) fr

  -- The round trip: bytes that encode packets are forwarded as just those packets, in order and
  -- whole, however they were cut into socket messages; nothing is left in the buffer, and no node
  -- of the pool is lost. The packets are not empty and below the limit of the header and of 16 MB,
  -- the socket messages are below 2^30 bytes, and `_forward` has somewhere to send.
  pub dispatch_messages-AllFramed :
      (ds : List (List ℕ)) (mp : MessagePool) (ps : List (List ℕ))
      → Fits g.header_size ps
      → Small ds
      → concat ds ≡ encode g.header_size ps
      → AllFramed empty_buffer mp ps (dispatch_messages g c id empty_buffer mp ds)
  unfolding stream_from
  dispatch_messages-AllFramed ds mp ps f s e =
      dispatch_all ds empty_buffer mp ps (record { in_first = refl; sized = refl }) (omega arith) s
        f (between ps refl e)
        (λ z. none_left g.header_size ps 0 size_ok (ap length (sym e ∙ z)) (omega (arith, size_ok)))

-- ===== src/Gate/Frames.antt =====
-- `dispatch_message` against the packets that the stream of a connection encodes.
use skynet_gameserver.Prelude.{
  ℕ, zero, suc, ◌+◌, ◌^◌, ◌≤◌, ◌<◌, ◌≡◌, refl, false, ap, sym, ◌∙◌, subst, Option, some, List, [],
  ◌∷◌, ◌++◌, map, leb, ◌==◌, length, arith, length-drop,
}
use skynet_gameserver.Prelude.Split.{take_front, drop_front}
use skynet_gameserver.Databuffer.{DataBuffer, MessagePool, databuffer_reset}
use skynet_gameserver.Databuffer.Stream.{
  stream, IsValid, KeepsNodes, Taken, taken, databuffer_read-Taken,
}
use skynet_gameserver.Gate.{
  Gate, Connection, Action, Frames, target, forward, frame, reset_frames, frame_loop, then_frames,
  send_read,
}
use skynet_gameserver.Gate.Encoding.{IsHeaderSize, Fits, encode, limit-le, Fits-cons}
use skynet_gameserver.Gate.Header.{Owes, between, Header, waits, ready, readheader-Header}

-- A gate and a connection for which `_forward` has somewhere to send: `t`.
module _ (g : Gate) (c : Connection) (id : ℕ) (t : List ℕ → Action) (sends : target g c ≡ some t)
    (size_ok : IsHeaderSize g.header_size) where
  -- Some packets of `ps` are forwarded, in order; of the others the bytes are kept, and there are
  -- none if no byte is to come.
  pub data Framed (db : DataBuffer) (mp : MessagePool) (later : List ℕ) (ps : List (List ℕ))
      : Frames → Type 0 where
    framed :
        (ps₁ ps₂ : List (List ℕ)) (db' : DataBuffer) (mp' : MessagePool)
        → ps ≡ ps₁ ++ ps₂
        → IsValid db'
        → Owes g.header_size db' later ps₂
        → Fits g.header_size ps₂
        → length (stream db') < 0x1000000
        → (later ≡ [] → ps₂ ≡ [])
        → KeepsNodes db mp db' mp'
        → Framed db mp later ps (some (map t ps₁, db', mp'))

  then-Framed :
      (p : List ℕ) (ps : List (List ℕ)) (later : List ℕ) (db db' : DataBuffer)
      (mp mp' : MessagePool) (r : Frames)
      → KeepsNodes db mp db' mp'
      → Framed db' mp' later ps r
      → Framed db mp later (p ∷ ps) (then_frames (t p ∷ []) r)
  then-Framed p ps later db db' mp mp' _ k (framed ps₁ ps₂ db₂ mp₂ e v o f small l k') =
      framed (p ∷ ps₁) ps₂ db₂ mp₂ (ap (λ x. p ∷ x) e) v o f small l (omega (arith, k, k'))

  -- What is left when `_forward` has read its packet.
  pub data Forwarded (db : DataBuffer) (mp : MessagePool) (later p : List ℕ) (ps : List (List ℕ))
      : Frames → Type 0 where
    forwarded :
        (db' : DataBuffer) (mp' : MessagePool)
        → IsValid db'
        → stream db' ++ later ≡ encode g.header_size ps
        → length (stream db') + length p ≡ length (stream db)
        → KeepsNodes db mp db' mp'
        → Forwarded db mp later p ps (some (t p ∷ [], db', mp'))

  forward-Forwarded :
      (db : DataBuffer) (mp : MessagePool) (later p : List ℕ) (ps : List (List ℕ))
      → IsValid db
      → stream db ++ later ≡ p ++ encode g.header_size ps
      → 0 < length p
      → length p ≤ db.size
      → Forwarded db mp later p ps (forward g c db mp (length p))
  unfolding forward
  forward-Forwarded db mp later p ps v s h le =
      rw (forward, sends) (go _ (databuffer_read-Taken db mp (length p) v h le))
    where
      go :
          (r : Option (List ℕ × DataBuffer × MessagePool))
          → Taken db mp (length p) r
          → Forwarded db mp later p ps (send_read t r)
      go _ (taken db' mp' v' e _ k) =
          let room : length p ≤ length (stream db) = omega (arith, v.sized) in
          rw (take_front (stream db) later p _ s room) (
            forwarded db' mp' v' (ap (λ x. x ++ later) e ∙ drop_front (stream db) later p _ s room)
              (omega (arith, ap length e, length-drop (length p) (stream db))) k)

  -- What the next rounds do with at most `n` bytes.
  abbrev pub Next : (DataBuffer → MessagePool → Frames) → ℕ → List ℕ → Type 0
  Next next n later =
      (db : DataBuffer) (mp : MessagePool) (ps : List (List ℕ))
      → IsValid db
      → db.size < 2 ^ 31
      → Fits g.header_size ps
      → Owes g.header_size db later ps
      → db.size < n
      → Framed db mp later ps (next db mp)

  reset_frames-Framed :
      (next : DataBuffer → MessagePool → Frames) (n : ℕ) (db db' : DataBuffer)
      (mp mp' : MessagePool) (later p : List ℕ) (ps : List (List ℕ)) (r : Frames)
      → Next next n later
      → Fits g.header_size ps
      → 0 < length p
      → IsValid db'
      → db'.size < 2 ^ 31
      → db'.size ≤ n
      → KeepsNodes db mp db' mp'
      → Forwarded db' mp' later p ps r
      → Framed db mp later (p ∷ ps) (reset_frames next r)
  unfolding reset_frames databuffer_reset
  reset_frames-Framed next n db db' mp mp' later p ps _ ih f h v' small le k
        (forwarded db₂ mp₂ v₂ s shorter k') =
      let db₃ = databuffer_reset db₂ in
      then-Framed p ps later db db₃ mp mp₂ _ (omega (arith, k, k')) (
        ih db₃ mp₂ ps (record { in_first = v₂.in_first; sized = v₂.sized })
          (omega (arith, v₂.sized, v'.sized)) f (between ps refl s)
          (omega (arith, v₂.sized, v'.sized)))

  frame-Framed :
      (next : DataBuffer → MessagePool → Frames) (n : ℕ) (db : DataBuffer) (mp : MessagePool)
      (later : List ℕ) (ps : List (List ℕ)) (r : Option (ℕ × DataBuffer × MessagePool))
      → Next next n later
      → db.size < 2 ^ 31
      → db.size ≤ n
      → Fits g.header_size ps
      → Header g.header_size db mp later ps r
      → Framed db mp later ps (frame next g c id r)
  unfolding frame
  frame-Framed next n db mp later ps _ ih small le f (waits db' mp' v' o' small' l k) =
      framed [] ps db' mp' refl v' o' f small' l k
  frame-Framed next n db mp later ps _ ih small le f (ready p ps' db' mp' e v' s room le' k) =
      let (h, h', f') = Fits-cons g.header_size p ps' (subst (Fits g.header_size) e f) in
      let b₁ : leb (2 ^ 31) (length p) ≡ false = ground (arith, limit-le g.header_size) in
      let b₂ : (length p == 0) ≡ false = ground arith in
      let b₃ : leb 0x1000000 (length p) ≡ false = ground (arith, limit-le g.header_size) in
      subst (λ qs. Framed db mp later qs (frame next g c id (some (length p, db', mp')))) (sym e)
        (rw (b₁, b₂, b₃)
          (reset_frames-Framed next n db db' mp mp' later p ps' _ ih f' h v' (omega arith)
            (omega arith) k (forward-Forwarded db' mp' later p ps' v' s h room)))

  -- The loop of `dispatch_message`: fuel for the bytes that are there is enough.
  pub frame_loop-Framed : (fuel : ℕ) (later : List ℕ) → Next (frame_loop fuel g c id) fuel later
  unfolding frame_loop
  frame_loop-Framed zero later db mp ps v small f o h = absurd (omega arith)
  frame_loop-Framed (suc fuel) later db mp ps v small f o h =
      frame-Framed (frame_loop fuel g c id) fuel db mp later ps _ (frame_loop-Framed fuel later)
        small (omega arith) f (readheader-Header g.header_size db mp later ps size_ok v small f o)

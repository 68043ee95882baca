-- ===== src/SocketWrites/Lists.antt =====
-- What `send_list` does to a list of buffers.
use skynet_gameserver.Prelude.{
  ℕ, ◌+◌, ◌≤◌, ◌≡◌, refl, sym, ap, ap₂, ◌∙◌, ◌⊎◌, Bool, true, false, Bool-cases, inl, inr, List, [],
  ◌∷◌, ◌++◌, min, ◌==◌, if◌then◌else◌, length, take, drop, length-append, length-take, length-drop,
  take-append-drop, arith,
}
use skynet_gameserver.Prelude.Split.{append_assoc, append_nil, take_all, take_add}
use skynet_gameserver.SocketWrites.State.{
  Message, WriteBuffer, size_left, Answer, took, would_block, interrupted, failed,
}
use skynet_gameserver.SocketWrites.Sending.{Sent, send_list}

-- A property of both branches of a test
pub both_branches {ℓ} :
    {A : Type ℓ} (P : A → Type 0) (b : Bool) {x y : A}
    → (b ≡ true → P x)
    → (b ≡ false → P y)
    → P (if b then x else y)
both_branches P true h k = h refl
both_branches P false h k = k refl

abbrev pub messages : List WriteBuffer → List Message
messages [] = []
messages (wb ∷ wbs) = wb.message ∷ messages wbs

-- The bytes of messages.
abbrev pub all_bytes : List Message → List ℕ
all_bytes [] = []
all_bytes (m ∷ ms) = m.bytes ++ all_bytes ms

abbrev pub AllWhole : List WriteBuffer → Type 0
AllWhole [] = Unit {0}
AllWhole (wb ∷ wbs) = (wb.offset ≡ 0) × AllWhole wbs

-- Only the first buffer may be written in part.
abbrev pub HeadOnly : List WriteBuffer → Type 0
HeadOnly [] = Unit {0}
HeadOnly (wb ∷ wbs) = (wb.offset ≤ length wb.message.bytes) × AllWhole wbs

-- The part of the first buffer that was written.
abbrev pub started : List WriteBuffer → List ℕ
started [] = []
started (wb ∷ wbs) = take wb.offset wb.message.bytes

abbrev pub total_left : List WriteBuffer → ℕ
total_left [] = 0
total_left (wb ∷ wbs) = size_left wb + total_left wbs

pub whole-HeadOnly : (wbs : List WriteBuffer) → AllWhole wbs → HeadOnly wbs
whole-HeadOnly [] w = tt
whole-HeadOnly (wb ∷ wbs) (z, w) = (omega (arith, z), w)

pub started_whole : (wbs : List WriteBuffer) → AllWhole wbs → started wbs ≡ []
started_whole [] w = refl
started_whole (wb ∷ wbs) (z, w) = ap (λ k. take k wb.message.bytes) z

-- Some messages are gone, of the others at most the first is written in part.
pub record Sends (wbs : List WriteBuffer) (r : Sent) : Type 0 where
  pub gone : List Message
  pub kept : messages wbs ≡ gone ++ messages r.left
  pub written : started wbs ++ r.bytes ≡ all_bytes gone ++ started r.left
  pub head_only : HeadOnly r.left
  pub sized : length r.bytes + total_left r.left ≡ total_left wbs
  -- Where a `write` fails, no buffer is left that this call has written in part.
  pub broken_whole : r.broken ≡ true → AllWhole wbs → AllWhole r.left

nothing_sent :
    (wbs : List WriteBuffer) (broken : Bool) (answers : List Answer)
    → HeadOnly wbs
    → Sends wbs (record { bytes = []; left = wbs; broken = broken; answers = answers })
nothing_sent wbs broken answers h = record {
  gone = [];
  kept = refl;
  written = append_nil (started wbs);
  head_only = h;
  sized = omega arith;
  broken_whole = λ e w. w;
}

pub send_list-Sends :
    (answers : List Answer) (wbs : List WriteBuffer)
    → HeadOnly wbs
    → Sends wbs (send_list answers wbs)
unfolding send_list
send_list-Sends [] [] h = nothing_sent [] false [] h
send_list-Sends (a ∷ more) [] h = nothing_sent [] false (a ∷ more) h
send_list-Sends [] (wb ∷ wbs) h = nothing_sent (wb ∷ wbs) false [] h
send_list-Sends (would_block ∷ more) (wb ∷ wbs) h = nothing_sent (wb ∷ wbs) false more h
send_list-Sends (interrupted ∷ more) (wb ∷ wbs) h = send_list-Sends more (wb ∷ wbs) h
send_list-Sends (failed ∷ more) (wb ∷ wbs) h = nothing_sent (wb ∷ wbs) true more h
send_list-Sends (took n ∷ more) (wb ∷ wbs) (fits, w) =
    let ih = send_list-Sends more wbs (whole-HeadOnly wbs w) in
    go ih (Bool-cases (min n (size_left wb) == size_left wb))
  where
    sz : ℕ
    sz = min n (size_left wb)

    rest_bytes : List ℕ
    rest_bytes = drop wb.offset wb.message.bytes

    length_rest : length rest_bytes ≡ size_left wb
    length_rest = length-drop wb.offset wb.message.bytes

    all_rest : (sz == size_left wb) ≡ true → take sz rest_bytes ≡ rest_bytes
    all_rest e =
        let same : sz ≡ length rest_bytes = ground (arith, e, length_rest) in
        ap (λ k. take k rest_bytes) same ∙ take_all rest_bytes

    go :
        Sends wbs (send_list more wbs)
        → ((sz == size_left wb) ≡ true) ⊎ ((sz == size_left wb) ≡ false)
        → Sends (wb ∷ wbs) (send_list (took n ∷ more) (wb ∷ wbs))
    go ih (inl e) = rw e (record {
      gone = wb.message ∷ ih.gone;
      kept = ap (λ ms. wb.message ∷ ms) ih.kept;
      written =
          ap₂ (λ (xs ys : List ℕ). take wb.offset wb.message.bytes ++ (xs ++ ys)) (all_rest e)
            (ap (λ (xs : List ℕ). xs ++ (send_list more wbs).bytes) (sym (started_whole wbs w))
              ∙ ih.written)
          ∙ sym (append_assoc (take wb.offset wb.message.bytes) rest_bytes _)
          ∙ ap (λ xs. xs ++ (all_bytes ih.gone ++ started (send_list more wbs).left))
              (take-append-drop wb.offset wb.message.bytes)
          ∙ sym (append_assoc wb.message.bytes (all_bytes ih.gone) _);
      head_only = ih.head_only;
      sized = omega (
        arith,
        ih.sized,
        length-append (take sz rest_bytes) (send_list more wbs).bytes,
        ap length (all_rest e),
        length_rest,
      );
      broken_whole = λ b ws. ih.broken_whole b w;
    })
    go ih (inr e) = rw e (record {
      gone = [];
      kept = refl;
      written = take_add wb.offset sz wb.message.bytes;
      head_only = (omega arith, w);
      sized = omega (arith, length-take sz rest_bytes, length_rest);
      broken_whole = λ b ws. absurd (cc);
    })

-- ===== src/Databuffer/Read.antt =====
-- `databuffer_read` against the stream of bytes that the blocks hold.
use skynet_gameserver.Prelude.{
  concat, ℕ, suc, ◌+◌, ◌-◌, ◌≤◌, ◌<◌, ◌≡◌, refl, inl, inr, Bool-cases, true, false, ap, sym, ◌∙◌,
  Option, some, List, [], ◌∷◌, ◌++◌, ltb, ◌==◌, length, take, drop, arith, length-append,
  length-drop,
}
use skynet_gameserver.Prelude.Split.{
  take-append_le, drop-append_le, take-append_ge, drop-append_ge, take_all, drop_all, drop_add,
}
use skynet_gameserver.Databuffer.{MessagePool, ReadState, after_copy, read_loop, return_message}

-- The bytes that are still to be read.
unfoldable pub stream_from : List (List ℕ) → ℕ → List ℕ
stream_from [] offset = []
stream_from (m ∷ ms) offset = drop offset m ++ concat ms

-- The offset stands in the first block.
abbrev pub InFirst : List (List ℕ) → ℕ → Type 0
InFirst [] offset = offset ≡ 0
InFirst (m ∷ ms) offset = offset ≤ length m

pub stream_from_start : (ms : List (List ℕ)) → stream_from ms 0 ≡ concat ms
unfolding stream_from
stream_from_start [] = refl
stream_from_start (m ∷ ms) = refl

InFirst-start : (ms : List (List ℕ)) → InFirst ms 0
InFirst-start [] = refl
InFirst-start (m ∷ ms) = omega arith

-- What `read_loop` copies is the front of the stream, and what it leaves is the rest; each node that
-- it takes off the list is in the free list.
pub data Reads (s : List ℕ) (nodes sz : ℕ) (mp : MessagePool) : Option ReadState → Type 0 where
  reads :
      (ms : List (List ℕ)) (offset : ℕ) (mp' : MessagePool)
      → stream_from ms offset ≡ drop sz s
      → InFirst ms offset
      → mp'.blocks ≡ mp.blocks
      → mp'.free + length ms ≡ mp.free + nodes
      → Reads s nodes sz mp (some (take sz s, ms, offset, mp'))

more :
    (xs s : List ℕ) (nodes sz : ℕ) (mp : MessagePool) (r : Option ReadState)
    → length xs ≤ sz
    → Reads s nodes (sz - length xs) (return_message mp) r
    → Reads (xs ++ s) (suc nodes) sz mp (after_copy xs r)
unfolding return_message
more xs s nodes sz mp _ h (reads ms offset mp' e v b f) =
    rw (sym (take-append_ge sz xs s h))
      (reads ms offset mp' (e ∙ sym (drop-append_ge sz xs s h)) v b (omega (arith, f)))

-- The block is read to its end, and no more.
whole :
    (xs : List ℕ) (ms : List (List ℕ)) (sz : ℕ) (mp : MessagePool)
    → sz ≡ length xs
    → Reads (xs ++ concat ms) (suc (length ms)) sz mp (some (take sz xs, ms, 0, return_message mp))
unfolding return_message
whole xs ms sz mp e =
    let k : sz ≤ length xs = omega (arith, e) in
    rw (sym (take-append_le sz xs (concat ms) k)) (
      reads ms 0 (return_message mp)
        (stream_from_start ms
          ∙ sym (
              drop-append_le sz xs (concat ms) k
              ∙ ap (λ n. drop n xs ++ concat ms) e
              ∙ ap (λ ys. ys ++ concat ms) (drop_all xs)))
        (InFirst-start ms) refl (omega arith))

pub read_loop-Reads :
    (ms : List (List ℕ)) (offset sz : ℕ) (mp : MessagePool)
    → InFirst ms offset
    → 0 < sz
    → sz ≤ length (stream_from ms offset)
    → Reads (stream_from ms offset) (length ms) sz mp (read_loop ms offset sz mp)
unfolding read_loop stream_from return_message
read_loop-Reads [] offset sz mp v h h' = absurd (omega arith)
read_loop-Reads (m ∷ ms) offset sz mp v h h' =
    let xs = drop offset m in
    let len : length xs ≡ length m - offset = length-drop offset m in
    let bsz = length m - offset in
    elim (Bool-cases (ltb sz bsz)) [
      | inl b ↦
          let nb : ltb bsz sz ≡ false = ground arith in
          let k : sz ≤ length xs = ground (arith, len) in
          rw (b, nb, sym (take-append_le sz xs (concat ms) k))
            (reads (m ∷ ms) (offset + sz) mp
              (ap (λ ys. ys ++ concat ms) (sym (drop_add offset sz m))
                ∙ sym (drop-append_le sz xs (concat ms) k))
              (ground (arith, len)) refl refl)
      | inr b ↦ elim (Bool-cases (bsz == sz)) [
        | inl b' ↦
            let nb : ltb bsz sz ≡ false = ground arith in
            rw (b, b', nb) (whole xs ms sz mp (ground (arith, len)))
        | inr b' ↦
            let lb : ltb bsz sz ≡ true = ground arith in
            let copied : take bsz xs ≡ xs = ap (λ n. take n xs) (sym len) ∙ take_all xs in
            let room : sz - bsz ≤ length (stream_from ms 0) =
              rw (stream_from_start ms) (omega (arith, length-append xs (concat ms), len, h')) in
            let ih : Reads (stream_from ms 0) (length ms) (sz - bsz) (return_message mp)
                (read_loop ms 0 (sz - bsz) (return_message mp)) =
              read_loop-Reads ms 0 (sz - bsz) (return_message mp) (InFirst-start ms) (ground arith)
                room in
            let ih' : Reads (concat ms) (length ms) (sz - length xs) (return_message mp)
                (read_loop ms 0 (sz - bsz) (return_message mp)) =
              rw (sym (stream_from_start ms), len) ih in
            rw (b, b', lb, copied)
              (more xs (concat ms) (length ms) sz mp _ (ground (arith, len)) ih')
      ]
    ]

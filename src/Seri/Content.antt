-- ===== src/Seri/Content.antt =====
-- The bytes in the blocks.
use skynet_gameserver.Prelude.{
  ℕ, zero, suc, ◌+◌, ◌-◌, ◌≤◌, ◌<◌, ◌≡◌, refl, sym, ap, ap₂, ◌∙◌, true, false, Bool-cases, inl, inr,
  List, [], ◌∷◌, ◌++◌, leb, ◌==◌, length, take, drop, length-append, length-take, length-drop,
  take-append-drop, arith, concat,
}
use skynet_gameserver.Prelude.Split.{append_assoc, append_nil, take_all}
use skynet_gameserver.Seri.Blocks.{
  WriteBlock, block_size, next_block, push_loop, wb_push, pushes, copy_blocks, seri,
}

unfoldable pub content : WriteBlock → List ℕ
content wb = concat wb.before ++ wb.current

abbrev pub AllFull : List (List ℕ) → Type 0
AllFull [] = Unit {0}
AllFull (b ∷ bs) = (length b ≡ 128) × AllFull bs

pub record IsValid (wb : WriteBlock) : Type 0 where
  pub full : AllFull wb.before
  pub fits : length wb.current ≤ 128
  pub counted : wb.len ≡ length (content wb)

AllFull-snoc :
    (bs : List (List ℕ)) (b : List ℕ) → AllFull bs → length b ≡ 128 → AllFull (bs ++ b ∷ [])
AllFull-snoc [] b f e = (e, tt)
AllFull-snoc (c ∷ bs) b f e = (f.0, AllFull-snoc bs b f.1 e)

concat-snoc : (bs : List (List ℕ)) (b : List ℕ) → concat (bs ++ b ∷ []) ≡ concat bs ++ b
concat-snoc [] b = append_nil b
concat-snoc (c ∷ bs) b = ap (λ zs. c ++ zs) (concat-snoc bs b) ∙ sym (append_assoc c (concat bs) b)

next_block_lem :
    (wb : WriteBlock)
    → IsValid wb
    → IsValid (next_block wb)
      × (content (next_block wb) ≡ content wb)
      × (length (next_block wb).current < 128)
unfolding next_block content
next_block_lem wb v = elim (Bool-cases (length wb.current == block_size)) [
  | inl e ↦ rw e (
      let same : concat (wb.before ++ wb.current ∷ []) ++ [] ≡ concat wb.before ++ wb.current =
        append_nil (concat (wb.before ++ wb.current ∷ [])) ∙ concat-snoc wb.before wb.current in
      (
        record {
          full = AllFull-snoc wb.before wb.current v.full (ground (arith, e));
          fits = omega arith;
          counted = v.counted ∙ ap length (sym same);
        },
        same,
        omega arith,
      ))
  | inr e ↦ rw e (v, refl, ground (arith, v.fits))
]

-- Bytes behind those of the current block.
write_lem :
    (wb : WriteBlock) (bytes : List ℕ) (n : ℕ)
    → IsValid wb
    → n ≡ length bytes
    → length wb.current + n ≤ 128
    → let wb' = record wb { current = wb.current ++ bytes; len = wb.len + n } in
      IsValid wb' × (content wb' ≡ content wb ++ bytes)
unfolding content
write_lem wb bytes n v e h =
    let same : concat wb.before ++ (wb.current ++ bytes)
        ≡ (concat wb.before ++ wb.current) ++ bytes =
      sym (append_assoc (concat wb.before) wb.current bytes) in
    (
      record {
        full = v.full;
        fits = omega (arith, length-append wb.current bytes);
        counted = omega (
          arith,
          v.counted,
          ap length same,
          length-append (concat wb.before ++ wb.current) bytes,
        );
      },
      same,
    )

push_loop_lem :
    (fuel : ℕ) (wb : WriteBlock) (buffer : List ℕ)
    → IsValid wb
    → length buffer < fuel
    → IsValid (push_loop fuel wb buffer)
      × (content (push_loop fuel wb buffer) ≡ content wb ++ buffer)
unfolding push_loop
push_loop_lem zero wb buffer v h = absurd (omega arith)
push_loop_lem (suc fuel) wb buffer v h =
    elim (Bool-cases (leb (length (next_block wb).current + length buffer) block_size)) [
      | inl e ↦ rw e (
          let nb = next_block_lem wb v in
          let w = write_lem (next_block wb) buffer (length buffer) nb.0 refl (ground (arith, e)) in
          (w.0, w.1 ∙ ap (λ zs. zs ++ buffer) nb.1))
      | inr e ↦ rw e (
          let nb = next_block_lem wb v in
          let copy = 128 - length (next_block wb).current in
          let w =
            write_lem (next_block wb) (take copy buffer) copy nb.0
              (ground (arith, e, length-take copy buffer)) (omega (arith, nb.2)) in
          let rest =
            push_loop_lem fuel _ (drop copy buffer) w.0
              (omega (arith, nb.2, length-drop copy buffer, more e)) in
          (
            rest.0,
            rest.1
                ∙ ap (λ zs. zs ++ drop copy buffer) w.1
                ∙ append_assoc (content (next_block wb)) (take copy buffer) (drop copy buffer)
                ∙ ap₂ (λ (ys zs : List ℕ). ys ++ zs) nb.1 (take-append-drop copy buffer),
          ))
    ]
  where
    more :
        leb (length (next_block wb).current + length buffer) block_size ≡ false
        → 128 < length (next_block wb).current + length buffer
    more e = ground (arith, e)

-- `wb_push` appends the bytes to the content, through as many blocks as they need.
pub wb_push_lem :
    (wb : WriteBlock) (buffer : List ℕ)
    → IsValid wb
    → IsValid (wb_push wb buffer) × (content (wb_push wb buffer) ≡ content wb ++ buffer)
unfolding wb_push
wb_push_lem wb buffer v = push_loop_lem (length buffer + 1) wb buffer v (omega arith)

pub pushes_lem :
    (wb : WriteBlock) (bs : List (List ℕ))
    → IsValid wb
    → IsValid (pushes wb bs) × (content (pushes wb bs) ≡ content wb ++ concat bs)
unfolding pushes
pushes_lem wb [] v = (v, sym (append_nil (content wb)))
pushes_lem wb (b ∷ bs) v =
    let (v', e) = wb_push_lem wb b v in
    let (v₂, e₂) = pushes_lem (wb_push wb b) bs v' in
    (v₂, e₂ ∙ ap (λ zs. zs ++ concat bs) e ∙ append_assoc (content wb) b (concat bs))

take_whole : (b : List ℕ) (n : ℕ) → n ≡ length b → take n b ≡ b
take_whole b n e = ap (λ k. take k b) e ∙ take_all b

part : (b : List ℕ) (n : ℕ) → length b ≤ 128 → n ≡ length b → copy_blocks (b ∷ []) n ≡ b
unfolding copy_blocks
part b n h e = elim (Bool-cases (n == 0)) [
  | inl z ↦ rw z (empty b (ground (arith, z, e)))
  | inr z ↦ elim (Bool-cases (leb block_size n)) [
    | inl l ↦
        rw (z, l) (append_nil (take block_size b) ∙ take_whole b 128 (ground (arith, l, e, h)))
    | inr l ↦ rw (z, l) (take_whole b n e)
  ]
]
  where
    empty : (b : List ℕ) → length b ≡ 0 → [] ≡ b
    empty [] e = refl
    empty (x ∷ b) e = absurd (omega arith)

copy_blocks_lem :
    (bs : List (List ℕ)) (b : List ℕ) (n : ℕ)
    → AllFull bs
    → length b ≤ 128
    → n ≡ length (concat bs ++ b)
    → copy_blocks (bs ++ b ∷ []) n ≡ concat bs ++ b
unfolding copy_blocks
copy_blocks_lem [] b n f h e = part b n h e
copy_blocks_lem (c ∷ bs) b n f h e =
    let big : 128 ≤ n =
      omega (
        arith,
        e,
        f.0,
        length-append c (concat bs ++ b),
        ap length (append_assoc c (concat bs) b),
      ) in
    let b₁ : (n == 0) ≡ false = ground arith in
    let b₂ : leb block_size n ≡ true = ground arith in
    rw (b₁, b₂)
      (ap₂ (λ (ys zs : List ℕ). ys ++ zs) (take_whole c 128 (sym f.0))
          (copy_blocks_lem bs b (n - 128) f.1 h (
            omega (
              arith,
              e,
              f.0,
              length-append c (concat bs ++ b),
              ap length (append_assoc c (concat bs) b),
            )))
        ∙ sym (append_assoc c (concat bs) b))

-- `seri` gives the content.
pub seri_lem : (wb : WriteBlock) → IsValid wb → seri wb ≡ content wb
unfolding seri content
seri_lem wb v = copy_blocks_lem wb.before wb.current wb.len v.full v.fits v.counted

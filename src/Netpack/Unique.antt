-- ===== src/Netpack/Unique.antt =====
-- A stream of whole packets is cut in one way only.
use skynet_gameserver.Prelude.{
  ℕ, ◌/◌, ◌%◌, ◌^◌, ◌<◌, ◌≡◌, refl, ap, ap₂, sym, ◌∙◌, Option, none, some, List, [], ◌∷◌, ◌++◌,
  length, take, drop, get_or, arith, length-append,
}
use skynet_gameserver.Prelude.Split.{append_assoc, take_front, drop_front, drop_all, take_all}
use skynet_gameserver.Netpack.{Uncomplete}
use skynet_gameserver.Netpack.Packing.{wire, Short, partial, partial_read, IsPartial, IsPartialRead}

-- Two lists that begin with two numbers.
parts :
    (a b a' b' : ℕ) (xs ys : List ℕ) → a ∷ b ∷ xs ≡ a' ∷ b' ∷ ys → (a ≡ a') × (b ≡ b') × (xs ≡ ys)
parts a b a' b' xs ys e = (ap (λ l. get_or l 0 0) e, ap (λ l. get_or l 1 0) e, ap (drop 2) e)

-- A packet that is whole is no part of one.
whole-ne-partial :
    (r : Option (List ℕ)) (uc : Uncomplete) (p rest : List ℕ)
    → length p < 2 ^ 16
    → IsPartialRead uc r
    → length p / 2 ^ 8 ∷ length p % 2 ^ 8 ∷ (p ++ rest) ≡ partial_read uc r
    → ⊥
whole-ne-partial none uc p rest h w e = omega (arith, ap length e)
whole-ne-partial (some read) uc p rest h w e =
    let (ea, eb, ec) = parts _ _ _ _ (p ++ rest) read e in
    omega (arith, ea, eb, ap length ec, length-append p rest, w.0, w.1)

nothing_left : (uc : Option Uncomplete) → [] ≡ partial uc → uc ≡ none
nothing_left none e = refl
nothing_left (some uc) e = go uc.read e
  where
    go : (r : Option (List ℕ)) → [] ≡ partial_read uc r → some uc ≡ none
    go none e = absurd (omega (arith, ap length e))
    go (some read) e = absurd (omega (arith, ap length e))

same_front : (p d x y : List ℕ) → length p ≡ length d → p ++ x ≡ d ++ y → (d ≡ p) × (x ≡ y)
same_front p d x y h e = (
  sym (take_front p x d y e (omega (arith, h))) ∙ ap (λ n. take n p) (sym h) ∙ take_all p,
  ap (λ xs. xs ++ x) (sym (ap (λ n. drop n p) (sym h) ∙ drop_all p))
      ∙ drop_front p x d y e (omega (arith, h)),
)

pub wire_unique :
    (ps ds : List (List ℕ)) (uc : Option Uncomplete)
    → Short ps
    → Short ds
    → IsPartial uc
    → wire ps ≡ wire ds ++ partial uc
    → (ds ≡ ps) × (uc ≡ none)
unfolding wire
wire_unique [] [] uc h h' w e = (refl, nothing_left uc e)
wire_unique [] (d ∷ ds) uc h h' w e = absurd (omega (arith, ap length e))
wire_unique (p ∷ ps) [] none h h' w e = absurd (omega (arith, ap length e))
wire_unique (p ∷ ps) [] (some uc) h h' w e =
    absurd (whole-ne-partial uc.read uc p (wire ps) h.0 w e)
wire_unique (p ∷ ps) (d ∷ ds) uc h h' w e =
    let (ea, eb, ec) = parts _ _ _ _ (p ++ wire ps) ((d ++ wire ds) ++ partial uc) e in
    let n : length p ≡ length d = omega (arith, ea, eb) in
    let (front, back) =
      same_front p d (wire ps) (wire ds ++ partial uc) n
        (ec ∙ append_assoc d (wire ds) (partial uc)) in
    let (tail, rest) = wire_unique ps ds uc h.1 h'.1 w back in (ap₂ ◌∷◌ front tail, rest)

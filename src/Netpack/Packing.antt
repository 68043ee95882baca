-- ===== src/Netpack/Packing.antt =====
-- The bytes of packets, each after its size, and the part of a packet that waits for its rest.
use skynet_gameserver.Prelude.{
  ℕ, zero, suc, ◌/◌, ◌%◌, ◌^◌, ◌<◌, ◌≡◌, refl, ap, sym, ◌∙◌, Option, none, some, List, [], ◌∷◌,
  ◌++◌, leb, if◌then◌else◌, length, drop, arith,
}
use skynet_gameserver.Prelude.Split.{append_assoc}
use skynet_gameserver.Netpack.{Uncomplete, read_size, pack}

-- The stream of packets: what `lpack` gives for each, one after the other.
unfoldable pub wire : List (List ℕ) → List ℕ
wire [] = []
wire (p ∷ ps) = length p / 2 ^ 8 ∷ length p % 2 ^ 8 ∷ (p ++ wire ps)

abbrev pub Short : List (List ℕ) → Type 0
Short [] = Unit {0}
Short (p ∷ ps) = (length p < 2 ^ 16) × Short ps

abbrev pub IsBytes : List ℕ → Type 0
IsBytes [] = Unit {0}
IsBytes (b ∷ bs) = (b < 2 ^ 8) × IsBytes bs

pub IsBytes-drop : (n : ℕ) (bs : List ℕ) → IsBytes bs → IsBytes (drop n bs)
IsBytes-drop zero bs h = h
IsBytes-drop (suc n) [] h = tt
IsBytes-drop (suc n) (b ∷ bs) h = IsBytes-drop n bs h.1

-- The bytes that were received of a packet that is not complete.
abbrev pub partial_read : Uncomplete → Option (List ℕ) → List ℕ
partial_read uc none = uc.header ∷ []
partial_read uc (some read) = uc.size / 2 ^ 8 ∷ uc.size % 2 ^ 8 ∷ read

abbrev pub partial : Option Uncomplete → List ℕ
partial none = []
partial (some uc) = partial_read uc uc.read

-- There is less of it than a packet.
abbrev pub IsPartialRead : Uncomplete → Option (List ℕ) → Type 0
IsPartialRead uc none = uc.header < 2 ^ 8
IsPartialRead uc (some read) = (length read < uc.size) × (uc.size < 2 ^ 16)

abbrev pub IsPartial : Option Uncomplete → Type 0
IsPartial none = Unit {0}
IsPartial (some uc) = IsPartialRead uc uc.read

-- `lpack` gives a packet with its size, and fails where two bytes are not enough for the size.
pub pack_lem :
    (p : List ℕ) → pack p ≡ (if leb (2 ^ 16) (length p) then none else some (wire (p ∷ [])))
unfolding pack wire
pack_lem p = ground (arith, append_nil' p)
  where
    append_nil' : (xs : List ℕ) → xs ++ [] ≡ xs
    append_nil' [] = refl
    append_nil' (x ∷ xs) = ap (λ zs. x ∷ zs) (append_nil' xs)

pub read_size-lt : (a b : ℕ) → a < 2 ^ 8 → b < 2 ^ 8 → read_size a b < 2 ^ 16
unfolding read_size
read_size-lt a b h h' = omega arith

-- The two bytes of a size give the size, and the size gives the two bytes.
pub read_size-bytes :
    (a b : ℕ) → b < 2 ^ 8 → (read_size a b / 2 ^ 8 ≡ a) × (read_size a b % 2 ^ 8 ≡ b)
unfolding read_size
read_size-bytes a b h = (omega arith, omega arith)

pub wire-append : (ps qs : List (List ℕ)) → wire (ps ++ qs) ≡ wire ps ++ wire qs
unfolding wire
wire-append [] qs = refl
wire-append (p ∷ ps) qs =
    ap (λ xs. length p / 2 ^ 8 ∷ length p % 2 ^ 8 ∷ (p ++ xs)) (wire-append ps qs)
    ∙ ap (λ xs. length p / 2 ^ 8 ∷ length p % 2 ^ 8 ∷ xs) (sym (append_assoc p (wire ps) (wire qs)))

-- A size and that many bytes are one packet.
pub wire_one :
    (a b : ℕ) (p rest : List ℕ)
    → b < 2 ^ 8
    → length p ≡ read_size a b
    → (wire (p ∷ []) ++ rest) ≡ (a ∷ b ∷ (p ++ rest))
unfolding wire
wire_one a b p rest h e =
    let (ea, eb) = read_size-bytes a b h in
    rw (e, ea, eb) (ap (λ xs. a ∷ b ∷ xs) (append_assoc p [] rest))

-- ===== src/Gate/Encoding.antt =====
-- The bytes of packets with their headers, as a client of the gate sends them.
use skynet_gameserver.Prelude.{
  ℕ, ◌/◌, ◌%◌, ◌^◌, ◌≤◌, ◌<◌, ◌≡◌, ◌⊎◌, refl, inl, inr, List, [], ◌∷◌, ◌++◌, ◌==◌, if◌then◌else◌,
  length, arith, length-append,
}
use skynet_gameserver.Databuffer.{parse_header}

-- The bytes that a client sends before a packet of `n` bytes.
unfoldable pub header_bytes : ℕ → ℕ → List ℕ
header_bytes header_size n =
    if header_size == 2
    then n / 2 ^ 8 ∷ n % 2 ^ 8 ∷ []
    else n / 2 ^ 24 ∷ n / 2 ^ 16 % 2 ^ 8 ∷ n / 2 ^ 8 % 2 ^ 8 ∷ n % 2 ^ 8 ∷ []

-- A stream of packets, each after its header.
unfoldable pub encode : ℕ → List (List ℕ) → List ℕ
encode header_size [] = []
encode header_size (p ∷ ps) = header_bytes header_size (length p) ++ (p ++ encode header_size ps)

-- The sizes of packets that the gate takes.
abbrev pub limit : ℕ → ℕ
limit header_size = if header_size == 2 then 2 ^ 16 else 0x1000000

pub data Fits (header_size : ℕ) : List (List ℕ) → Type 0 where
  done : Fits header_size []
  fits :
      (p : List ℕ) (ps : List (List ℕ))
      → 0 < length p
      → length p < limit header_size
      → Fits header_size ps
      → Fits header_size (p ∷ ps)

pub Fits-cons :
    (hs : ℕ) (p : List ℕ) (ps : List (List ℕ))
    → Fits hs (p ∷ ps)
    → (0 < length p) × (length p < limit hs) × Fits hs ps
Fits-cons hs _ _ (fits p ps h h' f) = (h, h', f)

-- The sizes of a header that `gate_init` sets.
abbrev pub IsHeaderSize : ℕ → Type 0
IsHeaderSize n = (n ≡ 2) ⊎ (n ≡ 4)

pub length-header_bytes : (hs n : ℕ) → IsHeaderSize hs → length (header_bytes hs n) ≡ hs
unfolding header_bytes
length-header_bytes hs n (inl e) = rw e refl
length-header_bytes hs n (inr e) = rw e refl

pub parse_header-header_bytes :
    (hs n : ℕ) → IsHeaderSize hs → n < limit hs → parse_header hs (header_bytes hs n) ≡ n
unfolding header_bytes parse_header
parse_header-header_bytes hs n (inl e) h = rw e (omega arith)
parse_header-header_bytes hs n (inr e) h = let h' = rw e at h in rw e (omega (arith, h'))

pub limit-le : (hs : ℕ) → limit hs ≤ 0x1000000
limit-le hs = ground arith

pub none_left :
    (hs : ℕ) (ps : List (List ℕ)) (n : ℕ)
    → IsHeaderSize hs
    → length (encode hs ps) ≡ n
    → n < hs
    → ps ≡ []
unfolding encode
none_left hs [] n i e h = refl
none_left hs (p ∷ ps) n i e h = absurd (
    omega (
      arith,
      length-header_bytes hs (length p) i,
      length-append (header_bytes hs (length p)) (p ++ encode hs ps),
    ))

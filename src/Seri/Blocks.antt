-- ===== src/Seri/Blocks.antt =====
-- The blocks that are written to, `struct write_block`, and the bytes that are read,
-- `struct read_block`.
use skynet_gameserver.Prelude.{
  ℕ, zero, suc, ◌+◌, ◌-◌, ◌*◌, ◌/◌, ◌%◌, Option, none, some, List, [], ◌∷◌, ◌++◌, ltb, leb, ◌==◌,
  if◌then◌else◌, length, take, drop,
}

abbrev pub block_size : ℕ
block_size = 128

-- The full blocks from `head` on, the bytes of the current block up to `ptr`, and the length, which
-- is taken to be below 2^31.
pub record WriteBlock : Type 0 where
  pub before : List (List ℕ)
  pub current : List ℕ
  pub len : ℕ

-- `wb_init`
abbrev pub wb_init : WriteBlock
wb_init = record { before = []; current = []; len = 0 }

-- The start of `wb_push`, and what follows `_again`: a full block gets a next one.
unfoldable pub next_block : WriteBlock → WriteBlock
next_block b =
    if length b.current == block_size
    then record b { before = b.before ++ b.current ∷ []; current = [] }
    else b

-- The rounds of `wb_push` with their `goto _again`; each but the last copies a byte or more.
unfoldable pub push_loop : ℕ → WriteBlock → List ℕ → WriteBlock
push_loop zero wb buffer = wb
push_loop (suc fuel) wb buffer =
    let b = next_block wb in
    let copy = block_size - length b.current in
    let rest =
      push_loop fuel (record b { current = b.current ++ take copy buffer; len = b.len + copy })
        (drop copy buffer) in
    if leb (length b.current + length buffer) block_size
    then record b { current = b.current ++ buffer; len = b.len + length buffer }
    else rest

-- `wb_push`
unfoldable pub wb_push : WriteBlock → List ℕ → WriteBlock
wb_push b buffer = push_loop (length buffer + 1) b buffer

-- Calls of `wb_push`, in order.
unfoldable pub pushes : WriteBlock → List (List ℕ) → WriteBlock
pushes b [] = b
pushes b (buffer ∷ more) = pushes (wb_push b buffer) more

-- The loop of `seri` through the blocks, with `len` bytes to copy.
unfoldable pub copy_blocks : List (List ℕ) → ℕ → List ℕ
copy_blocks [] len = []
copy_blocks (b ∷ next) len =
    if len == 0
    then []
    else (if leb block_size len
        then take block_size b ++ copy_blocks next (len - block_size)
        else take len b)

-- `seri`
unfoldable pub seri : WriteBlock → List ℕ
seri b = copy_blocks (b.before ++ b.current ∷ []) b.len

-- `rb_read`: the bytes, and the bytes behind them.
unfoldable pub rb_read : List ℕ → ℕ → Option (List ℕ × List ℕ)
rb_read rb sz = if ltb (length rb) sz then none else some (take sz rb, drop sz rb)

-- An integer of `n` bytes as the machine stores it, the lowest byte first.
unfoldable pub le_bytes : ℕ → ℕ → List ℕ
le_bytes zero v = []
le_bytes (suc n) v = v % 256 ∷ le_bytes n (v / 256)

unfoldable pub of_le : List ℕ → ℕ
of_le [] = 0
of_le (b ∷ bs) = b + 256 * of_le bs

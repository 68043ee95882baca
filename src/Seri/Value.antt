-- ===== src/Seri/Value.antt =====
-- Lua values as the code sees them through the Lua interface.
use skynet_gameserver.Prelude.{ℕ, suc, ◌^◌, ◌%◌, Bool, false, List, ltb, leb, ◌&&◌}

-- An integer, a double and a pointer are their 64 bits. A table without `__pairs` is what `lua_rawgeti`
-- gives up to `lua_rawlen`, and what `lua_next` gives, in this order; one with `__pairs` what its
-- iterator gives, and whether it ended without an error. Any other type is `unsupported`.
-- A table that is read is what `lua_rawseti` and `lua_rawset` have put into it, in order.
mutual
  pub data Value : Type 0 where
    nil : Value
    boolean : Bool → Value
    integer : ℕ → Value
    real : ℕ → Value
    pointer : ℕ → Value
    string : List ℕ → Value
    table : Items → Pairs → Value
    paired : Pairs → (ended : Bool) → Value
    unsupported : Value

  pub data Items : Type 0 where
    no_item : Items
    item : Value → Items → Items

  pub data Pairs : Type 0 where
    no_pair : Pairs
    pair : (key value : Value) → Pairs → Pairs

-- `lua_rawlen`
unfoldable pub rawlen : Items → ℕ
rawlen no_item = 0
rawlen (item v vs) = suc (rawlen vs)

-- The test of `wb_table_hash` for a key that stands in the array.
unfoldable pub in_array : Value → ℕ → Bool
in_array (integer x) array_size = ltb 0 x && (ltb x (2 ^ 63) && leb x array_size)
in_array nil array_size = false
in_array (boolean b) array_size = false
in_array (real x) array_size = false
in_array (pointer x) array_size = false
in_array (string s) array_size = false
in_array (table vs ps) array_size = false
in_array (paired ps ended) array_size = false
in_array unsupported array_size = false

-- A double that is not a number, which `lua_rawset` refuses as a key.
unfoldable pub is_nan : Value → Bool
is_nan (real x) = ltb 0x7ff0000000000000 (x % 2 ^ 63)
is_nan nil = false
is_nan (boolean b) = false
is_nan (integer x) = false
is_nan (pointer x) = false
is_nan (string s) = false
is_nan (table vs ps) = false
is_nan (paired ps ended) = false
is_nan unsupported = false

-- ===== src/Seri/Tests.antt =====
-- A message of a Lua service, packed and read back.
use skynet_gameserver.Prelude.{
  ℕ, ◌≡◌, refl, true, some, none, if◌then◌else◌, List, [], ◌∷◌, ◌^◌, ◌-◌, arith,
}
use skynet_gameserver.Seri.Blocks.{
  push_loop, next_block, wb_push, pushes, copy_blocks, seri, rb_read, le_bytes, of_le,
}
use skynet_gameserver.Seri.Value.{
  Value, boolean, integer, string, table, unsupported, no_item, item, no_pair, pair, rawlen,
  in_array, is_nan,
}
use skynet_gameserver.Seri.Pack.{
  to_int32, boolean_pushes, integer_pushes, string_pushes, array_pushes, pack_one, pack_from,
  luaseri_pack,
}
use skynet_gameserver.Seri.Unpack.{
  ok, invalid, luaseri_unpack, unpack_on, unpack_all, unpack_one, push_plain, read_le, get_integer,
  get_buffer, extend, typed_size, get_size,
}
use skynet_gameserver.Seri.Encode.{encode_all, AreValues, packable_all, packable, image, image_all}
use skynet_gameserver.Seri.Packing.{luaseri_pack_lem}
use skynet_gameserver.Seri.Ends.{Within, unpack_on-Within}
use skynet_gameserver.Seri.RoundTrip.{unpack-pack}

-- `"hi", -2, { 7, 8, [1] = 7, [2] = 8, x = true }`
abbrev message : List Value
message =
    string (104 ∷ 105 ∷ [])
    ∷ integer (2 ^ 64 - 2)
    ∷ table (item (integer 7) (item (integer 8) no_item)) (
        pair (integer 1) (integer 7)
          (pair (integer 2) (integer 8) (pair (string (120 ∷ [])) (boolean true) no_pair)))
    ∷ []

abbrev message_bytes : List ℕ
message_bytes =
    20 ∷ 104 ∷ 105 ∷ 34 ∷ 254 ∷ 255 ∷ 255 ∷ 255 ∷ 22 ∷ 10 ∷ 7 ∷ 10 ∷ 8 ∷ 12 ∷ 120 ∷ 9 ∷ 0 ∷ []

message_packed : luaseri_pack message ≡ some message_bytes
unfolding luaseri_pack pack_from pack_one pushes wb_push push_loop next_block seri copy_blocks
    le_bytes boolean_pushes integer_pushes string_pushes array_pushes to_int32 rawlen in_array
message_packed = refl

message-AreValues : AreValues message
unfolding rawlen
message-AreValues = omega arith

unpack-pack_example :
    (bytes : List ℕ) × (luaseri_pack message ≡ some bytes)
    × (luaseri_unpack bytes ≡ ok (image_all message) [])
unfolding packable_all packable rawlen in_array
unpack-pack_example = unpack-pack message message-AreValues refl

-- An array that announces more values than follow.
too_short : luaseri_unpack (22 ∷ 10 ∷ 7 ∷ []) ≡ invalid
unfolding luaseri_unpack unpack_on unpack_all unpack_one push_plain read_le rb_read of_le get_size
    typed_size get_integer get_buffer is_nan extend
too_short = refl

-- A function cannot be packed.
no_function : luaseri_pack (unsupported ∷ []) ≡ none
unfolding luaseri_pack pack_from pack_one pushes wb_push push_loop next_block seri copy_blocks
    le_bytes boolean_pushes integer_pushes string_pushes array_pushes to_int32 rawlen in_array
no_function = refl

message_read : luaseri_unpack message_bytes ≡ ok (image_all message) []
unfolding luaseri_unpack unpack_on unpack_all unpack_one push_plain read_le rb_read of_le get_size
    typed_size get_integer get_buffer is_nan extend image image_all rawlen in_array
message_read = refl

luaseri_pack_lem_example :
    luaseri_pack message ≡ (if packable_all message then some (encode_all message) else none)
luaseri_pack_lem_example = luaseri_pack_lem message

unpack_on-Within_example : Within 1 (unpack_on 13 (6 ∷ 6 ∷ 6 ∷ 255 ∷ []))
unpack_on-Within_example = unpack_on-Within 13 (6 ∷ 6 ∷ 6 ∷ 255 ∷ []) (omega arith)

-- ===== src/HashId/Tests.antt =====
-- Two connections that share a chain.
use skynet_gameserver.Prelude.{ℕ, ◌≡◌, refl, Option, none, some, arith}
use skynet_gameserver.HashId.{
  HashId, double_until, init, find, unlink, free_node, insert, remove, lookup, full,
}
use skynet_gameserver.HashId.Map.{IsMap, init-IsMap}
use skynet_gameserver.HashId.Insert.{Inserting, insert-Inserting}
use skynet_gameserver.HashId.Remove.{Removing, remove-Removed}

abbrev or_else : HashId → Option (ℕ × HashId) → HashId
or_else hi none = hi
or_else hi (some (k, hi')) = hi'

abbrev one : HashId
one = or_else (init 3) (insert (init 3) 7)

abbrev two : HashId
two = or_else one (insert one 23)

lookup_second : lookup two 23 ≡ some 2
unfolding lookup find insert free_node init double_until
lookup_second = refl

lookup_first_after_remove : lookup (remove two 23).1 7 ≡ some 1
unfolding lookup find remove insert free_node init double_until unlink
lookup_first_after_remove = refl

one-IsMap : IsMap one
unfolding lookup find insert free_node init double_until full
one-IsMap = (insert-Inserting (init 3) 7 (init-IsMap 3) refl (omega arith) (omega arith)).1.is_map

insert-Inserting_example : Inserting one 23 (insert one 23)
unfolding lookup find insert free_node init double_until full
insert-Inserting_example = insert-Inserting one 23 one-IsMap refl (omega arith) (omega arith)

two-IsMap : IsMap two
unfolding lookup find insert free_node init double_until full
two-IsMap = insert-Inserting_example.1.is_map

remove-Removed_example : Removing two 23 (remove two 23)
remove-Removed_example = remove-Removed two 23 two-IsMap

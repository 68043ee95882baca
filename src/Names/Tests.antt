-- ===== src/Names/Tests.antt =====
-- The names of skynet_handle.c at three services.
use skynet_gameserver.Prelude.{ℕ, ◌≡◌, refl, [], ◌∷◌, ◌==◌, if◌then◌else◌}
use skynet_gameserver.Names.{
  Name, HandleName, Names, strcmp, findname, search_name, insert_name, retire_names,
}
use skynet_gameserver.Names.Search.{Sorted}
use skynet_gameserver.Names.Lookup.{handle_of, findname_lem}
use skynet_gameserver.Names.Insert.{Registered, insert_name-Registered}
use skynet_gameserver.Names.Retire.{retire_names_lem}

abbrev entry : ℕ → ℕ → HandleName
entry c h = record { name = c ∷ b'a' ∷ []; handle = h }

abbrev three : Names
three = record { name_cap = 4; name = entry b'b' 5 ∷ entry b'd' 6 ∷ entry b'f' 5 ∷ [] }

three-Sorted : Sorted three.name
unfolding strcmp
three-Sorted = ((refl, (refl, tt)), ((refl, tt), (tt, tt)))

found_d : findname three (b'd' ∷ b'a' ∷ []) ≡ 6
unfolding findname search_name strcmp
found_d = refl

findname_lem_example : findname three (b'e' ∷ []) ≡ handle_of three.name (b'e' ∷ [])
findname_lem_example = findname_lem three (b'e' ∷ []) three-Sorted

insert_name-Registered_example : Registered three (b'c' ∷ []) 9 (insert_name three (b'c' ∷ []) 9)
insert_name-Registered_example = insert_name-Registered three (b'c' ∷ []) 9 three-Sorted

retire_names_lem_example :
    let s' = retire_names three 5 in
    Sorted s'.name
    × ((x : Name) → findname s' x ≡ (if findname three x == 5 then 0 else findname three x))
retire_names_lem_example = retire_names_lem three 5 three-Sorted

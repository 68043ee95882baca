-- ===== src/Monitor/Endless.antt =====
-- Two checks of a monitor and what a worker does between them.
use skynet_gameserver.Prelude.{
  ℕ, suc, ◌+◌, ◌%◌, ◌^◌, ◌<◌, ◌≡◌, refl, Option, none, some, List, [], ◌∷◌, ◌==◌, if◌then◌else◌,
  arith, false, true, Bool-cases, inl, inr, ap, ◌∙◌,
}
use skynet_gameserver.Monitor.{Monitor, Store, source_is, destination_is, version_up, store, check}

-- The stores one after the other
pub stores : Monitor → List Store → Monitor
stores sm [] = sm
stores sm (st ∷ sts) = stores (store sm st) sts

-- The calls of `skynet_monitor_trigger` that counted up the version among the stores
abbrev pub version_ups : List Store → ℕ
version_ups [] = 0
version_ups (version_up ∷ sts) = suc (version_ups sts)
version_ups (source_is source ∷ sts) = version_ups sts
version_ups (destination_is destination ∷ sts) = version_ups sts

-- The last source and the last destination that were stored
abbrev pub last_source : ℕ → List Store → ℕ
last_source source [] = source
last_source source (source_is s ∷ sts) = last_source s sts
last_source source (destination_is d ∷ sts) = last_source source sts
last_source source (version_up ∷ sts) = last_source source sts

abbrev pub last_destination : ℕ → List Store → ℕ
last_destination destination [] = destination
last_destination destination (source_is s ∷ sts) = last_destination destination sts
last_destination destination (destination_is d ∷ sts) = last_destination d sts
last_destination destination (version_up ∷ sts) = last_destination destination sts

abbrev pub InRange : Monitor → Type 0
InRange sm = sm.version < 2 ^ 32

-- What the stores leave in the monitor
abbrev Stored : Monitor → List Store → Type 0
Stored sm sts =
    ((stores sm sts).version ≡ (sm.version + version_ups sts) % 2 ^ 32)
    × ((stores sm sts).check_version ≡ sm.check_version)
    × ((stores sm sts).source ≡ last_source sm.source sts)
    × ((stores sm sts).destination ≡ last_destination sm.destination sts)

stores-Stored : (sm : Monitor) (sts : List Store) → InRange sm → Stored sm sts
unfolding stores store
stores-Stored sm [] h = (omega arith, refl, refl, refl)
stores-Stored sm (source_is s ∷ sts) h = stores-Stored (record sm { source = s }) sts h
stores-Stored sm (destination_is d ∷ sts) h = stores-Stored (record sm { destination = d }) sts h
stores-Stored sm (version_up ∷ sts) h =
    let (v, c, s, d) =
      stores-Stored (record sm { version = (sm.version + 1) % 2 ^ 32 }) sts (omega arith) in
    (omega (arith, v), c, s, d)

version-check :
    (sm : Monitor)
    → ((check sm).1.check_version ≡ sm.version)
      × ((check sm).1.version ≡ sm.version)
      × ((check sm).1.destination ≡ sm.destination)
      × ((check sm).1.source ≡ sm.source)
unfolding check
version-check sm = ground arith

-- What a check reports after the stores since the check before.
abbrev pub report : Monitor → List Store → Option (ℕ × ℕ)
report sm sts =
    if version_ups sts == 0
    then (if last_destination sm.destination sts == 0
        then none
        else some (last_source sm.source sts, last_destination sm.destination sts))
    else none

-- Between two checks a worker makes any stores of its calls of `skynet_monitor_trigger`, the first and
-- the last call possibly in part, with fewer than 2^32 counts of the version. The second check reports
-- exactly where the version was not counted up between the two and the destination is not 0, which is
-- an idle worker; it reports the source and the destination that were stored last, also those of a call
-- that has not yet counted up the version.
pub check_lem :
    (sm : Monitor) (sts : List Store)
    → InRange sm
    → version_ups sts < 2 ^ 32
    → (check (stores (check sm).1 sts)).0 ≡ report sm sts
unfolding check
check_lem sm sts h few =
    let (e, e', d, s) = version-check sm in
    let (v, c, s', d') = stores-Stored (check sm).1 sts (omega (arith, e', h)) in
    let to : (stores (check sm).1 sts).destination ≡ last_destination sm.destination sts =
      d' ∙ ap (λ x. last_destination x sts) d in
    let from : (stores (check sm).1 sts).source ≡ last_source sm.source sts =
      s' ∙ ap (λ x. last_source x sts) s in
    elim (Bool-cases (version_ups sts == 0)) [
      | inl b ↦
          (let same : ((stores (check sm).1 sts).version == (stores (check sm).1 sts).check_version)
                ≡ true =
              ground (arith, e, e', v, c, b) in
            rw (same, b, to, from) refl)
      | inr b ↦
          (let other : ((stores (check sm).1 sts).version
                  == (stores (check sm).1 sts).check_version)
                ≡ false =
              ground (arith, e, e', v, c, b) in
            rw (other, b) refl)
    ]

-- ===== src/Tests/Exclusion.antt =====
-- A run of the theorem about src/held.ts.
use front_desk_scheduler.Base.{
  ◌≡◌, String, true, none, some, List, [], ◌∷◌, length, filterb, ◌=ₛ◌, if◌then◌else◌,
}
use front_desk_scheduler.Held.{StatusProbe, verify_held}
use front_desk_scheduler.Held.Exclusion.{is_held, is_live_among, says_nothing, verify_held_lem}

-- Item a is held, and the probe of any other fails.
abbrev ask : StatusProbe
ask id =
    if id =ₛ "a" then some (record { holder = some "ann"; live = true; referent = none }) else none

abbrev window : List String
window = "a" ∷ "b" ∷ []

verify_held_lem_example :
    (is_held "a" (verify_held window (some ask) none).held ≡ is_live_among ask "a" window)
    × ((verify_held window (some ask) none).unobserved
        ≡ length (filterb (λ id. says_nothing (ask id)) window))
    × ((verify_held window (some ask) none).checked ≡ 2)
verify_held_lem_example = verify_held_lem ask none window "a"

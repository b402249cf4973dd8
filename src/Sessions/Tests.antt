-- ===== src/Sessions/Tests.antt =====
-- The dialog with two devices.
use justverify.Common.{none, some, List, [], ◌∷◌, true, false, ◌≡◌, refl}
use justverify.Sessions.{
  listed, revoke, Event, ticked, answered, asked, closed, reopened, run, initial,
}
use justverify.Sessions.Single.{IsSingle, reopened_early, run-sessions-IsSingle}

abbrev question : List Event
question = answered (some (1 ∷ 2 ∷ [])) ∷ asked (revoke 2) ∷ []

abbrev late : List Event
late =
    answered (some (1 ∷ 2 ∷ []))
    ∷ ticked
    ∷ asked (revoke 2)
    ∷ answered (some (1 ∷ 2 ∷ []))
    ∷ ticked
    ∷ []

-- A list that was asked for before the question replaces it, and the list is not refreshed any more.
late_test :
    ((run late initial).shown ≡ listed (1 ∷ 2 ∷ []))
    × ((run late initial).confirming ≡ true)
    × ((run late initial).updating ≡ false)
unfolding run
late_test = (refl, refl, refl)

-- The dialog is closed while the first list is under way, opened again, and closed for good: the timer of
-- the first call stays.
abbrev outliving : List Event
outliving = closed ∷ reopened ∷ answered none ∷ closed ∷ []

outliving_test :
    ((run outliving initial).session_timer ≡ true)
    × ((run outliving initial).is_open ≡ false)
    × ((run (answered none ∷ closed ∷ reopened ∷ []) initial).session_timer ≡ false)
unfolding run
outliving_test = (refl, refl, refl)

run-sessions-IsSingle_example : IsSingle (reopened_early late false initial) (run late initial)
run-sessions-IsSingle_example = run-sessions-IsSingle late

-- ===== src/Copy/Tests.antt =====
-- Copying with a clipboard that refuses once.
use justverify.Common.{List, [], ◌∷◌, true, false, ◌≡◌, refl}
use justverify.Copy.{Browser, Event, clicked, answered, copied, run, initial}
use justverify.Copy.Cleared.{IsCleared, run-initial-IsCleared}

abbrev modern : Browser
modern = record { secure = true; clipboard = true; exec = false }

abbrev presses : List Event
presses =
    clicked "addr" modern
    ∷ answered 0 false modern
    ∷ clicked "addr" modern
    ∷ answered 0 true modern
    ∷ []

presses_test : ((run presses initial).message ≡ copied) × ((run presses initial).timers ≡ 1 ∷ [])
unfolding run
presses_test = (refl, refl)

-- With an empty address the timer of the message is cleared, and the message stays.
stays : List Event
stays = clicked "addr" modern ∷ answered 0 true modern ∷ clicked "" modern ∷ []

stays_test :
    ((run stays initial).message ≡ copied)
    × ((run stays initial).timers ≡ [])
    × ((run stays initial).writing ≡ [])
unfolding run stays
stays_test = (refl, refl, refl)

run-initial-IsCleared_example : IsCleared (run presses initial)
run-initial-IsCleared_example = run-initial-IsCleared presses (refl, (tt, (refl, (tt, tt))))

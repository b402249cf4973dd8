-- ===== src/Terminal/Tests.antt =====
-- A session of the terminal, and the theorem at a concrete input.
use justverify.Common.{none, List, [], ◌∷◌, ◌≡◌, refl}
use justverify.Terminal.{
  Size, resized_to, input, opened, size, ensure_terminal, open_ws, close_ws, log_out, Event, shows,
  types, resizes, opens, closes, logs_in, logs_out, handle, run, initial,
}
use justverify.Terminal.Fitting.{IsSingle}
use justverify.Terminal.Single.{run-initial-IsSingle}

abbrev wide : Size
wide = record { cols = 88; rows = 40 }

-- A key that is pressed before the connection is open is not sent.
abbrev visit : List Event
visit = resizes 800 1000 ∷ logs_in ∷ shows "F8" ∷ shows "F9" ∷ opens 0 ∷ types "x" ∷ []

visit_tests :
    ((run visit initial).live ≡ (
      record {
        id = 0;
        ready = opened;
        key = "F8";
        sent = input "x" ∷ input "F8" ∷ resized_to wide ∷ [];
      }
      ∷ []))
    × ((run (closes 0 ∷ []) (run visit initial)).term ≡ none)
    × ((run (closes 0 ∷ []) (run visit initial)).resumes ≡ 1)
    × ((run (logs_out ∷ closes 0 ∷ []) (run visit initial)).resumes ≡ 0)
unfolding run handle size ensure_terminal open_ws close_ws log_out
visit_tests = (refl, refl, refl, refl)

run-initial-IsSingle_example : IsSingle (run visit initial)
run-initial-IsSingle_example = run-initial-IsSingle visit

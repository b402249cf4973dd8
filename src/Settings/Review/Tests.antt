-- ===== src/Settings/Review/Tests.antt =====
-- A review of a version, seen through.
use justverify.Common.{◌≤◌, ◌≡◌, refl, List, [], ◌∷◌, true}
use justverify.Settings.Review.{
  versions, token, apply_at, Event, opened, cleared, asked, confirmed, settled, run, initial,
}
use justverify.Settings.Review.Once.{uses, run-uses_le}

abbrev applied : List Event
applied = opened versions ∷ asked ∷ settled 0 true ∷ confirmed ∷ cleared ∷ settled 0 true ∷ []

applied_calls : (run applied initial).calls ≡ apply_at versions (token versions 0) ∷ []
unfolding run
applied_calls = refl

run-uses_le_example : uses 0 (run applied initial).calls ≤ 1
run-uses_le_example = run-uses_le 0 applied

-- ===== src/Device/Tests.antt =====
-- A visit of the settings with a preview.
use justverify.Common.{none, some, List, [], ◌∷◌, true, ◌≡◌, refl, Field}
use justverify.Rain.{object}
use justverify.Device.{
  Value, Event, opening, open_answered, slid, density, remote_changed, left, begun, run_answered,
  failed, run, load,
}
use justverify.Device.Saved.{IsSaved, run-load-IsSaved}

abbrev amber : Value
amber = record {
  theme = "amber";
  language = "ja";
  name = "node";
  background = object (some true) (Field.whole 40) (Field.whole 160) (Field.whole 140);
}

abbrev visit : List Event
visit =
    opening
    ∷ open_answered true (some amber)
    ∷ slid density 200
    ∷ begun
    ∷ begun
    ∷ run_answered true failed
    ∷ remote_changed
    ∷ []

-- The sliders start over while the background still shows the preview.
preview_test :
    ((run visit (load true [] none)).shown.background.density ≡ 200)
    × ((run visit (load true [] none)).prefs.background.density ≡ 140)
    × ((run (left ∷ []) (run visit (load true [] none))).shown.background.density ≡ 140)
unfolding run load
preview_test = (refl, refl, refl)

run-load-IsSaved_example : IsSaved (run visit (load true [] none))
run-load-IsSaved_example = run-load-IsSaved visit true [] none

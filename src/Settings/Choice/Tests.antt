-- ===== src/Settings/Choice/Tests.antt =====
-- A catalogue of two releases, and the theorem at a concrete input.
use justverify.Common.{String, some, [], ◌∷◌, true, false, ◌≡◌, ◌↔◌, refl}
use justverify.I18n.Strings.{equals}
use justverify.Settings.Choice.{
  Selection, State, find, choose, open_view, pick, select_network, select_mode, picks, networks,
  handle, run, download, in_use, review, detail,
}
use justverify.Settings.Choice.Offered.{IsReviewable, review_iff}

abbrev selected : String → String → Selection
selected version network = record { version = version; network = network; watch_only = false }

abbrev state : State
state = record {
  releases =
      record {
        version = "29.4";
        downloaded = true;
        networks = "main" ∷ "testnet4" ∷ [];
        verified = true;
      }
      ∷ record { version = "30.3"; downloaded = false; networks = "main" ∷ []; verified = true }
      ∷ [];
  active = some (selected "29.4" "main");
}

detail_tests :
    (detail (run [] (open_view state)) ≡ in_use)
    × (detail (run (networks 1 ∷ []) (open_view state)) ≡ review (selected "29.4" "testnet4"))
    × (detail (run (networks 1 ∷ picks 1 ∷ []) (open_view state)) ≡ download "30.3")
    × (detail (run (networks 1 ∷ picks 1 ∷ picks 0 ∷ []) (open_view state)) ≡ in_use)
unfolding detail run handle open_view pick select_network select_mode choose find equals
detail_tests = (refl, refl, refl, refl)

review_iff_example :
    (detail (run (networks 1 ∷ []) (open_view state)) ≡ review (selected "29.4" "testnet4"))
    ↔ IsReviewable (run (networks 1 ∷ []) (open_view state)) (selected "29.4" "testnet4")
review_iff_example = review_iff (networks 1 ∷ []) state (selected "29.4" "testnet4")

-- ===== src/Settings/Releases/Tests.antt =====
-- Three releases of two major versions.
use justverify.Common.{String, List, [], ◌∷◌, true, false, ◌≡◌, ◌≤◌, refl, map}
use justverify.Settings.Releases.{Release, by_major, get, last_of, offered}
use justverify.Settings.Releases.Latest.{count_of, by_major-latest}

abbrev release : String → Release
release v = record { version = v; downloaded = false; networks = []; verified = true }

abbrev catalogue : List Release
catalogue =
    release "29.3"
    ∷ record { version = "30.2"; downloaded = true; networks = []; verified = true }
    ∷ release "29.4"
    ∷ release "30.3"
    ∷ []

offered_test :
    (map (λ r. r.version) (offered false catalogue) ≡ "30.3" ∷ "29.4" ∷ [])
    × (map (λ r. r.version) (offered true catalogue) ≡ "30.3" ∷ "29.4" ∷ "30.2" ∷ "29.3" ∷ [])
unfolding offered
offered_test = (refl, refl)

by_major-latest_example :
    (count_of "29" (by_major catalogue []) ≤ 1)
    × (get "29" (by_major catalogue []) ≡ last_of "29" catalogue)
by_major-latest_example = by_major-latest "29" catalogue refl

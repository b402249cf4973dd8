-- ===== src/Settings/Download/Tests.antt =====
-- A download that is watched, and the theorem at a concrete input.
use justverify.Common.{◌≡◌, refl, none, some, List, [], ◌∷◌, true, false}
use justverify.Settings.Download.{
  State, downloading, other_phase, Message, verifying, completed, failure, watch_download, stop,
  leave, open_view, started, select, fire, answered, Event, opens, leaves, draws, opened, versions,
  starts, selects, fires, answers, handle, run, initial,
}
use justverify.Settings.Download.Watched.{watches, run-initial-IsWatched}

abbrev fetching : State
fetching = record {
  releases = record { version = "30.0"; downloaded = false } ∷ [];
  phase = downloading;
}

abbrev fetched : State
fetched = record {
  releases = record { version = "30.0"; downloaded = true } ∷ [];
  phase = other_phase;
}

abbrev begun : List Event
begun = opens ∷ selects (some "30.0") ∷ starts ∷ fires 0 ∷ answers 0 (some fetching) ∷ []

abbrev begun_with : Event → List Event
begun_with e = opens ∷ selects (some "30.0") ∷ starts ∷ fires 0 ∷ answers 0 (some fetching) ∷ e ∷ []

-- Another version is selected before the download ends: its end is not noticed.
abbrev missed : List Event
missed =
    opens
    ∷ selects (some "30.0")
    ∷ starts
    ∷ selects (some "29.0")
    ∷ fires 0
    ∷ answers 0 (some fetched)
    ∷ []

message_tests :
    ((run begun initial).message ≡ verifying)
    × ((run
          (opens ∷ selects (some "30.0") ∷ starts ∷ fires 0 ∷ answers 0 (some fetched) ∷ [])
          initial).message
        ≡ completed)
    × ((run
          (opens
            ∷ draws downloading
            ∷ selects (some "30.0")
            ∷ fires 0
            ∷ answers 0 (some fetching)
            ∷ [])
          initial).message
        ≡ verifying)
    × ((run missed initial).message ≡ verifying)
    × ((run (starts ∷ fires 0 ∷ answers 0 none ∷ []) initial).message ≡ failure)
    × ((run (starts ∷ fires 0 ∷ opens ∷ answers 0 (some fetched) ∷ []) initial).message
        ≡ Message.other_message)
    × ((run (begun_with leaves) initial).message ≡ verifying)
    × ((run (begun_with leaves) initial).timers ≡ [])
unfolding run handle stop leave open_view opened versions started select fire answered
    watch_download
message_tests = (refl, refl, refl, refl, refl, refl, refl, refl)

run-initial-IsWatched_example :
    watches (run begun initial).generation (run begun initial).timers (run begun initial).requests
    ≡ true
unfolding run handle stop leave open_view opened versions started select fire answered
    watch_download
run-initial-IsWatched_example = run-initial-IsWatched begun refl refl

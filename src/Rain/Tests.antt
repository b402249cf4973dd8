-- ===== src/Rain/Tests.antt =====
-- Settings, a life of the animation, and the theorems at concrete inputs.
use justverify.Common.{◌≡◌, refl, some, List, [], ◌∷◌, true, false, Field}
use justverify.Rain.{
  Settings, defaults, not_object, object, normalize, Stream, ahead, behind, index, Event, applied,
  frame, visibility, handle, apply, resume, animate, initial,
}
use justverify.Rain.Range.{stored}
use justverify.Rain.Loop.{IsSound, may_run, run, run-initial-IsSound, handle-run_settled}

abbrev vivid : Settings
vivid = record { enabled = true; brightness = 100; speed = 15; density = 300 }

normalize_tests :
    (normalize not_object ≡ defaults)
    × (normalize (stored vivid) ≡ vivid)
    × (normalize (object (some true) (Field.whole 101) (Field.whole 160) (Field.whole 140))
        ≡ defaults)
    × (normalize (object (some true) (Field.whole 40) Field.other (Field.whole 140)) ≡ defaults)
unfolding normalize
normalize_tests = (refl, refl, refl, refl)

abbrev streams : List Stream
streams = record { length = 8; offset = 569 } ∷ []

abbrev life : List Event
life = applied (stored vivid) true streams ∷ frame ∷ visibility true ∷ []

life_tests :
    ((run (applied (stored vivid) true streams ∷ []) (initial false false)).raf ≡ true)
    × ((run life (initial false false)).raf ≡ false)
    × ((run (applied (stored vivid) true streams ∷ []) (initial false true)).raf ≡ false)
unfolding run handle apply normalize resume animate initial
life_tests = (refl, refl, refl)

run-initial-IsSound_example : IsSound (run life (initial false false))
run-initial-IsSound_example = run-initial-IsSound life false false

handle-run_settled_example :
    (handle (visibility false) (run life (initial false false))).raf
    ≡ may_run (handle (visibility false) (run life (initial false false)))
handle-run_settled_example = handle-run_settled life false false (visibility false) tt

index_tests :
    (index (record { length = 8; offset = 3 }) (behind 5) ≡ 568)
    × (index (record { length = 8; offset = 569 }) (ahead 1) ≡ 0)
unfolding index
index_tests = (refl, refl)

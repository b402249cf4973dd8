-- ===== src/Sessions/Quiet.antt =====
-- device.js: a confirmation that is asked for while no list is under way stays until it is answered.
use justverify.Common.{
  ℕ, Option, List, [], ◌∷◌, Bool, true, false, ◌==◌, ◌≡◌, refl, ap, ◌∙◌, arith, map, if_either, not,
  ◌||◌,
}
use justverify.Sessions.{Dialog, refresh, answer_list, Event, ticked, answered, handle, run, when}

-- What happens without the user.
pub data Background : Type 0 where
  tick : Background
  answer : Option (List ℕ) → Background

abbrev pub event_of : Background → Event
event_of tick = ticked
event_of (answer a) = answered a

refresh_same : (d : Dialog) → d.confirming ≡ true → refresh d ≡ d
unfolding refresh
refresh_same d h =
    if_either (λ e. e ≡ d) (d.updating || d.confirming || not d.is_open) (λ _. refl)
      (λ k. absurd (ground (arith, h, k)))

answer_list_same : (a : Option (List ℕ)) (d : Dialog) → d.listings ≡ 0 → answer_list a d ≡ d
unfolding answer_list
answer_list_same a d h =
    if_either (λ e. e ≡ d) (d.listings == 0) (λ _. refl) (λ k. absurd (ground (arith, h, k)))

when_same : (b : Bool) (f : Dialog → Dialog) (d : Dialog) → f d ≡ d → when b f d ≡ d
when_same true f d h = h
when_same false f d h = refl

handle_same :
    (b : Background) (d : Dialog) → d.confirming ≡ true → d.listings ≡ 0 → handle (event_of b) d ≡ d
unfolding handle
handle_same tick d h k = when_same d.session_timer refresh d (refresh_same d h)
handle_same (answer a) d h k = answer_list_same a d k

-- While a confirmation is shown and no list is under way, neither the timer nor any late answer changes
-- the dialog: the question stays, with its buttons.
pub run-background :
    (bs : List Background) (d : Dialog)
    → d.confirming ≡ true
    → d.listings ≡ 0
    → run (map event_of bs) d ≡ d
unfolding run
run-background [] d h k = refl
run-background (b ∷ bs) d h k =
    ap (run (map event_of bs)) (handle_same b d h k) ∙ run-background bs d h k

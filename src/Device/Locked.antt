-- ===== src/Device/Locked.antt =====
-- device.js, run: one operation at a time.
use justverify.Common.{
  ℕ, ◌≤◌, String, Option, none, some, List, [], ◌∷◌, Bool, not, ◌==◌, ◌≡◌, refl, arith, if_either,
}
use justverify.I18n.Strings.{equals}
use justverify.Device.{
  Value, Root, blank, loading, settings, trouble, notice, View, apply, open_view, answer_open,
  troubleshoot, leave, Slider, edit, slide, dismiss, cancel, begin, Answer, answer_run,
  change_language, Event, opening, open_answered, troubleshooting, left, slid, cancelled, begun,
  run_answered, loaded, named, remote_changed, queued, language_changed, handle, run, load, stop,
  blank_view,
}

pub record IsLocked (v : View) : Type 0 where
  pub at_most : v.under_way ≤ 1
  pub busy_iff : v.busy ≡ not (v.under_way == 0)

same-IsLocked : (v w : View) → w.under_way ≡ v.under_way → w.busy ≡ v.busy → IsLocked v → IsLocked w
same-IsLocked v w u b h = record {
  at_most = ground (arith, u, h.at_most);
  busy_iff = ground (arith, u, b, h.busy_iff);
}

begin-IsLocked : (v : View) → IsLocked v → IsLocked (begin v)
unfolding begin
begin-IsLocked v h =
    if_either IsLocked v.busy (λ _. h)
      (λ b. record {
        at_most = ground (arith, b, h.busy_iff);
        busy_iff = ground (arith, b, h.busy_iff);
      })

answer_run-IsLocked :
    (storage : Bool) (a : Answer) (v : View) → IsLocked v → IsLocked (answer_run storage a v)
unfolding answer_run
answer_run-IsLocked storage a v h =
    if_either IsLocked (v.under_way == 0) (λ _. h)
      (λ u. record { at_most = ground (arith, h.at_most); busy_iff = ground (arith, h.at_most, u) })

answer_open-IsLocked :
    (storage : Bool) (a : Option Value) (v : View) → IsLocked v → IsLocked (answer_open storage a v)
unfolding answer_open apply
answer_open-IsLocked storage none v h =
    if_either IsLocked (v.opening == 0) (λ _. h) (λ _. same-IsLocked v _ refl refl h)
answer_open-IsLocked storage (some value) v h =
    if_either IsLocked (v.opening == 0) (λ _. h) (λ _. same-IsLocked v _ refl refl h)

edit-IsLocked :
    (r : Root) (key : Slider) (n : ℕ) (v : View) → IsLocked v → IsLocked (edit r key n v)
edit-IsLocked (settings draft) key n v h = same-IsLocked v _ refl refl h
edit-IsLocked blank key n v h = h
edit-IsLocked loading key n v h = h
edit-IsLocked trouble key n v h = h
edit-IsLocked notice key n v h = h

dismiss-IsLocked : (r : Root) (v : View) → IsLocked v → IsLocked (dismiss r v)
dismiss-IsLocked (settings draft) v h = same-IsLocked v _ refl refl h
dismiss-IsLocked blank v h = h
dismiss-IsLocked loading v h = h
dismiss-IsLocked trouble v h = h
dismiss-IsLocked notice v h = h

handle-IsLocked : (e : Event) (v : View) → IsLocked v → IsLocked (handle e v)
unfolding handle open_view troubleshoot leave slide cancel apply change_language stop
handle-IsLocked opening v h = same-IsLocked v _ refl refl h
handle-IsLocked (open_answered storage a) v h = answer_open-IsLocked storage a v h
handle-IsLocked troubleshooting v h = same-IsLocked v _ refl refl h
handle-IsLocked left v h = same-IsLocked v _ refl refl h
handle-IsLocked (slid key n) v h =
    if_either IsLocked v.visible (λ _. edit-IsLocked v.root key n v h) (λ _. h)
handle-IsLocked cancelled v h =
    if_either IsLocked v.visible (λ _. dismiss-IsLocked v.root v h) (λ _. h)
handle-IsLocked begun v h = begin-IsLocked v h
handle-IsLocked (run_answered storage a) v h = answer_run-IsLocked storage a v h
handle-IsLocked (loaded storage value) v h = same-IsLocked v _ refl refl h
handle-IsLocked (named storage value) v h = same-IsLocked v _ refl refl h
handle-IsLocked remote_changed v h = same-IsLocked v _ refl refl h
handle-IsLocked queued v h = same-IsLocked v _ refl refl h
handle-IsLocked (language_changed storage preferred) v h =
    if_either IsLocked (equals v.prefs.language "auto") (λ _. same-IsLocked v _ refl refl h)
      (λ _. same-IsLocked v _ refl refl h)

run-IsLocked : (es : List Event) (v : View) → IsLocked v → IsLocked (run es v)
unfolding run
run-IsLocked [] v h = h
run-IsLocked (e ∷ es) v h = run-IsLocked es (handle e v) (handle-IsLocked e v h)

-- In every order of events, one operation of the settings at most is under way, just while the view is
-- busy: a failure and an abandoned page release it too.
pub run-load-IsLocked :
    (es : List Event) (storage : Bool) (preferred : List (Option String)) (stored : Option Value)
    → IsLocked (run es (load storage preferred stored))
unfolding load apply blank_view
run-load-IsLocked es storage preferred stored =
    run-IsLocked es (load storage preferred stored)
      (record { at_most = ground arith; busy_iff = refl })

-- ===== src/Device/Saved.antt =====
-- device.js: the page shows the saved preferences, but for a preview on the open settings page.
use justverify.Common.{
  ℕ, ◌-◌, String, Option, none, some, List, [], ◌∷◌, Bool, true, false, ◌&&◌, ◌==◌, ◌≡◌, refl, sym,
  ap, ◌∙◌, arith, if_either,
}
use justverify.I18n.Nodes.{is_choice, resolve}
use justverify.I18n.Strings.{equals}
use justverify.Rain.{normalize}
use justverify.Rain.Range.{IsInRange, normalize-IsInRange, normalize-stored, stored as input_of}
use justverify.Device.{
  Value, Root, blank, loading, settings, trouble, notice, View, apply, show_prefs, stop, render,
  open_view, opened, answer_open, troubleshoot, leave, Slider, edit, slide, dismiss, cancel, begin,
  Answer, changed, planned, failed, take_answer, answer_run, change_language, Event, opening,
  open_answered, troubleshooting, left, slid, cancelled, begun, run_answered, loaded, named,
  remote_changed, queued, language_changed, handle, run, load, value_of, arm, set_language,
  or_default, blank_view,
}

-- The settings, or the notice that they could not be read.
abbrev may_preview : Root → Bool
may_preview (settings draft) = true
may_preview notice = true
may_preview blank = false
may_preview loading = false
may_preview trouble = false

abbrev pub previews : View → Bool
previews v = v.visible && may_preview v.root

pub record IsSaved (v : View) : Type 0 where
  pub in_range : IsInRange v.prefs.background
  pub theme : v.shown.theme ≡ v.prefs.theme
  pub language : is_choice v.prefs.language ≡ true → v.shown.language ≡ v.prefs.language
  pub link : is_choice v.prefs.language ≡ true → v.shown.link ≡ resolve v.prefs.language v.preferred
  pub background : previews v ≡ false → v.shown.background ≡ v.prefs.background

set_language-choice : (new old : String) → is_choice new ≡ true → set_language new old ≡ new
set_language-choice new old h =
    if_either (λ (l : String). l ≡ new) (is_choice new) (λ _. refl)
      (λ e. absurd (ground (arith, e, h)))

apply-IsSaved : (storage : Bool) (value : Value) (v : View) → IsSaved (apply storage value v)
unfolding apply show_prefs
apply-IsSaved storage value v = record {
  in_range = normalize-IsInRange value.background;
  theme = refl;
  language = set_language-choice value.language v.shown.language;
  link = λ h. refl;
  background =
      λ h. normalize-stored (normalize value.background) (normalize-IsInRange value.background);
}

-- Everything that is shown stays, and the background too where there is no preview.
record Stays (v w : View) : Type 0 where
  prefs_eq : w.prefs ≡ v.prefs
  preferred_eq : w.preferred ≡ v.preferred
  theme_eq : w.shown.theme ≡ v.shown.theme
  language_eq : w.shown.language ≡ v.shown.language
  link_eq : w.shown.link ≡ v.shown.link
  background_eq : previews w ≡ false → w.shown.background ≡ w.prefs.background

Stays-IsSaved : (v w : View) → Stays v w → IsSaved v → IsSaved w
Stays-IsSaved v w s h = record {
  in_range = rw s.prefs_eq h.in_range;
  theme = s.theme_eq ∙ h.theme ∙ sym (ap (λ p. p.theme) s.prefs_eq);
  language = λ c.
      s.language_eq
      ∙ h.language (sym (ap (λ p. is_choice p.language) s.prefs_eq) ∙ c)
      ∙ sym (ap (λ p. p.language) s.prefs_eq);
  link = λ c.
      s.link_eq
      ∙ h.link (sym (ap (λ p. is_choice p.language) s.prefs_eq) ∙ c)
      ∙ sym (ap (λ p. resolve p.language v.preferred) s.prefs_eq)
      ∙ sym (ap (resolve w.prefs.language) s.preferred_eq);
  background = s.background_eq;
}

Stays-trans : (u v w : View) → Stays u v → Stays v w → Stays u w
Stays-trans u v w a b = record {
  prefs_eq = b.prefs_eq ∙ a.prefs_eq;
  preferred_eq = b.preferred_eq ∙ a.preferred_eq;
  theme_eq = b.theme_eq ∙ a.theme_eq;
  language_eq = b.language_eq ∙ a.language_eq;
  link_eq = b.link_eq ∙ a.link_eq;
  background_eq = b.background_eq;
}

-- The saved background is shown again, whatever else happens to the view.
abbrev restored : View → Root → Bool → View
restored v r visible = record (stop v) { root = r; visible = visible }

preview-Stays :
    (v w : View)
    → w.prefs ≡ v.prefs
    → w.preferred ≡ v.preferred
    → w.shown ≡ record v.shown { background = normalize (input_of v.prefs.background) }
    → IsInRange v.prefs.background
    → Stays v w
preview-Stays v w p q s r = record {
  prefs_eq = p;
  preferred_eq = q;
  theme_eq = ap (λ x. x.theme) s;
  language_eq = ap (λ x. x.language) s;
  link_eq = ap (λ x. x.link) s;
  background_eq = λ h.
      ap (λ x. x.background) s
      ∙ normalize-stored v.prefs.background r
      ∙ sym (ap (λ x. x.background) p);
}

stopped-IsSaved :
    (v w : View)
    → w.prefs ≡ v.prefs
    → w.preferred ≡ v.preferred
    → w.shown ≡ (stop v).shown
    → IsSaved v
    → IsSaved w
unfolding stop
stopped-IsSaved v w p q s h = Stays-IsSaved v w (preview-Stays v w p q s h.in_range) h

-- Nothing that is shown changes, and there is a preview if there was one.
same-IsSaved :
    (v w : View)
    → w.prefs ≡ v.prefs
    → w.preferred ≡ v.preferred
    → w.shown ≡ v.shown
    → (previews w ≡ false → previews v ≡ false)
    → IsSaved v
    → IsSaved w
same-IsSaved v w p q s k h =
    Stays-IsSaved v w
      (record {
        prefs_eq = p;
        preferred_eq = q;
        theme_eq = ap (λ x. x.theme) s;
        language_eq = ap (λ x. x.language) s;
        link_eq = ap (λ x. x.link) s;
        background_eq =
            λ c. ap (λ x. x.background) s ∙ h.background (k c) ∙ sym (ap (λ x. x.background) p);
      })
      h

render-IsSaved : (v : View) → IsSaved v → IsSaved (render v)
render-IsSaved v h = same-IsSaved v (render v) refl refl refl (λ k. ground arith) h

opened-IsSaved :
    (storage : Bool) (a : Option Value) (v : View) → IsSaved v → IsSaved (opened storage a v)
opened-IsSaved storage none v h =
    same-IsSaved v (opened storage none v) refl refl refl (λ k. ground arith) h
opened-IsSaved storage (some value) v h =
    let w = render (apply storage value v) in
    same-IsSaved w (arm w) refl refl refl (λ k. k)
      (render-IsSaved (apply storage value v) (apply-IsSaved storage value v))

answer_open-IsSaved :
    (storage : Bool) (a : Option Value) (v : View) → IsSaved v → IsSaved (answer_open storage a v)
unfolding answer_open
answer_open-IsSaved storage a v h =
    if_either IsSaved (v.opening == 0) (λ _. h)
      (λ _.
        let w = record v { opening = v.opening - 1 } in
        opened-IsSaved storage a w (same-IsSaved v w refl refl refl (λ k. k) h))

edit-IsSaved :
    (r : Root) (key : Slider) (n : ℕ) (v : View)
    → v.root ≡ r
    → v.visible ≡ true
    → IsSaved v
    → IsSaved (edit r key n v)
edit-IsSaved (settings draft) key n v e t h =
    Stays-IsSaved v (edit (settings draft) key n v)
      (record {
        prefs_eq = refl;
        preferred_eq = refl;
        theme_eq = refl;
        language_eq = refl;
        link_eq = refl;
        background_eq = λ k. absurd (ground (arith, k, t));
      })
      h
edit-IsSaved blank key n v e t h = h
edit-IsSaved loading key n v e t h = h
edit-IsSaved trouble key n v e t h = h
edit-IsSaved notice key n v e t h = h

dismiss-IsSaved : (r : Root) (v : View) → IsSaved v → IsSaved (dismiss r v)
unfolding stop
dismiss-IsSaved (settings draft) v h =
    stopped-IsSaved v (dismiss (settings draft) v) refl refl refl h
dismiss-IsSaved blank v h = h
dismiss-IsSaved loading v h = h
dismiss-IsSaved trouble v h = h
dismiss-IsSaved notice v h = h

take_answer-IsSaved :
    (storage : Bool) (a : Answer) (v : View) → IsSaved v → IsSaved (take_answer storage a v)
take_answer-IsSaved storage (changed value) v h =
    render-IsSaved (apply storage value v) (apply-IsSaved storage value v)
take_answer-IsSaved storage planned v h = h
take_answer-IsSaved storage failed v h = h

answer_run-IsSaved :
    (storage : Bool) (a : Answer) (v : View) → IsSaved v → IsSaved (answer_run storage a v)
unfolding answer_run
answer_run-IsSaved storage a v h =
    if_either IsSaved (v.under_way == 0) (λ _. h)
      (λ _.
        same-IsSaved (take_answer storage a v) _ refl refl refl (λ k. k)
          (take_answer-IsSaved storage a v h))

begin-IsSaved : (v : View) → IsSaved v → IsSaved (begin v)
unfolding begin
begin-IsSaved v h =
    if_either IsSaved v.busy (λ _. h) (λ _. same-IsSaved v _ refl refl refl (λ k. k) h)

-- A language that is named does not depend on the browser's.
resolve_named :
    (l : String) (old new : List (Option String))
    → is_choice l ≡ true
    → equals l "auto" ≡ false
    → resolve l old ≡ resolve l new
unfolding resolve
resolve_named l old new c e = ground arith

change_language-IsSaved :
    (storage : Bool) (preferred : List (Option String)) (v : View)
    → IsSaved v
    → IsSaved (change_language storage preferred v)
unfolding change_language
change_language-IsSaved storage preferred v h =
    if_either IsSaved (equals v.prefs.language "auto")
      (λ _. apply-IsSaved storage (value_of v.prefs) (record v { preferred = preferred }))
      (λ e. record {
        in_range = h.in_range;
        theme = h.theme;
        language = h.language;
        link = λ c. h.link c ∙ resolve_named v.prefs.language v.preferred preferred c e;
        background = h.background;
      })

slide-IsSaved : (key : Slider) (n : ℕ) (v : View) → IsSaved v → IsSaved (slide key n v)
unfolding slide
slide-IsSaved key n v h =
    if_either IsSaved v.visible (λ t. edit-IsSaved v.root key n v refl t h) (λ _. h)

cancel-IsSaved : (v : View) → IsSaved v → IsSaved (cancel v)
unfolding cancel
cancel-IsSaved v h = if_either IsSaved v.visible (λ _. dismiss-IsSaved v.root v h) (λ _. h)

handle-IsSaved : (e : Event) (v : View) → IsSaved v → IsSaved (handle e v)
unfolding handle open_view troubleshoot leave slide cancel stop
handle-IsSaved opening v h = stopped-IsSaved v (open_view v) refl refl refl h
handle-IsSaved (open_answered storage a) v h = answer_open-IsSaved storage a v h
handle-IsSaved troubleshooting v h = stopped-IsSaved v (troubleshoot v) refl refl refl h
handle-IsSaved left v h = stopped-IsSaved v (leave v) refl refl refl h
handle-IsSaved (slid key n) v h = slide-IsSaved key n v h
handle-IsSaved cancelled v h = cancel-IsSaved v h
handle-IsSaved begun v h = begin-IsSaved v h
handle-IsSaved (run_answered storage a) v h = answer_run-IsSaved storage a v h
handle-IsSaved (loaded storage value) v h = apply-IsSaved storage value v
handle-IsSaved (named storage value) v h =
    render-IsSaved (apply storage value v) (apply-IsSaved storage value v)
handle-IsSaved remote_changed v h = render-IsSaved v h
handle-IsSaved queued v h = stopped-IsSaved v (stop v) refl refl refl h
handle-IsSaved (language_changed storage preferred) v h =
    change_language-IsSaved storage preferred v h

run-IsSaved : (es : List Event) (v : View) → IsSaved v → IsSaved (run es v)
unfolding run
run-IsSaved [] v h = h
run-IsSaved (e ∷ es) v h = run-IsSaved es (handle e v) (handle-IsSaved e v h)

-- From any stored preferences on, whatever the user does and in whatever order the answers come: the
-- page shows the theme, the language and the language of the link that are saved, where the language is
-- one of the choices; and it shows the saved background, unless the settings are open, or the notice
-- that they could not be read again.
pub run-load-IsSaved :
    (es : List Event) (storage : Bool) (preferred : List (Option String)) (stored : Option Value)
    → IsSaved (run es (load storage preferred stored))
unfolding load
run-load-IsSaved es storage preferred stored =
    run-IsSaved es (apply storage (or_default stored) (blank_view preferred))
      (apply-IsSaved storage (or_default stored) (blank_view preferred))

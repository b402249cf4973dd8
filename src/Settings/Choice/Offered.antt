-- ===== src/Settings/Choice/Offered.antt =====
-- settings.js, versions: what can be reviewed is a downloaded release on a network of its own.
use mathlib.Core.Path.{subst}
use text.Mathlib.TextEquality.{eq_iff}
use justverify.Common.{
  some_inj, ◌≢◌, Bool-cases, inl, inr, Option, none, some, List, [], ◌∷◌, Bool, true, false, ◌||◌,
  ◌≡◌, refl, ap, ◌∙◌, arith, if_either, ◌↔◌,
}
use justverify.I18n.Strings.{equals}
use justverify.Settings.Releases.{Release}
use justverify.Settings.Choice.{
  Selection, State, Page, find, has_network, with_network, chosen, choose, open_view, pick_from,
  pick, select_network, mode_from, select_mode, Event, picks, networks, modes, handle, run, Detail,
  nothing, download, in_use, review, is_active, detail_from, detail_of, detail,
}

abbrev pub is_fit : Selection → Option Release → Bool
is_fit s none = true
is_fit s (some r) = has_network s.network r || equals s.network "main"

abbrev fits : List Release → Option Selection → Bool
fits releases none = true
fits releases (some s) = is_fit s (find s.version releases)

-- A selected release is selected with one of its networks, or the main one.
abbrev pub IsFit : Page → Type 0
IsFit p = fits p.state.releases p.selection ≡ true

with_network-fit : (s : Selection) (o : Option Release) → is_fit (with_network o s) o ≡ true
unfolding equals
with_network-fit s none = refl
with_network-fit s (some r) =
    if_either (λ t. is_fit t (some r) ≡ true) (has_network s.network r) (λ h. ground (arith, h))
      (λ _. ground arith)

with_network-version : (s : Selection) (o : Option Release) → (with_network o s).version ≡ s.version
with_network-version s none = refl
with_network-version s (some r) =
    if_either (λ (t : Selection). t.version ≡ s.version) (has_network s.network r) (λ _. refl)
      (λ _. refl)

chosen-fits : (rs : List Release) (o : Option Selection) → fits rs (chosen rs o) ≡ true
chosen-fits rs none = refl
chosen-fits rs (some s) =
    let t = with_network (find s.version rs) s in
    ap (λ v. is_fit t (find v rs)) (with_network-version s (find s.version rs))
    ∙ with_network-fit s (find s.version rs)

choose-IsFit : (p : Page) → IsFit (choose p)
unfolding choose
choose-IsFit p = chosen-fits p.state.releases p.selection

pick_from-IsFit : (o : Option Release) (p : Page) → IsFit p → IsFit (pick_from o p)
pick_from-IsFit none p h = h
pick_from-IsFit (some r) p h =
    if_either IsFit r.verified (λ _. choose-IsFit (record p { selection = some _ })) (λ _. h)

mode_from-IsFit : (o : Option Release) (on : Bool) (p : Page) → IsFit p → IsFit (mode_from o on p)
mode_from-IsFit none on p h = h
mode_from-IsFit (some r) on p h = choose-IsFit (record p { selection = _ })

handle-IsFit : (e : Event) (p : Page) → IsFit p → IsFit (handle e p)
unfolding handle pick select_network select_mode
handle-IsFit (picks n) p h = pick_from-IsFit _ p h
handle-IsFit (networks n) p h = choose-IsFit (record p { selection = _ })
handle-IsFit (modes on) p h = mode_from-IsFit _ on p h

run-IsFit : (es : List Event) (p : Page) → IsFit p → IsFit (run es p)
unfolding run
run-IsFit [] p h = h
run-IsFit (e ∷ es) p h = run-IsFit es (handle e p) (handle-IsFit e p h)

-- A downloaded release of the catalogue, with one of its networks or the main one, that is not what runs.
pub record IsReviewable (p : Page) (t : Selection) : Type 0 where
  pub selected : p.selection ≡ some t
  pub release : Release
  pub found : find t.version p.state.releases ≡ some release
  pub downloaded : release.downloaded ≡ true
  pub network : (has_network t.network release || equals t.network "main") ≡ true
  pub other : p.state.active ≢ some t

same_selection :
    (a s : Selection)
    → s.version ≡ a.version
    → s.network ≡ a.network
    → s.watch_only ≡ a.watch_only
    → a ≡ s
same_selection a s v n m = ground (arith, v, n, m)

is_active_refl : (s : Selection) → is_active (some s) s ≡ true
is_active_refl s = ground (arith, eq_iff s.version s.version, eq_iff s.network s.network)

not_active : (o : Option Selection) (s : Selection) → is_active o s ≡ false → o ≢ some s
not_active o s h e = ground (arith, h, ap (λ q. is_active q s) e, is_active_refl s)

active_not : (o : Option Selection) (s : Selection) → o ≢ some s → is_active o s ≡ false
active_not none s h = refl
active_not (some a) s h = elim (Bool-cases (is_active (some a) s)) [
  | inl t ↦ absurd (
      h (
        ap some (
          same_selection a s (ground (arith, t, eq_iff s.version a.version))
            (ground (arith, t, eq_iff s.network a.network)) (ground (arith, t)))))
  | inr f ↦ f
]

abbrev reviewed : Detail → Option Selection
reviewed (review t) = some t
reviewed nothing = none
reviewed (download v) = none
reviewed in_use = none

detail_from-IsReviewable :
    (p : Page) (s t : Selection) (o : Option Release)
    → p.selection ≡ some s
    → find s.version p.state.releases ≡ o
    → is_fit s o ≡ true
    → reviewed (detail_from p.state.active o s) ≡ some t
    → IsReviewable p t
detail_from-IsReviewable p s t none e f h n = absurd (ground (arith, n))
detail_from-IsReviewable p s t (some r) e f h n =
    let same : some s ≡ some t = ground (arith, n) in
    let down : r.downloaded ≡ true = ground (arith, n) in
    let other : p.state.active ≢ some s = not_active p.state.active s (ground (arith, n)) in
    subst (IsReviewable p) (some_inj same) (record {
      selected = e;
      release = r;
      found = f;
      downloaded = down;
      network = h;
      other = other;
    })

detail_of-IsReviewable :
    (p : Page) (t : Selection) (o : Option Selection)
    → p.selection ≡ o
    → fits p.state.releases o ≡ true
    → reviewed (detail_of p.state o) ≡ some t
    → IsReviewable p t
detail_of-IsReviewable p t none e h n = absurd (ground (arith, n))
detail_of-IsReviewable p t (some s) e h n =
    detail_from-IsReviewable p s t (find s.version p.state.releases) e refl h n

IsReviewable-detail : (p : Page) (t : Selection) → IsReviewable p t → detail p ≡ review t
unfolding detail
IsReviewable-detail p t h =
    ap (detail_of p.state) h.selected
    ∙ ap (λ o. detail_from p.state.active o t) h.found
    ∙ ground (arith, h.downloaded, active_not p.state.active t h.other)

-- Whatever version, network and mode the user selects, the page offers the review of a change exactly for
-- a downloaded release of the catalogue, with one of its networks or the main one, unless its version, its
-- network and its mode are just those of what runs; and the review is of what is selected.
pub review_iff :
    (es : List Event) (s : State) (t : Selection)
    → (detail (run es (open_view s)) ≡ review t) ↔ IsReviewable (run es (open_view s)) t
unfolding detail open_view
review_iff es s t =
    let p = run es (open_view s) in
    (
      λ h.
          detail_of-IsReviewable p t p.selection refl
            (run-IsFit es (open_view s) (choose-IsFit (record { state = s; selection = _ })))
            (ap reviewed h),
      IsReviewable-detail p t,
    )

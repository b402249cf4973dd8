-- ===== src/App/Coherent.antt =====
-- app.js: the menu is shown only with a session's token, and just the view of what is started.
use justverify.Common.{
  ℕ, Option, none, some, List, [], ◌∷◌, Bool, true, false, not, ◌&&◌, ◌==◌, ◌≡◌, ◌≢◌, refl, sym, ap,
  ◌∙◌, ◌⊎◌, inl, inr, ◌||◌, arith, if_either,
}
use justverify.I18n.Strings.{equals}
use justverify.App.{
  SessionAnswer, granted, unauthorized, failing, unreachable, LoginAnswer, accepted, limited,
  refused, failed, Session, Event, resumed, kept, logged_out, expired, socket_closed, auth_answered,
  submitted, login_answered, pressed, settings_opened, leave, close, enter, resume, keep_session,
  answer_auth, submit, answer_login, take_answer, press, handle, run, initial, Form,
}
use justverify.App.Menu.{stopped, Screen, show_page, show_auth, show_terminal}
use justverify.App.Pages.{
  overview, electrum, terminal, settings, device_view, View, view_of, is_view, hides, IsMatched,
  show_page-IsMatched,
}

some_not_none {ℓ} : {A : Type ℓ} (a : A) → some a ≢ none
some_not_none a h = ground (arith, h)

show_auth-IsMatched : (c : Screen) → IsMatched (show_auth c)
unfolding show_auth
show_auth-IsMatched c overview = refl
show_auth-IsMatched c electrum = refl
show_auth-IsMatched c terminal = refl
show_auth-IsMatched c settings = refl
show_auth-IsMatched c device_view = refl

-- Whether a late opening of the settings has come before.
module _ (late : Bool) where
  -- The view of what is started is shown, and no other but the settings after a late opening.
  abbrev pub IsMatchedBut : Screen → Type 0
  IsMatchedBut c =
      (w : View)
      → (hides c w ≡ not (is_view (view_of c.active) w))
        ⊎ ((w ≡ settings) × (hides c w ≡ false) × (late ≡ true))

  -- The session's page: the menu or the welcome, never both, and the menu only with a token.
  pub record IsCoherent (s : Session) : Type 0 where
    pub matched : IsMatchedBut s.screen
    pub either : s.screen.welcome ≡ not s.screen.controls
    pub logout_with : s.screen.logout ≡ s.screen.controls
    pub nothing_started : s.screen.controls ≡ true → s.screen.active ≡ stopped
    pub token : s.screen.controls ≡ false → s.csrf ≢ none

  matched-but : (c : Screen) → IsMatched c → IsMatchedBut c
  matched-but c h w = inl (h w)

  record-IsMatchedBut :
      (c : Screen) (b : Bool) → IsMatchedBut c → IsMatchedBut (record c { login = b })
  record-IsMatchedBut c b h overview = h overview
  record-IsMatchedBut c b h electrum = h electrum
  record-IsMatchedBut c b h terminal = h terminal
  record-IsMatchedBut c b h settings = h settings
  record-IsMatchedBut c b h device_view = h device_view

  -- Whatever the token is, nothing is shown but the welcome.
  left-IsCoherent : (s : Session) (c : Screen) → s.screen ≡ show_auth c → IsCoherent s
  unfolding show_auth
  left-IsCoherent s c e = record {
    matched = matched-but s.screen (rw e (show_auth-IsMatched c));
    either = ap (λ x. x.welcome) e ∙ sym (ap (λ x. not x.controls) e);
    logout_with = ap (λ x. x.logout) e ∙ sym (ap (λ x. x.controls) e);
    nothing_started = λ h. ap (λ x. x.active) e;
    token = λ h. absurd (ground (arith, h, ap (λ x. x.controls) e));
  }

  entered-IsCoherent :
      (s : Session) (c : Screen) → s.screen ≡ show_terminal c → s.csrf ≢ none → IsCoherent s
  unfolding show_terminal show_page
  entered-IsCoherent s c e t = record {
    matched = matched-but s.screen (
        rw e
          (show_page-IsMatched 1 (record c { logout = false; welcome = true; controls = false })));
    either = ap (λ x. x.welcome) e ∙ sym (ap (λ x. not x.controls) e);
    logout_with = ap (λ x. x.logout) e ∙ sym (ap (λ x. x.controls) e);
    nothing_started = λ h. absurd (ground (arith, h, ap (λ x. x.controls) e));
    token = λ h. t;
  }

  -- A step that neither takes the token away nor touches the page, but for the form.
  same-IsCoherent :
      (s t : Session)
      → (s.csrf ≢ none → t.csrf ≢ none)
      → ((b : Bool) × (t.screen ≡ record s.screen { login = b }))
      → IsCoherent s
      → IsCoherent t
  same-IsCoherent s t k (b, e) h = record {
    matched = rw e (record-IsMatchedBut s.screen b h.matched);
    either = ap (λ x. x.welcome) e ∙ h.either ∙ sym (ap (λ x. not x.controls) e);
    logout_with = ap (λ x. x.logout) e ∙ h.logout_with ∙ sym (ap (λ x. x.controls) e);
    nothing_started =
        λ c. ap (λ x. x.active) e ∙ h.nothing_started (sym (ap (λ x. x.controls) e) ∙ c);
    token = λ c. k (h.token (sym (ap (λ x. x.controls) e) ∙ c));
  }

  -- Only the token, the status or the requests change.
  kept_page :
      (s t : Session)
      → (s.csrf ≢ none → t.csrf ≢ none)
      → t.screen ≡ s.screen
      → IsCoherent s
      → IsCoherent t
  kept_page s t k e h = same-IsCoherent s t k (s.screen.login, e) h

  resume-IsCoherent : (a : SessionAnswer) (s : Session) → IsCoherent (resume a s)
  unfolding resume leave
  resume-IsCoherent (granted t) s = entered-IsCoherent (enter t s) s.screen refl (some_not_none t)
  resume-IsCoherent unauthorized s = left-IsCoherent (leave s) s.screen refl
  resume-IsCoherent failing s = left-IsCoherent (leave s) s.screen refl
  resume-IsCoherent unreachable s = left-IsCoherent (resume unreachable s) s.screen refl

  keep_session-IsCoherent :
      (a : SessionAnswer) (s : Session) → IsCoherent s → IsCoherent (keep_session a s)
  unfolding keep_session leave
  keep_session-IsCoherent (granted t) s h =
      kept_page s (keep_session (granted t) s) (λ c. some_not_none t) refl h
  keep_session-IsCoherent unauthorized s h = left-IsCoherent (close s) s.screen refl
  keep_session-IsCoherent failing s h = h
  keep_session-IsCoherent unreachable s h = h

  answer_auth-IsCoherent :
      (a : Option (Bool × Bool)) (s : Session) → IsCoherent s → IsCoherent (answer_auth a s)
  unfolding answer_auth
  answer_auth-IsCoherent none s h = kept_page s (answer_auth none s) (λ c. c) refl h
  answer_auth-IsCoherent (some (setup, code)) s h =
      same-IsCoherent s (answer_auth (some (setup, code)) s) (λ c. c) (false, refl) h

  submit-IsCoherent : (f : Form) (s : Session) → IsCoherent s → IsCoherent (submit f s)
  unfolding submit
  submit-IsCoherent f s h =
      if_either IsCoherent s.submit_disabled (λ _. h)
        (λ _.
          if_either IsCoherent (s.setup_required && not (equals f.password f.confirm))
            (λ _. kept_page s _ (λ c. c) refl h) (λ _. kept_page s _ (λ c. c) refl h))

  take_answer-IsCoherent :
      (a : LoginAnswer) (s : Session) → IsCoherent s → IsCoherent (take_answer a s)
  take_answer-IsCoherent (accepted t) s h =
      entered-IsCoherent (enter t s) s.screen refl (some_not_none t)
  take_answer-IsCoherent (limited r) s h = kept_page s (take_answer (limited r) s) (λ c. c) refl h
  take_answer-IsCoherent (refused t) s h = kept_page s (take_answer (refused t) s) (λ c. c) refl h
  take_answer-IsCoherent (failed t) s h = kept_page s (take_answer (failed t) s) (λ c. c) refl h

  answer_login-IsCoherent :
      (a : LoginAnswer) (s : Session) → IsCoherent s → IsCoherent (answer_login a s)
  unfolding answer_login
  answer_login-IsCoherent a s h =
      if_either IsCoherent (s.under_way == 0) (λ _. h)
        (λ _. kept_page (take_answer a s) _ (λ c. c) refl (take_answer-IsCoherent a s h))

  press-IsCoherent : (n : ℕ) (s : Session) → IsCoherent s → IsCoherent (press n s)
  unfolding press show_page
  press-IsCoherent n s h =
      if_either IsCoherent s.screen.controls (λ _. h)
        (λ c. record {
          matched = matched-but (show_page n s.screen) (show_page-IsMatched n s.screen);
          either = h.either;
          logout_with = h.logout_with;
          nothing_started = λ k. absurd (ground (arith, c, k));
          token = h.token;
        })

-- A change of the settings has ended, and its page was opened again.
abbrev pub is_opening : Event → Bool
is_opening settings_opened = true
is_opening (resumed a) = false
is_opening (kept a) = false
is_opening (logged_out b) = false
is_opening expired = false
is_opening socket_closed = false
is_opening (auth_answered a) = false
is_opening (submitted f) = false
is_opening (login_answered a) = false
is_opening (pressed n) = false

opened_matched :
    (late : Bool) (c : Screen)
    → IsMatchedBut late c
    → IsMatchedBut true (record c { settings = false })
opened_matched late c h settings = inr (refl, refl, refl)
opened_matched late c h overview = elim (h overview) [
  | inl e ↦ inl e
  | inr (w, k, l) ↦ inr (w, k, refl)
]
opened_matched late c h electrum = elim (h electrum) [
  | inl e ↦ inl e
  | inr (w, k, l) ↦ inr (w, k, refl)
]
opened_matched late c h terminal = elim (h terminal) [
  | inl e ↦ inl e
  | inr (w, k, l) ↦ inr (w, k, refl)
]
opened_matched late c h device_view = elim (h device_view) [
  | inl e ↦ inl e
  | inr (w, k, l) ↦ inr (w, k, refl)
]

opened-IsCoherent :
    (late : Bool) (s : Session) → IsCoherent late s → IsCoherent true (handle settings_opened s)
unfolding handle
opened-IsCoherent late s h = record {
  matched = opened_matched late s.screen h.matched;
  either = h.either;
  logout_with = h.logout_with;
  nothing_started = h.nothing_started;
  token = h.token;
}

handle-IsCoherent :
    (late : Bool) (e : Event) (s : Session)
    → IsCoherent late s
    → IsCoherent (is_opening e || late) (handle e s)
unfolding handle leave
handle-IsCoherent late (resumed a) s h = resume-IsCoherent late a s
handle-IsCoherent late (kept a) s h = keep_session-IsCoherent late a s h
handle-IsCoherent late (logged_out true) s h = left-IsCoherent late (close s) s.screen refl
handle-IsCoherent late (logged_out false) s h = h
handle-IsCoherent late expired s h = left-IsCoherent late (leave s) s.screen refl
handle-IsCoherent late socket_closed s h = kept_page late s (handle socket_closed s) (λ c. c) refl h
handle-IsCoherent late (auth_answered a) s h = answer_auth-IsCoherent late a s h
handle-IsCoherent late (submitted f) s h = submit-IsCoherent late f s h
handle-IsCoherent late (login_answered a) s h = answer_login-IsCoherent late a s h
handle-IsCoherent late (pressed n) s h = press-IsCoherent late n s h
handle-IsCoherent late settings_opened s h = opened-IsCoherent late s h

abbrev pub opened : List Event → Bool → Bool
opened [] late = late
opened (e ∷ es) late = opened es (is_opening e || late)

run-IsCoherent :
    (es : List Event) (late : Bool) (s : Session)
    → IsCoherent late s
    → IsCoherent (opened es late) (run es s)
unfolding run
run-IsCoherent [] late s h = h
run-IsCoherent (e ∷ es) late s h =
    run-IsCoherent es (is_opening e || late) (handle e s) (handle-IsCoherent late e s h)

initial-IsMatched : IsMatched initial.screen
initial-IsMatched overview = refl
initial-IsMatched electrum = refl
initial-IsMatched terminal = refl
initial-IsMatched settings = refl
initial-IsMatched device_view = refl

initial-IsCoherent : IsCoherent false initial
initial-IsCoherent = record {
  matched = λ w. inl (initial-IsMatched w);
  either = refl;
  logout_with = refl;
  nothing_started = λ h. refl;
  token = λ h. absurd (ground (arith, h));
}

-- Whatever the server answers, in whatever order, and whatever the user does, the page shows either the
-- welcome or the menu and the logout button; the menu only with a session's token; and of the views just
-- the one of what is started, none before the login and after the logout, except that the view of the
-- settings may be there as well once a change of the settings has ended and opened its page again.
pub run-initial-IsCoherent : (es : List Event) → IsCoherent (opened es false) (run es initial)
run-initial-IsCoherent es = run-IsCoherent es false initial initial-IsCoherent

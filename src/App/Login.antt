-- ===== src/App/Login.antt =====
-- app.js, the form of the login and of the first setup.
use justverify.Common.{
  ◌≤◌, none, some, List, [], ◌∷◌, Bool, true, false, not, ◌&&◌, ◌==◌, ◌≡◌, refl, arith, All,
  if_either,
}
use justverify.I18n.Strings.{equals}
use justverify.App.{
  Request, login_with, setup_with, Form, granted, unauthorized, failing, unreachable, LoginAnswer,
  accepted, limited, refused, failed, Session, Event, resumed, kept, logged_out, expired,
  socket_closed, auth_answered, submitted, login_answered, pressed, settings_opened, leave, resume,
  keep_session, answer_auth, submit, answer_login, take_answer, press, handle, run, initial,
  request_of,
}

abbrev pub IsConfirmed : Request → Type 0
IsConfirmed (login_with p) = Unit
IsConfirmed (setup_with p c t) = equals p c ≡ true

-- One request of the form at most awaits its answer, while the button is disabled; and a new
-- password is sent only with its confirmation.
pub record IsGuarded (s : Session) : Type 0 where
  pub at_most : s.under_way ≤ 1
  pub disabled : s.submit_disabled ≡ not (s.under_way == 0)
  pub confirmed : All IsConfirmed s.sent

request-IsConfirmed :
    (setup code : Bool) (f : Form)
    → (setup && not (equals f.password f.confirm)) ≡ false
    → IsConfirmed (request_of setup code f)
request-IsConfirmed false code f h = tt
request-IsConfirmed true false f h = ground (arith, h)
request-IsConfirmed true true f h = ground (arith, h)

submit-IsGuarded : (f : Form) (s : Session) → IsGuarded s → IsGuarded (submit f s)
unfolding submit
submit-IsGuarded f s h =
    if_either IsGuarded s.submit_disabled (λ _. h)
      (λ d.
        if_either IsGuarded (s.setup_required && not (equals f.password f.confirm))
          (λ _. record { at_most = h.at_most; disabled = h.disabled; confirmed = h.confirmed })
          (λ c. record {
            at_most = ground (arith, h.disabled, d);
            disabled = ground (arith, h.disabled, d);
            confirmed = (request-IsConfirmed s.setup_required s.requires_code f c, h.confirmed);
          }))

take_answer-IsConfirmed :
    (a : LoginAnswer) (s : Session)
    → All IsConfirmed s.sent
    → All IsConfirmed (take_answer a s).sent
take_answer-IsConfirmed (accepted t) s h = h
take_answer-IsConfirmed (limited r) s h = h
take_answer-IsConfirmed (refused t) s h = h
take_answer-IsConfirmed (failed t) s h = h

answer_login-IsGuarded :
    (a : LoginAnswer) (s : Session) → IsGuarded s → IsGuarded (answer_login a s)
unfolding answer_login
answer_login-IsGuarded a s h =
    if_either IsGuarded (s.under_way == 0) (λ _. h)
      (λ u. record {
        at_most = ground (arith, h.at_most);
        disabled = ground (arith, h.at_most);
        confirmed = take_answer-IsConfirmed a s h.confirmed;
      })

same-IsGuarded :
    (s t : Session)
    → t.under_way ≡ s.under_way
    → t.submit_disabled ≡ s.submit_disabled
    → t.sent ≡ s.sent
    → IsGuarded s
    → IsGuarded t
same-IsGuarded s t u d e h = record {
  at_most = ground (arith, u, h.at_most);
  disabled = ground (arith, u, d, h.disabled);
  confirmed = rw e h.confirmed;
}

handle-IsGuarded : (e : Event) (s : Session) → IsGuarded s → IsGuarded (handle e s)
unfolding handle resume keep_session leave answer_auth press
handle-IsGuarded (resumed (granted t)) s h = same-IsGuarded s _ refl refl refl h
handle-IsGuarded (resumed unauthorized) s h = same-IsGuarded s _ refl refl refl h
handle-IsGuarded (resumed failing) s h = same-IsGuarded s _ refl refl refl h
handle-IsGuarded (resumed unreachable) s h = same-IsGuarded s _ refl refl refl h
handle-IsGuarded (kept (granted t)) s h = same-IsGuarded s _ refl refl refl h
handle-IsGuarded (kept unauthorized) s h = same-IsGuarded s _ refl refl refl h
handle-IsGuarded (kept failing) s h = h
handle-IsGuarded (kept unreachable) s h = h
handle-IsGuarded (logged_out true) s h = same-IsGuarded s _ refl refl refl h
handle-IsGuarded (logged_out false) s h = h
handle-IsGuarded expired s h = same-IsGuarded s _ refl refl refl h
handle-IsGuarded socket_closed s h = same-IsGuarded s _ refl refl refl h
handle-IsGuarded (auth_answered none) s h = same-IsGuarded s _ refl refl refl h
handle-IsGuarded (auth_answered (some (a, b))) s h = same-IsGuarded s _ refl refl refl h
handle-IsGuarded (submitted f) s h = submit-IsGuarded f s h
handle-IsGuarded (login_answered a) s h = answer_login-IsGuarded a s h
handle-IsGuarded (pressed n) s h =
    if_either IsGuarded s.screen.controls (λ _. h) (λ _. same-IsGuarded s _ refl refl refl h)
handle-IsGuarded settings_opened s h = same-IsGuarded s _ refl refl refl h

run-IsGuarded : (es : List Event) (s : Session) → IsGuarded s → IsGuarded (run es s)
unfolding run
run-IsGuarded [] s h = h
run-IsGuarded (e ∷ es) s h = run-IsGuarded es (handle e s) (handle-IsGuarded e s h)

-- In every order of events, one request of the form at most is under way, the button is disabled just
-- then, and a new password is sent only with a confirmation that is equal to it.
pub run-initial-IsGuarded : (es : List Event) → IsGuarded (run es initial)
run-initial-IsGuarded es =
    run-IsGuarded es initial (record { at_most = ground arith; disabled = refl; confirmed = tt })

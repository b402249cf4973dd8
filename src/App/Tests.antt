-- ===== src/App/Tests.antt =====
-- A login that is limited once, and a walk through the menu.
use justverify.Common.{decimal, some, List, [], ◌∷◌, false, ◌≡◌, refl}
use justverify.I18n.Entries.{en, ja}
use justverify.I18n.Strings.{◌++◌}
use justverify.I18n.Text.{text}
use justverify.App.Waiting.{wait_text-text}
use justverify.App.{
  wait_text, Event, Form, unauthorized, resumed, auth_answered, submitted, login_answered, pressed,
  expired, settings_opened, limited, accepted, run, initial,
}
use justverify.App.Menu.{terminal_key, stopped}
use justverify.App.Coherent.{IsCoherent, opened, run-initial-IsCoherent}
use justverify.App.Login.{IsGuarded, run-initial-IsGuarded}

abbrev form : Form
form = record { password = "secret"; confirm = ""; code = "" }

abbrev visit : List Event
visit =
    resumed unauthorized
    ∷ auth_answered (some (false, false))
    ∷ submitted form
    ∷ submitted form
    ∷ login_answered (limited (some 37))
    ∷ submitted form
    ∷ login_answered (accepted "t")
    ∷ pressed 9
    ∷ []

visit_status : (run visit initial).screen.active ≡ terminal_key (some "\u{1b}[20~")
unfolding run
visit_status = refl

-- A change of the settings ends after the session has expired: its page appears beside the welcome.
late_test :
    let s = run (pressed 2 ∷ expired ∷ settings_opened ∷ []) initial in
    (s.screen.settings ≡ false) × (s.screen.welcome ≡ false) × (s.screen.active ≡ stopped)
unfolding run
late_test = (refl, refl, refl)

run-initial-IsCoherent_example : IsCoherent (opened visit false) (run visit initial)
run-initial-IsCoherent_example = run-initial-IsCoherent visit

run-initial-IsGuarded_example : IsGuarded (run visit initial)
run-initial-IsGuarded_example = run-initial-IsGuarded visit

wait_text-text_example :
    (text en (wait_text (some 37))
      ≡ "Too many attempts. Try again in " ++ decimal 37 ++ " seconds.")
    × (text ja (wait_text (some 37)) ≡ "試行回数が多すぎます。" ++ decimal 37 ++ "秒後にもう一度お試しください。")
wait_text-text_example = wait_text-text 36

-- ===== src/App.antt =====
-- web/static/app.js: the session. The views' own work is in their modules; here each is started and
-- stopped. The server's answers are events, in any order.
pub mod Menu
pub mod Pages
pub mod Coherent
pub mod Login
pub mod Waiting
mod Tests
use justverify.Common.{
  ℕ, zero, suc, ◌+◌, ◌-◌, String, Option, none, some, List, [], ◌∷◌, Bool, true, false, not, ◌&&◌,
  ◌||◌, ◌==◌, any, if◌then◌else◌, get_elem?, decimal,
}
use justverify.I18n.Strings.{◌++◌, equals}
use justverify.App.Menu.{
  Service, stopped, terminal_key, Screen, service_of, show_page, show_auth, show_terminal,
}

-- The body of `/setup` or `/login`.
pub record Form : Type 0 where
  pub password : String
  pub confirm : String
  pub code : String

pub data Request : Type 0 where
  login_with : String → Request
  setup_with : String → String → Option String → Request

pub record Session : Type 0 where
  pub csrf : Option String
  pub setup_required : Bool
  pub requires_code : Bool
  pub socket : Bool  -- the terminal has a connection
  pub submit_disabled : Bool
  pub status : String
  pub sent : List Request  -- the last one first
  pub under_way : ℕ  -- how many of them await their answer
  pub screen : Screen

-- The answer of `/session`.
pub data SessionAnswer : Type 0 where
  granted : String → SessionAnswer
  unauthorized : SessionAnswer
  failing : SessionAnswer
  unreachable : SessionAnswer

-- The answer of `/login` or `/setup`; a limit has its Retry-After, where that is a whole number.
pub data LoginAnswer : Type 0 where
  accepted : String → LoginAnswer
  limited : Option ℕ → LoginAnswer
  refused : String → LoginAnswer
  failed : String → LoginAnswer

abbrev enter : String → Session → Session
enter token s = record s { csrf = some token; screen = show_terminal s.screen }

-- `showAuth`
unfoldable pub leave : Session → Session
unfolding show_auth
leave s = record s { screen = show_auth s.screen }

-- `csrf=null; …; ws?.close(); await showAuth()`
abbrev close : Session → Session
close s = record (leave s) { csrf = none; socket = false }

-- `resume`
unfoldable pub resume : SessionAnswer → Session → Session
unfolding show_terminal leave
resume (granted token) s = enter token s
resume unauthorized s = leave s
resume failing s = leave s
resume unreachable s = leave (record s { status = "기기에 연결할 수 없습니다." })

-- `keepSession`, from its answer on: what it tests before its request changes nothing.
unfoldable pub keep_session : SessionAnswer → Session → Session
unfolding leave
keep_session (granted token) s = record s { csrf = some token }
keep_session unauthorized s = close s
keep_session failing s = s
keep_session unreachable s = s

-- The end of `showAuth`.
unfoldable pub answer_auth : Option (Bool × Bool) → Session → Session
answer_auth none s = record s { status = "기기에 연결하지 못했습니다. 새로고침해 주세요." }
answer_auth (some (setup, code)) s = record s {
  setup_required = setup;
  requires_code = code;
  screen = record s.screen { login = false };
}

abbrev request_of : Bool → Bool → Form → Request
request_of false code f = login_with f.password
request_of true false f = setup_with f.password f.confirm none
request_of true true f = setup_with f.password f.confirm (some f.code)

-- The first half of `$('#login').onsubmit`.
unfoldable pub submit : Form → Session → Session
unfolding equals
submit f s =
    if s.submit_disabled
    then s
    else if s.setup_required && not (equals f.password f.confirm)
    then record s { status = "두 암호가 일치하지 않습니다. 다시 확인해 주세요." }
    else record s {
      status = "";
      submit_disabled = true;
      sent = request_of s.setup_required s.requires_code f ∷ s.sent;
      under_way = s.under_way + 1;
    }

abbrev pub wait_text : Option ℕ → String
wait_text (some (suc n)) = "시도가 많아 잠시 제한됐습니다. " ++ decimal (suc n) ++ "초 후 다시 시도하세요."
wait_text _ = "로그인이 제한되었습니다. 잠시 후 다시 시도하세요."

abbrev or_default : String → String
or_default t = if equals t "" then "로그인하지 못했습니다. 입력을 확인해 주세요." else t

abbrev take_answer : LoginAnswer → Session → Session
take_answer (accepted token) s = enter token s
take_answer (limited retry) s = record s { status = wait_text retry }
take_answer (refused t) s = record s { status = or_default t }
take_answer (failed t) s = record s { status = t }

-- The second half, and its `finally`.
unfoldable pub answer_login : LoginAnswer → Session → Session
unfolding show_terminal
answer_login a s =
    if s.under_way == 0
    then s
    else record (take_answer a s) { submit_disabled = false; under_way = s.under_way - 1 }

abbrev is_key : Service → Bool
is_key (terminal_key k) = true
is_key _ = false

-- A button of the menu, which the hidden controls do not offer.
unfoldable pub press : ℕ → Session → Session
unfolding show_page service_of
press n s =
    if s.screen.controls
    then s
    else record s { screen = show_page n s.screen; socket = s.socket || is_key (service_of n) }

pub data Event : Type 0 where
  resumed : SessionAnswer → Event
  kept : SessionAnswer → Event
  logged_out : Bool → Event  -- whether the answer is a success or 401
  expired : Event  -- a view's request is answered by 401
  socket_closed : Event
  auth_answered : Option (Bool × Bool) → Event
  submitted : Form → Event
  login_answered : LoginAnswer → Event
  pressed : ℕ → Event
  -- `SettingsView.open` after a change that was applied or recovered, whatever page is shown then
  settings_opened : Event

unfoldable pub handle : Event → Session → Session
unfolding resume keep_session leave answer_auth submit answer_login press
handle (resumed a) s = resume a s
handle (kept a) s = keep_session a s
handle (logged_out true) s = close s
handle (logged_out false) s = s
handle expired s = leave s
handle socket_closed s = record s { socket = false }
handle (auth_answered a) s = answer_auth a s
handle (submitted f) s = submit f s
handle (login_answered a) s = answer_login a s
handle (pressed n) s = press n s
handle settings_opened s = record s { screen = record s.screen { settings = false } }

unfoldable pub run : List Event → Session → Session
unfolding handle
run [] s = s
run (e ∷ es) s = run es (handle e s)

-- The page as it is loaded.
abbrev pub initial : Session
initial = record {
  csrf = none;
  setup_required = false;
  requires_code = false;
  socket = false;
  submit_disabled = false;
  status = "";
  sent = [];
  under_way = 0;
  screen = record {
    welcome = false;
    login = true;
    controls = true;
    logout = true;
    overview = true;
    electrum = true;
    terminal = true;
    settings = true;
    device_view = true;
    heading = true;
    active = stopped;
  };
}

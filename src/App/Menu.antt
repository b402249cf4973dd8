-- ===== src/App/Menu.antt =====
-- app.js, showPage, showAuth and terminal: what is hidden, and what is started behind the page.
use justverify.Common.{
  ℕ, String, Option, List, [], ◌∷◌, Bool, true, false, not, ◌==◌, any, if◌then◌else◌, get_elem?,
}

-- What works behind a page: NodeView, SettingsView, DeviceView, or a key sent to the terminal.
pub data Service : Type 0 where
  stopped : Service
  node_view : Service
  connection : Service
  device : Service
  troubleshoot : Service
  versions : Service
  policy : Service
  terminal_key : Option String → Service

-- The `hidden` attributes, and what `showPage` or `showAuth` started last.
pub record Screen : Type 0 where
  pub welcome : Bool
  pub login : Bool
  pub controls : Bool
  pub logout : Bool
  pub overview : Bool
  pub electrum : Bool
  pub terminal : Bool
  pub settings : Bool
  pub device_view : Bool
  pub heading : Bool
  pub active : Service

-- `[…].includes(n)`
abbrev pub among : ℕ → List ℕ → Bool
among n xs = any (λ x. n == x) xs

abbrev pub function_keys : List String
function_keys =
    "" ∷ "\u{1b}OP" ∷ "\u{1b}OQ" ∷ "\u{1b}OR" ∷ "\u{1b}OS" ∷ "\u{1b}[15~" ∷ "\u{1b}[17~"
    ∷ "\u{1b}[18~" ∷ "\u{1b}[19~" ∷ "\u{1b}[20~" ∷ "\u{1b}[21~" ∷ []

-- The last line of `showPage`.
unfoldable pub service_of : ℕ → Service
service_of n =
    if n == 1
    then node_view
    else if n == 7
    then connection
    else if n == 6
    then device
    else if n == 11
    then troubleshoot
    else if n == 2
    then versions
    else if n == 3
    then policy
    else terminal_key (get_elem? function_keys n)

-- `showPage`
unfoldable pub show_page : ℕ → Screen → Screen
unfolding service_of
show_page n s = record s {
  device_view = not (among n (6 ∷ 11 ∷ []));
  overview = not (n == 1);
  electrum = not (n == 7);
  terminal = among n (1 ∷ 2 ∷ 3 ∷ 6 ∷ 7 ∷ 11 ∷ []);
  settings = not (among n (2 ∷ 3 ∷ []));
  heading = not (among n (8 ∷ 9 ∷ 10 ∷ []));
  active = service_of n;
}

-- The first line of `showAuth`; the form appears with the server's answer.
unfoldable pub show_auth : Screen → Screen
show_auth s = record s {
  heading = true;
  logout = true;
  device_view = true;
  overview = true;
  electrum = true;
  terminal = true;
  settings = true;
  welcome = false;
  controls = true;
  active = stopped;
}

-- `terminal`
unfoldable pub show_terminal : Screen → Screen
unfolding show_page
show_terminal s = show_page 1 (record s { logout = false; welcome = true; controls = false })

-- ===== src/Device.antt =====
-- web/static/device.js: the preferences of the device, what the page shows of them, the preview of the
-- background, and the operations of the settings page. Answers come in any order.
pub mod Saved
pub mod Locked
mod Tests
use justverify.Common.{
  ℕ, ◌+◌, ◌-◌, String, Option, none, some, List, [], ◌∷◌, Bool, true, false, not, ◌&&◌, ◌||◌, ◌==◌,
  if◌then◌else◌, any,
}
use justverify.I18n.Entries.{Language}
use justverify.I18n.Nodes.{is_choice, resolve}
use justverify.I18n.Strings.{equals}
use justverify.I18n.Text.{inherited}
use justverify.Rain.{Settings, defaults, Input, not_object, normalize}
use justverify.Rain.Range.{stored as input_of}

pub record Preferences : Type 0 where
  pub theme : String
  pub language : String
  pub name : String
  pub background : Settings

-- The preferences as the server or the storage gives them.
pub record Value : Type 0 where
  pub theme : String
  pub language : String
  pub name : String
  pub background : Input

-- What the page shows: the theme, the language last set, the background, and the link's language; and
-- what is stored for the next visit.
pub record Shown : Type 0 where
  pub theme : String
  pub language : String
  pub background : Settings
  pub link : Language
  pub stored : Option (String × String × Settings)

-- What stands in the view: the sliders of the settings hold a draft.
pub data Root : Type 0 where
  blank : Root
  loading : Root
  settings : Settings → Root
  trouble : Root
  notice : Root

pub record View : Type 0 where
  pub prefs : Preferences
  pub shown : Shown
  pub preferred : List (Option String)  -- the browser's languages
  pub visible : Bool
  pub root : Root
  pub busy : Bool
  pub under_way : ℕ  -- operations that await their answer
  pub opening : ℕ  -- `open` that await theirs
  pub timer : Option ℕ
  pub timers : List ℕ
  pub next_id : ℕ

-- `I18n.set` takes no notice of any other value.
abbrev set_language : String → String → String
set_language new old = if is_choice new then new else old

-- `storage` says whether the browser lets the page store.
show_prefs : Bool → List (Option String) → Preferences → Shown → Shown
show_prefs storage preferred p s = record {
  theme = p.theme;
  language = set_language p.language s.language;
  background = normalize (input_of p.background);
  link = resolve p.language preferred;
  stored = if storage then some (p.theme, p.language, p.background) else s.stored;
}

abbrev prefs_of : Value → Preferences
prefs_of v = record {
  theme = v.theme;
  language = v.language;
  name = v.name;
  background = normalize v.background;
}

-- `apply`
unfoldable pub apply : Bool → Value → View → View
unfolding show_prefs normalize resolve
apply storage value v = record v {
  prefs = prefs_of value;
  shown = show_prefs storage v.preferred (prefs_of value) v.shown;
}

abbrev preview : Settings → View → View
preview s v = record v { shown = record v.shown { background = normalize (input_of s) } }

abbrev remove : ℕ → List ℕ → List ℕ
remove i [] = []
remove i (t ∷ ts) = if t == i then remove i ts else t ∷ remove i ts

abbrev clear : Option ℕ → List ℕ → List ℕ
clear none ts = ts
clear (some i) ts = remove i ts

-- `stop`
unfoldable pub stop : View → View
unfolding normalize
stop v = preview v.prefs.background (record v { timers = clear v.timer v.timers; timer = none })

-- `render`: the sliders start from the preferences.
abbrev render : View → View
render v = record v { root = settings v.prefs.background }

-- `open`, up to its request
unfoldable pub open_view : View → View
unfolding stop
open_view v = record (stop v) { root = loading; visible = true; opening = v.opening + 1 }

abbrev arm : View → View
arm v = record v { timer = some v.next_id; timers = v.next_id ∷ v.timers; next_id = v.next_id + 1 }

abbrev opened : Bool → Option Value → View → View
opened storage none v = record v { root = notice }
opened storage (some value) v = arm (render (apply storage value v))

-- The rest of `open`; no value is an error.
unfoldable pub answer_open : Bool → Option Value → View → View
unfolding apply
answer_open storage answer v =
    if v.opening == 0 then v else opened storage answer (record v { opening = v.opening - 1 })

unfoldable pub troubleshoot : View → View
unfolding stop
troubleshoot v = record (stop v) { root = trouble; visible = true }

-- `showPage` of another page.
unfoldable pub leave : View → View
unfolding stop
leave v = record (stop v) { visible = false }

pub data Slider : Type 0 where
  brightness speed density : Slider

abbrev move : Slider → ℕ → Settings → Settings
move brightness n s = record s { brightness = n }
move speed n s = record s { speed = n }
move density n s = record s { density = n }

abbrev edit : Root → Slider → ℕ → View → View
edit (settings draft) key n v =
    preview (move key n draft) (record v { root = settings (move key n draft) })
edit blank key n v = v
edit loading key n v = v
edit trouble key n v = v
edit notice key n v = v

-- `input.oninput`; a view that is not shown has no sliders to move.
unfoldable pub slide : Slider → ℕ → View → View
unfolding normalize
slide key n v = if v.visible then edit v.root key n v else v

abbrev dismiss : Root → View → View
dismiss (settings draft) v = render (preview v.prefs.background v)
dismiss blank v = v
dismiss loading v = v
dismiss trouble v = v
dismiss notice v = v

-- The cancel button beside the sliders
unfoldable pub cancel : View → View
unfolding normalize
cancel v = if v.visible then dismiss v.root v else v

-- `run`, up to its request
unfoldable pub begin : View → View
begin v = if v.busy then v else record v { busy = true; under_way = v.under_way + 1 }

-- What an operation does with its answer: new preferences, or the preview of a change that the user is
-- to confirm; or its error.
pub data Answer : Type 0 where
  changed : Value → Answer
  planned : Answer
  failed : Answer

abbrev take_answer : Bool → Answer → View → View
take_answer storage (changed value) v = render (apply storage value v)
take_answer storage planned v = v
take_answer storage failed v = v

unfoldable pub answer_run : Bool → Answer → View → View
unfolding apply
answer_run storage a v =
    if v.under_way == 0
    then v
    else record (take_answer storage a v) { busy = false; under_way = v.under_way - 1 }

abbrev value_of : Preferences → Value
value_of p = record {
  theme = p.theme;
  language = p.language;
  name = p.name;
  background = input_of p.background;
}

-- `languagechange`: the browser's languages are others.
unfoldable pub change_language : Bool → List (Option String) → View → View
unfolding apply
change_language storage preferred v =
    let w = record v { preferred = preferred } in
    if equals v.prefs.language "auto" then apply storage (value_of v.prefs) w else w

pub data Event : Type 0 where
  opening : Event
  open_answered : Bool → Option Value → Event
  troubleshooting : Event
  left : Event
  slid : Slider → ℕ → Event
  cancelled : Event
  begun : Event
  run_answered : Bool → Answer → Event
  loaded : Bool → Value → Event  -- `loadPreferences`, at the login
  named : Bool → Value → Event  -- the dialog of the account name is answered
  remote_changed : Event  -- the dialog of the remote access is answered
  queued : Event  -- the dialog of the power is answered
  language_changed : Bool → List (Option String) → Event

unfoldable pub handle : Event → View → View
unfolding open_view answer_open troubleshoot leave slide cancel begin answer_run apply
    change_language stop
handle opening v = open_view v
handle (open_answered storage a) v = answer_open storage a v
handle troubleshooting v = troubleshoot v
handle left v = leave v
handle (slid key n) v = slide key n v
handle cancelled v = cancel v
handle begun v = begin v
handle (run_answered storage a) v = answer_run storage a v
handle (loaded storage value) v = apply storage value v
handle (named storage value) v = render (apply storage value v)
handle remote_changed v = render v
handle queued v = stop v
handle (language_changed storage preferred) v = change_language storage preferred v

unfoldable pub run : List Event → View → View
unfolding handle
run [] v = v
run (e ∷ es) v = run es (handle e v)

-- `colors[theme]`, which also finds what an object inherits
abbrev is_theme : String → Bool
is_theme t =
    equals t "teal"
    || equals t "amber"
    || equals t "green"
    || equals t "ice"
    || any (equals t) inherited

abbrev no_value : Value
no_value = record {
  theme = "teal";
  language = "auto";
  name = "justverify";
  background = not_object;
}

abbrev or_default : Option Value → Value
or_default none = no_value
or_default (some p) = if is_theme p.theme && is_choice p.language then p else no_value

blank_view : List (Option String) → View
blank_view preferred = record {
  prefs = prefs_of no_value;
  shown = record {
    theme = "";
    language = "auto";
    background = defaults;
    link = Language.en;
    stored = none;
  };
  preferred = preferred;
  visible = false;
  root = blank;
  busy = false;
  under_way = 0;
  opening = 0;
  timer = none;
  timers = [];
  next_id = 0;
}

-- The script's own steps: the stored preferences, if they are usable, are applied.
unfoldable pub load : Bool → List (Option String) → Option Value → View
unfolding apply blank_view
load storage preferred stored = apply storage (or_default stored) (blank_view preferred)

-- ===== src/Copy.antt =====
-- web/static/copy.js: the button that copies an address, its message, and the timer that clears it. The
-- clipboard answers in any order; the older way of copying answers at once.
pub mod Cleared
mod Tests
use justverify.Common.{
  ℕ, zero, suc, ◌+◌, Option, none, some, List, [], ◌∷◌, Bool, true, false, ◌&&◌, ◌==◌,
  if◌then◌else◌, String,
}
use justverify.I18n.Strings.{is_empty}

pub data Message : Type 0 where
  silent : Message
  copied : Message  -- "복사됨"
  unsupported : Message  -- "자동 복사가 지원되지 않습니다. 선택된 주소를 복사하세요."

pub record Button : Type 0 where
  pub message : Message
  pub marked : Bool  -- the class `copied`
  pub selected : Bool  -- the address has been selected for the user
  pub reset : Option ℕ
  pub timers : List ℕ
  pub next_id : ℕ
  pub writing : List String  -- the texts that wait for the clipboard

-- What the browser offers: a secure page with a clipboard, and whether `execCommand('copy')` works.
pub record Browser : Type 0 where
  pub secure : Bool
  pub clipboard : Bool
  pub exec : Bool

abbrev remove : ℕ → List ℕ → List ℕ
remove i [] = []
remove i (t ∷ ts) = if t == i then remove i ts else t ∷ remove i ts

abbrev clear : Option ℕ → List ℕ → List ℕ
clear none ts = ts
clear (some i) ts = remove i ts

abbrev message_of : Bool → Message
message_of true = copied
message_of false = unsupported

-- The end of the handler: the message, the selection where nothing was copied, and the timer.
unfoldable pub show : Bool → Button → Button
show done b = record b {
  message = message_of done;
  marked = done;
  selected = if done then b.selected else true;
  reset = some b.next_id;
  timers = b.next_id ∷ b.timers;
  next_id = b.next_id + 1;
}

-- `button.onclick`, up to its first wait
unfoldable pub click : String → Browser → Button → Button
unfolding show
click value browser b =
    let cleared = record b { timers = clear b.reset b.timers } in
    if is_empty value
    then cleared
    else if browser.secure && browser.clipboard
    then record cleared { writing = value ∷ b.writing }
    else show browser.exec cleared

abbrev without : ℕ → List String → List String
without n [] = []
without zero (t ∷ ts) = ts
without (suc n) (t ∷ ts) = t ∷ without n ts

abbrev is_there : ℕ → List String → Bool
is_there n [] = false
is_there zero (t ∷ ts) = true
is_there (suc n) (t ∷ ts) = is_there n ts

-- The clipboard's answer to the n-th wait; a failure falls back on the selected text.
unfoldable pub written : ℕ → Bool → Browser → Button → Button
unfolding show
written n ok browser b =
    if is_there n b.writing
    then show (if ok then true else browser.exec) (record b { writing = without n b.writing })
    else b

abbrev has : ℕ → List ℕ → Bool
has i [] = false
has i (t ∷ ts) = if t == i then true else has i ts

-- A timer that is set fires.
unfoldable pub fire : ℕ → Button → Button
fire i b =
    if has i b.timers
    then record b { message = silent; marked = false; timers = remove i b.timers }
    else b

pub data Event : Type 0 where
  clicked : String → Browser → Event
  answered : ℕ → Bool → Browser → Event
  fired : ℕ → Event

unfoldable pub handle : Event → Button → Button
unfolding click written fire
handle (clicked value browser) b = click value browser b
handle (answered n ok browser) b = written n ok browser b
handle (fired i) b = fire i b

unfoldable pub run : List Event → Button → Button
unfolding handle
run [] b = b
run (e ∷ es) b = run es (handle e b)

abbrev pub initial : Button
initial = record {
  message = silent;
  marked = false;
  selected = false;
  reset = none;
  timers = [];
  next_id = 0;
  writing = [];
}

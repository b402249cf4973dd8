-- ===== src/Settings/Download.antt =====
-- settings.js, watchDownload with the operation that starts a download: the page polls until the release
-- is there or the download has failed. Timers and answers come in any order.
pub mod Watched
mod Tests
use text.Mathlib.Text.{◌==◌ as str_eq}
use justverify.Common.{
  ℕ, zero, suc, ◌+◌, String, Option, none, some, List, [], ◌∷◌, Bool, true, false, ◌&&◌, ◌||◌, ◌==◌,
  if◌then◌else◌,
}

pub record Release : Type 0 where
  pub version : String
  pub downloaded : Bool

pub data Phase : Type 0 where
  downloading installing failed interrupted other_phase : Phase

-- The answer of /versions.
pub record State : Type 0 where
  pub releases : List Release
  pub phase : Phase

pub data Message : Type 0 where
  other_message : Message
  verifying : Message  -- "다운로드·서명 검증 진행 중…"
  completed : Message  -- "다운로드·검증 완료. 변경 내용을 확인하세요."
  incomplete : Message  -- "다운로드가 완료되지 않았습니다. 다시 다운로드를 선택하세요."
  failure : Message

-- A timer of the watch, with its generation.
pub record Timer : Type 0 where
  pub id : ℕ
  pub current : ℕ

pub record Page : Type 0 where
  pub visible : Bool  -- `settings-view` is not hidden
  pub generation : ℕ
  pub selection : Option String  -- the selected version
  pub message : Message
  pub poll : Option ℕ
  pub timers : List Timer
  pub requests : List ℕ  -- the generations of the requests that wait
  pub next_id : ℕ

-- `watchDownload`, up to its timer
unfoldable pub watch_download : Page → Page
watch_download p = record p {
  poll = some p.next_id;
  timers = record { id = p.next_id; current = p.generation } ∷ p.timers;
  next_id = p.next_id + 1;
}

abbrev pub remove : ℕ → List Timer → List Timer
remove i [] = []
remove i (t ∷ ts) = if t.id == i then remove i ts else t ∷ remove i ts

abbrev clear : Option ℕ → List Timer → List Timer
clear none ts = ts
clear (some i) ts = remove i ts

-- `stop`: only the last timer is cleared, and the message stays.
unfoldable pub stop : Page → Page
stop p = record p { generation = p.generation + 1; timers = clear p.poll p.timers }

-- `stop` of another page of the menu or of the logout, which hide the view.
unfoldable pub leave : Page → Page
unfolding stop
leave p = record (stop p) { visible = false }

-- `open`: `stop`, and the message of the new page.
unfoldable pub open_view : Page → Page
unfolding stop
open_view p = record (stop p) { visible = true; message = other_message }

-- The answer to the request for a download, whichever page is open by then.
unfoldable pub started : Page → Page
unfolding watch_download
started p = watch_download (record p { message = verifying })

-- Another version is selected, a setting is changed, or another answer has its message.
unfoldable pub select : Option String → Page → Page
select version p = record p { selection = version; message = other_message }

abbrev pub timer_at : ℕ → List Timer → Option Timer
timer_at n [] = none
timer_at zero (t ∷ ts) = some t
timer_at (suc n) (t ∷ ts) = timer_at n ts

abbrev pub without_timer : ℕ → List Timer → List Timer
without_timer n [] = []
without_timer zero (t ∷ ts) = ts
without_timer (suc n) (t ∷ ts) = t ∷ without_timer n ts

abbrev request_for : Option Timer → List ℕ → List ℕ
request_for none rs = rs
request_for (some t) rs = t.current ∷ rs

-- The n-th timer fires: its request goes out.
unfoldable pub fire : ℕ → Page → Page
fire n p = record p {
  timers = without_timer n p.timers;
  requests = request_for (timer_at n p.timers) p.requests;
}

abbrev is_downloaded : String → List Release → Bool
is_downloaded v [] = false
is_downloaded v (r ∷ rs) = str_eq r.version v && r.downloaded || is_downloaded v rs

abbrev has_failed : Phase → Bool
has_failed failed = true
has_failed interrupted = true
has_failed downloading = false
has_failed installing = false
has_failed other_phase = false

abbrev are_none : List Release → Bool
are_none [] = true
are_none (r ∷ rs) = false

abbrev is_under_way : Phase → Bool
is_under_way downloading = true
is_under_way installing = true
is_under_way failed = false
is_under_way interrupted = false
is_under_way other_phase = false

-- `versions`: the page that is drawn while a download is under way watches it.
unfoldable pub versions : Phase → Page → Page
unfolding watch_download
versions phase p = let watched = watch_download p in if is_under_way phase then watched else p

abbrev take_found : Bool → Phase → Page → Page
take_found found phase p =
    let drawn = record (versions phase p) { message = completed } in
    let again = watch_download (record p { message = verifying }) in
    if found then drawn else if has_failed phase then record p { message = incomplete } else again

-- Without a selection, reading its version fails at the first release.
abbrev take_state : State → Option String → Page → Page
take_state s none p =
    let rest = take_found false s.phase p in
    if are_none s.releases then rest else record p { message = failure }
take_state s (some v) p = take_found (is_downloaded v s.releases) s.phase p

-- No state is an error.
abbrev take_answer : Option State → Page → Page
take_answer none p = record p { message = failure }
take_answer (some s) p = take_state s p.selection p

-- The answer to `open` of the page of the versions.
unfoldable pub opened : Phase → Page → Page
unfolding versions
opened phase p = record (versions phase p) { message = other_message }

abbrev answer_current : Option ℕ → Option State → Page → Page
answer_current none answer p = p
answer_current (some g) answer p = if g == p.generation then take_answer answer p else p

abbrev pub nth : ℕ → List ℕ → Option ℕ
nth n [] = none
nth zero (g ∷ gs) = some g
nth (suc n) (g ∷ gs) = nth n gs

abbrev pub without : ℕ → List ℕ → List ℕ
without n [] = []
without zero (g ∷ gs) = gs
without (suc n) (g ∷ gs) = g ∷ without n gs

-- The n-th request is answered.
unfoldable pub answered : ℕ → Option State → Page → Page
unfolding watch_download versions
answered n answer p =
    answer_current (nth n p.requests) answer (record p { requests = without n p.requests })

pub data Event : Type 0 where
  opens : Event
  leaves : Event
  draws : Phase → Event  -- the answer to `open`
  starts : Event
  selects : Option String → Event
  fires : ℕ → Event
  answers : ℕ → Option State → Event

unfoldable pub handle : Event → Page → Page
unfolding open_view leave opened started select fire answered
handle opens p = open_view p
handle leaves p = leave p
handle (draws phase) p = opened phase p
handle starts p = started p
handle (selects version) p = select version p
handle (fires n) p = fire n p
handle (answers n answer) p = answered n answer p

unfoldable pub run : List Event → Page → Page
unfolding handle
run [] p = p
run (e ∷ es) p = run es (handle e p)

abbrev pub initial : Page
initial = record {
  visible = false;
  generation = 0;
  selection = none;
  message = other_message;
  poll = none;
  timers = [];
  requests = [];
  next_id = 0;
}

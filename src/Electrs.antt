-- ===== src/Electrs.antt =====
-- web/static/electrs_status.js: what the page says of the Electrum indexer, and when it says that
-- wallets may connect.
pub mod Ready
pub mod Percent
mod Tests
use Prim.Native.String.{◌++◌}
use text.Mathlib.Text.{◌==◌ as str_eq}
use justverify.Common.{
  ℕ, ◌+◌, ◌*◌, String, Option, none, some, List, [], ◌∷◌, Bool, true, false, not, ◌&&◌, ◌||◌, ltb,
  leb, if◌then◌else◌, min, Field, safe_natural, safe_positive, to_fixed2, to_locale_string,
}

-- The states that `labels` names, and any other or missing one.
pub data State : Type 0 where
  ready finalizing indexing catching_up index_error connection_error resource_error : State
  core_syncing verifying unavailable stale starting unnamed : State

pub State-discrete : Discrete State
State-discrete = hlevel

-- `labels[state] || '첫 응답 대기'`
abbrev pub label : State → String
label ready = "동기화 완료"
label finalizing = "DB 정리 중"
label indexing = "블록 인덱싱 중"
label catching_up = "최신 블록 반영 중"
label index_error = "인덱스 오류 · 점검 필요"
label connection_error = "Electrum 수신 연결 오류"
label resource_error = "파일·소켓 한도 오류"
label core_syncing = "Core 동기화 대기"
label verifying = "연결 준비 확인 중"
label unavailable = "연결 확인 필요"
label stale = "응답 대기"
label starting = "첫 응답 대기"
label unnamed = "첫 응답 대기"

abbrev pub is_ready : State → Bool
is_ready ready = true
is_ready _ = false

abbrev pub is_finalizing : State → Bool
is_finalizing finalizing = true
is_finalizing _ = false

abbrev is_stale : State → Bool
is_stale stale = true
is_stale _ = false

-- The states in which `note` has nothing to add.
abbrev is_syncing : State → Bool
is_syncing core_syncing = true
is_syncing indexing = true
is_syncing catching_up = true
is_syncing _ = false

-- The report of the node. Stamps are whole seconds; `none` is a missing one.
pub record Status : Type 0 where
  pub state : State
  pub wallet_ready : Bool
  pub height_stale : Bool
  pub target_stale : Bool
  pub rpc_updated : Option ℕ
  pub height_updated : Option ℕ
  pub height : Field
  pub target_height : Field
  pub compaction_percent_basis_points : Field
  pub rpc_error : Option String

-- `stamp > 0 && stamp <= at && at - stamp <= 15`; `at` is in milliseconds, as `Date.now()`.
abbrev recent_past : Option ℕ → ℕ → Bool
recent_past none at = false
recent_past (some s) at = ltb 0 s && leb (s * 1000) at && leb at (s * 1000 + 15000)

-- `stamp > 0 && at - stamp <= 15`: a stamp in the future passes.
abbrev recent : Option ℕ → ℕ → Bool
recent none at = false
recent (some s) at = ltb 0 s && leb at (s * 1000 + 15000)

-- `ready`
unfoldable pub wallet_open : Status → ℕ → Bool
wallet_open status at =
    wallet_ready
    && is_ready state
    && not height_stale
    && not target_stale
    && recent_past rpc_updated at
    && recent height_updated at
  where
    open status use {wallet_ready, state, height_stale, target_stale, rpc_updated, height_updated}

pub record Progress : Type 0 where
  pub percent : Option ℕ  -- in hundredths of a percent
  pub text : String
  pub state : String

-- The percentage of a database compaction.
abbrev compaction : Field → Option ℕ
compaction (Field.whole points) = if ltb points 10000 then some points else none
compaction _ = none

abbrev percent_text : Bool → String → Option ℕ → String
percent_text db heights none = "—"
percent_text true heights (some p) = "약 " ++ to_fixed2 p ++ "%"
percent_text false heights (some p) = to_fixed2 p ++ "% (" ++ heights ++ ")"

abbrev number_text : Option ℕ → String
number_text none = "—"
number_text (some n) = to_locale_string n

abbrev missing : Option ℕ → Bool
missing none = true
missing (some _) = false

-- `ratio h t` is the value of `Math.floor(h / t * 10000)` in double precision.
module _ (ratio : ℕ → ℕ → ℕ) where
  abbrev height_percent : Bool → Option ℕ → Option ℕ → Option ℕ
  height_percent done (some h) (some t) = some (min (if done then 10000 else 9999) (ratio h t))
  height_percent done _ _ = none

  unfoldable pub progress : Status → ℕ → Progress
  progress status at =
      let done = wallet_open status at in
      let db = is_finalizing status.state in
      let h = safe_natural status.height in
      let t = safe_positive status.target_height in
      let percent =
        if db then compaction status.compaction_percent_basis_points else height_percent done h t in
      record {
        percent = percent;
        text = percent_text db (number_text h ++ " / " ++ number_text t) percent;
        state = if is_ready status.state && not done then label stale else label status.state;
      }

  unfoldable pub rows : Status → ℕ → List (String × String)
  unfolding progress
  rows status at =
      let p = progress status at in
      (
        "electrs",
        if missing p.percent && not (is_finalizing status.state)
            then number_text (safe_natural status.height)
            else p.text,
      )
      ∷ ("인덱싱 상태", p.state)
      ∷ []

abbrev pub retained_note : String
retained_note = "이전에 확인한 진행률 · 자동 재확인"

abbrev pub delayed_note : String
delayed_note = "응답 대기 · 자동 재확인"

abbrev is_delayed : Option String → Bool
is_delayed none = false
is_delayed (some e) = str_eq e "Electrum response delayed"

unfoldable pub note : Status → ℕ → String
note status at =
    let done = wallet_open status at in
    if is_stale state || height_stale || target_stale || (is_ready state && not done)
    then retained_note
    else if is_finalizing state
    then ""
    else if is_syncing state || done
    then ""
    else if is_delayed rpc_error
    then delayed_note
    else ""
  where
    open status use {state, height_stale, target_stale, rpc_error}

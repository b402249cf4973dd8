-- ===== src/Core.antt =====
-- web/static/dashboard.js, CoreStatus: whether Bitcoin Core is synchronised, from one snapshot.
pub mod Evidence
pub mod Render
mod Tests
use justverify.Common.{
  ℕ, ◌+◌, ◌*◌, String, Option, none, some, List, [], ◌∷◌, Bool, true, false, not, ◌&&◌, ◌||◌, ltb,
  leb, if◌then◌else◌, Field, safe_natural,
}

pub data SyncState : Type 0 where
  syncing delayed synced : SyncState

pub SyncState-discrete : Discrete SyncState
SyncState-discrete = hlevel

-- The result of getblockchaininfo; `initialblockdownload` is `none` if it is no boolean.
pub record ChainInfo : Type 0 where
  pub initialblockdownload : Option Bool
  pub blocks : Field
  pub headers : Field

-- One sampled RPC: its stamp in seconds, whether it has an error, and its value.
pub record Sample : Type 0 where
  pub updated : Option ℕ
  pub error : Bool
  pub value : Option ChainInfo

pub record Snapshot : Type 0 where
  pub collected : Option ℕ
  pub getblockchaininfo : Option Sample

-- `Number.isFinite(stamp) && stamp > 0 && now - stamp <= 15`; `now` is in milliseconds.
abbrev pub fresh : Option ℕ → ℕ → Bool
fresh none now = false
fresh (some s) now = ltb 0 s && leb now (s * 1000 + 15000)

abbrev heights : Bool → Option ℕ → Option ℕ → SyncState
heights ibd (some blocks) (some headers) =
    if ltb headers blocks then delayed else if ibd || ltb blocks headers then syncing else synced
heights ibd _ _ = delayed

abbrev chain_state : Option Bool → Field → Field → SyncState
chain_state none blocks headers = delayed
chain_state (some ibd) blocks headers = heights ibd (safe_natural blocks) (safe_natural headers)

abbrev value_state : Option ChainInfo → SyncState
value_state none = delayed
value_state (some chain) = chain_state chain.initialblockdownload chain.blocks chain.headers

abbrev sample_state : Option Sample → ℕ → SyncState
sample_state none now = delayed
sample_state (some s) now =
    if not (fresh s.updated now) || s.error then delayed else value_state s.value

-- `CoreStatus.state`; `none` is a missing snapshot.
unfoldable pub state : Option Snapshot → ℕ → Bool → SyncState
state none now transport_failed = delayed
state (some snapshot) now transport_failed =
    if transport_failed || not (fresh snapshot.collected now)
    then delayed
    else sample_state snapshot.getblockchaininfo now

abbrev pub label : SyncState → String
label syncing = "동기화 중"
label delayed = "응답 대기"
label synced = "동기화 완료"

-- The paths of the icon of each state.
abbrev pub icon : SyncState → List String
icon syncing = "M4 10a8 8 0 0 1 14-4l3 3m0-5v5h-5" ∷ "M20 14a8 8 0 0 1-14 4l-3-3m0 5v-5h5" ∷ []
icon delayed =
    "M6 3h12M6 21h12" ∷ "M7 3v4c0 2 3 3.5 5 5-2 1.5-5 3-5 5v4M17 3v4c0 2-3 3.5-5 5 2 1.5 5 3 5 5v4"
    ∷ []
icon synced = "m5 12 4.5 4.5L19 7" ∷ []

-- The element of the page that shows the state: its mark, its icon if it has one, and its label.
pub record Target : Type 0 where
  pub sync_state : Option SyncState
  pub svg : Option (List String)
  pub sync_label : String
  pub announced : Bool

abbrev is_state : Option SyncState → SyncState → Bool
is_state (some syncing) syncing = true
is_state (some delayed) delayed = true
is_state (some synced) synced = true
is_state _ _ = false

abbrev has_svg : Option (List String) → Bool
has_svg none = false
has_svg (some _) = true

-- `CoreStatus.render`
unfoldable pub render : Target → SyncState → Target
render target value =
    if is_state target.sync_state value && has_svg target.svg then target else record {
      sync_state = some value;
      svg = some (icon value);
      sync_label = label value;
      announced = true;
    }

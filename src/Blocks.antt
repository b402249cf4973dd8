-- ===== src/Blocks.antt =====
-- web/static/dashboard.js, RecentBlocks: header snapshots are staged until the details of their
-- blocks are known, and shown as one batch.
pub mod Resolved
pub mod Deadline
pub mod Chain
mod Tests
use text.Mathlib.Text.{◌==◌ as str_eq}
use justverify.Common.{
  ℕ, ◌+◌, ◌-◌, String, Option, none, some, List, [], ◌∷◌, map, Bool, true, false, not, ◌&&◌, ◌||◌,
  leb, if◌then◌else◌, Field, safe_positive, all, any,
}

-- `miner?.status`: the four terminal ones, and any other or none.
pub data MinerStatus : Type 0 where
  identified unknown ambiguous unavailable pending : MinerStatus

pub record Miner : Type 0 where
  pub status : MinerStatus
  pub name : String

pub record Block : Type 0 where
  pub hash : String
  pub size : Field
  pub miner : Miner
  pub details_deferred : Bool

-- `terminal.has`
abbrev pub is_terminal : MinerStatus → Bool
is_terminal pending = false
is_terminal _ = true

abbrev pub is_unavailable : MinerStatus → Bool
is_unavailable unavailable = true
is_unavailable _ = false

abbrev pub is_some {ℓ} : {A : Type ℓ} → Option A → Bool
is_some none = false
is_some (some _) = true

abbrev pub has_size : Block → Bool
has_size b = is_some (safe_positive b.size)

unfoldable pub settled : Block → Bool
settled b =
    b.details_deferred
    || is_terminal b.miner.status && (has_size b || is_unavailable b.miner.status)

-- The part of a snapshot that is read: the chain's name, whether the initial download is on, and
-- the sampled list, `none` if it is no array or missing.
pub record Snapshot : Type 0 where
  pub chain : Option String
  pub initialblockdownload : Bool
  pub error : Bool
  pub recentblocks : Option (List Block)

pub record View : Type 0 where
  pub chain : Option String
  pub shown : List Block
  pub waiting_since : Option ℕ

unfoldable pub create : View
create = record { chain = none; shown = []; waiting_since = none }

-- `new Map(shown.map(b => [b.hash, b])).get(hash)`: the last block of a hash counts.
unfoldable pub previous : String → List Block → Option Block
previous hash [] = none
previous hash (b ∷ bs) = elim (previous hash bs) [
  | some found ↦ some found
  | none ↦ if str_eq b.hash hash then some b else none
]

abbrev keep_size : Block → Block → Block
keep_size old row =
    if not (has_size row) && has_size old then record row { size = old.size } else row

abbrev keep_miner : Block → Block → Block
keep_miner old row =
    if is_terminal old.miner.status
      && not (is_unavailable old.miner.status)
      && (not (is_terminal row.miner.status) || is_unavailable row.miner.status)
    then record row { miner = old.miner }
    else row

-- Never lose already resolved details for the same immutable block hash.
unfoldable pub merge : Option Block → Block → Block
merge none row = row
merge (some old) row = keep_miner old (keep_size old row)

abbrev defer : Bool → Block → Block
defer true b = record b { details_deferred = true }
defer false b = b

unfoldable pub candidate : Bool → List Block → List Block → List Block
candidate ibd shown incoming = map (λ b. merge (previous b.hash shown) (defer ibd b)) incoming

pub record Batch : Type 0 where
  pub list : List Block
  pub waiting : Bool
  pub partial : Bool

abbrev same_chain : Option String → String → Bool
same_chain none next = false
same_chain (some c) next = str_eq c next

-- `if (nextChain && chain !== nextChain)`: another network starts from nothing.
unfoldable pub change_chain : Option String → View → View
change_chain none view = view
change_chain (some next) view =
    if not (str_eq next "") && not (same_chain view.chain next)
    then record { chain = some next; shown = []; waiting_since = none }
    else view

-- `waitingSince === null` becomes the time of this update, if the batch is not complete.
abbrev begin_wait : Bool → ℕ → Option ℕ → Option ℕ
begin_wait complete now (some since) = some since
begin_wait true now none = none
begin_wait false now none = some now

abbrev is_overdue : ℕ → Option ℕ → Bool
is_overdue now none = false
is_overdue now (some since) = leb (since + 30000) now

unfoldable pub stage : ℕ → List Block → View → View × Batch
unfolding settled
stage now staged view =
    let complete = all settled staged in
    let since = begin_wait complete now view.waiting_since in
    let view' =
      if complete || is_overdue now since
      then record view { shown = staged; waiting_since = none }
      else record view { waiting_since = since } in
    (
      view',
      record {
        list = view'.shown;
        waiting = not complete;
        partial = any (λ b. not (settled b)) view'.shown;
      },
    )

abbrev pub retain : View → View × Batch
retain view = (
  view,
  record { list = view.shown; waiting = false; partial = any (λ b. not (settled b)) view.shown },
)

-- `if (!incoming.length || sample.error)`
abbrev pub receive : Bool → Bool → Option (List Block) → ℕ → View → View × Batch
receive ibd error none now view = retain view
receive ibd error (some []) now view = retain view
receive ibd true (some (b ∷ bs)) now view = retain view
receive ibd false (some (b ∷ bs)) now view = stage now (candidate ibd view.shown (b ∷ bs)) view

-- `update`; `now` is performance.now(), in milliseconds.
unfoldable pub update : Snapshot → ℕ → View → View × Batch
update s now view =
    receive s.initialblockdownload s.error s.recentblocks now (change_chain s.chain view)

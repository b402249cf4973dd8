-- ===== src/Overview.antt =====
-- web/static/dashboard.js, render: the panels of the blocks and of the peers. `list` is the batch of
-- RecentBlocks. The texts of a block's height, transactions and age are left out.
pub mod Hints
pub mod Rows
pub mod Clean
mod Tests
use Prim.Native.String.{◌++◌}
use justverify.Blocks.{
  MinerStatus, identified, unknown, ambiguous, unavailable, pending, Miner, Block, Snapshot, View,
  Batch, update,
}
use justverify.Common.{
  ℕ, ◌+◌, ◌*◌, String, Option, none, some, List, [], ◌∷◌, map, Bool, true, false, not, ◌&&◌, ◌||◌,
  ltb, leb, ◌==◌, if◌then◌else◌, Field, safe_positive, any,
}
use justverify.Format.{text}
use package.text.Mathlib.Text.{◌==◌ as str_eq}

-- One sampled method: its stamp, and whether it has an error.
pub record Sample : Type 0 where
  pub updated : Option ℕ
  pub error : Bool

pub record Peer : Type 0 where
  pub inbound : Bool
  pub addr : String
  pub subver : String

-- What the panels read. `snapshot` is what RecentBlocks reads of the same report.
pub record Report : Type 0 where
  pub snapshot : Snapshot
  pub updated : Option ℕ  -- the stamp of the list
  pub getblockchaininfo : Sample
  pub bestblockhash : Option String
  pub peers : List Peer

abbrev pub positive : Option ℕ → Bool
positive none = false
positive (some s) = ltb 0 s

-- `!!updated && !error && sampleAge <= 15`; `now` is in milliseconds.
abbrev pub is_recent : Option ℕ → ℕ → Bool
is_recent none now = false
is_recent (some s) now = ltb 0 s && leb now (s * 1000 + 15000)

unfoldable pub fresh : Sample → ℕ → Bool
fresh s now = is_recent s.updated now && not s.error

-- A panel is marked if a method of its has been sampled and is not fresh.
unfoldable pub is_stale : List Sample → ℕ → Bool
unfolding fresh
is_stale methods now = any (λ s. positive s.updated && not (fresh s now)) methods

pub data Hint : Type 0 where
  no_hint : Hint
  retained : Hint  -- "블록 목록 갱신 지연 · 이전에 확인한 블록입니다."
  deferred : Hint  -- "블록 크기·채굴 풀은 초기 동기화 완료 후 표시합니다."
  partial : Hint  -- "일부 블록 상세 정보의 조회가 지연되고 있습니다. 자동으로 다시 확인합니다."
  syncing : Hint  -- "초기 동기화 중 · 상세 정보 확인 후 목록을 갱신합니다."
  updating : Hint  -- "블록 상세 정보를 갱신하고 있습니다."

abbrev is_hash : String → Option String → Bool
is_hash hash none = false
is_hash hash (some best) = str_eq hash best

-- `list[0].hash === bestblockhash`
abbrev pub is_best : Option String → List Block → Bool
is_best best [] = false
is_best best (b ∷ bs) = is_hash b.hash best

abbrev pub is_nonempty : List Block → Bool
is_nonempty [] = false
is_nonempty (b ∷ bs) = true

unfoldable pub hint : Report → Batch → Hint
hint r batch =
    if r.snapshot.error && positive r.updated
    then retained
    else if any (λ b. b.details_deferred) batch.list || r.snapshot.initialblockdownload
    then deferred
    else if batch.partial
    then partial
    else if is_nonempty batch.list && (batch.waiting || not (is_best r.bestblockhash batch.list))
    then (if r.snapshot.initialblockdownload then syncing else updating)
    else no_hint

-- The pool of a block; the server sends the five states only.
abbrev pub pool_name : Miner → String
pool_name m = elim m.status [
  | identified ↦ m.name
  | pending ↦ "조회 지연"
  | unavailable ↦ "조회 불가"
  | ambiguous ↦ "식별 불확실"
  | unknown ↦ "알 수 없음"
]

-- `megabytes` writes a size as `(size / 1000000).toFixed(2)` does in double precision.
module _ (megabytes : ℕ → String) where
  abbrev pub size_text : Option ℕ → String
  size_text none = "— MB"
  size_text (some n) = megabytes n ++ " MB"

  pub record Card : Type 0 where
    pub hash : String
    pub details : Option (String × String)  -- the pool and the size

  abbrev pub card_of : Bool → Block → Card
  card_of ibd b = record {
    hash = text (some b.hash);
    details =
        if not b.details_deferred && not ibd
        then some (text (some (pool_name b.miner)), text (some (size_text (safe_positive b.size))))
        else none;
  }

  pub data Empty : Type 0 where
    filled : Empty
    checking : Empty  -- "블록 크기·채굴 풀을 확인하고 있습니다."
    first : Empty  -- "첫 블록 정보를 기다리고 있습니다."

  pub record Panel : Type 0 where
    pub marked : Bool
    pub hint : Hint
    pub cards : List Card
    pub empty : Empty

  abbrev empty_of : Bool → List Block → Empty
  empty_of waiting [] = if waiting then checking else first
  empty_of waiting (b ∷ bs) = filled

  abbrev panel_of : Report → ℕ → Batch → Panel
  panel_of r now batch = record {
    marked = is_stale (record { updated = r.updated; error = r.snapshot.error } ∷ []) now;
    hint = hint r batch;
    cards = map (card_of r.snapshot.initialblockdownload) batch.list;
    empty = empty_of batch.waiting batch.list;
  }

  -- The blocks of `render`: the list is updated, and shown. `clock` is the time of RecentBlocks.
  unfoldable pub blocks : Report → ℕ → ℕ → View → View × Panel
  unfolding update hint is_stale
  blocks r now clock view =
      let (next, batch) = update r.snapshot clock view in (next, panel_of r now batch)

abbrev pub direction : Bool → String
direction inbound = if inbound then "IN" else "OUT"

pub data Peers : Type 0 where
  rows : List (String × String × String) → Peers
  no_peers : Peers  -- "현재 연결된 피어가 없습니다."
  no_core : Peers  -- "Core 연결 후 피어가 표시됩니다."

abbrev pub row_of : Peer → String × String × String
row_of p = (direction p.inbound, text (some p.addr), text (some p.subver))

abbrev pub peers_of : Bool → List Peer → Peers
peers_of ok [] = if ok then no_peers else no_core
peers_of ok (p ∷ ps) = rows (map row_of (p ∷ ps))

-- The peers of `render`.
unfoldable pub peers : Report → ℕ → Peers
unfolding fresh text
peers r now = peers_of (fresh r.getblockchaininfo now) r.peers

-- ===== src/Bar.antt =====
-- web/static/mempool-integration.js: the bar over the local mempool, in the language of the page's path, and
-- device.js, apply: the path that the menu's link gets.
pub mod Link
pub mod Said
mod Tests
use text.Mathlib.Text.{◌==◌ as str_eq}
use justverify.Common.{
  ℕ, String, Option, none, some, List, [], ◌∷◌, Bool, true, false, ◌&&◌, if◌then◌else◌,
}
use justverify.I18n.Entries.{Language, ko, en, ja}
use justverify.I18n.Strings.{◌++◌, strip_prefix, is_some}

-- `location.pathname.startsWith(…)`
unfoldable pub language_of : String → Language
unfolding strip_prefix
language_of path =
    if is_some (strip_prefix "/ko/" path)
    then ko
    else if is_some (strip_prefix "/ja/" path)
    then ja
    else en

-- `'/'+(language==='en'?'en-US':language)+'/'`
unfoldable pub path_of : Language → String
path_of ko = "/ko/"
path_of en = "/en-US/"
path_of ja = "/ja/"

abbrev pub labels : Language → List (String × String)
labels ko =
    ("home", "← JustVerify")
    ∷ ("source", "소스 · AGPL")
    ∷ ("core_sync", "Bitcoin Core 블록 동기화 중")
    ∷ ("txindex", "거래 인덱스가 필요합니다. Core 설정에서 txindex를 켜고 동기화 완료를 기다려 주세요.")
    ∷ ("electrs_sync", "Electrs 인덱싱 중 · 주소 조회는 완료 후 사용할 수 있습니다")
    ∷ ("electrs_finalizing", "Electrs 인덱스 정리 중 · 주소 조회 준비 중")
    ∷ ("electrs_waiting", "Electrs 응답 대기 · 블록·거래 화면은 계속 사용할 수 있습니다")
    ∷ ("mempool_sync", "멤풀 최신 블록 갱신 중")
    ∷ ("starting", "로컬 멤풀 시작 중")
    ∷ ("waiting", "로컬 노드 연결 대기 중")
    ∷ []
labels en =
    ("home", "← JustVerify")
    ∷ ("source", "Source · AGPL")
    ∷ ("core_sync", "Bitcoin Core is synchronizing")
    ∷ (
      "txindex",
      "Enable txindex in Core settings and wait for the transaction index to synchronize.",
    )
    ∷ ("electrs_sync", "Electrs is indexing · address lookup will be available afterward")
    ∷ ("electrs_finalizing", "Electrs is finalizing its index")
    ∷ ("electrs_waiting", "Waiting for Electrs · block and transaction views remain available")
    ∷ ("mempool_sync", "Updating the latest mempool block")
    ∷ ("starting", "Starting local mempool")
    ∷ ("waiting", "Waiting for the local node")
    ∷ []
labels ja =
    ("home", "← JustVerify")
    ∷ ("source", "ソース · AGPL")
    ∷ ("core_sync", "Bitcoin Coreのブロックを同期中")
    ∷ ("txindex", "Core設定でtxindexを有効にして、取引インデックスの同期完了をお待ちください。")
    ∷ ("electrs_sync", "Electrsインデックス作成中 · アドレス検索は完了後に利用できます")
    ∷ ("electrs_finalizing", "Electrsインデックス整理中")
    ∷ ("electrs_waiting", "Electrs応答待ち · ブロック・取引画面は引き続き利用できます")
    ∷ ("mempool_sync", "メンプールの最新ブロックを更新中")
    ∷ ("starting", "ローカルメンプールを起動中")
    ∷ ("waiting", "ローカルノードの接続を待機中")
    ∷ []

-- `labels[key]`; the server sends no state that every object inherits.
unfoldable pub label : String → List (String × String) → Option String
label k [] = none
label k ((l, v) ∷ rest) = if str_eq l k then some v else label k rest

abbrev pub waiting : Language → String
waiting ko = "로컬 노드 연결 대기 중"
waiting en = "Waiting for the local node"
waiting ja = "ローカルノードの接続を待機中"

-- The answer of /justverify/status; `none` is a field that is missing.
pub record Status : Type 0 where
  pub state : Option String
  pub electrs_height : Option ℕ
  pub blocks : Option ℕ
  pub headers : Option ℕ

abbrev or_else : Option String → String → String
or_else none t = t
or_else (some s) t = s

-- `labels[s.state]||labels.waiting`
unfoldable pub label_of : Language → Option String → String
unfolding label
label_of l none = waiting l
label_of l (some s) = or_else (label s (labels l)) (waiting l)

abbrev pub is_state : String → Option String → Bool
is_state s none = false
is_state s (some t) = str_eq t s

abbrev or_same : Option ℕ → ℕ → ℕ
or_same none n = n
or_same (some h) n = h

abbrev with_counts : String → String → Option String → String
with_counts text failure none = failure
with_counts text failure (some c) = text ++ c

-- `locale` is `toLocaleString` of the browser's language.
module _ (locale : ℕ → String) where
  abbrev heights : ℕ → ℕ → String
  heights h t = " · " ++ locale h ++ " / " ++ locale t

  -- The counts of Core's synchronisation.
  abbrev core_counts : Option String → Option ℕ → Option ℕ → Option String
  core_counts state none headers = some ""
  core_counts state (some b) headers =
      if is_state "core_sync" state then some (heights b (or_same headers b)) else some ""

  -- With the height of the index; `none` is an error, of a missing state or missing blocks.
  abbrev electrs_counts : ℕ → Option String → Option ℕ → Option ℕ → Option String
  electrs_counts h none blocks headers = none
  electrs_counts h (some s) none headers =
      if is_some (strip_prefix "electrs_" s) then none else some ""
  electrs_counts h (some s) (some b) headers =
      if is_some (strip_prefix "electrs_" s)
      then some (heights h b)
      else core_counts (some s) (some b) headers

  abbrev counts : Option ℕ → Status → Option String
  counts none s = core_counts s.state s.blocks s.headers
  counts (some h) s = electrs_counts h s.state s.blocks s.headers

  -- `state.textContent` after an answer; no status is an error.
  unfoldable pub update : Language → Option Status → String
  unfolding label_of strip_prefix
  update l none = waiting l
  update l (some s) =
      if is_state "running" s.state
      then ""
      else with_counts (label_of l s.state) (waiting l) (counts s.electrs_height s)

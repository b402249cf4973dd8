-- ===== src/Wallet.antt =====
-- web/static/dashboard.js, connection with updateElectrumNotice, renderElectrumProgress and
-- refreshElectrum: the page that shows a wallet how to connect. Answers come in any order.
pub mod Heard
pub mod Shown
pub mod Current
pub mod Offered
mod Waiting
mod Tests
use Prim.Native.Char.{Char, code}
use Prim.Native.String.{[] as empty, ◌∷◌ as cons, ◌++◌}
use justverify.Common.{
  ℕ, zero, suc, ◌+◌, String, Option, none, some, List, [], ◌∷◌, Bool, true, false, not, ◌&&◌, ◌||◌,
  ◌==◌, if◌then◌else◌, Field,
}
use justverify.Electrs.{
  Status, Progress, stale, unnamed, wallet_open, progress, note, label, retained_note,
}
use justverify.I18n.Strings.{is_empty}
use justverify.Qr.{Matrix, checked, Canvas, paint, white}

pub data Network : Type 0 where
  lan tor : Network

pub data Transport : Type 0 where
  tcp tls : Transport

-- The answer of /electrum.
pub record Endpoint : Type 0 where
  pub payload : String
  pub protocol : String
  pub is_tls : Bool
  pub certificate_sha256 : String  -- "" if it is missing
  pub matrix : Matrix
  pub service_active : Bool
  pub backend_active : Bool

pub data Reply : Type 0 where
  failed : String → Reply
  answered : Endpoint → Reply

-- The text of `electrum-state`.
pub data Notice : Type 0 where
  silent asking : Notice
  error : String → Notice
  core_syncing : Notice  -- "Core 초기 동기화 중 · …"
  indexing : Notice  -- "electrs 인덱싱·연결 대기 · …"
  usable : Notice  -- "연결 서비스 실행 중 · 주소 또는 QR 이미지를 사용하세요. …"
  waiting : Notice  -- "연결 대기 · …"

-- The bar of the index and the texts beside it.
pub record Indicator : Type 0 where
  pub bar : ℕ  -- in hundredths of a percent
  pub value : String
  pub state : String
  pub note : String

pub data Help : Type 0 where
  use_tor use_tls use_plain : Help

-- What is shown of an endpoint.
pub record Card : Type 0 where
  pub address : String
  pub protocol : String
  pub port : String
  pub help : Help
  pub fingerprint : String
  pub canvas : Canvas

-- A request for the endpoint that awaits its answer, with `current`.
pub record Request : Type 0 where
  pub current : ℕ
  pub network : Network
  pub transport : Transport

pub record Page : Type 0 where
  pub generation : ℕ
  pub mode : Network
  pub transport : Transport  -- the pressed button
  pub endpoint_info : Option Endpoint
  pub electrs_snapshot : Option Status
  pub core_ibd : Bool
  pub notice : Notice
  pub indicator : Indicator
  pub details : Bool  -- `electrum-details` is shown
  pub save_link : Bool  -- `qr-save` has its image
  pub card : Card
  pub requests : List Request

-- `status = {}`
abbrev pub nothing_known : Status
nothing_known = record {
  state = unnamed;
  wallet_ready = false;
  height_stale = false;
  target_stale = false;
  rpc_updated = none;
  height_updated = none;
  height = Field.absent;
  target_height = Field.absent;
  compaction_percent_basis_points = Field.absent;
  rpc_error = none;
}

abbrev pub or_nothing : Option Status → Status
or_nothing none = nothing_known
or_nothing (some s) = s

abbrev notice_of : Bool → Bool → Endpoint → Notice
notice_of ibd ready e =
    if ibd
    then core_syncing
    else if not ready
    then indexing
    else if e.service_active && e.backend_active
    then usable
    else waiting

abbrev notice_for : Option Endpoint → Bool → Bool → Notice → Notice
notice_for none ibd ready old = old
notice_for (some e) ibd ready old = notice_of ibd ready e

-- `updateElectrumNotice`
unfoldable pub update_electrum_notice : ℕ → Page → Page
update_electrum_notice at p = record p {
  notice =
      notice_for p.endpoint_info p.core_ibd (wallet_open (or_nothing p.electrs_snapshot) at)
        p.notice;
}

abbrev or_zero : Option ℕ → ℕ
or_zero none = 0
or_zero (some n) = n

abbrev indicator_of : Progress → String → Indicator
indicator_of p n = record { bar = or_zero p.percent; value = p.text; state = p.state; note = n }

-- `renderElectrumProgress`; `ratio` is the quotient of the heights as in electrs_status.js.
unfoldable pub render_electrum_progress : (ℕ → ℕ → ℕ) → Option Status → Bool → ℕ → Page → Page
unfolding update_electrum_notice
render_electrum_progress ratio status ibd at p =
    let s = or_nothing status in
    update_electrum_notice at (record p {
      electrs_snapshot = status;
      core_ibd = ibd;
      indicator = indicator_of (progress ratio s at) (note s at);
    })

-- The answer of a round of `refreshElectrum`.
unfoldable pub refreshed : (ℕ → ℕ → ℕ) → ℕ → Option Status → Bool → ℕ → Page → Page
unfolding render_electrum_progress
refreshed ratio current status ibd at p =
    if current == p.generation then render_electrum_progress ratio status ibd at p else p

abbrev pub outdated : Status → Status
outdated s = record s { state = stale; wallet_ready = false }

-- The failure of a round.
unfoldable pub refresh_failed : ℕ → ℕ → Page → Page
unfolding update_electrum_notice
refresh_failed current at p =
    if current == p.generation
    then update_electrum_notice at (record p {
      electrs_snapshot = some (outdated (or_nothing p.electrs_snapshot));
      indicator = record p.indicator { state = label stale; note = retained_note };
    })
    else p

-- `stop`
unfoldable pub stop : Page → Page
stop p = record p { generation = p.generation + 1 }

-- `connection`, up to its request
unfoldable pub connection : Network → Transport → Page → Page
unfolding stop
connection network transport p =
    let g = p.generation + 1 in
    record (stop p) {
      mode = network;
      transport = transport;
      endpoint_info = none;
      details = false;
      notice = asking;
      save_link = false;
      requests = record { current = g; network = network; transport = transport } ∷ p.requests;
    }

-- `split(':').at(-1)`
abbrev has_colon : String → Bool
has_colon empty = false
has_colon (cons c s) = code c == 58 || has_colon s

abbrev after_colons : String → String
after_colons empty = empty
after_colons (cons c s) =
    let rest = after_colons s in if code c == 58 || has_colon s then rest else cons c s

abbrev help_of : Network → Bool → Help
help_of tor is_tls = use_tor
help_of lan true = use_tls
help_of lan false = use_plain

abbrev card_of : Network → Endpoint → List (List Bool) → Card
card_of mode e rows = record {
  address = e.payload;
  protocol = e.protocol;
  port = after_colons e.payload;
  help = help_of mode e.is_tls;
  fingerprint =
      if is_empty e.certificate_sha256 then "" else "인증서 SHA256: " ++ e.certificate_sha256;
  canvas = paint rows;
}

abbrev show_endpoint : ℕ → Endpoint → Option (List (List Bool)) → Page → Page
show_endpoint at e none p = record p { notice = error "QR 데이터를 확인할 수 없습니다." }
show_endpoint at e (some rows) p =
    record (update_electrum_notice at
      (record p { card = card_of p.mode e rows; save_link = true; endpoint_info = some e })) {
        details = true;
      }

abbrev take_reply : ℕ → Reply → Page → Page
take_reply at (failed message) p = record p { notice = error message }
take_reply at (answered e) p = show_endpoint at e (checked e.matrix) p

abbrev take_request : ℕ → ℕ → Reply → Page → Page
take_request current at reply p = if current == p.generation then take_reply at reply p else p

abbrev pub nth : ℕ → List Request → Option Request
nth n [] = none
nth zero (r ∷ rs) = some r
nth (suc n) (r ∷ rs) = nth n rs

abbrev pub without : ℕ → List Request → List Request
without n [] = []
without zero (r ∷ rs) = rs
without (suc n) (r ∷ rs) = r ∷ without n rs

-- What the server answers, whatever it is asked for.
abbrev pub Server : Type 0
Server = Network → Transport → Reply

abbrev answer_request : ℕ → Server → Option Request → Page → Page
answer_request at server none p = p
answer_request at server (some r) p = take_request r.current at (server r.network r.transport) p

-- The rest of `connection`, for the n-th request that waits.
unfoldable pub addressed : ℕ → Server → ℕ → Page → Page
unfolding update_electrum_notice
addressed n server at p =
    answer_request at server (nth n p.requests) (record p { requests = without n p.requests })

pub data Event : Type 0 where
  connects : Network → Transport → Event
  stops : Event  -- another page
  answers : ℕ → Server → ℕ → Event
  refreshes : ℕ → Option Status → Bool → ℕ → Event
  fails : ℕ → ℕ → Event

unfoldable pub handle : (ℕ → ℕ → ℕ) → Event → Page → Page
unfolding connection stop addressed refreshed refresh_failed
handle ratio (connects network transport) p = connection network transport p
handle ratio stops p = stop p
handle ratio (answers n server at) p = addressed n server at p
handle ratio (refreshes current status ibd at) p = refreshed ratio current status ibd at p
handle ratio (fails current at) p = refresh_failed current at p

unfoldable pub run : (ℕ → ℕ → ℕ) → List Event → Page → Page
unfolding handle
run ratio [] p = p
run ratio (e ∷ es) p = run ratio es (handle ratio e p)

abbrev pub initial : Page
initial = record {
  generation = 0;
  mode = lan;
  transport = tcp;
  endpoint_info = none;
  electrs_snapshot = none;
  core_ibd = false;
  notice = silent;
  indicator = record { bar = 0; value = ""; state = ""; note = "" };
  details = false;
  save_link = false;
  card = record {
    address = "";
    protocol = "";
    port = "";
    help = use_plain;
    fingerprint = "";
    canvas = white;
  };
  requests = [];
}

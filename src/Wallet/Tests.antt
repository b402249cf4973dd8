-- ===== src/Wallet/Tests.antt =====
-- A visit of the page, and the theorems at concrete inputs.
use justverify.Common.{ℕ, none, some, List, [], ◌∷◌, Bool, true, false, ◌≡◌, refl, String, Field}
use justverify.Electrs.{Status, State, wallet_open}
use justverify.Qr.{row, Matrix, matrix, checked}
use justverify.Wallet.{
  Network, lan, tor, Transport, tcp, Endpoint, failed, answered, error, indexing, usable,
  update_electrum_notice, render_electrum_progress, refreshed, refresh_failed, stop, connection,
  Server, addressed, Event, connects, answers, refreshes, fails, handle, run, initial,
}

abbrev repeat {ℓ} : {A : Type ℓ} → ℕ → A → List A
repeat ℕ.zero x = []
repeat (ℕ.suc n) x = x ∷ repeat n x

abbrev black : List (List Bool)
black = repeat 21 (repeat 21 true)

abbrev code_of : Matrix
code_of = matrix (repeat 21 (row (repeat 21 (some true))))

abbrev endpoint_of : String → Endpoint
endpoint_of address = record {
  payload = address;
  protocol = "Electrum";
  is_tls = false;
  certificate_sha256 = "";
  matrix = code_of;
  service_active = true;
  backend_active = true;
}

abbrev device : Server
device lan transport = answered (endpoint_of "192.168.0.7:50001")
device tor transport = answered (endpoint_of "abc.onion:50001")

abbrev serving : Status
serving = record {
  state = State.ready;
  wallet_ready = true;
  height_stale = false;
  target_stale = false;
  rpc_updated = some 100;
  height_updated = some 100;
  height = Field.whole 800000;
  target_height = Field.whole 800000;
  compaction_percent_basis_points = Field.absent;
  rpc_error = none;
}

abbrev exact : ℕ → ℕ → ℕ
exact h t = 10000

-- The user selects the local network and then Tor; the answers come in the wrong order.
abbrev visit : List Event
visit =
    connects lan tcp
    ∷ connects tor tcp
    ∷ answers 1 device 101000
    ∷ refreshes 1 (some serving) true 101000
    ∷ refreshes 2 (some serving) false 101000
    ∷ answers 0 device 102000
    ∷ []

abbrev later : List Event
later =
    connects tor tcp
    ∷ answers 0 device 102000
    ∷ refreshes 1 (some serving) false 101000
    ∷ fails 1 104000
    ∷ []

visit_tests :
    ((run exact visit initial).notice ≡ usable)
    × ((run exact visit initial).card.port ≡ "50001")
    × ((run exact visit initial).card.address ≡ "abc.onion:50001")
    × ((run exact later initial).notice ≡ indexing)
    × ((run exact (connects lan tcp ∷ answers 0 (λ m t. failed "x") 5 ∷ []) initial).notice
        ≡ error "x")
unfolding run handle connection stop addressed update_electrum_notice refreshed
    render_electrum_progress wallet_open refresh_failed checked
visit_tests = (refl, refl, refl, refl, refl)

-- The device promises the address of the network that it is asked for.
abbrev Promised : Network → Transport → Endpoint → Type 0
Promised network transport e = device network transport ≡ answered e

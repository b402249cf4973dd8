-- ===== src/Wallet/Shown.antt =====
-- dashboard.js, connection: what the page shows belongs to the selected network, and it offers its
-- address only when wallets can connect.
use justverify.Common.{List}
use justverify.Wallet.{Network, Transport, Endpoint, Request, Page}
use justverify.Wallet.Heard.{Heard}

-- What the server promises of its answers for a network.
module _ (P : Network → Transport → Endpoint → Type 0) where
  abbrev taken : Page → List Request → Page
  taken p rest = record p { requests = rest }

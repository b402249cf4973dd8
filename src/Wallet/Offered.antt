-- ===== src/Wallet/Offered.antt =====
-- dashboard.js, updateElectrumNotice: when the page tells the user to connect a wallet.
use justverify.Common.{ℕ, Option, none, some, true, false, ◌≡◌, refl, sym, ap, ◌∙◌, arith}
use justverify.Electrs.{Status, wallet_open}
use justverify.Wallet.{Network, Transport, Endpoint, usable, notice_of, Page}
use justverify.Wallet.Heard.{Heard, serves, is_time}
use justverify.Wallet.Current.{is_usable, face, IsFor}

-- The endpoint is there and its services run, and the last report said that the index serves wallets.
pub record IsOffered (h : Heard) (p : Page) : Type 0 where
  pub endpoint : Endpoint
  pub endpoint_eq : p.endpoint_info ≡ some endpoint
  pub visible : p.details ≡ true
  pub service : endpoint.service_active ≡ true
  pub backend : endpoint.backend_active ≡ true
  pub downloaded : h.ibd ≡ false
  pub status : Status
  pub reported : h.status ≡ some status
  pub at : ℕ
  pub timely : is_time at h ≡ true
  pub served : wallet_open status at ≡ true

record Served (o : Option Status) (at : ℕ) : Type 0 where
  status : Status
  reported : o ≡ some status
  served : wallet_open status at ≡ true

serves-Served : (o : Option Status) (at : ℕ) → serves o at ≡ true → Served o at
serves-Served none at s = absurd (ground (arith, s))
serves-Served (some status) at s = record { status = status; reported = refl; served = s }

abbrev Anything : Network → Transport → Endpoint → Type 0
Anything network transport e = Unit

offered :
    (k : Heard) (o : Option Endpoint) (p : Page)
    → p.endpoint_info ≡ o
    → IsFor Anything k o (face p)
    → p.notice ≡ usable
    → IsOffered k p
offered k none p e h u = absurd (ground (arith, h.unusable, ap is_usable u))
offered k (some e) p q (c, _) u =
    let s : is_usable (notice_of k.ibd (serves k.status c.at) e) ≡ true =
      ap is_usable (sym c.notice_eq ∙ u) in
    let r = serves-Served k.status c.at (ground (arith, s)) in
    record {
      endpoint = e;
      endpoint_eq = q;
      visible = c.details_shown;
      service = ground (arith, s);
      backend = ground (arith, s);
      downloaded = ground (arith, s);
      status = r.status;
      reported = r.reported;
      at = c.at;
      timely = c.timely;
      served = r.served;
    }

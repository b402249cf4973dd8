-- ===== src/Wallet/Current.antt =====
-- dashboard.js, connection: what the page shows of an endpoint, and that opening a page, leaving it and
-- the rounds of polling keep it.
use mathlib.Core.Path.{subst}
use justverify.Common.{
  ℕ, ◌+◌, Option, none, some, List, [], ◌∷◌, Bool, true, false, ◌==◌, ◌≡◌, inl, refl, ap, sym,
  arith, if◌then◌else◌,
}
use justverify.Electrs.{Status, wallet_open}
use justverify.Qr.{checked}
use justverify.Wallet.{
  Network, Transport, Endpoint, answered, Notice, silent, asking, error, core_syncing, indexing,
  usable, waiting, Indicator, Page, or_nothing, notice_of, notice_for, update_electrum_notice,
  render_electrum_progress, refreshed, outdated, refresh_failed, stop, connection, Card, card_of,
  Server, Event, connects, stops, answers, refreshes, fails,
}
use justverify.Wallet.Heard.{
  Heard, Seen, see, serves, is_time, Agrees, or_nothing-serves, outdated-closed, if_both,
}
use justverify.Wallet.Waiting.{Older, Single, Older-Single, Older-suc, Single-suc}

abbrev pub is_usable : Notice → Bool
is_usable usable = true
is_usable silent = false
is_usable asking = false
is_usable (error message) = false
is_usable core_syncing = false
is_usable indexing = false
is_usable waiting = false

-- What the page shows.
pub record Face : Type 0 where
  pub details : Bool
  pub save_link : Bool
  pub card : Card
  pub mode : Network
  pub transport : Transport
  pub notice : Notice

abbrev pub face : Page → Face
face p = record {
  details = p.details;
  save_link = p.save_link;
  card = p.card;
  mode = p.mode;
  transport = p.transport;
  notice = p.notice;
}

-- The details are the endpoint's, whose matrix was accepted, and the notice is the one of the last
-- report, at its time or that of an answer since.
pub record IsCurrent (h : Heard) (e : Endpoint) (f : Face) : Type 0 where
  pub details_shown : f.details ≡ true
  pub linked : f.save_link ≡ true
  pub rows : List (List Bool)
  pub accepted : checked e.matrix ≡ some rows
  pub card_eq : f.card ≡ card_of f.mode e rows
  pub at : ℕ
  pub timely : is_time at h ≡ true
  pub notice_eq : f.notice ≡ notice_of h.ibd (serves h.status at) e

pub record IsHidden (f : Face) : Type 0 where
  pub details_hidden : f.details ≡ false
  pub unlinked : f.save_link ≡ false
  pub unusable : is_usable f.notice ≡ false

-- What the server promises of its answers for a network.
module _ (P : Network → Transport → Endpoint → Type 0) where
  abbrev pub IsFor : Heard → Option Endpoint → Face → Type 0
  IsFor h none f = IsHidden f
  IsFor h (some e) f = IsCurrent h e f × P f.mode f.transport e

  abbrev pub Waits : Option Endpoint → Page → Type 0
  Waits none p = Single p.generation p.mode p.transport p.requests
  Waits (some e) p = Older p.generation p.requests

  pub record IsShown (o : Seen) (p : Page) : Type 0 where
    pub agrees : Agrees o p
    pub shown : IsFor o.heard p.endpoint_info (face p)
    pub waits : Waits p.endpoint_info p

  abbrev pub IsKept : Server → Type 0
  IsKept server = (m : Network) (t : Transport) (e : Endpoint) → server m t ≡ answered e → P m t e

  abbrev pub IsFrom : Event → Type 0
  IsFrom (answers n server at) = IsKept server
  IsFrom (connects network transport) = Unit
  IsFrom stops = Unit
  IsFrom (refreshes current status ibd at) = Unit
  IsFrom (fails current at) = Unit

  stop-Waits : (o : Option Endpoint) (p : Page) → Waits o p → Older (stop p).generation p.requests
  unfolding stop
  stop-Waits none p h = Single-suc p.generation p.mode p.transport p.requests h
  stop-Waits (some e) p h = Older-suc p.generation p.requests h

  Older-Waits : (o : Option Endpoint) (p : Page) → Older p.generation p.requests → Waits o p
  Older-Waits none p h = Older-Single p.generation p.mode p.transport p.requests h
  Older-Waits (some e) p h = h

  pub stop-IsShown : (o : Seen) (p : Page) → IsShown o p → IsShown (see stops o) (stop p)
  unfolding stop
  stop-IsShown o p h = record {
    agrees = record {
      generation = ap (◌+ 1) h.agrees.generation;
      ibd = h.agrees.ibd;
      serving = h.agrees.serving;
    };
    shown = h.shown;
    waits = Older-Waits p.endpoint_info (stop p) (stop-Waits p.endpoint_info p h.waits);
  }

  pub connection-IsShown :
      (network : Network) (transport : Transport) (o : Seen) (p : Page)
      → IsShown o p
      → IsShown (see (connects network transport) o) (connection network transport p)
  unfolding connection stop
  connection-IsShown network transport o p h = record {
    agrees = record {
      generation = ap (◌+ 1) h.agrees.generation;
      ibd = h.agrees.ibd;
      serving = h.agrees.serving;
    };
    shown = record { details_hidden = refl; unlinked = refl; unusable = refl };
    waits = inl ((refl, refl, refl), stop-Waits p.endpoint_info p h.waits);
  }

  abbrev noted : Option Endpoint → Option Status → Bool → Indicator → ℕ → Page → Page
  noted o status ibd indicator at p = record p {
    electrs_snapshot = status;
    core_ibd = ibd;
    indicator = indicator;
    notice = notice_for o ibd (wallet_open (or_nothing status) at) p.notice;
  }

  noted-IsFor :
      (h k : Heard) (o : Option Endpoint) (status : Option Status) (indicator : Indicator) (at : ℕ)
      (p : Page)
      → is_time at k ≡ true
      → wallet_open (or_nothing status) at ≡ serves k.status at
      → IsFor h o (face p)
      → IsFor k o (face (noted o status k.ibd indicator at p))
  noted-IsFor h k none status indicator at p t s c = record {
    details_hidden = c.details_hidden;
    unlinked = c.unlinked;
    unusable = c.unusable;
  }
  noted-IsFor h k (some e) status indicator at p t s (c, q) = (
    record {
      details_shown = c.details_shown;
      linked = c.linked;
      rows = c.rows;
      accepted = c.accepted;
      card_eq = c.card_eq;
      at = at;
      timely = t;
      notice_eq = ap (λ b. notice_of k.ibd b e) s;
    },
    q,
  )

  noted-Waits :
      (o q : Option Endpoint) (status : Option Status) (ibd : Bool) (indicator : Indicator) (at : ℕ)
      (p : Page)
      → Waits o p
      → Waits o (noted q status ibd indicator at p)
  noted-Waits none q status ibd indicator at p h = h
  noted-Waits (some e) q status ibd indicator at p h = h

  noted-IsShown :
      (o : Seen) (k : Heard) (status : Option Status) (ibd : Bool) (indicator : Indicator) (at : ℕ)
      (p : Page)
      → ibd ≡ k.ibd
      → is_time at k ≡ true
      → ((t : ℕ) → wallet_open (or_nothing status) t ≡ serves k.status t)
      → IsShown o p
      → IsShown (record o { heard = k }) (noted p.endpoint_info status ibd indicator at p)
  noted-IsShown o k status ibd indicator at p i t s h =
      subst (λ b. IsShown (record o { heard = k }) (noted p.endpoint_info status b indicator at p))
        (sym i)
        (record {
          agrees = record { generation = h.agrees.generation; ibd = refl; serving = s };
          shown = noted-IsFor o.heard k p.endpoint_info status indicator at p t (s at) h.shown;
          waits = noted-Waits p.endpoint_info p.endpoint_info status k.ibd indicator at p h.waits;
        })

  -- A report is taken just if it is of the present generation.
  taken-IsShown :
      (current : ℕ) (o : Seen) (k : Heard) (p q : Page)
      → p.generation ≡ o.generation
      → IsShown o p
      → IsShown (record o { heard = k }) q
      → IsShown
          (record o { heard = if current == o.generation then k else o.heard })
          (if current == p.generation then q else p)
  taken-IsShown current o k p q g h i =
      subst
        (λ n.
          IsShown (record o { heard = if current == n then k else o.heard })
            (if current == p.generation then q else p))
        g
        (if_both (λ m r. IsShown (record o { heard = m }) r) (current == p.generation) (λ _. i)
          (λ _. h))

  pub refreshed-IsShown :
      (ratio : ℕ → ℕ → ℕ) (current : ℕ) (status : Option Status) (ibd : Bool) (at : ℕ) (o : Seen)
      (p : Page)
      → IsShown o p
      → IsShown (see (refreshes current status ibd at) o) (refreshed ratio current status ibd at p)
  unfolding refreshed render_electrum_progress update_electrum_notice
  refreshed-IsShown ratio current status ibd at o p h =
      taken-IsShown current o (record { ibd = ibd; status = status; times = at ∷ [] }) p _
        h.agrees.generation h
        (noted-IsShown o (record { ibd = ibd; status = status; times = at ∷ [] }) status ibd _ at p
          refl (ground arith) (or_nothing-serves status) h)

  pub refresh_failed-IsShown :
      (current at : ℕ) (o : Seen) (p : Page)
      → IsShown o p
      → IsShown (see (fails current at) o) (refresh_failed current at p)
  unfolding refresh_failed update_electrum_notice
  refresh_failed-IsShown current at o p h =
      taken-IsShown current o (record o.heard { status = none; times = at ∷ [] }) p _
        h.agrees.generation h
        (noted-IsShown o (record o.heard { status = none; times = at ∷ [] })
          (some (outdated (or_nothing p.electrs_snapshot))) p.core_ibd _ at p h.agrees.ibd
          (ground arith) (outdated-closed (or_nothing p.electrs_snapshot)) h)

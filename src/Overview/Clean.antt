-- ===== src/Overview/Clean.antt =====
-- dashboard.js, render: what the node and its peers say is shown without the characters that are left out.
use justverify.Blocks.{Block, View, update}
use justverify.Common.{
  ℕ, String, Option, none, some, List, [], ◌∷◌, map, Bool, true, not, ◌&&◌, ◌≡◌, refl, arith,
  if_either, all, if◌then◌else◌,
}
use justverify.Common.{safe_positive}
use justverify.Format.{text}
use justverify.Format.Clean.{is_plain, strip_lem}
use justverify.I18n.Strings.{all_chars}
use justverify.Overview.{
  Report, Peer, Card, card_of, blocks, Peers, peers, row_of, direction, peers_of, fresh, pool_name,
  size_text, no_peers, no_core,
}
use justverify.Overview.Rows.{
  rows as rows_of, Fields, panels, summary_data, network_data, fees_data, system_data,
}

abbrev pub is_clean : String → Bool
is_clean s = all_chars is_plain s

text-is_clean : (o : Option String) → is_clean (text o) ≡ true
unfolding text all_chars
text-is_clean none = refl
text-is_clean (some s) = (strip_lem s).0

abbrev pub is_clean_row : String × String → Bool
is_clean_row r = is_clean r.0 && is_clean r.1

rows-clean : (es : List (String × Option String)) → all is_clean_row (rows_of es) ≡ true
unfolding rows_of
rows-clean [] = refl
rows-clean ((label, value) ∷ es) =
    ground (arith, text-is_clean (some label), text-is_clean value, rows-clean es)

abbrev pub are_clean_rows : List (String × String) → Bool
are_clean_rows rs = all is_clean_row rs

tables-clean :
    (ts : List (List (String × Option String))) → all are_clean_rows (map rows_of ts) ≡ true
tables-clean [] = refl
tables-clean (t ∷ ts) = ground (arith, rows-clean t, tables-clean ts)

panels-clean :
    {N : Type 0} (percent per_kvb : N → String) (ratio : ℕ → ℕ → ℕ) (f : Fields N) (now : ℕ)
    → all are_clean_rows (panels percent per_kvb ratio f now) ≡ true
unfolding panels
panels-clean percent per_kvb ratio f now = tables-clean (
    summary_data percent per_kvb ratio f
    ∷ network_data percent per_kvb ratio f
    ∷ fees_data percent per_kvb ratio f
    ∷ system_data percent per_kvb ratio f now
    ∷ [])

abbrev pub are_clean_details : Option (String × String) → Bool
are_clean_details none = true
are_clean_details (some r) = is_clean_row r

module _ (megabytes : ℕ → String) where
  abbrev pub is_clean_card : Card megabytes → Bool
  is_clean_card c = is_clean c.hash && are_clean_details c.details

  card-clean : (ibd : Bool) (b : Block) → is_clean_card (card_of megabytes ibd b) ≡ true
  card-clean ibd b =
      let pool = text (some (pool_name b.miner)) in
      let size = text (some (size_text megabytes (safe_positive b.size))) in
      let row : is_clean_row (pool, size) ≡ true = ground (
        arith,
        text-is_clean (some (pool_name b.miner)),
        text-is_clean (some (size_text megabytes (safe_positive b.size))),
      ) in
      let details : are_clean_details
            (if not b.details_deferred && not ibd then some (pool, size) else none)
          ≡ true =
        if_either (λ o. are_clean_details o ≡ true) (not b.details_deferred && not ibd) (λ _. row)
          (λ _. refl) in
      ground (arith, text-is_clean (some b.hash), details)

  cards-clean :
      (ibd : Bool) (bs : List Block) → all is_clean_card (map (card_of megabytes ibd) bs) ≡ true
  cards-clean ibd [] = refl
  cards-clean ibd (b ∷ bs) = ground (arith, card-clean ibd b, cards-clean ibd bs)

abbrev pub is_clean_peer : String × String × String → Bool
is_clean_peer r = is_clean r.0 && is_clean r.1 && is_clean r.2

abbrev pub are_clean_peers : Peers → Bool
are_clean_peers (Peers.rows rs) = all is_clean_peer rs
are_clean_peers no_peers = true
are_clean_peers no_core = true

peer-clean : (p : Peer) → is_clean_peer (row_of p) ≡ true
unfolding all_chars
peer-clean p =
    let side : is_clean (direction p.inbound) ≡ true =
      if_either (λ s. is_clean s ≡ true) p.inbound (λ _. refl) (λ _. refl) in
    ground (arith, side, text-is_clean (some p.addr), text-is_clean (some p.subver))

peer_rows-clean : (ps : List Peer) → all is_clean_peer (map row_of ps) ≡ true
peer_rows-clean [] = refl
peer_rows-clean (p ∷ ps) = ground (arith, peer-clean p, peer_rows-clean ps)

peers_of-clean : (ok : Bool) (ps : List Peer) → are_clean_peers (peers_of ok ps) ≡ true
peers_of-clean ok [] = if_either (λ q. are_clean_peers q ≡ true) ok (λ _. refl) (λ _. refl)
peers_of-clean ok (p ∷ ps) = peer_rows-clean (p ∷ ps)

-- Whatever the node, its index and its peers report: no character of U+0000 to U+001F, U+007F, U+202A to
-- U+202E and U+2066 to U+2069 is in a label or a value of the rows, in a hash, a pool or a size of a
-- block, or in the address or the name of a peer.
pub shown-clean :
    {N : Type 0} (percent per_kvb : N → String) (ratio : ℕ → ℕ → ℕ) (megabytes : ℕ → String)
    (f : Fields N) (r : Report) (now clock : ℕ) (view : View)
    → (all are_clean_rows (panels percent per_kvb ratio f now) ≡ true)
      × (all (is_clean_card megabytes) (blocks megabytes r now clock view).1.cards ≡ true)
      × (are_clean_peers (peers r now) ≡ true)
unfolding blocks peers
shown-clean percent per_kvb ratio megabytes f r now clock view = (
  panels-clean percent per_kvb ratio f now,
  cards-clean megabytes r.snapshot.initialblockdownload (update r.snapshot clock view).1.list,
  peers_of-clean (fresh r.getblockchaininfo now) r.peers,
)

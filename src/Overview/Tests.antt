-- ===== src/Overview/Tests.antt =====
-- Reports on the blocks, and the theorem at a concrete input.
use justverify.Blocks.{
  MinerStatus, identified, Block, View, create, update, settled, stage, candidate, merge, previous,
  change_chain,
}
use justverify.Common.{
  ℕ, String, none, some, [], ◌∷◌, Bool, true, false, ◌≡◌, refl, Field, decimal, all,
}
use justverify.Overview.{
  Report, fresh, Hint, no_hint, retained, deferred, updating, hint, blocks, is_stale, peers,
  no_peers, no_core,
}
use justverify.I18n.Strings.{equals}
use justverify.Overview.Clean.{are_clean_rows, is_clean_card, are_clean_peers, shown-clean}
use justverify.Overview.Rows.{Fields, panels}
use justverify.Wallet.{nothing_known}

abbrev block_of : MinerStatus → Block
block_of status = record {
  hash = "a";
  size = Field.whole 1500000;
  miner = record { status = status; name = "pool" };
  details_deferred = false;
}

abbrev report : Bool → Bool → String → MinerStatus → Report
report ibd error best status = record {
  snapshot = record {
    chain = some "main";
    initialblockdownload = ibd;
    error = error;
    recentblocks = some (block_of status ∷ []);
  };
  updated = some 100;
  getblockchaininfo = record { updated = some 100; error = false };
  bestblockhash = some best;
  peers = [];
}

abbrev hint_of : Report → View → Hint
hint_of r view = (blocks decimal r 101000 0 view).1.hint

abbrev filled_view : View
filled_view = (blocks decimal (report false false "a" identified) 101000 0 create).0

hint_tests :
    (hint_of (report false false "a" identified) create ≡ no_hint)
    × (hint_of (report false false "b" identified) create ≡ updating)
    × (hint_of (report true false "a" identified) filled_view ≡ deferred)
    × (hint_of (report false true "a" identified) filled_view ≡ retained)
    × (peers (report false false "a" identified) 101000 ≡ no_peers)
    × (peers (report false false "a" identified) 116000 ≡ no_core)
unfolding blocks update hint is_stale fresh settled stage candidate merge previous create peers
    change_chain equals
hint_tests = (refl, refl, refl, refl, refl, refl)

abbrev fields : Fields ℕ
fields = record {
  subversion = some "/Satoshi:30.0.0\u{202e}/";
  chain = some "main";
  blocks = some 1000;
  headers = some 1001;
  verificationprogress = none;
  initialblockdownload = some true;
  size_on_disk = none;
  uptime = some 90;
  connections = none;
  connections_in = none;
  connections_out = none;
  totalbytesrecv = none;
  totalbytessent = none;
  mempool_size = none;
  mempool_bytes = none;
  feerate = none;
  mempoolminfee = none;
  minrelaytxfee = none;
  used_memory_mib = none;
  total_memory_mib = none;
  disks = [];
  electrs = nothing_known;
}

abbrev quotient : ℕ → ℕ → ℕ
quotient h t = h

abbrev with_peer : Report
with_peer = record (report false false "a" identified) {
  peers = record { inbound = true; addr = "[::1]:8333"; subver = "\u{7}x" } ∷ [];
}

shown-clean_example :
    (all are_clean_rows (panels decimal decimal quotient fields 101000) ≡ true)
    × (all (is_clean_card decimal) (blocks decimal with_peer 101000 0 create).1.cards ≡ true)
    × (are_clean_peers (peers with_peer 101000) ≡ true)
shown-clean_example = shown-clean decimal decimal quotient decimal fields with_peer 101000 0 create

-- ===== src/Blocks/Tests.antt =====
-- The cases of tests/recent_blocks_view.cjs, and the theorems at concrete views.
use text.Mathlib.TextEquality.{eq_iff}
use justverify.Common.{
  ℕ, ◌≡◌, ◌≢◌, refl, ◌⊎◌, inr, arith, true, false, some, none, Option, List, [], ◌∷◌, String, map,
  all, Field,
}
use justverify.Blocks.{
  Block, identified, pending, Snapshot, View, create, settled, merge, previous, candidate, defer,
  change_chain, stage, update,
}
use justverify.Blocks.Deadline.{IsOn, run, Published, run_wait, update_overdue}
use justverify.Blocks.Chain.{update_new_chain}

abbrev row : String → Block
row hash = record {
  hash = hash;
  size = Field.whole 1234567;
  miner = record { status = identified; name = "Pool" };
  details_deferred = false;
}

abbrev header : String → Block
header hash = record {
  hash = hash;
  size = Field.absent;
  miner = record { status = pending; name = "" };
  details_deferred = false;
}

abbrev on : String → List Block → Snapshot
on chain list = record {
  chain = some chain;
  initialblockdownload = false;
  error = false;
  recentblocks = some list;
}

abbrev showing : List Block → Option ℕ → View
showing shown since = record { chain = some "regtest"; shown = shown; waiting_since = since }

first_load :
    ((update (on "regtest" (header "a" ∷ [])) 0 create).0 ≡ showing [] (some 0))
    × ((update (on "regtest" (row "a" ∷ [])) 100 (showing [] (some 0))).0
        ≡ showing (row "a" ∷ []) none)
unfolding update change_chain candidate merge previous stage settled create
first_load = (refl, refl)

-- Resolved details stay with their hash, and a batch with a new header waits.
details_kept :
    ((update (on "regtest" (header "b" ∷ row "a" ∷ [])) 200 (showing (row "a" ∷ []) none)).0
      ≡ showing (row "a" ∷ []) (some 200))
    × ((update
          (on "regtest" (header "b" ∷ header "a" ∷ []))
          400
          (showing (row "b" ∷ row "a" ∷ []) none)).0
        ≡ showing (row "b" ∷ row "a" ∷ []) none)
unfolding update change_chain candidate merge previous stage settled
details_kept = (refl, refl)

advancing_tip :
    ((update (on "regtest" (header "d" ∷ [])) 30999 (showing (row "b" ∷ []) (some 1000))).0
      ≡ showing (row "b" ∷ []) (some 1000))
    × ((update (on "regtest" (header "e" ∷ [])) 31000 (showing (row "b" ∷ []) (some 1000))).0
        ≡ showing (header "e" ∷ []) none)
    × ((update
          (on "regtest" (header "e" ∷ []))
          31000
          (showing (row "b" ∷ []) (some 1000))).1.partial
        ≡ true)
unfolding update change_chain candidate merge previous stage settled
advancing_tip = (refl, refl, refl)

on_regtest :
    (l : List Block) (shown : List Block) (since : Option ℕ)
    → IsOn (showing shown since) (on "regtest" l).chain
on_regtest l shown since = inr ("regtest", refl, refl)

abbrev later : List (Snapshot × ℕ)
later = (on "regtest" (header "d" ∷ []), 30999) ∷ (on "regtest" [], 31000) ∷ []

run_wait_example :
    ((run later (showing (row "b" ∷ []) (some 1000))).waiting_since ≡ some 1000)
    ⊎ Published later (showing (row "b" ∷ []) (some 1000))
run_wait_example =
    run_wait later (showing (row "b" ∷ []) (some 1000)) 1000
      (
        on_regtest (header "d" ∷ []) (row "b" ∷ []) (some 1000),
        (on_regtest [] (row "b" ∷ []) (some 1000), tt),
      )
      refl

update_overdue_example :
    let s = on "regtest" (header "e" ∷ []) in
    ((update s 31000 (showing (row "b" ∷ []) (some 1000))).0.waiting_since ≡ none)
    × ((update s 31000 (showing (row "b" ∷ []) (some 1000))).0.shown
        ≡ candidate false (row "b" ∷ []) (header "e" ∷ []))
update_overdue_example =
    update_overdue (on "regtest" (header "e" ∷ [])) 31000 1000 (showing (row "b" ∷ []) (some 1000))
      (header "e") [] (on_regtest (header "e" ∷ []) (row "b" ∷ []) (some 1000)) refl refl refl
      (omega arith)

another_name : ◌≢◌ {A = Option String} (some "regtest") (some "testnet4")
another_name = ground (arith, eq_iff "regtest" "testnet4")

not_empty : ◌≢◌ {A = String} "testnet4" ""
not_empty = ground (arith, eq_iff "testnet4" "")

update_new_chain_example :
    let s = on "testnet4" (row "other" ∷ []) in
    let view = showing (row "a" ∷ []) none in
    ((update s 32004 view).0.shown ≡ [])
    ⊎ ((incoming : List Block) × (s.recentblocks ≡ some incoming)
        × ((update s 32004 view).0.shown ≡ map (defer s.initialblockdownload) incoming)
        × (all settled (update s 32004 view).0.shown ≡ true))
update_new_chain_example =
    update_new_chain (on "testnet4" (row "other" ∷ [])) 32004 (showing (row "a" ∷ []) none)
      "testnet4" refl not_empty another_name

-- ===== src/Overview/Hints.antt =====
-- dashboard.js, render: what it means that the panel of the blocks has no hint.
use justverify.Blocks.{
  Block, MinerStatus, identified, unknown, ambiguous, unavailable, pending, Snapshot, View, Batch,
  settled, has_size, stage, receive, change_chain, update,
}
use justverify.Common.{
  ℕ, Option, none, some, List, [], ◌∷◌, Bool, true, false, not, ◌&&◌, ◌≡◌, refl, all, any, String,
}
use justverify.Overview.{
  Report, positive, Hint, no_hint, retained, deferred, partial, syncing, updating,
}

-- A batch is partial just if a block of its list is not settled.
receive-partial :
    (ibd error : Bool) (incoming : Option (List Block)) (now : ℕ) (view : View)
    → let batch = (receive ibd error incoming now view).1 in
      batch.partial ≡ any (λ b. not (settled b)) batch.list
unfolding stage
receive-partial ibd error none now view = refl
receive-partial ibd error (some []) now view = refl
receive-partial ibd true (some (b ∷ bs)) now view = refl
receive-partial ibd false (some (b ∷ bs)) now view = refl

pub update-partial :
    (s : Snapshot) (now : ℕ) (view : View)
    → let batch = (update s now view).1 in batch.partial ≡ any (λ b. not (settled b)) batch.list
unfolding update
update-partial s now view =
    receive-partial s.initialblockdownload s.error s.recentblocks now (change_chain s.chain view)

-- The look-up of the pool has ended, and the size is known unless the pool cannot be had.
abbrev pub is_looked_up : MinerStatus → Bool → Bool
is_looked_up identified sized = sized
is_looked_up unknown sized = sized
is_looked_up ambiguous sized = sized
is_looked_up unavailable sized = true
is_looked_up pending sized = false

abbrev pub has_details : Block → Bool
has_details b = not b.details_deferred && is_looked_up b.miner.status (has_size b)

-- Core is past its initial download and the list has no error; it begins with Core's best block, is
-- the batch of the report, and every block has its details.
pub record IsUpToDate (r : Report) (batch : Batch) : Type 0 where
  pub reported : (r.snapshot.error && positive r.updated) ≡ false
  pub downloaded : r.snapshot.initialblockdownload ≡ false
  pub detailed : all has_details batch.list ≡ true
  pub complete : batch.waiting ≡ false
  pub first : Block
  pub others : List Block
  pub listed : batch.list ≡ first ∷ others
  pub newest : r.bestblockhash ≡ some first.hash

record Newest (best : Option String) (bs : List Block) : Type 0 where
  first : Block
  others : List Block
  listed : bs ≡ first ∷ others
  newest : best ≡ some first.hash

abbrev pub is_no_hint : Hint → Bool
is_no_hint no_hint = true
is_no_hint retained = false
is_no_hint deferred = false
is_no_hint partial = false
is_no_hint syncing = false
is_no_hint updating = false

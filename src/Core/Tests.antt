-- ===== src/Core/Tests.antt =====
-- The cases of tests/core_status_view.cjs in outline, and the theorems at concrete snapshots.
use justverify.Common.{ℕ, ◌≡◌, refl, ◌↔◌, some, none, Bool, true, false, Field}
use justverify.Core.{syncing, delayed, synced, Snapshot, state, Target}
use justverify.Core.Evidence.{Shows, verdict, state_iff}

abbrev reported : Bool → ℕ → ℕ → Snapshot
reported ibd blocks headers = record {
  collected = some 100;
  getblockchaininfo = some (record {
    updated = some 101;
    error = false;
    value = some (record {
      initialblockdownload = some ibd;
      blocks = Field.whole blocks;
      headers = Field.whole headers;
    });
  });
}

state_tests :
    (state (some (reported false 5 5)) 105000 false ≡ synced)
    × (state (some (reported true 5 5)) 105000 false ≡ syncing)
    × (state (some (reported false 5 6)) 105000 false ≡ syncing)
    × (state (some (reported false 7 6)) 105000 false ≡ delayed)
    × (state (some (reported false 5 5)) 116000 false ≡ delayed)
    × (state (some (reported false 5 5)) 105000 true ≡ delayed)
    × (state none 105000 false ≡ delayed)
unfolding state
state_tests = (refl, refl, refl, refl, refl, refl, refl)

state_iff_example : (state (some (reported false 5 5)) 105000 false ≡ synced) ↔ (
    (ibd : Bool) × (blocks : ℕ) × (headers : ℕ) × Shows
      (reported false 5 5)
      105000
      ibd
      blocks
      headers
    × (verdict ibd blocks headers ≡ synced))
state_iff_example = state_iff (reported false 5 5) 105000 synced (λ e. cc)

abbrev empty : Target
empty = record { sync_state = none; svg = none; sync_label = ""; announced = false }

-- ===== src/Core/Render.antt =====
-- What CoreStatus.render leaves on the page.
use justverify.Common.{some, ◌≡◌, arith, true}
use justverify.Core.{SyncState, syncing, delayed, synced, Target, render, label, icon}

abbrev pub drawn : SyncState → Target
drawn v = record {
  sync_state = some v;
  svg = some (icon v);
  sync_label = label v;
  announced = true;
}

-- The page's element is consistent: what its mark names is what it shows.
abbrev pub IsDrawn : Target → Type 0
IsDrawn t =
    (v : SyncState)
    → t.sync_state ≡ some v
    → (t.svg ≡ some (icon v)) × (t.sync_label ≡ label v) × (t.announced ≡ true)

-- On a consistent element the call that is skipped leaves what the full call would draw: the mark,
-- the icon and the label of the state asked for.
pub render-drawn : (t : Target) (v : SyncState) → IsDrawn t → render t v ≡ drawn v
unfolding render
render-drawn t syncing d = ground (arith, d syncing)
render-drawn t delayed d = ground (arith, d delayed)
render-drawn t synced d = ground (arith, d synced)

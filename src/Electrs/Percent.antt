-- ===== src/Electrs/Percent.antt =====
-- Bounds of the percentage that electrs_status.js computes, and what its rows show.
use justverify.Common.{ℕ, ◌≤◌, ◌<◌, ◌-◌, ◌^◌, ◌≡◌, ◌⊎◌, some, true, arith, Field}
use justverify.Electrs.Ready.{wallet_open-ready}
use justverify.Electrs.{Status, wallet_open, progress}

-- What the percentage of the code relies on in double arithmetic: `Math.floor(h / t * 10000)` is
-- 10000 at h = t.
pub record IsRatio (ratio : ℕ → ℕ → ℕ) : Type 0 where
  pub ratio_self : (t : ℕ) → 0 < t → ratio t t ≡ 10000

module _ (ratio : ℕ → ℕ → ℕ) (s : Status) (at : ℕ) where
  -- The percentage never passes 100, and is below 100 unless the wallet service is open.
  pub percent_bound :
      (p : ℕ)
      → (progress ratio s at).percent ≡ some p
      → (p ≤ 10000) × ((wallet_open s at ≡ true) ⊎ (p ≤ 9999))
  unfolding progress
  percent_bound p h = ground arith

  -- Once the wallet service is open and the heights agree, the percentage is exactly 100.
  pub percent_complete :
      (n : ℕ)
      → IsRatio ratio
      → wallet_open s at ≡ true
      → 0 < n
      → n ≤ 2 ^ 53 - 1
      → s.height ≡ Field.whole n
      → s.target_height ≡ Field.whole n
      → (progress ratio s at).percent ≡ some 10000
  unfolding progress
  percent_complete n r o pos fits h t = ground (arith, r.ratio_self n pos, wallet_open-ready s at o)

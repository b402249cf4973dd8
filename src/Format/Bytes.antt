-- ===== src/Format/Bytes.antt =====
-- dashboard.js, bytes: sizes are shown to the nearest tenth of their unit.
use justverify.Common.{ℕ, ◌+◌, ◌*◌, ◌≤◌, ◌<◌, ◌≡◌, arith}
use justverify.Format.{Size, in_gib, in_mib, in_bytes, size, tenths, gib, mib}

-- The nearest number of tenths: twice ten times the size lies within one unit of twice the number.
abbrev pub IsNearest : ℕ → ℕ → ℕ → Type 0
IsNearest unit t v = (2 * (t * unit) ≤ 20 * v + unit) × (20 * v < 2 * (t * unit) + unit)

abbrev pub IsShown : ℕ → Size → Type 0
IsShown v (in_gib t) = (gib ≤ v) × IsNearest gib t v
IsShown v (in_mib t) = (mib ≤ v) × (v < gib) × IsNearest mib t v
IsShown v (in_bytes n) = (v < mib) × (n ≡ v)

-- A size is shown in the largest unit that it reaches, to the nearest tenth, halves upwards; below a MiB
-- it is shown exactly.
pub size-IsShown : (v : ℕ) → IsShown v (size v)
unfolding size tenths
size-IsShown v = ground arith

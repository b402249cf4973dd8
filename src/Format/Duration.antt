-- ===== src/Format/Duration.antt =====
-- dashboard.js, duration: the units are the largest ones that fit, rounded down.
use justverify.Common.{ℕ, ◌+◌, ◌*◌, ◌≤◌, ◌<◌, arith}
use justverify.Format.{Span, days, hours, minutes, seconds, span}

-- The seconds that a span stands for.
abbrev pub value : Span → ℕ
value (days d h) = d * 86400 + h * 3600
value (hours h m) = h * 3600 + m * 60
value (minutes m) = m * 60
value (seconds s) = s

-- Its smaller unit, in seconds.
abbrev pub unit : Span → ℕ
unit (days d h) = 3600
unit (hours h m) = 60
unit (minutes m) = 60
unit (seconds s) = 1

-- The larger unit is there, and the smaller one stays below it.
abbrev pub IsProper : Span → Type 0
IsProper (days d h) = (1 ≤ d) × (h < 24)
IsProper (hours h m) = (1 ≤ h) × (h < 24) × (m < 60)
IsProper (minutes m) = (1 ≤ m) × (m < 60)
IsProper (seconds s) = s < 60

-- A number of seconds is shown in proper units, and falls short of it by less than the smaller unit that
-- is shown.
pub span_bounds :
    (v : ℕ) → IsProper (span v) × (value (span v) ≤ v) × (v < value (span v) + unit (span v))
unfolding span
span_bounds v = ground arith

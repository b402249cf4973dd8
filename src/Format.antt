-- ===== src/Format.antt =====
-- web/static/dashboard.js: how NodeView writes the values of a report. `none` is null or undefined, and a
-- number of a report is a natural one.
pub mod Clean
pub mod Duration
pub mod Bytes
mod Tests
use Prim.Native.Char.{Char, code}
use Prim.Native.String.{[] as empty, ◌∷◌ as cons, ◌++◌}
use justverify.Common.{
  ℕ, ◌+◌, ◌*◌, ◌/◌, ◌%◌, ◌^◌, String, Option, none, some, Bool, true, false, not, ◌&&◌, ◌||◌, ltb,
  leb, ◌==◌, if◌then◌else◌, decimal, digit, to_locale_string,
}

-- `[\x00-\x1f\x7f\u202a-\u202e\u2066-\u2069]`: control characters, and those that turn the direction
abbrev pub is_control : Char → Bool
is_control c =
    let n = code c in leb n 31 || n == 127 || leb 8234 n && leb n 8238 || leb 8294 n && leb n 8297

-- `String(v).replace(…, '')`
unfoldable pub strip : String → String
strip empty = empty
strip (cons c s) = let rest = strip s in if is_control c then rest else cons c rest

unfoldable pub text : Option String → String
unfolding strip
text none = "—"
text (some s) = strip s

abbrev pub fmt : Option ℕ → String
fmt none = "—"
fmt (some n) = to_locale_string n

-- `(v / unit).toFixed(1)` in tenths, for a power of two `unit`: the quotient is exact in double precision
-- up to 2 ^ 53, and the larger of two nearest tenths is taken.
unfoldable pub tenths : ℕ → ℕ → ℕ
tenths v unit = (v * 20 + unit) / (2 * unit)

abbrev to_fixed1 : ℕ → String
to_fixed1 n = decimal (n / 10) ++ "." ++ digit (n % 10)

abbrev pub gib : ℕ
gib = 1073741824

abbrev pub mib : ℕ
mib = 1048576

-- What `bytes` shows: tenths of a unit, or the bytes themselves.
pub data Size : Type 0 where
  in_gib in_mib in_bytes : ℕ → Size

unfoldable pub size : ℕ → Size
size v =
    if leb gib v
    then in_gib (tenths v gib)
    else if leb mib v
    then in_mib (tenths v mib)
    else in_bytes v

abbrev show_size : Size → String
show_size (in_gib t) = to_fixed1 t ++ " GiB"
show_size (in_mib t) = to_fixed1 t ++ " MiB"
show_size (in_bytes v) = to_locale_string v ++ " B"

unfoldable pub bytes : Option ℕ → String
unfolding size tenths
bytes none = "—"
bytes (some v) = show_size (size v)

-- What `duration` shows: days and hours, hours and minutes, minutes, or seconds.
pub data Span : Type 0 where
  days : ℕ → ℕ → Span
  hours : ℕ → ℕ → Span
  minutes : ℕ → Span
  seconds : ℕ → Span

unfoldable pub span : ℕ → Span
span v =
    if leb 86400 v
    then days (v / 86400) (v % 86400 / 3600)
    else if leb 3600 v
    then hours (v / 3600) (v % 3600 / 60)
    else if leb 60 v
    then minutes (v / 60)
    else seconds v

abbrev show_span : Span → String
show_span (days d h) = decimal d ++ "일 " ++ decimal h ++ "시간"
show_span (hours h m) = decimal h ++ "시간 " ++ decimal m ++ "분"
show_span (minutes m) = decimal m ++ "분"
show_span (seconds s) = decimal s ++ "초"

-- `Math.max(0,Math.floor(v))` is the number given; a negative one is `0`.
unfoldable pub duration : Option ℕ → String
unfolding span
duration none = "—"
duration (some v) = show_span (span v)

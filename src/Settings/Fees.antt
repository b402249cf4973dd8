-- ===== src/Settings/Fees.antt =====
-- settings.js, defaultValue: a default fee in BTC/kvB is written in sat/vB, computed without fractions. A number
-- is the list of its digits, the first one first. Defaults of another type, which are written as they are, are left
-- out.
pub mod Digits
pub mod Scaled
mod Tests
use Prim.Native.Char.{code}
use Prim.Native.String.{[] as empty, ◌∷◌ as cons}
use justverify.Common.{
  ℕ, zero, suc, ◌+◌, ◌-◌, ◌*◌, ◌/◌, ◌%◌, String, Option, none, some, List, [], ◌∷◌, Bool, true,
  false, not, ◌&&◌, ltb, leb, ◌==◌, if◌then◌else◌, length, append,
}
use justverify.I18n.Strings.{is_digit}

-- The two groups of `/^(\d+)(?:\.(\d+))?$/`; a missing second one is empty.
pub record Match : Type 0 where
  pub whole : List ℕ
  pub fraction : List ℕ

abbrev prepend : ℕ → Option (List ℕ) → Option (List ℕ)
prepend d none = none
prepend d (some ds) = some (d ∷ ds)

-- Digits to the end.
unfoldable pub digits_only : String → Option (List ℕ)
digits_only empty = some []
digits_only (cons c s) =
    let rest = prepend (code c - 48) (digits_only s) in if is_digit c then rest else none

abbrev with_fraction : Option (List ℕ) → Option Match
with_fraction none = none
with_fraction (some []) = none
with_fraction (some (d ∷ ds)) = some (record { whole = []; fraction = d ∷ ds })

abbrev with_digit : ℕ → Option Match → Option Match
with_digit d none = none
with_digit d (some m) = some (record m { whole = d ∷ m.whole })

-- The flag says that a digit has been read.
unfoldable pub match_from : Bool → String → Option Match
unfolding digits_only
match_from seen empty = if seen then some (record { whole = []; fraction = [] }) else none
match_from seen (cons c s) =
    let rest = with_digit (code c - 48) (match_from true s) in
    if is_digit c
    then rest
    else if seen && code c == 46
    then with_fraction (digits_only s)
    else none

unfoldable pub match : String → Option Match
unfolding match_from
match s = match_from false s

-- `10n**BigInt(n)`
unfoldable pub pow10 : ℕ → ℕ
pow10 zero = 1
pow10 (suc n) = 10 * pow10 n

-- `BigInt(text)`: the value of the digits behind a number.
unfoldable pub value_from : ℕ → List ℕ → ℕ
value_from n [] = n
value_from n (d ∷ ds) = value_from (10 * n + d) ds

abbrev pub value : List ℕ → ℕ
value ds = value_from 0 ds

-- `String(n)`, on fuel: the digits in front of the ones given.
unfoldable pub digits_onto : ℕ → ℕ → List ℕ → List ℕ
digits_onto zero n ds = ds
digits_onto (suc f) n ds =
    let rest = digits_onto f (n / 10) ((n % 10) ∷ ds) in if ltb n 10 then n ∷ ds else rest

unfoldable pub digits : ℕ → List ℕ
unfolding digits_onto
digits n = digits_onto (suc n) n []

unfoldable pub zeros : ℕ → List ℕ → List ℕ
zeros zero ds = ds
zeros (suc n) ds = 0 ∷ zeros n ds

-- `padStart(length, '0')`
unfoldable pub pad_start : ℕ → List ℕ → List ℕ
unfolding zeros
pad_start n ds = zeros (n - length ds) ds

abbrev pub take : ℕ → List ℕ → List ℕ
take n [] = []
take zero (d ∷ ds) = []
take (suc n) (d ∷ ds) = d ∷ take n ds

abbrev pub drop : ℕ → List ℕ → List ℕ
drop n [] = []
drop zero (d ∷ ds) = d ∷ ds
drop (suc n) (d ∷ ds) = drop n ds

abbrev keep_zero : ℕ → List ℕ → List ℕ
keep_zero d [] = if d == 0 then [] else d ∷ []
keep_zero d (e ∷ ds) = d ∷ e ∷ ds

-- `replace(/\.?0+$/, '')` on the digits behind the point; with no digit left the point goes too.
unfoldable pub strip_zeros : List ℕ → List ℕ
strip_zeros [] = []
strip_zeros (d ∷ ds) = keep_zero d (strip_zeros ds)

-- The digits before and behind the point.
pub record Written : Type 0 where
  pub whole : List ℕ
  pub fraction : List ℕ

-- `s.slice(0,-power)`, `s.slice(-power)`
abbrev pub split : ℕ → List ℕ → Written
split power s = record {
  whole = take (length s - power) s;
  fraction = strip_zeros (drop (length s - power) s);
}

-- The unit is a hundred thousandth: `power` is the number of decimals beyond five.
unfoldable pub scaled : Match → Written
unfolding pow10 value_from digits pad_start strip_zeros
scaled m =
    let raw = value (append m.whole m.fraction) in
    let decimals = length m.fraction in
    if leb decimals 5
    then record { whole = digits (raw * pow10 (5 - decimals)); fraction = [] }
    else split (decimals - 5) (pad_start (decimals - 5 + 1) (digits raw))

abbrev or_empty : Option Match → Option Written
or_empty none = none
or_empty (some m) = some (scaled m)

-- `none` is the empty text, for a default that is no decimal number.
unfoldable pub default_value : String → Option Written
unfolding match scaled
default_value s = or_empty (match s)

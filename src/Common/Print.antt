-- ===== src/Common/Print.antt =====
-- Decimal text of natural numbers: `String(n)`, `toFixed(2)` of hundredths, and the grouping of
-- `toLocaleString`.
use Prim.Native.Nat.{ℕ, zero, suc, ◌/◌, ◌%◌}
use Prim.Native.String.{String, ◌++◌}
use mathlib.Core.List.{[], ◌∷◌}
use mathlib.Core.Path.{◌≡◌, refl}
use justverify.Common.Booleans.{ltb, if◌then◌else◌}
use justverify.Common.Lists.{get_or}

abbrev pub digit : ℕ → String
digit d = get_or ("0" ∷ "1" ∷ "2" ∷ "3" ∷ "4" ∷ "5" ∷ "6" ∷ "7" ∷ "8" ∷ "9" ∷ []) d "?"

unfoldable pub digits_from : ℕ → ℕ → String
digits_from zero n = ""
digits_from (suc f) n =
    let rest = digits_from f (n / 10) ++ digit (n % 10) in if ltb n 10 then digit n else rest

-- `n + 1` rounds are enough: each divides by ten.
unfoldable pub decimal : ℕ → String
unfolding digits_from
decimal n = digits_from (suc n) n

abbrev two_digits : ℕ → String
two_digits n = digit (n / 10) ++ digit (n % 10)

-- `(n / 100).toFixed(2)`
unfoldable pub to_fixed2 : ℕ → String
unfolding decimal
to_fixed2 n = decimal (n / 100) ++ "." ++ two_digits (n % 100)

grouped_from : ℕ → ℕ → String
unfolding decimal
grouped_from zero n = ""
grouped_from (suc f) n =
    let rest = grouped_from f (n / 1000) ++ "," ++ digit (n % 1000 / 100) ++ two_digits (n % 100) in
    if ltb n 1000 then decimal n else rest

-- `n.toLocaleString('ko-KR')`: groups of three digits
unfoldable pub to_locale_string : ℕ → String
unfolding grouped_from
to_locale_string n = grouped_from (suc n) n

print_tests :
    (decimal 0 ≡ "0")
    × (to_fixed2 9999 ≡ "99.99")
    × (to_fixed2 5 ≡ "0.05")
    × (to_locale_string 968197 ≡ "968,197")
    × (to_locale_string 1000007 ≡ "1,000,007")
unfolding decimal to_fixed2 to_locale_string
print_tests = (refl, refl, refl, refl, refl)

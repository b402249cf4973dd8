-- ===== src/Settings/Fees/Tests.antt =====
-- Defaults of the catalogue, and the theorems at concrete inputs.
use justverify.Common.{◌≡◌, refl, none, some, [], ◌∷◌}
use justverify.Settings.Fees.{
  pow10, value_from, digits_onto, digits, zeros, strip_zeros, Match, scaled, digits_only,
  match_from, match, pad_start, default_value,
}
use justverify.Settings.Fees.Scaled.{IsScaled, scaled-IsScaled}

default_value_tests :
    (default_value "0.00001000" ≡ some (record { whole = 1 ∷ []; fraction = [] }))
    × (default_value "0.00000100" ≡ some (record { whole = 0 ∷ []; fraction = 1 ∷ [] }))
    × (default_value "0.0001" ≡ some (record { whole = 1 ∷ 0 ∷ []; fraction = [] }))
    × (default_value "2" ≡ some (record { whole = 2 ∷ 0 ∷ 0 ∷ 0 ∷ 0 ∷ 0 ∷ []; fraction = [] }))
    × (default_value "1." ≡ none)
    × (default_value ".5" ≡ none)
    × (default_value "-1" ≡ none)
    × (default_value "" ≡ none)
unfolding default_value match match_from digits_only scaled digits digits_onto value_from pow10
    pad_start zeros strip_zeros
default_value_tests = (refl, refl, refl, refl, refl, refl, refl, refl)

abbrev relay_fee : Match
relay_fee = record { whole = 0 ∷ []; fraction = 0 ∷ 0 ∷ 0 ∷ 0 ∷ 0 ∷ 1 ∷ 5 ∷ 0 ∷ [] }

scaled-IsScaled_example : IsScaled 150 8 (scaled relay_fee)
unfolding value_from
scaled-IsScaled_example = scaled-IsScaled relay_fee

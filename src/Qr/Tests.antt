-- ===== src/Qr/Tests.antt =====
-- A code of 21 modules in each direction, with one black module.
use Prim.Native.Nat.{ℕ, zero, suc}
use justverify.Common.{none, some, List, [], ◌∷◌, Bool, true, false, ◌≡◌, ◌↔◌, refl, ◌/◌}
use justverify.Qr.{Matrix, matrix, row, checked, paint}
use justverify.Qr.Painted.{module_at, row_at, paint-pixel}
use justverify.Qr.Accepted.{encode, IsCode, checked_iff}

repeat {ℓ} : {A : Type ℓ} → ℕ → A → List A
repeat zero a = []
repeat (suc n) a = a ∷ repeat n a

abbrev code : List (List Bool)
unfolding repeat
code = (false ∷ true ∷ repeat 19 false) ∷ repeat 20 (repeat 21 false)

corner :
    (paint code 8 0 ≡ true)
    × (paint code 15 7 ≡ true)
    × (paint code 16 0 ≡ false)
    × (paint code 8 8 ≡ false)
unfolding paint code repeat
corner = (refl, refl, refl, refl)

refused_test :
    (checked (matrix (row (some true ∷ []) ∷ [])) ≡ none) × (checked Matrix.not_array ≡ none)
unfolding checked
refused_test = (refl, refl)

paint-pixel_example : paint code 8 7 ≡ module_at (row_at code (7 / 8)) (8 / 8)
paint-pixel_example = paint-pixel code 8 7

checked_iff_example :
    (checked (encode code) ≡ some code) ↔ ((encode code ≡ encode code) × IsCode code)
checked_iff_example = checked_iff (encode code) code

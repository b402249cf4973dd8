-- ===== src/Settings/Fees/Scaled.antt =====
-- settings.js, defaultValue: what is written is the default, a hundred thousand times.
use justverify.Common.{
  ℕ, ◌+◌, ◌-◌, ◌*◌, ◌≤◌, ◌<◌, List, [], ◌∷◌, leb, ◌≡◌, refl, ap, ◌∙◌, sym, arith, if_either, length,
  append,
}
use justverify.Settings.Fees.{
  pow10, value_from, value, digits, pad_start, take, drop, strip_zeros, Match, Written, split,
  scaled,
}
use justverify.Settings.Fees.Digits.{
  pow10_add, value-digits, value_from-append, value-pad_start, length-pad_start, take-drop,
  length-drop, Stripped, strip_zeros_lem,
}

append-empty : (xs : List ℕ) → append xs [] ≡ xs
append-empty [] = refl
append-empty (x ∷ xs) = ap (x ∷◌) (append-empty xs)

-- The number w is `raw` parts of ten to the `decimals`, times ten to the five.
abbrev pub IsScaled : ℕ → ℕ → Written → Type 0
IsScaled raw decimals w =
    value (append w.whole w.fraction) * pow10 decimals ≡ raw * pow10 5 * pow10 (length w.fraction)

pow10_minus : (k n : ℕ) → k ≤ n → pow10 n ≡ pow10 (n - k) * pow10 k
pow10_minus k n h =
    let split_eq : n ≡ n - k + k = omega (arith, h) in ap pow10 split_eq ∙ pow10_add (n - k) k

through : (v raw a b c : ℕ) → v ≡ raw * a → c ≡ a * b → v * b ≡ raw * c * 1
through v raw a b c p q = ap (◌* b) p ∙ rearranged ∙ ap (λ x. raw * x * 1) (sym q)
  where
    rearranged : raw * a * b ≡ raw * (a * b) * 1
    rearranged = omega arith

-- The digits of v, of which c are cut.
cut : (v w es power c : ℕ) → v ≡ w * c → power ≡ es * c → v * es ≡ w * power
cut v w es power c p q = ap (◌* es) p ∙ rearranged ∙ ap (w *◌) (sym q)
  where
    rearranged : w * c * es ≡ w * (es * c)
    rearranged = omega arith

shifted : (raw len w p five d : ℕ) → raw * len ≡ w * p → d ≡ p * five → w * d ≡ raw * five * len
shifted raw len w p five d h q = ap (w *◌) q ∙ first ∙ ap (◌* five) (sym h) ∙ second
  where
    first : w * (p * five) ≡ w * p * five
    first = omega arith

    second : raw * len * five ≡ raw * five * len
    second = omega arith

integral-IsScaled :
    (raw decimals : ℕ)
    → decimals ≤ 5
    → IsScaled raw decimals (record { whole = digits (raw * pow10 (5 - decimals)); fraction = [] })
unfolding pow10
integral-IsScaled raw decimals h =
    let p : 100000 ≡ pow10 (5 - decimals) * pow10 decimals = pow10_minus decimals 5 h in
    let xs = digits (raw * pow10 (5 - decimals)) in
    let v : value (append xs []) ≡ raw * pow10 (5 - decimals) =
      ap value (append-empty xs) ∙ value-digits (raw * pow10 (5 - decimals)) in
    through (value (append xs [])) raw (pow10 (5 - decimals)) (pow10 decimals) 100000 v p

split_lem :
    (power : ℕ) (s : List ℕ)
    → power ≤ length s
    → value s * pow10 (length ((split power s).fraction))
      ≡ value (append ((split power s).whole) ((split power s).fraction)) * pow10 power
split_lem power s h =
    let k = length s - power in
    let es = strip_zeros (drop k s) in
    let st : Stripped (drop k s) es = strip_zeros_lem (drop k s) in
    let whole : value s ≡ value_from (value (take k s)) es * pow10 st.count =
      ap value (sym (take-drop k s))
      ∙ value_from-append 0 (take k s) (drop k s)
      ∙ st.value_eq (value (take k s)) in
    let lengths : power ≡ length es + st.count = omega (arith, length-drop k s, st.length_eq, h) in
    let powers : pow10 power ≡ pow10 (length es) * pow10 st.count =
      ap pow10 lengths ∙ pow10_add (length es) st.count in
    cut (value s) (value (append (take k s) es)) (pow10 (length es)) (pow10 power) (pow10 st.count)
      (whole ∙ ap (◌* pow10 st.count) (sym (value_from-append 0 (take k s) es))) powers

fractional-IsScaled :
    (raw decimals : ℕ)
    → 5 < decimals
    → IsScaled raw decimals (split (decimals - 5) (pad_start (decimals - 5 + 1) (digits raw)))
fractional-IsScaled raw decimals h =
    let s = pad_start (decimals - 5 + 1) (digits raw) in
    let v : value s ≡ raw = value-pad_start (decimals - 5 + 1) (digits raw) ∙ value-digits raw in
    let enough : decimals - 5 ≤ length s =
      omega (arith, length-pad_start (decimals - 5 + 1) (digits raw)) in
    let w = split (decimals - 5) s in
    shifted raw (pow10 (length w.fraction)) (value (append w.whole w.fraction))
      (pow10 (decimals - 5)) (pow10 5) (pow10 decimals)
      (ap (◌* pow10 (length w.fraction)) (sym v) ∙ split_lem (decimals - 5) s enough)
      (pow10_minus 5 decimals (omega (arith, h)))

-- Whatever the digits of a default, the number that is written, read with its point, is the default a
-- hundred thousand times, exactly: without rounding, and whatever zeros are cut.
pub scaled-IsScaled :
    (m : Match) → IsScaled (value (append m.whole m.fraction)) (length m.fraction) (scaled m)
unfolding scaled
scaled-IsScaled m =
    let raw = value (append m.whole m.fraction) in
    let decimals = length m.fraction in
    if_either (IsScaled raw decimals) (leb decimals 5)
      (λ t. integral-IsScaled raw decimals (ground arith))
      (λ t. fractional-IsScaled raw decimals (ground arith))

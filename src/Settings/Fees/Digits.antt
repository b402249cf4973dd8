-- ===== src/Settings/Fees/Digits.antt =====
-- settings.js: the value of digits, and what printing, padding, cutting and stripping do to it.
use justverify.Common.{
  ℕ, zero, suc, ◌+◌, ◌-◌, ◌*◌, ◌/◌, ◌%◌, ◌≤◌, ◌<◌, List, [], ◌∷◌, ltb, ◌==◌, ◌≡◌, refl, ap, ◌∙◌,
  arith, if_either, length, append,
}
use justverify.Settings.Fees.{
  pow10, value_from, value, digits_onto, digits, zeros, pad_start, take, drop, strip_zeros,
  keep_zero,
}

pub pow10_add : (a b : ℕ) → pow10 (a + b) ≡ pow10 a * pow10 b
unfolding pow10
pow10_add zero b = ground arith
pow10_add (suc a) b = grind (arith, pow10_add a b)

pub value_from_lem : (n : ℕ) (ds : List ℕ) → value_from n ds ≡ n * pow10 (length ds) + value ds
unfolding value_from pow10
value_from_lem n [] = omega arith
value_from_lem n (d ∷ ds) =
    grind (arith, value_from_lem (10 * n + d) ds, value_from_lem (10 * 0 + d) ds)

-- The fuel is enough: each round divides by ten.
digits_onto_lem : (f n : ℕ) (ds : List ℕ) → n < f → value (digits_onto f n ds) ≡ value_from n ds
unfolding digits_onto value_from
digits_onto_lem zero n ds h = absurd (omega arith)
digits_onto_lem (suc f) n ds h =
    if_either (λ xs. value xs ≡ value_from n ds) (ltb n 10)
      (λ t. ap (λ k. value_from k ds) (omega arith))
      (λ t.
        digits_onto_lem f (n / 10) ((n % 10) ∷ ds) (ground arith)
        ∙ ap (λ k. value_from k ds) (omega arith))

-- The rounds that are given to the printing of a number are enough for every number: its digits have the
-- value of the number.
pub value-digits : (n : ℕ) → value (digits n) ≡ n
unfolding digits value_from
value-digits n = digits_onto_lem (suc n) n [] (omega arith)

pub value_from-append :
    (n : ℕ) (xs ys : List ℕ) → value_from n (append xs ys) ≡ value_from (value_from n xs) ys
unfolding value_from
value_from-append n [] ys = refl
value_from-append n (x ∷ xs) ys = value_from-append (10 * n + x) xs ys

value-zeros : (n : ℕ) (ds : List ℕ) → value (zeros n ds) ≡ value ds
unfolding zeros value_from
value-zeros zero ds = refl
value-zeros (suc n) ds = value-zeros n ds

length-zeros : (n : ℕ) (ds : List ℕ) → length (zeros n ds) ≡ n + length ds
unfolding zeros
length-zeros zero ds = omega arith
length-zeros (suc n) ds = omega (arith, length-zeros n ds)

pub value-pad_start : (n : ℕ) (ds : List ℕ) → value (pad_start n ds) ≡ value ds
unfolding pad_start
value-pad_start n ds = value-zeros (n - length ds) ds

pub length-pad_start : (n : ℕ) (ds : List ℕ) → n ≤ length (pad_start n ds)
unfolding pad_start
length-pad_start n ds = omega (arith, length-zeros (n - length ds) ds)

pub take-drop : (n : ℕ) (ds : List ℕ) → append (take n ds) (drop n ds) ≡ ds
take-drop zero [] = refl
take-drop (suc n) [] = refl
take-drop zero (d ∷ ds) = refl
take-drop (suc n) (d ∷ ds) = ap (d ∷◌) (take-drop n ds)

pub length-drop : (n : ℕ) (ds : List ℕ) → length (drop n ds) ≡ length ds - n
length-drop zero [] = omega arith
length-drop (suc n) [] = omega arith
length-drop zero (d ∷ ds) = omega arith
length-drop (suc n) (d ∷ ds) = omega (arith, length-drop n ds)

-- Digits that lack just some zeros at their end.
pub record Stripped (ds es : List ℕ) : Type 0 where
  pub count : ℕ
  pub length_eq : length ds ≡ length es + count
  pub value_eq : (n : ℕ) → value_from n ds ≡ value_from n es * pow10 count

keep_zero-Stripped : (d : ℕ) (ds es : List ℕ) → Stripped ds es → Stripped (d ∷ ds) (keep_zero d es)
unfolding value_from pow10
keep_zero-Stripped d ds [] h =
    if_either (Stripped (d ∷ ds)) (d == 0)
      (λ t. record {
        count = suc h.count;
        length_eq = omega (arith, h.length_eq);
        value_eq = λ n. grind (arith, h.value_eq (10 * n + d));
      })
      (λ t. record {
        count = h.count;
        length_eq = omega (arith, h.length_eq);
        value_eq = λ n. h.value_eq (10 * n + d);
      })
keep_zero-Stripped d ds (e ∷ es) h = record {
  count = h.count;
  length_eq = omega (arith, h.length_eq);
  value_eq = λ n. h.value_eq (10 * n + d);
}

pub strip_zeros_lem : (ds : List ℕ) → Stripped ds (strip_zeros ds)
unfolding strip_zeros value_from pow10
strip_zeros_lem [] = record { count = 0; length_eq = omega arith; value_eq = λ n. omega arith }
strip_zeros_lem (d ∷ ds) = keep_zero-Stripped d ds (strip_zeros ds) (strip_zeros_lem ds)

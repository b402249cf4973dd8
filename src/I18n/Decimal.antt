-- ===== src/I18n/Decimal.antt =====
-- The decimal text of a number is a text of digits, as the patterns of i18n.js want it.
use Prim.Native.String.{
  [], ◌∷◌, ◌++◌ as joined, append.nil as append_nil, append.cons as append_cons,
}
use justverify.Common.{
  ℕ, zero, suc, ◌<◌, ◌%◌, ◌/◌, String, true, false, ◌≡◌, refl, ap, ◌∙◌, arith, if_either, decimal,
  ltb, ltb→lt, digits_from, digit,
}
use justverify.I18n.Strings.{all_chars, is_digit, is_empty}
use justverify.I18n.Patterns.{is_digits}

all_chars-joined :
    (s t : String)
    → all_chars is_digit s ≡ true
    → all_chars is_digit t ≡ true
    → all_chars is_digit (joined s t) ≡ true
unfolding all_chars
all_chars-joined [] t h k = ap (all_chars is_digit) (λ i. append_nil t i) ∙ k
all_chars-joined (c ∷ s) t h k =
    ap (all_chars is_digit) (λ i. append_cons c s t i)
    ∙ ground (arith, h, all_chars-joined s t (ground (arith, h)) k)

is_empty-joined : (s t : String) → is_empty t ≡ false → is_empty (joined s t) ≡ false
is_empty-joined [] t h = ap is_empty (λ i. append_nil t i) ∙ h
is_empty-joined (c ∷ s) t h = ap is_empty (λ i. append_cons c s t i)

is_digits-joined :
    (s t : String)
    → all_chars is_digit s ≡ true
    → is_digits t ≡ true
    → is_digits (joined s t) ≡ true
unfolding is_digits
is_digits-joined s t h k =
    ground
      (arith, is_empty-joined s t (ground (arith, k)), all_chars-joined s t h (ground (arith, k)))

digit-is_digits : (d : ℕ) → d < 10 → is_digits (digit d) ≡ true
unfolding is_digits
digit-is_digits zero h = refl
digit-is_digits (suc zero) h = refl
digit-is_digits (suc (suc zero)) h = refl
digit-is_digits (suc (suc (suc zero))) h = refl
digit-is_digits (suc (suc (suc (suc zero)))) h = refl
digit-is_digits (suc (suc (suc (suc (suc zero))))) h = refl
digit-is_digits (suc (suc (suc (suc (suc (suc zero)))))) h = refl
digit-is_digits (suc (suc (suc (suc (suc (suc (suc zero))))))) h = refl
digit-is_digits (suc (suc (suc (suc (suc (suc (suc (suc zero)))))))) h = refl
digit-is_digits (suc (suc (suc (suc (suc (suc (suc (suc (suc zero))))))))) h = refl
digit-is_digits (suc (suc (suc (suc (suc (suc (suc (suc (suc (suc n)))))))))) h =
    absurd (ground (arith, h))

all_of_digits : (s : String) → is_digits s ≡ true → all_chars is_digit s ≡ true
unfolding is_digits
all_of_digits s h = ground (arith, h)

abbrev IsText : String → Type 0
IsText s = is_digits s ≡ true

digits_from-is_digits : (f n : ℕ) → is_digits (digits_from (suc f) n) ≡ true
unfolding digits_from all_chars
digits_from-is_digits zero n =
    if_either IsText (ltb n 10) (λ h. digit-is_digits n (ltb→lt n 10 h))
      (λ _. is_digits-joined "" (digit (n % 10)) refl (digit-is_digits (n % 10) (ground arith)))
digits_from-is_digits (suc f) n =
    if_either IsText (ltb n 10) (λ h. digit-is_digits n (ltb→lt n 10 h))
      (λ _.
        is_digits-joined (digits_from (suc f) (n / 10)) (digit (n % 10))
          (all_of_digits (digits_from (suc f) (n / 10)) (digits_from-is_digits f (n / 10)))
          (digit-is_digits (n % 10) (ground arith)))

pub decimal-is_digits : (n : ℕ) → is_digits (decimal n) ≡ true
unfolding decimal
decimal-is_digits n = digits_from-is_digits n n

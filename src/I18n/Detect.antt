-- ===== src/I18n/Detect.antt =====
-- i18n.js, `detect`: the first preferred language of the browser that the page has.
use Prim.Native.Char.{code}
use Prim.Native.String.{[] as empty, ◌∷◌ as cons}
use justverify.Common.{
  ℕ, String, Option, none, some, List, [], ◌∷◌, Bool, true, false, ◌&&◌, ◌||◌, ◌==◌, ◌+◌, leb,
  if◌then◌else◌, all, append, ◌≡◌, refl, ap, ◌∙◌, arith,
}
use justverify.I18n.Entries.{Language, ko, en, ja}
use justverify.I18n.Strings.{trim, trim_start, trim_end, is_space, ◌++◌}
use justverify.I18n.Numbers.{glue, trim_end-append}

-- `toLowerCase`, on the characters whose lower case is a letter of a language's code: the capital letters
-- and the sign of Kelvin.
abbrev lower : ℕ → ℕ
lower n = if leb 65 n && leb n 90 then n + 32 else if n == 8490 then 107 else n

-- `….replaceAll('_','-').split('-')[0]`
unfoldable pub base : String → List ℕ
base empty = []
base (cons c s) =
    let rest = base s in let n = code c in if n == 45 || n == 95 then [] else lower n ∷ rest

abbrev same : List ℕ → List ℕ → Bool
same [] [] = true
same [] (y ∷ ys) = false
same (x ∷ xs) [] = false
same (x ∷ xs) (y ∷ ys) = x == y && same xs ys

abbrev pub supported : List ℕ → Option Language
supported b =
    if same b (107 ∷ 111 ∷ [])
    then some ko
    else if same b (101 ∷ 110 ∷ [])
    then some en
    else if same b (106 ∷ 97 ∷ [])
    then some ja
    else none

-- The language of a locale; what is no string has none.
unfoldable pub language_of : Option String → Option Language
unfolding base trim
language_of none = none
language_of (some s) = supported (base (trim s))

abbrev or_rest : Option Language → Language → Language
or_rest (some l) rest = l
or_rest none rest = rest

unfoldable pub detect : List (Option String) → Language
detect [] = en
detect (t ∷ ts) = or_rest (language_of t) (detect ts)

abbrev is_none {ℓ} : {A : Type ℓ} → Option A → Bool
is_none none = true
is_none (some a) = false

-- Whatever precedes it without being a language of the page, the first locale that is one decides.
pub detect-append :
    (xs ys : List (Option String)) (t : Option String) (l : Language)
    → all (λ x. is_none (language_of x)) xs ≡ true
    → language_of t ≡ some l
    → detect (append xs (t ∷ ys)) ≡ l
unfolding detect
detect-append [] ys t l h k = ap (λ o. or_rest o (detect ys)) k
detect-append (x ∷ xs) ys t l h k = ground (arith, detect-append xs ys t l (ground (arith, h)) k, h)

abbrev pub code_of : Language → String
code_of ko = "ko"
code_of en = "en"
code_of ja = "ja"

abbrev capitals : Language → String
capitals ko = "KO"
capitals en = "EN"
capitals ja = "JA"

-- What is behind the code and its separator does not count.
hyphen_lem : (l : Language) (y : String) → supported (base (glue (code_of l ++ "-") y)) ≡ some l
unfolding base is_space ◌++◌
hyphen_lem ko empty = refl
hyphen_lem ko (cons c s) = refl
hyphen_lem en empty = refl
hyphen_lem en (cons c s) = refl
hyphen_lem ja empty = refl
hyphen_lem ja (cons c s) = refl

underscore_lem :
    (l : Language) (y : String) → supported (base (glue (capitals l ++ "_") y)) ≡ some l
unfolding base is_space ◌++◌
underscore_lem ko empty = refl
underscore_lem ko (cons c s) = refl
underscore_lem en empty = refl
underscore_lem en (cons c s) = refl
underscore_lem ja empty = refl
underscore_lem ja (cons c s) = refl

glued :
    (p x : String) (l : Language)
    → trim_start (p ++ x) ≡ p ++ x
    → supported (base (glue p (trim_end x))) ≡ some l
    → language_of (some (p ++ x)) ≡ some l
unfolding language_of trim
glued p x l h k =
    ap (λ s. supported (base (trim_end s))) h
    ∙ ap (λ s. supported (base s)) (trim_end-append p x)
    ∙ k

hyphen_start :
    (l : Language) (x : String) → trim_start ((code_of l ++ "-") ++ x) ≡ (code_of l ++ "-") ++ x
unfolding trim_start ◌++◌ is_space
hyphen_start ko x = refl
hyphen_start en x = refl
hyphen_start ja x = refl

underscore_start :
    (l : Language) (x : String) → trim_start ((capitals l ++ "_") ++ x) ≡ (capitals l ++ "_") ++ x
unfolding trim_start ◌++◌ is_space
underscore_start ko x = refl
underscore_start en x = refl
underscore_start ja x = refl

-- A locale is of its language whatever its region, separated by a hyphen or, in capitals, by a low line.
pub language_of-region :
    (l : Language) (region : String)
    → (language_of (some ((code_of l ++ "-") ++ region)) ≡ some l)
      × (language_of (some ((capitals l ++ "_") ++ region)) ≡ some l)
language_of-region l region = (
  glued (code_of l ++ "-") region l (hyphen_start l region) (hyphen_lem l (trim_end region)),
  glued (capitals l ++ "_") region l (underscore_start l region)
      (underscore_lem l (trim_end region)),
)

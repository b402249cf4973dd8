-- ===== src/I18n/Patterns.antt =====
-- i18n.js, `loginWait` and `patterns`: texts that are a number between two fixed parts.
use Prim.Native.Char.{code}
use justverify.Common.{
  String, Option, none, some, List, [], ◌∷◌, Bool, true, false, not, ◌&&◌, ◌||◌, ◌==◌,
  if◌then◌else◌,
}
use justverify.I18n.Entries.{Language, ko, en, ja}
use justverify.I18n.Strings.{◌++◌, count, is_digit, all_chars, is_empty, between, bind}

-- `\d+`, `\d+\.\d{2}` and `[\d,]+`
unfoldable pub is_digits : String → Bool
unfolding all_chars
is_digits s = not (is_empty s) && all_chars is_digit s

-- The part behind the point.
abbrev pub is_two : String → Bool
unfolding count all_chars
is_two s = count s == 2 && all_chars is_digit s

unfoldable pub is_fixed2 : Bool → String → Bool
unfolding all_chars
is_fixed2 seen String.[] = false
is_fixed2 seen (String.◌∷◌ c s) =
    let rest = is_fixed2 true s in if is_digit c then rest else seen && code c == 46 && is_two s

unfoldable pub is_grouped : String → Bool
unfolding all_chars
is_grouped s = not (is_empty s) && all_chars (λ c. is_digit c || code c == 44) s

-- `^before(…)after$` and what replaces it: the number stands between the two new texts.
pub record Pattern : Type 0 where
  pub before : String
  pub after : String
  pub accepts : String → Bool
  pub new_before : Language → String
  pub new_after : Language → String

abbrev pub by_language : String → String → Language → String
by_language e j ko = ""
by_language e j en = e
by_language e j ja = j

abbrev pub login_wait : Pattern
login_wait = record {
  before = "시도가 많아 잠시 제한됐습니다. ";
  after = "초 후 다시 시도하세요.";
  accepts = is_digits;
  new_before = by_language "Too many attempts. Try again in " "試行回数が多すぎます。";
  new_after = by_language " seconds." "秒後にもう一度お試しください。";
}

abbrev pub about_percent : Pattern
about_percent = record {
  before = "약 ";
  after = "%";
  accepts = is_fixed2 false;
  new_before = by_language "≈ " "約 ";
  new_after = by_language "%" "%";
}

abbrev pub last_observed : Pattern
last_observed = record {
  before = "마지막 확인 · ";
  after = "초 전";
  accepts = is_digits;
  new_before = by_language "Last observed · " "最終取得・";
  new_after = by_language "s ago" "秒前";
}

abbrev pub live : Pattern
live = record {
  before = "● 실시간 · ";
  after = "초 전";
  accepts = is_digits;
  new_before = by_language "● Live · " "● リアルタイム・";
  new_after = by_language "s ago" "秒前";
}

abbrev pub block : Pattern
block = record {
  before = "블록 ";
  after = "";
  accepts = is_grouped;
  new_before = by_language "Block " "ブロック ";
  new_after = by_language "" "";
}

abbrev pub patterns : List Pattern
patterns = login_wait ∷ about_percent ∷ last_observed ∷ live ∷ block ∷ []

abbrev pub guard : Bool → String → Option String
guard true s = some s
guard false s = none

-- The number, where the text is of the pattern.
unfoldable pub number_of : Pattern → String → Option String
unfolding between
number_of p s = bind (between p.before p.after s) (λ d. guard (p.accepts d) d)

-- The first match is the answer.
abbrev pub first_of : Option String → (String → String) → Option String → Option String
first_of none f other = other
first_of (some d) f other = some (f d)

unfoldable pub rewrite_first : List Pattern → Language → String → Option String
rewrite_first [] l s = none
rewrite_first (p ∷ ps) l s =
    first_of (number_of p s) (λ d. p.new_before l ++ d ++ p.new_after l) (rewrite_first ps l s)

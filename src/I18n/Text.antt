-- ===== src/I18n/Text.antt =====
-- i18n.js, `text`: the translation of one text of the page.
use Prim.Native.Nat.{◌-◌}
use justverify.Common.{
  ℕ, String, Option, none, some, List, [], ◌∷◌, Bool, true, false, ◌&&◌, ◌||◌, if◌then◌else◌, any,
  zero, suc,
}
use justverify.I18n.Entries.{Language, ko, en, ja, Entry, entry, source, translation}
use justverify.I18n.Strings.{
  ◌++◌, count, is_digit, trim, strip_prefix, is_some, strip_suffix, replace_first, replace_from,
  replace_all, includes, equals,
}
use justverify.I18n.Messages.{messages}
use justverify.I18n.Patterns.{by_language, patterns, rewrite_first}

unfoldable pub lookup : String → List Entry → Option Entry
unfolding equals
lookup k [] = none
lookup k (e ∷ es) = if equals (source e) k then some e else lookup k es

-- `messages` is an object, whose missing keys are looked up in `Object.prototype`. What is found there
-- has no translation.
abbrev pub inherited : List String
inherited =
    "constructor" ∷ "toString" ∷ "toLocaleString" ∷ "valueOf" ∷ "hasOwnProperty" ∷ "isPrototypeOf"
    ∷ "propertyIsEnumerable" ∷ "__proto__" ∷ "__defineGetter__" ∷ "__defineSetter__"
    ∷ "__lookupGetter__" ∷ "__lookupSetter__" ∷ []

-- What `messages[trimmed]` and `entry[language]` give.
abbrev pub found : Option Entry → Language → String → Option String
unfolding equals
found (some e) l k = some (translation l e)
found none l k = if any (equals k) inherited then some "undefined" else none

-- `replace(/(\d+)unit/g, '$1new')`: the flag says that a digit has just been read, and `k` characters
-- of the unit are left to be skipped.
unit_from : String → String → ℕ → Bool → String → String
unfolding strip_prefix ◌++◌ count
unit_from u new k digit String.[] = ""
unit_from u new (suc k) digit (String.◌∷◌ c s) = unit_from u new k false s
unit_from u new zero digit (String.◌∷◌ c s) =
    elim (digit && is_some (strip_prefix u (String.◌∷◌ c s))) [
      | true ↦ new ++ unit_from u new (count u - 1) false s
      | false ↦ String.◌∷◌ c (unit_from u new zero (is_digit c) s)
    ]

abbrev units : List String
units = "일" ∷ "시간" ∷ "분" ∷ "초" ∷ []

has_unit : Bool → String → Bool
unfolding strip_prefix
has_unit digit String.[] = false
has_unit digit (String.◌∷◌ c s) =
    digit && any (λ u. is_some (strip_prefix u (String.◌∷◌ c s))) units || has_unit (is_digit c) s

-- `replace(/ 전$/, …)`
abbrev ago : Language → String → String
unfolding strip_suffix ◌++◌
ago l s = elim (strip_suffix " 전" s) [ some t ↦ t ++ by_language " ago" "前" l | none ↦ s ]

durations : Language → String → String
unfolding unit_from strip_suffix
durations l s = ago l (
    unit_from "초" (by_language "s" "秒" l) zero false (
      unit_from "분" (by_language "m" "分" l) zero false (
        unit_from "시간" (by_language "h" "時間" l) zero false
          (unit_from "일" (by_language "d" "日" l) zero false s))))

abbrev pub phrases : List Entry
phrases =
    entry "참고용 기본값: " "Preference default: " "参考用の初期値: "
    ∷ entry "JustVerify 기본값: " "JustVerify default: " "JustVerify初期値: "
    ∷ entry "기존 기본값: " "Previous default: " "以前の初期値: "
    ∷ entry "Core 기본값: " "Core default: " "Core既定値: "
    ∷ entry "기본값: " "Default: " "既定値: "
    ∷ entry "지정값: " "Custom: " "指定値: "
    ∷ entry "저장된 요청값: " "Saved request: " "保存された要求値: "
    ∷ entry "입력 범위: " "Range: " "入力範囲: "
    ∷ entry "현재 실행: " "Running: " "実行中: "
    ∷ entry "선택한 버전: " "Selected version: " "選択したバージョン: "
    ∷ entry "현재 사용 · " "Active · " "使用中・"
    ∷ entry "저장하면 Core와 관련 서비스를 재시작합니다." "Saving restarts Core and related services."
        "保存するとCoreと関連サービスを再起動します。"
    ∷ entry " 선택됨 · 아래에서 변경 내용을 확인하세요." " selected · review the changes below."
        " 選択済み・以下で変更内容を確認してください。"
    ∷ entry "인증서 SHA256: " "Certificate SHA256: " "証明書SHA256: "
    ∷ []

replace_phrases : List Entry → Language → String → String
unfolding replace_from
replace_phrases [] l s = s
replace_phrases (e ∷ es) l s = replace_phrases es l (replace_all (source e) (translation l e) s)

abbrev use_default : String
use_default = "기본값 사용"

abbrev or_same : Option Entry → Language → String → String
or_same none l s = s
or_same (some e) l s = translation l e

unfoldable pub defaults : Language → String → String
unfolding includes replace_from lookup
defaults l s =
    if includes use_default s
    then replace_all use_default (or_same (lookup use_default messages) l use_default) s
    else s

unfoldable pub dynamic : Language → String → String
unfolding has_unit durations replace_phrases defaults
dynamic l s = defaults l (replace_phrases phrases l (if has_unit false s then durations l s else s))

abbrev pub or_else : Option String → String → String
or_else (some s) t = s
or_else none t = t

abbrev pub translated : Language → Option String → String → String
translated l (some t) s = replace_first (trim s) t s
translated l none s = or_else (rewrite_first patterns l s) (dynamic l s)

-- What `translated` replaces in the text.
abbrev pub entry_of : Language → String → Option String
entry_of l s = found (lookup (trim s) messages) l (trim s)

unfoldable pub text : Language → String → String
unfolding lookup trim replace_first rewrite_first dynamic
text ko s = s
text en s = translated en (entry_of en s) s
text ja s = translated ja (entry_of ja s) s

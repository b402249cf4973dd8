-- ===== src/I18n/Strings.antt =====
-- What i18n.js uses of the strings of the language, on `String` as a list of characters.
use Prim.Native.Nat.{ℕ, zero, suc, ◌-◌}
use Prim.Native.Char.{Char, code}
use Prim.Native.String.{String, [], ◌∷◌}
use justverify.Common.{Option, none, some, Bool, true, false, ◌&&◌, ◌||◌, leb, ◌==◌, if◌then◌else◌}

-- Concatenation and the number of characters, which compute on any text.
infixr 65 ◌++◌
unfoldable pub ◌++◌ : String → String → String
[] ++ t = t
(c ∷ s) ++ t = c ∷ (s ++ t)

unfoldable pub count : String → ℕ
count [] = 0
count (c ∷ s) = suc (count s)

-- White space and line ends of ECMAScript.
unfoldable pub is_space_code : ℕ → Bool
is_space_code n =
    leb 9 n && leb n 13
    || n == 32
    || n == 160
    || n == 5760
    || leb 8192 n && leb n 8202
    || n == 8232
    || n == 8233
    || n == 8239
    || n == 8287
    || n == 12288
    || n == 65279

unfoldable pub is_space : Char → Bool
unfolding is_space_code
is_space c = is_space_code (code c)

abbrev pub is_digit : Char → Bool
is_digit c = leb 48 (code c) && leb (code c) 57

unfoldable pub all_chars : (Char → Bool) → String → Bool
all_chars p [] = true
all_chars p (c ∷ s) = p c && all_chars p s

abbrev pub is_empty : String → Bool
is_empty [] = true
is_empty (c ∷ s) = false

unfoldable pub trim_start : String → String
trim_start [] = []
trim_start (c ∷ s) = if is_space c then trim_start s else c ∷ s

-- A space is dropped where nothing is left behind it.
abbrev pub keep : Char → String → String
keep c [] = if is_space c then [] else c ∷ []
keep c (d ∷ s) = c ∷ d ∷ s

unfoldable pub trim_end : String → String
trim_end [] = []
trim_end (c ∷ s) = keep c (trim_end s)

unfoldable pub trim : String → String
unfolding trim_start trim_end
trim s = trim_end (trim_start s)

-- What follows the prefix.
unfoldable pub strip_prefix : String → String → Option String
strip_prefix [] s = some s
strip_prefix (c ∷ p) [] = none
strip_prefix (c ∷ p) (d ∷ s) = if code c == code d then strip_prefix p s else none

abbrev pub is_some {ℓ} : {A : Type ℓ} → Option A → Bool
is_some none = false
is_some (some a) = true

unfoldable pub equals : String → String → Bool
equals [] [] = true
equals [] (d ∷ t) = false
equals (c ∷ s) [] = false
equals (c ∷ s) (d ∷ t) = code c == code d && equals s t

abbrev onto : Char → Option String → Option String
onto c none = none
onto c (some s) = some (c ∷ s)

-- What precedes the suffix.
unfoldable pub strip_suffix : String → String → Option String
unfolding equals
strip_suffix p [] = if is_empty p then some [] else none
strip_suffix p (c ∷ s) = if equals p (c ∷ s) then some [] else onto c (strip_suffix p s)

abbrev pub bind : Option String → (String → Option String) → Option String
bind none f = none
bind (some s) f = f s

-- `^prefix(…)suffix$`
unfoldable pub between : String → String → String → Option String
unfolding strip_prefix strip_suffix
between p q s = bind (strip_prefix p s) (strip_suffix q)

abbrev pub or_replaced : Option String → String → String → String
or_replaced none new other = other
or_replaced (some rest) new other = new ++ rest

-- `value.replace(old, new)`: the first occurrence
unfoldable pub replace_first : String → String → String → String
unfolding strip_prefix
replace_first old new [] = or_replaced (strip_prefix old []) new []
replace_first old new (c ∷ s) =
    or_replaced (strip_prefix old (c ∷ s)) new (c ∷ replace_first old new s)

-- `value.split(old).join(new)`, `replaceAll`: `k` characters of an occurrence are left to be skipped.
unfoldable pub replace_from : String → String → ℕ → String → String
unfolding strip_prefix ◌++◌ count
replace_from old new k [] = []
replace_from old new (suc k) (c ∷ s) = replace_from old new k s
replace_from old new zero (c ∷ s) = elim (is_some (strip_prefix old (c ∷ s))) [
  | true ↦ new ++ replace_from old new (count old - 1) s
  | false ↦ c ∷ replace_from old new zero s
]

abbrev pub replace_all : String → String → String → String
replace_all old new s = replace_from old new zero s

-- `value.includes(part)`
unfoldable pub includes : String → String → Bool
unfolding strip_prefix
includes part [] = is_empty part
includes part (c ∷ s) = is_some (strip_prefix part (c ∷ s)) || includes part s

-- ===== src/Format/Clean.antt =====
-- dashboard.js, text: which characters the page leaves out of what it writes.
use Prim.Native.Char.{Char, code}
use Prim.Native.String.{[] as empty, ◌∷◌ as cons}
use justverify.Common.{
  String, Bool, true, false, not, ◌&&◌, ◌||◌, leb, ◌≡◌, refl, ap, ◌∙◌, arith, if_either,
}
use justverify.I18n.Strings.{all_chars}
use justverify.Format.{is_control, strip}

-- A character outside U+0000 to U+001F, U+007F, U+202A to U+202E and U+2066 to U+2069.
abbrev pub is_plain : Char → Bool
is_plain c =
    leb 32 (code c) && leb (code c) 126
    || leb 128 (code c) && leb (code c) 8233
    || leb 8239 (code c) && leb (code c) 8293
    || leb 8298 (code c)

is_plain-is_control : (c : Char) → is_plain c ≡ not (is_control c)
is_plain-is_control c = ground arith

-- A text is written as a subsequence of its characters.
pub data Kept : String → String → Type 0 where
  done : Kept empty empty
  keep : {c : Char} {s t : String} → is_plain c ≡ true → Kept s t → Kept (cons c s) (cons c t)
  drop : {c : Char} {s t : String} → is_plain c ≡ false → Kept s t → Kept (cons c s) t

abbrev IsClean : String → Type 0
IsClean s = all_chars is_plain s ≡ true

strip-IsClean : (s : String) → IsClean (strip s)
unfolding strip all_chars
strip-IsClean empty = refl
strip-IsClean (cons c s) =
    if_either IsClean (is_control c) (λ h. strip-IsClean s)
      (λ h. ground (arith, is_plain-is_control c, h, strip-IsClean s))

strip-Kept : (s : String) → Kept s (strip s)
unfolding strip
strip-Kept empty = done
strip-Kept (cons c s) =
    if_either (Kept (cons c s)) (is_control c)
      (λ h. drop (is_plain-is_control c ∙ ap not h) (strip-Kept s))
      (λ h. keep (is_plain-is_control c ∙ ap not h) (strip-Kept s))

-- What the page shows of a text of the node or of a peer is the text without its characters of U+0000 to
-- U+001F, U+007F, U+202A to U+202E and U+2066 to U+2069: none of those is left, and no other is missing.
pub strip_lem : (s : String) → (all_chars is_plain (strip s) ≡ true) × Kept s (strip s)
strip_lem s = (strip-IsClean s, strip-Kept s)

-- ===== src/I18n/Trim.antt =====
-- i18n.js: `trim` cuts white space at both ends, and the first occurrence of what is left is there.
use Prim.Native.Char.{Char, code}
use Prim.Native.String.{[], ◌∷◌}
use justverify.Common.{
  String, some, true, false, ◌==◌, ◌≡◌, refl, ap, sym, ◌∙◌, ◌&&◌, Bool-cases, ==_iff, inl, inr,
  arith, if_either, ◌⊎◌,
}
use justverify.I18n.Strings.{
  ◌++◌, is_space, is_space_code, all_chars, trim_start, trim_end, keep, trim, strip_prefix,
  or_replaced, replace_first, is_empty,
}

abbrev pub IsBlank : String → Type 0
IsBlank s = all_chars is_space s ≡ true

-- The text starts with a character that is no space.
abbrev pub IsFirm : String → Type 0
IsFirm [] = ⊥
IsFirm (c ∷ s) = is_space c ≡ false

pub record Split (s : String) : Type 0 where
  pub lead : String
  pub tail : String
  pub split_eq : s ≡ lead ++ trim s ++ tail
  pub lead_blank : IsBlank lead
  pub tail_blank : IsBlank tail

pub strip_prefix-append : (t b : String) → strip_prefix t (t ++ b) ≡ some b
unfolding strip_prefix ◌++◌
strip_prefix-append [] b = refl
strip_prefix-append (c ∷ t) b = ground (arith, strip_prefix-append t b)

code_differs : (c d : Char) → is_space c ≡ false → is_space d ≡ true → (code c == code d) ≡ false
unfolding is_space
code_differs c d h k = elim (Bool-cases (code c == code d)) [
  | inl e ↦ ground (arith, h, k, ap is_space_code ((==_iff (code c) (code d)).0 e))
  | inr e ↦ e
]

-- The first occurrence of a text that starts with no space is behind the spaces.
pub replace_first_blank :
    (a t b new : String) → IsBlank a → IsFirm t → replace_first t new (a ++ t ++ b) ≡ a ++ new ++ b
unfolding replace_first strip_prefix ◌++◌ all_chars
replace_first_blank [] [] b new ha ht = absurd ht
replace_first_blank (d ∷ a) [] b new ha ht = absurd ht
replace_first_blank [] (c ∷ t) b new ha ht =
    ap (λ o. or_replaced o new (c ∷ replace_first (c ∷ t) new (t ++ b)))
      (strip_prefix-append (c ∷ t) b)
replace_first_blank (d ∷ a) (c ∷ t) b new ha ht =
    ground (arith, replace_first_blank a (c ∷ t) b new, code_differs c d ht, ha)

append-nil : (s : String) → s ++ [] ≡ s
unfolding ◌++◌
append-nil [] = refl
append-nil (c ∷ s) = ap (c ∷◌) (append-nil s)

record Ends (s r : String) : Type 0 where
  tail : String
  eq : s ≡ r ++ tail
  blank : IsBlank tail

keep_lem : (c : Char) (s r : String) → Ends s r → Ends (c ∷ s) (keep c r)
unfolding ◌++◌ all_chars
keep_lem c s [] h =
    if_either (Ends (c ∷ s)) (is_space c)
      (λ e. record { tail = c ∷ h.tail; eq = ap (c ∷◌) h.eq; blank = ground (arith, e, h.blank) })
      (λ e. record { tail = h.tail; eq = ap (c ∷◌) h.eq; blank = h.blank })
keep_lem c s (d ∷ r) h = record { tail = h.tail; eq = ap (c ∷◌) h.eq; blank = h.blank }

trim_end_lem : (s : String) → Ends s (trim_end s)
unfolding trim_end ◌++◌ all_chars
trim_end_lem [] = record { tail = []; eq = refl; blank = refl }
trim_end_lem (c ∷ s) = keep_lem c s (trim_end s) (trim_end_lem s)

record Starts (s r : String) : Type 0 where
  lead : String
  eq : s ≡ lead ++ r
  blank : IsBlank lead

trim_start_lem : (s : String) → Starts s (trim_start s)
unfolding trim_start ◌++◌ all_chars
trim_start_lem [] = record { lead = []; eq = refl; blank = refl }
trim_start_lem (c ∷ s) =
    let h = trim_start_lem s in
    if_either (Starts (c ∷ s)) (is_space c)
      (λ e. record { lead = c ∷ h.lead; eq = ap (c ∷◌) h.eq; blank = ground (arith, e, h.blank) })
      (λ e. record { lead = []; eq = refl; blank = refl })

pub trim_lem : (s : String) → Split s
unfolding trim
trim_lem s =
    let a = trim_start_lem s in
    let b = trim_end_lem (trim_start s) in
    record {
      lead = a.lead;
      tail = b.tail;
      split_eq = a.eq ∙ ap (a.lead ++◌) b.eq;
      lead_blank = a.blank;
      tail_blank = b.blank;
    }

IsFirmOrEmpty : String → Type 0
IsFirmOrEmpty s = (s ≡ []) ⊎ IsFirm s

trim_start-IsFirm : (s : String) → IsFirmOrEmpty (trim_start s)
unfolding trim_start IsFirmOrEmpty
trim_start-IsFirm [] = inl refl
trim_start-IsFirm (c ∷ s) =
    if_either IsFirmOrEmpty (is_space c) (λ e. trim_start-IsFirm s) (λ e. inr e)

keep-IsFirm : (c : Char) (r : String) → is_space c ≡ false → IsFirm (keep c r)
keep-IsFirm c [] h = if_either IsFirm (is_space c) (λ e. absurd (ground (arith, e, h))) (λ e. e)
keep-IsFirm c (d ∷ r) h = h

trim_end-IsFirm : (s : String) → IsFirmOrEmpty s → IsFirmOrEmpty (trim_end s)
unfolding trim_end IsFirmOrEmpty
trim_end-IsFirm [] h = inl refl
trim_end-IsFirm (c ∷ s) (inl e) = absurd (ground (arith, ap is_empty e))
trim_end-IsFirm (c ∷ s) (inr h) = inr (keep-IsFirm c (trim_end s) h)

pub trim-IsFirm : (s : String) → (trim s ≡ []) ⊎ IsFirm (trim s)
unfolding trim IsFirmOrEmpty
trim-IsFirm s = trim_end-IsFirm (trim_start s) (trim_start-IsFirm s)

all_chars-append :
    (s t : String) → all_chars is_space (s ++ t) ≡ (all_chars is_space s && all_chars is_space t)
unfolding all_chars ◌++◌
all_chars-append [] t = refl
all_chars-append (c ∷ s) t = ground (arith, all_chars-append s t)

IsFirm-solid : (s : String) → IsFirm s → all_chars is_space s ≡ false
unfolding all_chars
IsFirm-solid [] h = absurd h
IsFirm-solid (c ∷ s) h = ground (arith, h)

IsFirm-is_empty : (s : String) → IsFirm s → is_empty s ≡ false
IsFirm-is_empty [] h = absurd h
IsFirm-is_empty (c ∷ s) h = refl

blank_or_firm : (r : String) → (r ≡ []) ⊎ IsFirm r → is_empty r ≡ all_chars is_space r
unfolding all_chars
blank_or_firm r (inl e) = rw e refl
blank_or_firm r (inr h) = IsFirm-is_empty r h ∙ sym (IsFirm-solid r h)

blank-trim : (s : String) → all_chars is_space s ≡ all_chars is_space (trim s)
blank-trim s =
    let h = trim_lem s in
    ap (all_chars is_space) h.split_eq
    ∙ all_chars-append h.lead (trim s ++ h.tail)
    ∙ ground (arith, h.lead_blank, h.tail_blank, all_chars-append (trim s) h.tail)

-- Nothing is left of a text just if it is white space only.
pub is_empty-trim : (s : String) → is_empty (trim s) ≡ all_chars is_space s
is_empty-trim s = blank_or_firm (trim s) (trim-IsFirm s) ∙ sym (blank-trim s)

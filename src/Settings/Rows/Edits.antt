-- ===== src/Settings/Rows/Edits.antt =====
-- settings.js, policy: after any edits every option has the value of its last edit.
use text.Mathlib.Text.{◌==◌ as str_eq}
use text.Mathlib.TextEquality.{eq_iff}
use justverify.Common.{
  String, Option, none, some, List, [], ◌∷◌, true, false, if◌then◌else◌, ◌≡◌, refl, sym, ap, ◌∙◌,
  arith, if_either, Bool-cases, inl, inr,
}
use justverify.I18n.Strings.{trim, is_space, all_chars}
use justverify.I18n.Trim.{is_empty-trim}
use justverify.Settings.Rows.{
  Values, value_of, delete, Edit, saved, typed, removed, reset, set_or_delete, typed_value, apply,
  run,
}

abbrev pub key_of : Edit → String
key_of (saved e v) = e.key
key_of (typed e t) = e.key
key_of (removed e) = e.key
key_of (reset e) = e.key

-- The value that an edit gives to its option; `none` is the default.
abbrev pub given : Edit → Option String
given (saved e v) = some v
given (typed e t) = if all_chars is_space t then none else some (trim t)
given (removed e) = none
given (reset e) = e.installation_default

abbrev pub last_given : String → List Edit → Option String → Option String
last_given k [] old = old
last_given k (e ∷ es) old = last_given k es (if str_eq (key_of e) k then given e else old)

typed_value-trim :
    (t : String) → typed_value (trim t) ≡ (if all_chars is_space t then none else some (trim t))
typed_value-trim t = ground (arith, is_empty-trim t)

same_key : (k l m : String) → str_eq m l ≡ true → str_eq m k ≡ str_eq l k
same_key k l m h = ap (λ x. str_eq x k) ((eq_iff m l).0 h)

other_key : (k l m : String) → str_eq m l ≡ false → str_eq m k ≡ true → str_eq l k ≡ false
other_key k l m h t = elim (Bool-cases (str_eq l k)) [
  | inl q ↦ absurd (ground (arith, h, (eq_iff m l).1 ((eq_iff m k).0 t ∙ sym ((eq_iff l k).0 q))))
  | inr q ↦ q
]

value_of-delete :
    (k l : String) (vs : Values)
    → value_of k (delete l vs) ≡ (if str_eq l k then none else value_of k vs)
unfolding value_of delete
value_of-delete k l [] = ground arith
value_of-delete k l ((m, v) ∷ vs) =
    if_either (λ ws. value_of k ws ≡ (if str_eq l k then none else value_of k ((m, v) ∷ vs)))
      (str_eq m l) (λ t. ground (arith, value_of-delete k l vs, same_key k l m t))
      (λ t. ground (arith, value_of-delete k l vs, other_key k l m t))

value_of-set_or_delete :
    (k l : String) (o : Option String) (vs : Values)
    → value_of k (set_or_delete l o vs) ≡ (if str_eq l k then o else value_of k vs)
unfolding value_of
value_of-set_or_delete k l none vs = value_of-delete k l vs
value_of-set_or_delete k l (some v) vs = ground (arith, value_of-delete k l vs)

value_of-apply :
    (k : String) (e : Edit) (vs : Values)
    → value_of k (apply e vs) ≡ (if str_eq (key_of e) k then given e else value_of k vs)
unfolding apply
value_of-apply k (saved e v) vs = value_of-set_or_delete k e.key (some v) vs
value_of-apply k (typed e t) vs =
    value_of-set_or_delete k e.key (typed_value (trim t)) vs
    ∙ ap (λ o. if str_eq e.key k then o else value_of k vs) (typed_value-trim t)
value_of-apply k (removed e) vs = value_of-set_or_delete k e.key none vs
value_of-apply k (reset e) vs = value_of-set_or_delete k e.key e.installation_default vs

-- After any edits of any rows, the value of an option is the one of its last edit: what was saved, the
-- text without the white space around it, or none for a text of white space only, the default of the installation, or none; and without an edit
-- the one that it had.
pub run-value_of :
    (k : String) (es : List Edit) (vs : Values)
    → value_of k (run es vs) ≡ last_given k es (value_of k vs)
unfolding run
run-value_of k [] vs = refl
run-value_of k (e ∷ es) vs =
    run-value_of k es (apply e vs) ∙ ap (last_given k es) (value_of-apply k e vs)

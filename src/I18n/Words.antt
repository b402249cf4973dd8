-- ===== src/I18n/Words.antt =====
-- i18n.js: texts that the dictionary has are replaced by their translation, between their spaces.
use package.text.Mathlib.Text.{◌==◌ as str_eq}
use package.text.Mathlib.TextEquality.{eq_iff}
use justverify.Common.{
  ℕ, String, all-get, get_elem?, ◌≢◌, all, Bool, not, ◌&&◌, Option, none, some, ◌≡◌, refl, ap, ◌∙◌,
  true, inl, inr, arith,
}
use justverify.I18n.Entries.{en, ja, Entry, source, translation}
use justverify.I18n.Messages.{messages}
use justverify.I18n.Strings.{◌++◌, trim, replace_first, is_space}
use justverify.I18n.Text.{text, translated, found, lookup}
use justverify.I18n.Trim.{IsFirm, Split, trim_lem, trim-IsFirm, replace_first_blank}

IsKnown {ℓ} : {A : Type ℓ} → Option A → Type 0
IsKnown none = ⊥
IsKnown (some e) = Unit

lookup_empty : lookup "" messages ≡ none
unfolding lookup messages
lookup_empty = refl

known-IsFirm : (s : String) (e : Entry) → lookup (trim s) messages ≡ some e → IsFirm (trim s)
known-IsFirm s e h = elim (trim-IsFirm s) [
  | inl k ↦ absurd (ground (arith, lookup_empty, h, ap (λ t. lookup t messages) k))
  | inr k ↦ k
]

replaced :
    (s new : String) (p : Split s)
    → IsFirm (trim s)
    → replace_first (trim s) new s ≡ p.lead ++ new ++ p.tail
replaced s new p h =
    ap (replace_first (trim s) new) p.split_eq
    ∙ replace_first_blank p.lead (trim s) p.tail new p.lead_blank h

-- What a text with a known word shows: the word's translation between the same spaces.
pub record Shown (s : String) (e : Entry) : Type 0 where
  pub parts : Split s
  pub english : text en s ≡ parts.lead ++ translation en e ++ parts.tail
  pub japanese : text ja s ≡ parts.lead ++ translation ja e ++ parts.tail

-- A text that is, but for the white space at its ends, a key of the dictionary is shown in English and in
-- Japanese as the key's translation between the same white space.
pub text_known : (s : String) (e : Entry) → lookup (trim s) messages ≡ some e → Shown s e
unfolding text
text_known s e h =
    let p = trim_lem s in
    let k = known-IsFirm s e h in
    record {
      parts = p;
      english =
          ap (λ o. translated en (found o en (trim s)) s) h ∙ replaced s (translation en e) p k;
      japanese =
          ap (λ o. translated ja (found o ja (trim s)) s) h ∙ replaced s (translation ja e) p k;
    }

-- The whole of the table, run once.
same : Entry → Bool
same e =
    str_eq (text en (source e)) (translation en e)
    && str_eq (text ja (source e)) (translation ja e)
    && not (str_eq (translation en e) "")
    && not (str_eq (translation ja e) "")

messages-same : all same messages ≡ true
unfolding same text messages is_space lookup
messages-same = refl

-- Every entry of the dictionary has a translation in both languages, and its key is shown as it.
pub text-source :
    (i : ℕ) (e : Entry)
    → get_elem? messages i ≡ some e
    → (text en (source e) ≡ translation en e)
      × (text ja (source e) ≡ translation ja e)
      × (translation en e ≢ "")
      × (translation ja e ≢ "")
unfolding same
text-source i e h =
    let k = all-get same messages i e messages-same h in
    (
      (eq_iff (text en (source e)) (translation en e)).0 (ground (arith, k)),
      (eq_iff (text ja (source e)) (translation ja e)).0 (ground (arith, k)),
      λ q. ground (arith, k, (eq_iff (translation en e) "").1 q),
      λ q. ground (arith, k, (eq_iff (translation ja e) "").1 q),
    )

-- ===== src/I18n/Numbers.antt =====
-- i18n.js: texts with a number keep the number, whatever it is.
use Prim.Native.Char.{Char}
use Prim.Native.String.{[], ◌∷◌}
use justverify.Common.{
  suc, ◌+◌, String, Option, some, none, true, false, ◌≡◌, refl, ap, ◌∙◌, arith, Bool-cases, inl,
  inr,
}
use justverify.I18n.Strings.{
  ◌++◌, count, equals, strip_prefix, strip_suffix, between, bind, keep, trim, trim_end, trim_start,
  is_space,
}
use justverify.I18n.Text.{lookup, found, entry_of, dynamic, or_else, text, translated}
use justverify.I18n.Patterns.{
  Pattern, number_of, guard, first_of, login_wait, about_percent, last_observed, live,
  rewrite_first, patterns,
}
use justverify.I18n.Messages.{messages}
use justverify.I18n.Entries.{Language, en, ja}
use justverify.I18n.Trim.{strip_prefix-append}

pub equals_refl : (s : String) → equals s s ≡ true
unfolding equals
equals_refl [] = refl
equals_refl (c ∷ s) = ground (arith, equals_refl s)

equals-count : (s t : String) → equals s t ≡ true → count s ≡ count t
unfolding equals count
equals-count [] [] h = refl
equals-count [] (d ∷ t) h = absurd (ground (arith, h))
equals-count (c ∷ s) [] h = absurd (ground (arith, h))
equals-count (c ∷ s) (d ∷ t) h = ap suc (equals-count s t (ground (arith, h)))

count-append : (s t : String) → count (s ++ t) ≡ count s + count t
unfolding ◌++◌ count
count-append [] t = ground arith
count-append (c ∷ s) t = ground (arith, count-append s t)

equals_longer : (c : Char) (d q : String) → equals q (c ∷ (d ++ q)) ≡ false
unfolding count
equals_longer c d q = elim (Bool-cases (equals q (c ∷ (d ++ q)))) [
  | inl e ↦ absurd (ground (arith, equals-count q (c ∷ (d ++ q)) e, count-append d q))
  | inr e ↦ e
]

strip_suffix-append : (q d : String) → strip_suffix q (d ++ q) ≡ some d
unfolding strip_suffix ◌++◌
strip_suffix-append [] [] = refl
strip_suffix-append (c ∷ q) [] = ground (arith, equals_refl (c ∷ q))
strip_suffix-append q (c ∷ d) = ground (arith, equals_longer c d q, strip_suffix-append q d)

between-append : (p d q : String) → between p q (p ++ d ++ q) ≡ some d
unfolding between
between-append p d q =
    ap (λ o. bind o (strip_suffix q)) (strip_prefix-append p (d ++ q)) ∙ strip_suffix-append q d

number_of-append :
    (p : Pattern) (d : String)
    → p.accepts d ≡ true
    → number_of p (p.before ++ d ++ p.after) ≡ some d
unfolding number_of
number_of-append p d h =
    ap (λ o. bind o (λ e. guard (p.accepts e) e)) (between-append p.before d p.after)
    ∙ ap (λ b. guard b d) h

abbrev pub glue : String → String → String
glue [] y = y
glue (c ∷ p) y = keep c (glue p y)

pub trim_end-append : (p x : String) → trim_end (p ++ x) ≡ glue p (trim_end x)
unfolding trim_end ◌++◌
trim_end-append [] x = refl
trim_end-append (c ∷ p) x = ap (keep c) (trim_end-append p x)

-- No key of the dictionary starts as the pattern does, if it does not end with it.
record IsUnknown (p : Pattern) : Type 0 where
  firm : (x : String) → trim_start (p.before ++ x) ≡ p.before ++ x
  unknown : (y : String) → lookup (glue p.before y) messages ≡ none
  alien : (y : String) (l : Language) → found none l (glue p.before y) ≡ none

login_unknown : (y : String) → lookup (glue login_wait.before y) messages ≡ none
unfolding lookup messages is_space equals
login_unknown [] = refl
login_unknown (c ∷ y) = refl

login_alien : (y : String) (l : Language) → found none l (glue login_wait.before y) ≡ none
unfolding equals is_space
login_alien [] l = refl
login_alien (c ∷ y) l = refl

percent_unknown : (y : String) → lookup (glue about_percent.before y) messages ≡ none
unfolding lookup messages is_space equals
percent_unknown [] = refl
percent_unknown (c ∷ y) = refl

percent_alien : (y : String) (l : Language) → found none l (glue about_percent.before y) ≡ none
unfolding equals is_space
percent_alien [] l = refl
percent_alien (c ∷ y) l = refl

observed_unknown : (y : String) → lookup (glue last_observed.before y) messages ≡ none
unfolding lookup messages is_space equals
observed_unknown [] = refl
observed_unknown (c ∷ y) = refl

observed_alien : (y : String) (l : Language) → found none l (glue last_observed.before y) ≡ none
unfolding equals is_space
observed_alien [] l = refl
observed_alien (c ∷ y) l = refl

live_unknown : (y : String) → lookup (glue live.before y) messages ≡ none
unfolding lookup messages is_space equals
live_unknown [] = refl
live_unknown (c ∷ y) = refl

live_alien : (y : String) (l : Language) → found none l (glue live.before y) ≡ none
unfolding equals is_space
live_alien [] l = refl
live_alien (c ∷ y) l = refl

-- The texts with a number that is read by its digits alone.
pub data Label : Type 0 where
  waiting about observed lively : Label

abbrev pub pattern_of : Label → Pattern
pattern_of waiting = login_wait
pattern_of about = about_percent
pattern_of observed = last_observed
pattern_of lively = live

pattern_of-IsUnknown : (k : Label) → IsUnknown (pattern_of k)
unfolding trim_start ◌++◌ is_space
pattern_of-IsUnknown waiting = record {
  firm = λ x. refl;
  unknown = login_unknown;
  alien = login_alien;
}
pattern_of-IsUnknown about = record {
  firm = λ x. refl;
  unknown = percent_unknown;
  alien = percent_alien;
}
pattern_of-IsUnknown observed = record {
  firm = λ x. refl;
  unknown = observed_unknown;
  alien = observed_alien;
}
pattern_of-IsUnknown lively = record {
  firm = λ x. refl;
  unknown = live_unknown;
  alien = live_alien;
}

entry_of-unknown :
    (p : Pattern) (x : String) (l : Language) → IsUnknown p → entry_of l (p.before ++ x) ≡ none
unfolding trim
entry_of-unknown p x l u =
    let e = ap trim_end (u.firm x) ∙ trim_end-append p.before x in
    ap (λ t. found (lookup t messages) l t) e
    ∙ ap (λ o. found o l (glue p.before (trim_end x))) (u.unknown (trim_end x))
    ∙ u.alien (trim_end x) l

first_of-some :
    (o : Option String) (d : String) (f : String → String) (other : Option String)
    → o ≡ some d
    → first_of o f other ≡ some (f d)
first_of-some o d f other h = ap (λ o'. first_of o' f other) h

abbrev before_of : Label → String
before_of k = (pattern_of k).before

abbrev after_of : Label → String
after_of k = (pattern_of k).after

abbrev pub label_text : Label → String → String
label_text k d = before_of k ++ d ++ after_of k

abbrev pub new_text : Label → Language → String → String
new_text k l d = (pattern_of k).new_before l ++ d ++ (pattern_of k).new_after l

-- The patterns that are tried before it do not match.
rewrite_first-number :
    (k : Label) (d : String) (l : Language)
    → (pattern_of k).accepts d ≡ true
    → rewrite_first patterns l (label_text k d) ≡ some (new_text k l d)
unfolding rewrite_first number_of between strip_prefix ◌++◌
rewrite_first-number waiting d l h = first_of-some _ d _ _ (number_of-append login_wait d h)
rewrite_first-number about d l h = first_of-some _ d _ _ (number_of-append about_percent d h)
rewrite_first-number observed d l h = first_of-some _ d _ _ (number_of-append last_observed d h)
rewrite_first-number lively d l h = first_of-some _ d _ _ (number_of-append live d h)

translated-number :
    (k : Label) (d : String) (l : Language)
    → (pattern_of k).accepts d ≡ true
    → translated l (entry_of l (label_text k d)) (label_text k d) ≡ new_text k l d
translated-number k d l h =
    ap (λ o. translated l o (label_text k d))
      (entry_of-unknown (pattern_of k) (d ++ after_of k) l (pattern_of-IsUnknown k))
    ∙ ap (λ o. or_else o (dynamic l (label_text k d))) (rewrite_first-number k d l h)

-- The wait after too many attempts, an approximate percentage and the age of an observation, of Electrs
-- or of the live connection, keep their number in English and in Japanese, whatever it is.
pub text-label :
    (k : Label) (d : String)
    → (pattern_of k).accepts d ≡ true
    → (text en (label_text k d) ≡ new_text k en d) × (text ja (label_text k d) ≡ new_text k ja d)
unfolding text
text-label k d h = (translated-number k d en h, translated-number k d ja h)

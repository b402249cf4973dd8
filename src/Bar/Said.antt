-- ===== src/Bar/Said.antt =====
-- mempool-integration.js: when the bar says nothing.
use Prim.Native.String.{[] as empty, ◌∷◌ as cons}
use justverify.Bar.{
  labels, label, waiting, Status, label_of, is_state, update, counts, with_counts, or_else,
}
use justverify.Common.{
  ℕ, String, Option, none, some, List, [], ◌∷◌, Bool, true, false, not, ◌≡◌, refl, sym, ◌∙◌, arith,
  if_either, all,
}
use justverify.I18n.Entries.{Language, ko, en, ja}
use justverify.I18n.Strings.{◌++◌, is_empty}

abbrev or_full : Option String → Bool
or_full none = true
or_full (some v) = not (is_empty v)

label-full :
    (k : String) (ls : List (String × String))
    → all (λ p. not (is_empty p.1)) ls ≡ true
    → or_full (label k ls) ≡ true
unfolding label
label-full k [] h = refl
label-full k ((l, v) ∷ ls) h = ground (arith, h, label-full k ls)

labels-full : (l : Language) → all (λ p. not (is_empty p.1)) (labels l) ≡ true
labels-full ko = refl
labels-full en = refl
labels-full ja = refl

waiting-full : (l : Language) → is_empty (waiting l) ≡ false
waiting-full ko = refl
waiting-full en = refl
waiting-full ja = refl

or_else-full :
    (o : Option String) (t : String)
    → or_full o ≡ true
    → is_empty t ≡ false
    → is_empty (or_else o t) ≡ false
or_else-full none t h k = k
or_else-full (some v) t h k = ground (arith, h)

label_of-full : (l : Language) (s : Option String) → is_empty (label_of l s) ≡ false
unfolding label_of
label_of-full l none = waiting-full l
label_of-full l (some s) =
    or_else-full (label s (labels l)) (waiting l) (label-full s (labels l) (labels-full l))
      (waiting-full l)

append-full : (s t : String) → is_empty s ≡ false → is_empty (s ++ t) ≡ false
unfolding ◌++◌
append-full empty t h = absurd (ground (arith, h))
append-full (cons c s) t h = refl

with_counts-full :
    (s t : String) (o : Option String)
    → is_empty s ≡ false
    → is_empty t ≡ false
    → is_empty (with_counts s t o) ≡ false
with_counts-full s t none h k = k
with_counts-full s t (some c) h k = append-full s c h

-- The state that the answer has, if there is one.
abbrev pub is_running : Option Status → Bool
is_running none = false
is_running (some s) = is_state "running" s.state

-- Whatever the answer, its language and the way numbers are written: the bar is empty exactly when the
-- server says that the mempool is running. In any other state, without one, and on an error it has a
-- text.
pub update-empty :
    (locale : ℕ → String) (l : Language) (s : Option Status)
    → is_empty (update locale l s) ≡ is_running s
unfolding update
update-empty locale l none = waiting-full l
update-empty locale l (some s) =
    if_either (λ t. is_empty t ≡ is_state "running" s.state) (is_state "running" s.state)
      (λ t. sym t)
      (λ t.
        with_counts-full (label_of l s.state) (waiting l) (counts locale s.electrs_height s)
          (label_of-full l s.state) (waiting-full l)
        ∙ sym t)

-- ===== src/Settings/Rows/Tabs.antt =====
-- settings.js, rows: what a tab shows, and in what order.
use text.Mathlib.Text.{◌==◌ as str_eq}
use justverify.Common.{
  ℕ, ◌+◌, ◌≤◌, String, true, length, List, [], ◌∷◌, Bool, not, leb, ltb, ◌==◌, if◌then◌else◌, ◌≡◌,
  refl, ap, ◌∙◌, arith, if_either, All,
}
use justverify.Settings.Rows.{
  Entry, Tab, order_keys, index_from, priority, is_listed, filter, insert, sort, is_on, rows,
}

abbrev pub Below : ℕ → List Entry → Type 0
Below k es = All (λ e. k ≤ priority e) es

-- No option stands behind one of lower priority.
abbrev pub IsSorted : List Entry → Type 0
IsSorted [] = Unit
IsSorted (e ∷ es) = Below (priority e) es × IsSorted es

Below-le : (j k : ℕ) (es : List Entry) → j ≤ k → Below k es → Below j es
Below-le j k [] h b = tt
Below-le j k (e ∷ es) h (a, b) = (omega (arith, h, a), Below-le j k es h b)

insert-Below :
    (k : ℕ) (e : Entry) (es : List Entry) → k ≤ priority e → Below k es → Below k (insert e es)
unfolding insert
insert-Below k e [] h b = (h, tt)
insert-Below k e (f ∷ fs) h (a, b) =
    if_either (Below k) (leb (priority e) (priority f)) (λ _. (h, (a, b)))
      (λ _. (a, insert-Below k e fs h b))

insert-IsSorted : (e : Entry) (es : List Entry) → IsSorted es → IsSorted (insert e es)
unfolding insert
insert-IsSorted e [] s = (tt, tt)
insert-IsSorted e (f ∷ fs) (b, s) =
    if_either IsSorted (leb (priority e) (priority f))
      (λ t.
        let h : priority e ≤ priority f = ground (arith, t) in
        ((h, Below-le (priority e) (priority f) fs h b), (b, s)))
      (λ t. (insert-Below (priority f) e fs (ground (arith, t)) b, insert-IsSorted e fs s))

sort-IsSorted : (es : List Entry) → IsSorted (sort es)
unfolding sort
sort-IsSorted [] = tt
sort-IsSorted (e ∷ es) = insert-IsSorted e (sort es) (sort-IsSorted es)

filter-Below : (k : ℕ) (p : Entry → Bool) (es : List Entry) → Below k es → Below k (filter p es)
unfolding filter
filter-Below k p [] b = tt
filter-Below k p (e ∷ es) (a, b) =
    if_either (Below k) (p e) (λ _. (a, filter-Below k p es b)) (λ _. filter-Below k p es b)

filter-IsSorted : (p : Entry → Bool) (es : List Entry) → IsSorted es → IsSorted (filter p es)
unfolding filter
filter-IsSorted p [] s = tt
filter-IsSorted p (e ∷ es) (b, s) =
    if_either IsSorted (p e) (λ _. (filter-Below (priority e) p es b, filter-IsSorted p es s))
      (λ _. filter-IsSorted p es s)

filter-filter :
    (p q : Entry → Bool) (es : List Entry) → filter p (filter q es) ≡ filter q (filter p es)
unfolding filter
filter-filter p q [] = refl
filter-filter p q (e ∷ es) =
    if_either (λ zs. filter p zs ≡ filter q (filter p (e ∷ es))) (q e)
      (λ t.
        if_either (λ zs. filter p (e ∷ filter q es) ≡ filter q zs) (p e)
          (λ s. ground (arith, t, s, filter-filter p q es))
          (λ s. ground (arith, t, s, filter-filter p q es)))
      (λ t.
        if_either (λ zs. filter p (filter q es) ≡ filter q zs) (p e)
          (λ s. ground (arith, t, s, filter-filter p q es))
          (λ s. ground (arith, t, s, filter-filter p q es)))

abbrev pub has_priority : ℕ → Entry → Bool
has_priority k e = priority e == k

filter-insert :
    (k : ℕ) (e : Entry) (es : List Entry)
    → filter (has_priority k) (insert e es) ≡ filter (has_priority k) (e ∷ es)
unfolding filter insert
filter-insert k e [] = refl
filter-insert k e (f ∷ fs) = ground (arith, filter-insert k e fs)

filter-cons :
    (p : Entry → Bool) (e : Entry) (xs ys : List Entry)
    → filter p xs ≡ filter p ys
    → filter p (e ∷ xs) ≡ filter p (e ∷ ys)
unfolding filter
filter-cons p e xs ys h = ap (λ zs. if p e then e ∷ zs else zs) h

filter-sort :
    (k : ℕ) (es : List Entry) → filter (has_priority k) (sort es) ≡ filter (has_priority k) es
unfolding sort
filter-sort k [] = refl
filter-sort k (e ∷ es) =
    filter-insert k e (sort es) ∙ filter-cons (has_priority k) e (sort es) es (filter-sort k es)

-- In the list the second key has no place before the first one has its first.
abbrev pub precedes : String → String → List String → Bool
precedes k l [] = true
precedes k l (x ∷ xs) =
    let rest = precedes k l xs in
    if str_eq l x then str_eq k x else if str_eq k x then true else rest

index_from-bounds :
    (i : ℕ) (k : String) (xs : List String) → i + length xs ≤ 99 → i ≤ index_from i k xs
index_from-bounds i k [] h = ground (arith, h)
index_from-bounds i k (x ∷ xs) h =
    if_either (λ (n : ℕ). i ≤ n) (str_eq k x) (λ _. omega arith)
      (λ _. omega (arith, index_from-bounds (i + 1) k xs (ground (arith, h))))

precedes-index_from :
    (i : ℕ) (k l : String) (xs : List String)
    → i + length xs ≤ 99
    → precedes k l xs ≡ leb (index_from i k xs) (index_from i l xs)
precedes-index_from i k l [] h = ground arith
precedes-index_from i k l (x ∷ xs) h = ground (
  arith,
  precedes-index_from (i + 1) k l xs (ground (arith, h)),
  index_from-bounds (i + 1) k xs (ground (arith, h)),
  index_from-bounds (i + 1) l xs (ground (arith, h)),
)

-- The order of the list of options: one that is not in it comes after all that are.
abbrev pub comes_before : Entry → Entry → Bool
comes_before e f = precedes e.key f.key order_keys

abbrev pub IsOrdered : List Entry → Type 0
IsOrdered [] = Unit
IsOrdered (e ∷ es) = All (λ f. comes_before e f ≡ true) es × IsOrdered es

comes_before-priority : (e f : Entry) → comes_before e f ≡ leb (priority e) (priority f)
unfolding priority
comes_before-priority e f = precedes-index_from 0 e.key f.key order_keys (omega arith)

leb-of_le : (m n : ℕ) → m ≤ n → leb m n ≡ true
leb-of_le m n h = ground (arith, h)

Below-before :
    (e : Entry) (es : List Entry) → Below (priority e) es → All (λ f. comes_before e f ≡ true) es
Below-before e [] b = tt
Below-before e (f ∷ fs) (a, b) =
    (comes_before-priority e f ∙ leb-of_le (priority e) (priority f) a, Below-before e fs b)

IsSorted-IsOrdered : (es : List Entry) → IsSorted es → IsOrdered es
IsSorted-IsOrdered [] s = tt
IsSorted-IsOrdered (e ∷ es) (b, s) = (Below-before e es b, IsSorted-IsOrdered es s)

-- The option is another than maxorphantx.
abbrev pub is_other : Entry → Bool
is_other e = not (str_eq e.key "maxorphantx")

-- What Core of the major version knows of the catalogue: maxorphantx is gone from 30 on.
abbrev pub known : ℕ → List Entry → List Entry
known major es = if ltb major 30 then es else filter is_other es

filter-is_listed : (major : ℕ) (es : List Entry) → filter (is_listed major) es ≡ known major es
unfolding filter is_listed
filter-is_listed major [] = ground arith
filter-is_listed major (e ∷ es) = ground (arith, filter-is_listed major es)

-- A tab lists its options in the order of the list of options, and behind them those that are not in it;
-- and of each priority it lists, in the catalogue's order, just the options of the catalogue that belong to
-- the tab, each as often as the catalogue has it, but for maxorphantx from Core 30 on.
pub rows-IsSorted :
    (major : ℕ) (tab : Tab) (es : List Entry)
    → IsOrdered (rows major tab es)
      × ((k : ℕ)
          → filter (has_priority k) (rows major tab es)
            ≡ filter (has_priority k) (filter (is_on tab) (known major es)))
unfolding rows
rows-IsSorted major tab es =
    let kept = filter (is_listed major) es in
    (
      IsSorted-IsOrdered (filter (is_on tab) (sort kept))
          (filter-IsSorted (is_on tab) (sort kept) (sort-IsSorted kept)),
      λ k.
          filter-filter (has_priority k) (is_on tab) (sort kept)
          ∙ ap (filter (is_on tab)) (filter-sort k kept)
          ∙ filter-filter (is_on tab) (has_priority k) kept
          ∙ ap (λ zs. filter (has_priority k) (filter (is_on tab) zs)) (filter-is_listed major es),
    )

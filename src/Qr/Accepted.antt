-- ===== src/Qr/Accepted.antt =====
-- dashboard.js: which answers are taken for a code.
use mathlib.Core.Path.{subst}
use justverify.Common.{
  some_inj, ℕ, ◌≤◌, Option, none, some, List, [], ◌∷◌, Bool, true, ◌&&◌, ◌==◌, leb, if◌then◌else◌,
  length, all, ◌≡◌, ◌↔◌, refl, sym, ap, ◌∙◌, arith, map, Bool-cases, inl, inr,
}
use justverify.Qr.{
  Row, row, Matrix, matrix, is_row, is_boolean, values, modules_of, rows_of, checked,
}

-- The answer that holds the modules, and nothing else.
abbrev pub encode_row : List Bool → Row
encode_row cells = row (map some cells)

abbrev pub encode : List (List Bool) → Matrix
encode rows = matrix (map encode_row rows)

-- A square of a size that codes have.
pub record IsCode (rows : List (List Bool)) : Type 0 where
  pub least : 21 ≤ length rows
  pub most : length rows ≤ 185
  pub square : all (λ r. length r == length rows) rows ≡ true

all_boolean :
    (cells : List (Option Bool)) → all is_boolean cells ≡ true → cells ≡ map some (values cells)
all_boolean [] h = refl
all_boolean (none ∷ cells) h = absurd (ground (arith, h))
all_boolean (some b ∷ cells) h = ap (some b ∷◌) (all_boolean cells h)

length-map {ℓ κ} :
    {A : Type ℓ} {B : Type κ} (f : A → B) (xs : List A) → length (map f xs) ≡ length xs
length-map f [] = refl
length-map f (x ∷ xs) = ap (ℕ.suc) (length-map f xs)

-- An accepted row is the answer's, and as long as the matrix has rows.
row_sound :
    (n : ℕ) (r : Row)
    → is_row n r ≡ true
    → (r ≡ encode_row (modules_of r)) × ((length (modules_of r) == n) ≡ true)
row_sound n Row.not_array h = absurd (ground (arith, h))
row_sound n (row cells) h =
    let e = all_boolean cells (ground (arith, h)) in
    (ap row e, ground (arith, h, ap length e, length-map (λ (b : Bool). some b) (values cells)))

rows_sound :
    (n : ℕ) (rs : List Row)
    → all (is_row n) rs ≡ true
    → (rs ≡ map encode_row (rows_of rs)) × (all (λ r. length r == n) (rows_of rs) ≡ true)
rows_sound n [] h = (refl, refl)
rows_sound n (r ∷ rs) h =
    let a = row_sound n r (ground (arith, h)) in
    let b = rows_sound n rs (ground (arith, h)) in
    (ap (◌∷ rs) a.0 ∙ ap (encode_row (modules_of r) ∷◌) b.0, ground (arith, a.1, b.1))

values-some : (cells : List Bool) → values (map some cells) ≡ cells
values-some [] = refl
values-some (b ∷ cells) = ap (b ∷◌) (values-some cells)

rows_of-encode : (rows : List (List Bool)) → rows_of (map encode_row rows) ≡ rows
rows_of-encode [] = refl
rows_of-encode (r ∷ rows) =
    ap (◌∷ rows_of (map encode_row rows)) (values-some r) ∙ ap (r ∷◌) (rows_of-encode rows)

all-some : (cells : List Bool) → all is_boolean (map some cells) ≡ true
all-some [] = refl
all-some (b ∷ cells) = all-some cells

rows_complete :
    (n : ℕ) (rows : List (List Bool))
    → all (λ r. length r == n) rows ≡ true
    → all (is_row n) (map encode_row rows) ≡ true
rows_complete n [] h = refl
rows_complete n (r ∷ rows) h = ground (
  arith,
  h,
  length-map (λ (b : Bool). some b) r,
  all-some r,
  rows_complete n rows (ground (arith, h)),
)

abbrev Accepted : Matrix → List (List Bool) → Type 0
Accepted m rows = (m ≡ encode rows) × IsCode rows

abbrev pub accepts : List Row → Bool
accepts rs = leb 21 (length rs) && leb (length rs) 185 && all (is_row (length rs)) rs

length-rows_of : (rs : List Row) → length (rows_of rs) ≡ length rs
length-rows_of [] = refl
length-rows_of (r ∷ rs) = ap (ℕ.suc) (length-rows_of rs)

accepts-Accepted : (rs : List Row) → accepts rs ≡ true → Accepted (matrix rs) (rows_of rs)
accepts-Accepted rs h =
    let s = rows_sound (length rs) rs (ground (arith, h)) in
    (
      ap matrix s.0,
      record {
        least = ground (arith, h, length-rows_of rs);
        most = ground (arith, h, length-rows_of rs);
        square = rw (length-rows_of rs) s.1;
      },
    )

checked_sound : (m : Matrix) (rows : List (List Bool)) → checked m ≡ some rows → Accepted m rows
unfolding checked
checked_sound Matrix.not_array rows h = absurd (ground (arith, h))
checked_sound (matrix rs) rows h = elim (Bool-cases (accepts rs)) [
  | inl a ↦
      subst (Accepted (matrix rs))
        (some_inj (sym (ap (λ b. if b then some (rows_of rs) else none) a) ∙ h))
        (accepts-Accepted rs a)
  | inr r ↦ absurd (ground (arith, h, r))
]

checked_complete : (rows : List (List Bool)) → IsCode rows → checked (encode rows) ≡ some rows
unfolding checked
checked_complete rows c = ground (
  arith,
  length-map encode_row rows,
  ap (λ n. all (is_row n) (map encode_row rows)) (length-map encode_row rows),
  rows_complete (length rows) rows c.square,
  rows_of-encode rows,
  c.least,
  c.most,
)

-- An answer is taken for a code exactly when it is a square of Boolean modules, of 21 to 185 in each
-- direction, and then its modules are the ones that are painted.
pub checked_iff :
    (m : Matrix) (rows : List (List Bool))
    → (checked m ≡ some rows) ↔ ((m ≡ encode rows) × IsCode rows)
checked_iff m rows = (checked_sound m rows, λ p. ap checked p.0 ∙ checked_complete rows p.1)

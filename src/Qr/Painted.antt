-- ===== src/Qr/Painted.antt =====
-- dashboard.js: the canvas shows the matrix, and only a square matrix of a code's size is painted.
use justverify.Common.{
  ℕ, zero, suc, ◌+◌, ◌-◌, ◌*◌, ◌/◌, List, [], ◌∷◌, Bool, true, false, ◌&&◌, ◌==◌, leb,
  if◌then◌else◌, get_or, ◌≡◌, refl, ap, arith,
}
use justverify.Qr.{Canvas, scale, fill, fill_if, paint_row, paint_rows, paint, white}

-- The module of a row, counted from its first one; none lies behind its end.
abbrev pub module_at : List Bool → ℕ → Bool
module_at cells x = get_or cells x false

module_at-cons :
    (b : Bool) (cells : List Bool) (k : ℕ)
    → module_at (b ∷ cells) k ≡ (if k == 0 then b else module_at cells (k - 1))
module_at-cons b cells zero = refl
module_at-cons b cells (suc k) = ground arith

fill_lem :
    (x y : ℕ) (canvas : Canvas) (px py : ℕ)
    → fill (x * scale) (y * scale) canvas px py
      ≡ (if px / 8 == x && py / 8 == y then true else canvas px py)
fill_lem x y canvas px py = ground arith

fill_if_lem :
    (on : Bool) (x y : ℕ) (canvas : Canvas) (px py : ℕ)
    → fill_if on (x * scale) (y * scale) canvas px py
      ≡ (if px / 8 == x && py / 8 == y && on then true else canvas px py)
fill_if_lem true x y canvas px py = ground (arith, fill_lem x y canvas px py)
fill_if_lem false x y canvas px py = ground arith

sub_sub : (a b : ℕ) → a - b - 1 ≡ a - (b + 1)
sub_sub a b = omega arith

-- Painting a row from module `x` on blackens just the pixels of its black modules.
paint_row_lem :
    (x y : ℕ) (cells : List Bool) (canvas : Canvas) (px py : ℕ)
    → paint_row x y cells canvas px py ≡ (
        if py / 8 == y && leb x (px / 8) && module_at cells (px / 8 - x)
        then true
        else canvas px py)
unfolding paint_row
paint_row_lem x y [] canvas px py = ground arith
paint_row_lem x y (on ∷ cells) canvas px py = ground (
  arith,
  paint_row_lem (x + 1) y cells (fill_if on (x * scale) (y * scale) canvas) px py,
  fill_if_lem on x y canvas px py,
  module_at-cons on cells (px / 8 - x),
  ap (module_at cells) (sub_sub (px / 8) x),
)

-- The modules of row `y`; none lie below the last one.
abbrev pub row_at : List (List Bool) → ℕ → List Bool
row_at rows y = get_or rows y []

row_at-cons :
    (r : List Bool) (rows : List (List Bool)) (x k : ℕ)
    → module_at (row_at (r ∷ rows) k) x
      ≡ (if k == 0 then module_at r x else module_at (row_at rows (k - 1)) x)
row_at-cons r rows x zero = refl
row_at-cons r rows x (suc k) = ground arith

paint_rows_lem :
    (y : ℕ) (rows : List (List Bool)) (canvas : Canvas) (px py : ℕ)
    → paint_rows y rows canvas px py ≡ (
        if leb y (py / 8) && module_at (row_at rows (py / 8 - y)) (px / 8)
        then true
        else canvas px py)
unfolding paint_rows
paint_rows_lem y [] canvas px py = ground arith
paint_rows_lem y (r ∷ rows) canvas px py = ground (
  arith,
  paint_rows_lem (y + 1) rows (paint_row 0 y r canvas) px py,
  paint_row_lem 0 y r canvas px py,
  row_at-cons r rows (px / 8) (py / 8 - y),
  ap (λ k. module_at (row_at rows k) (px / 8)) (sub_sub (py / 8) y),
)

-- Whatever the matrix, a pixel is black just where the module that covers it is: eight pixels to a
-- module in both directions, and white beside the matrix.
pub paint-pixel :
    (rows : List (List Bool)) (px py : ℕ)
    → paint rows px py ≡ module_at (row_at rows (py / 8)) (px / 8)
unfolding paint
paint-pixel rows px py = ground (arith, paint_rows_lem 0 rows white px py)

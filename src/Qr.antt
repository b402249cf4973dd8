-- ===== src/Qr.antt =====
-- web/static/dashboard.js, connection: the code of the wallet's address. The server's matrix is tested
-- and painted on a canvas, eight pixels to a module.
pub mod Painted
pub mod Accepted
mod Tests
use justverify.Common.{
  ℕ, ◌+◌, ◌*◌, Option, none, some, List, [], ◌∷◌, Bool, true, false, ◌&&◌, ltb, leb, ◌==◌,
  if◌then◌else◌, length, all,
}

-- What the answer may hold: `none` is a module that is no boolean.
pub data Row : Type 0 where
  not_array : Row
  row : List (Option Bool) → Row

pub data Matrix : Type 0 where
  not_array : Matrix
  matrix : List Row → Matrix

abbrev is_boolean : Option Bool → Bool
is_boolean none = false
is_boolean (some b) = true

-- `Array.isArray(row)&&row.length===n&&row.every(x=>typeof x==='boolean')`
abbrev is_row : ℕ → Row → Bool
is_row n Row.not_array = false
is_row n (row cells) = length cells == n && all is_boolean cells

-- The modules of a row; only the test above makes them all the answer's.
abbrev values : List (Option Bool) → List Bool
values [] = []
values (none ∷ cells) = values cells
values (some b ∷ cells) = b ∷ values cells

abbrev modules_of : Row → List Bool
modules_of Row.not_array = []
modules_of (row cells) = values cells

abbrev pub rows_of : List Row → List (List Bool)
rows_of [] = []
rows_of (r ∷ rs) = modules_of r ∷ rows_of rs

-- `none` is the error that the data cannot be used.
unfoldable pub checked : Matrix → Option (List (List Bool))
checked Matrix.not_array = none
checked (matrix rows) =
    let n = length rows in
    if leb 21 n && leb n 185 && all (is_row n) rows then some (rows_of rows) else none

-- A canvas says which pixels are black.
abbrev pub Canvas : Type 0
Canvas = ℕ → ℕ → Bool

abbrev pub scale : ℕ
scale = 8

-- `fillRect(x, y, size, size)` in black
abbrev fill : ℕ → ℕ → Canvas → Canvas
fill x y canvas px py =
    if leb x px && ltb px (x + scale) && leb y py && ltb py (y + scale) then true else canvas px py

abbrev fill_if : Bool → ℕ → ℕ → Canvas → Canvas
fill_if true x y canvas = fill x y canvas
fill_if false x y canvas = canvas

-- `row.forEach((on,x)=>{if(on)ctx.fillRect(…)})`
unfoldable pub paint_row : ℕ → ℕ → List Bool → Canvas → Canvas
paint_row x y [] canvas = canvas
paint_row x y (on ∷ cells) canvas =
    paint_row (x + 1) y cells (fill_if on (x * scale) (y * scale) canvas)

-- `matrix.forEach((row,y)=>…)`
unfoldable pub paint_rows : ℕ → List (List Bool) → Canvas → Canvas
unfolding paint_row
paint_rows y [] canvas = canvas
paint_rows y (r ∷ rows) canvas = paint_rows (y + 1) rows (paint_row 0 y r canvas)

abbrev pub white : Canvas
white px py = false

-- The canvas is filled with white first.
unfoldable pub paint : List (List Bool) → Canvas
unfolding paint_rows
paint rows = paint_rows 0 rows white

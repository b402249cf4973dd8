-- ===== src/Common/Number.antt =====
-- Values of the node's JSON reports, as the JavaScript tests on them read them.
use Prim.Native.Nat.{ℕ, ◌-◌, ◌^◌, ◌≤◌}
use mathlib.Core.Path.{◌≡◌}
use native.Mathlib.Omega.{arith}
use mathlib.Core.Bool.{true, false}
use mathlib.Core.Option.{Option, none, some}
use justverify.Common.Booleans.{leb, ltb}

-- A field that the code tests with `Number.isSafeInteger` or `Number.isInteger` before it is used.
-- `other` is any other value: a fraction, NaN, an infinity, a text, an object.
pub data Field : Type 0 where
  absent : Field
  whole : ℕ → Field
  negative : ℕ → Field
  other : Field

abbrev pub max_safe_integer : ℕ
max_safe_integer = 2 ^ 53 - 1

-- `Number.isSafeInteger(v) && v >= 0`, with the number.
abbrev pub safe_natural : Field → Option ℕ
safe_natural (whole n) = elim (leb n max_safe_integer) [ true ↦ some n | false ↦ none ]
safe_natural _ = none

-- `Number.isSafeInteger(v) && v > 0`, with the number.
abbrev pub safe_positive : Field → Option ℕ
safe_positive (whole n) = elim (ltb 0 n) [
  | true ↦ elim (leb n max_safe_integer) [ true ↦ some n | false ↦ none ]
  | false ↦ none
]
safe_positive _ = none

pub safe_natural-eq_some :
    (f : Field) (n : ℕ) → safe_natural f ≡ some n → (f ≡ whole n) × (n ≤ max_safe_integer)
safe_natural-eq_some f n h = ground arith

pub safe_natural-whole : (n : ℕ) → n ≤ max_safe_integer → safe_natural (whole n) ≡ some n
safe_natural-whole n h = ground arith

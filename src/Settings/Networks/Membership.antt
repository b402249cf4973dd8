-- ===== src/Settings/Networks/Membership.antt =====
-- Which networks a value holds after the operations on it.
use text.Mathlib.TextEquality.{eq_iff}
use text.Mathlib.Text.{◌==◌ as str_eq}
use justverify.Common.{
  ◌≡◌, refl, arith, String, List, [], ◌∷◌, Bool, true, false, not, ◌&&◌, ◌||◌, if◌then◌else◌,
}
use justverify.Settings.Networks.{contains, delete, add, insert, sort, switch}

pub contains-delete :
    (a b : String) (xs : List String)
    → contains a (delete b xs) ≡ (not (str_eq b a) && contains a xs)
unfolding contains delete
contains-delete a b [] = ground arith
contains-delete a b (x ∷ xs) =
    ground (arith, eq_iff x b, eq_iff x a, eq_iff b a, contains-delete a b xs)

pub contains-add :
    (a b : String) (xs : List String) → contains a (add b xs) ≡ (str_eq b a || contains a xs)
unfolding contains add
contains-add a b xs = ground (arith, eq_iff b a)

contains-insert :
    (a b : String) (xs : List String) → contains a (insert b xs) ≡ (str_eq b a || contains a xs)
unfolding contains insert
contains-insert a b [] = refl
contains-insert a b (x ∷ xs) = ground (arith, contains-insert a b xs)

pub contains-sort : (a : String) (xs : List String) → contains a (sort xs) ≡ contains a xs
unfolding contains sort
contains-sort a [] = refl
contains-sort a (x ∷ xs) = ground (arith, contains-insert a x (sort xs), contains-sort a xs)

-- A switch turned on adds its members, and one turned off removes them; others stay.
pub contains-switch :
    (a : String) (on : Bool) (ms xs : List String)
    → contains a (switch on ms xs) ≡ (if contains a ms then on else contains a xs)
unfolding contains switch
contains-switch a true [] xs = refl
contains-switch a false [] xs = refl
contains-switch a true (m ∷ ms) xs =
    ground (arith, contains-switch a true ms (add m xs), contains-add a m xs)
contains-switch a false (m ∷ ms) xs =
    ground (arith, contains-switch a false ms (delete m xs), contains-delete a m xs)

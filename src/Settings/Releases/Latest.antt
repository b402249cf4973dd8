-- ===== src/Settings/Releases/Latest.antt =====
-- settings.js: without the older patches, each major version is offered once, by its last release.
use Prim.Native.Char.{code}
use Prim.Native.String.{[] as empty, ◌∷◌ as cons}
use justverify.Common.{
  ℕ, ◌+◌, ◌≤◌, max, String, Option, none, some, List, [], ◌∷◌, Bool, true, false, ◌≡◌, refl, ap,
  ◌∙◌, arith, if_either, if◌then◌else◌, not, ◌&&◌, ◌==◌,
}
use justverify.I18n.Strings.{equals}
use justverify.Settings.Releases.{
  Release, Keyed, major, set, by_major, get, is_of, last_of, or_later, when,
}

equals_sym : (s t : String) → equals s t ≡ equals t s
unfolding equals
equals_sym empty empty = refl
equals_sym empty (cons d t) = refl
equals_sym (cons c s) empty = refl
equals_sym (cons c s) (cons d t) = ground (arith, equals_sym s t)

equals_trans : (s t u : String) → equals s t ≡ true → equals t u ≡ equals s u
unfolding equals
equals_trans empty empty u h = refl
equals_trans empty (cons d t) u h = absurd (ground (arith, h))
equals_trans (cons c s) empty u h = absurd (ground (arith, h))
equals_trans (cons c s) (cons d t) empty h = refl
equals_trans (cons c s) (cons d t) (cons e u) h =
    ground (arith, h, equals_trans s t u (ground (arith, h)))

get-set :
    (k j : String) (r : Release) (m : List Keyed)
    → get k (set j r m) ≡ (if equals j k then some r else get k m)
unfolding get set
get-set k j r [] = refl
get-set k j r (e ∷ es) =
    if_either (λ m. get k m ≡ (if equals j k then some r else get k (e ∷ es))) (equals e.key j)
      (λ h. ground (arith, equals_trans e.key j k h))
      (λ h. ground (arith, get-set k j r es, equals_trans e.key k j, equals_sym j k, h))

abbrev as_number : Bool → ℕ
as_number true = 1
as_number false = 0

-- How many entries have the key.
unfoldable pub count_of : String → List Keyed → ℕ
unfolding equals
count_of k [] = 0
count_of k (e ∷ es) = as_number (equals e.key k) + count_of k es

count_of-set :
    (k j : String) (r : Release) (m : List Keyed)
    → count_of k (set j r m) ≡ (if equals j k then max 1 (count_of k m) else count_of k m)
unfolding count_of set
count_of-set k j r [] = ground arith
count_of-set k j r (e ∷ es) =
    if_either
      (λ m.
        count_of k m ≡ (if equals j k then max 1 (count_of k (e ∷ es)) else count_of k (e ∷ es)))
      (equals e.key j) (λ h. ground (arith, equals_trans e.key j k h))
      (λ h. ground (arith, count_of-set k j r es, equals_trans e.key k j, equals_sym j k, h))

or_later-when :
    (b : Bool) (r : Release) (g o : Option Release)
    → or_later (if b then some r else g) o ≡ or_later g (or_later (when b r) o)
or_later-when true r g none = refl
or_later-when true r g (some x) = refl
or_later-when false r g none = refl
or_later-when false r g (some x) = refl

-- The key has no point, as every part of a version before its first point.
abbrev pub is_pointless : String → Bool
is_pointless empty = true
is_pointless (cons c k) = not (code c == 46) && is_pointless k

major-is_of : (k v : String) → is_pointless k ≡ true → equals (major v) k ≡ is_of k v
unfolding equals major is_of
major-is_of empty empty h = refl
major-is_of empty (cons d v) h =
    if_either (λ m. equals m empty ≡ (code d == 46)) (code d == 46) (λ t. ground (arith, t))
      (λ f. ground (arith, f))
major-is_of (cons c k) empty h = refl
major-is_of (cons c k) (cons d v) h =
    if_either (λ m. equals m (cons c k) ≡ (code c == code d && is_of k v)) (code d == 46)
      (λ t. ground (arith, t, h)) (λ f. ground (arith, f, h, major-is_of k v))

get-by_major :
    (k : String) (rs : List Release) (m : List Keyed)
    → is_pointless k ≡ true
    → get k (by_major rs m) ≡ or_later (get k m) (last_of k rs)
unfolding by_major last_of
get-by_major k [] m h = refl
get-by_major k (r ∷ rs) m h =
    get-by_major k rs (set (major r.version) r m) h
    ∙ ap (λ g. or_later g (last_of k rs)) (get-set k (major r.version) r m)
    ∙ or_later-when (equals (major r.version) k) r (get k m) (last_of k rs)
    ∙ ap (λ b. or_later (get k m) (or_later (when b r) (last_of k rs))) (major-is_of k r.version h)

count_of-by_major :
    (k : String) (rs : List Release) (m : List Keyed)
    → count_of k m ≤ 1
    → count_of k (by_major rs m) ≤ 1
unfolding by_major
count_of-by_major k [] m h = h
count_of-by_major k (r ∷ rs) m h =
    count_of-by_major k rs (set (major r.version) r m)
      (ground (arith, count_of-set k (major r.version) r m, h))

or_later-none : (o : Option Release) → or_later none o ≡ o
or_later-none none = refl
or_later-none (some r) = refl

-- Let the key be a text without a point. Without the older patches it stands at most once among what is
-- offered, for the last release of the catalogue whose version is the key or goes on behind it with a
-- point; a key without such a release is not there.
pub by_major-latest :
    (k : String) (rs : List Release)
    → is_pointless k ≡ true
    → (count_of k (by_major rs []) ≤ 1) × (get k (by_major rs []) ≡ last_of k rs)
unfolding count_of get
by_major-latest k rs h = (
  count_of-by_major k rs [] (ground arith),
  get-by_major k rs [] h ∙ or_later-none (last_of k rs),
)

-- ===== src/Settings/Releases.antt =====
-- settings.js, versions: which releases the page of versions offers.
pub mod Latest
mod Tests
use Prim.Native.Char.{code}
use Prim.Native.String.{[] as empty, ◌∷◌ as cons}
use justverify.Common.{
  String, Option, none, some, List, [], ◌∷◌, Bool, true, false, ◌==◌, ◌&&◌, if◌then◌else◌, map,
  append,
}
use justverify.I18n.Strings.{equals}

pub record Release : Type 0 where
  pub version : String
  pub downloaded : Bool
  pub networks : List String
  pub verified : Bool  -- its availability is OFFICIAL_BINARY_VERIFIED

-- `r.version.split('.')[0]`
unfoldable pub major : String → String
major empty = ""
major (cons c s) = let rest = major s in if code c == 46 then "" else cons c rest

pub record Keyed : Type 0 where
  pub key : String
  pub value : Release

-- `Map.set`: a key keeps its place.
unfoldable pub set : String → Release → List Keyed → List Keyed
unfolding equals
set k r [] = record { key = k; value = r } ∷ []
set k r (e ∷ es) =
    let rest = set k r es in if equals e.key k then record { key = k; value = r } ∷ es else e ∷ rest

-- `for(const r of state.releases)major.set(…)`
unfoldable pub by_major : List Release → List Keyed → List Keyed
unfolding set major
by_major [] m = m
by_major (r ∷ rs) m = by_major rs (set (major r.version) r m)

abbrev pub reverse_onto {ℓ} : {A : Type ℓ} → List A → List A → List A
reverse_onto [] ys = ys
reverse_onto (x ∷ xs) ys = reverse_onto xs (x ∷ ys)

-- `[...(all.checked?state.releases:[...major.values()])].reverse()`
unfoldable pub offered : Bool → List Release → List Release
unfolding by_major
offered true rs = reverse_onto rs []
offered false rs = reverse_onto (map (λ e. e.value) (by_major rs [])) []

abbrev or_later {ℓ} : {A : Type ℓ} → Option A → Option A → Option A
or_later a none = a
or_later a (some b) = some b

abbrev pub when : Bool → Release → Option Release
when true r = some r
when false r = none

-- `state.releases.filter(r=>r.downloaded).at(-1)`
abbrev pub last_downloaded : List Release → Option Release
last_downloaded [] = none
last_downloaded (r ∷ rs) = or_later (when r.downloaded r) (last_downloaded rs)

-- The version is the key itself, or goes on behind it with a point: "29" is of "29" and of "29.4".
unfoldable pub is_of : String → String → Bool
is_of empty empty = true
is_of empty (cons d v) = code d == 46
is_of (cons c k) empty = false
is_of (cons c k) (cons d v) = code c == code d && is_of k v

-- The last release whose version is of the key.
unfoldable pub last_of : String → List Release → Option Release
unfolding is_of
last_of k [] = none
last_of k (r ∷ rs) = or_later (when (is_of k r.version) r) (last_of k rs)

unfoldable pub get : String → List Keyed → Option Release
unfolding equals
get k [] = none
get k (e ∷ es) = if equals e.key k then some e.value else get k es

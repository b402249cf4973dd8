-- ===== src/Settings/Networks.antt =====
-- settings.js, the switches of listen (incoming) and onlynet (outgoing). A value such as
-- "ipv4,ipv6,onion" is the list of its parts; "none" is the value of no network.
pub mod Membership
pub mod Accepted
pub mod Pairing
mod Tests
use Prim.Native.Nat.{Ordering}
use Prim.Native.String.{compare}
use text.Mathlib.Text.{◌==◌ as str_eq}
use justverify.Common.{
  String, Option, none, some, List, [], ◌∷◌, Bool, true, false, not, ◌&&◌, ◌||◌, if◌then◌else◌, all,
}

-- `set.has`
unfoldable pub contains : String → List String → Bool
contains a [] = false
contains a (x ∷ xs) = str_eq x a || contains a xs

-- `set.delete`
unfoldable pub delete : String → List String → List String
delete a [] = []
delete a (x ∷ xs) = if str_eq x a then delete a xs else x ∷ delete a xs

-- `set.add`
unfoldable pub add : String → List String → List String
unfolding contains
add a xs = if contains a xs then xs else a ∷ xs

-- `[...next].sort()`
abbrev is_after : String → String → Bool
is_after a b = elim (compare a b) [ Ordering.gt ↦ true | _ ↦ false ]

insert : String → List String → List String
insert a [] = a ∷ []
insert a (x ∷ xs) = if is_after a x then x ∷ insert a xs else a ∷ x ∷ xs

unfoldable pub sort : List String → List String
unfolding insert
sort [] = []
sort (x ∷ xs) = insert x (sort xs)

pub data Key : Type 0 where
  clearnet tor onion i2p : Key

pub data Side : Type 0 where
  incoming outgoing : Side

abbrev name : Key → String
name clearnet = "clearnet"
name tor = "tor"
name onion = "onion"
name i2p = "i2p"

-- Clearnet of the outgoing side stands for both address families.
abbrev pub members : Side → Key → List String
members outgoing clearnet = "ipv4" ∷ "ipv6" ∷ []
members side key = name key ∷ []

-- The values of the two settings as edited, and the defaults that stand for a missing one.
pub record Values : Type 0 where
  pub listen : Option (List String)
  pub onlynet : Option (List String)
  pub listen_default : List String
  pub onlynet_default : List String
  pub onlynet_implicit : Option (List String)
  pub i2p_incoming_requires_outgoing : Bool

abbrev pub or_else {ℓ} : {A : Type ℓ} → Option A → A → A
or_else none d = d
or_else (some a) d = a

abbrev pub fallback : List String
fallback = "ipv4" ∷ "ipv6" ∷ "onion" ∷ []

-- What the switches of a side show as selected.
abbrev pub selected : Side → Values → List String
selected incoming v = or_else v.listen v.listen_default
selected outgoing v = or_else v.onlynet v.onlynet_default

-- What the guard of I2P reads: `(values.listen || '')` and the effective onlynet.
abbrev pub guard_listen : Values → List String
guard_listen v = or_else v.listen []

abbrev pub guard_onlynet : Values → List String
guard_onlynet v = or_else v.onlynet (or_else v.onlynet_implicit fallback)

unfoldable pub switch : Bool → List String → List String → List String
switch on [] next = next
switch true (m ∷ ms) next = switch true ms (add m next)
switch false (m ∷ ms) next = switch false ms (delete m next)

abbrev is_i2p : Key → Bool
is_i2p i2p = true
is_i2p _ = false

abbrev refused : Side → Bool → Values → Bool
refused incoming on v = on && not (contains "i2p" (guard_onlynet v))
refused outgoing on v = not on && contains "i2p" (guard_listen v)

pub data Outcome : Type 0 where
  saved : Values → Outcome
  needs_outgoing : Outcome
  needs_one : Outcome

abbrev pub store : Side → List String → Values → Values
store incoming value v = record v { listen = some value }
store outgoing value v = record v { onlynet = some value }

-- `[...next].sort().join(',') || 'none'`
abbrev pub or_none : List String → List String
or_none [] = "none" ∷ []
or_none (x ∷ xs) = x ∷ xs

abbrev is_empty : List String → Bool
is_empty [] = true
is_empty (_ ∷ _) = false

abbrev is_outgoing : Side → Bool
is_outgoing outgoing = true
is_outgoing incoming = false

-- The set after the switch, before it is sorted.
abbrev pub changed : Side → Key → Bool → Values → List String
changed side key on v = switch on (members side key) (delete "none" (selected side v))

-- The action of one switch.
unfoldable pub toggle : Side → Key → Bool → Values → Outcome
unfolding contains switch add delete sort
toggle side key on v =
    if is_i2p key && v.i2p_incoming_requires_outgoing && refused side on v
    then needs_outgoing
    else if is_outgoing side && is_empty (changed side key on v)
    then needs_one
    else saved (store side (or_none (sort (changed side key on v))) v)

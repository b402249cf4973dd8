-- ===== src/Settings/Networks/Accepted.antt =====
-- What an accepted switch has changed, and what it can never do.
use text.Mathlib.TextEquality.{eq_iff}
use justverify.Common.{
  ◌≡◌, ◌≢◌, refl, ◌∙◌, arith, String, List, [], ◌∷◌, Bool, true, false, ◌&&◌, if◌then◌else◌,
}
use justverify.Settings.Networks.{
  contains, delete, sort, Key, clearnet, Side, incoming, outgoing, members, Values, selected, saved,
  needs_outgoing, needs_one, store, or_none, changed, is_empty, toggle, is_i2p, is_outgoing,
  refused,
}
use justverify.Settings.Networks.Membership.{contains-delete, contains-sort, contains-switch}

pub contains-or_none :
    (a : String) (xs : List String) → a ≢ "none" → contains a (or_none xs) ≡ contains a xs
unfolding contains
contains-or_none a [] h = ground (arith, eq_iff "none" a)
contains-or_none a (x ∷ xs) h = refl

pub contains-changed :
    (a : String) (side : Side) (key : Key) (on : Bool) (v : Values)
    → a ≢ "none"
    → contains a (changed side key on v)
      ≡ (if contains a (members side key) then on else contains a (selected side v))
contains-changed a side key on v h =
    contains-switch a on (members side key) (delete "none" (selected side v))
    ∙ rw (contains-delete a "none" (selected side v)) (ground (arith, eq_iff "none" a))

past_guards :
    (b c : Bool) (u w : Values)
    → (if b then needs_outgoing else if c then needs_one else saved u) ≡ saved w
    → (w ≡ u) × (b ≡ false) × (c ≡ false)
past_guards true c u w e = cc
past_guards false true u w e = cc
past_guards false false u w e = (cc, refl, refl)

-- The value that an accepted switch saves, or the reason for which it was refused.
pub toggle-saved :
    (side : Side) (key : Key) (on : Bool) (v w : Values)
    → toggle side key on v ≡ saved w
    → (w ≡ store side (or_none (sort (changed side key on v))) v)
      × ((is_i2p key && v.i2p_incoming_requires_outgoing && refused side on v) ≡ false)
      × ((is_outgoing side && is_empty (changed side key on v)) ≡ false)
unfolding toggle
toggle-saved side key on v w e =
    past_guards (is_i2p key && v.i2p_incoming_requires_outgoing && refused side on v)
      (is_outgoing side && is_empty (changed side key on v))
      (store side (or_none (sort (changed side key on v))) v) w e

abbrev pub other : Side → Side
other incoming = outgoing
other outgoing = incoming

selected-store :
    (side : Side) (value : List String) (v : Values)
    → (selected side (store side value v) ≡ value)
      × (selected (other side) (store side value v) ≡ selected (other side) v)
selected-store incoming value v = (refl, refl)
selected-store outgoing value v = (refl, refl)

-- An accepted switch turns just its own networks on or off: every other network of its side, and
-- the whole other side, stay as they were shown.
pub toggle-selected :
    (side : Side) (key : Key) (on : Bool) (v w : Values) (a : String)
    → toggle side key on v ≡ saved w
    → a ≢ "none"
    → (contains a (selected side w)
        ≡ (if contains a (members side key) then on else contains a (selected side v)))
      × (selected (other side) w ≡ selected (other side) v)
toggle-selected side key on v w a e h =
    let (stored, _, _) = toggle-saved side key on v w e in
    let value = or_none (sort (changed side key on v)) in
    let (here, there) = selected-store side value v in
    rw (stored, here, there)
      (
        contains-or_none a (sort (changed side key on v)) h
            ∙ contains-sort a (changed side key on v)
            ∙ contains-changed a side key on v h,
        refl,
      )

contains-head : (x : String) (xs : List String) → contains x (x ∷ xs) ≡ true
unfolding contains
contains-head x xs = ground (arith, eq_iff x x)

nonempty_has : (xs : List String) → is_empty xs ≡ false → (a : String) × (contains a xs ≡ true)
nonempty_has [] h = cc
nonempty_has (x ∷ xs) h = (x, contains-head x xs)

no_none_in_members : (side : Side) (key : Key) → contains "none" (members side key) ≡ false
unfolding contains
no_none_in_members incoming clearnet = refl
no_none_in_members incoming _ = refl
no_none_in_members outgoing clearnet = refl
no_none_in_members outgoing _ = refl

no_none :
    (side : Side) (key : Key) (on : Bool) (v : Values)
    → contains "none" (changed side key on v) ≡ false
no_none side key on v =
    contains-switch "none" on (members side key) (delete "none" (selected side v))
    ∙ rw (no_none_in_members side key, contains-delete "none" "none" (selected side v))
        (ground (arith, eq_iff "none" "none"))

-- No accepted switch leaves the outgoing side without a network.
pub toggle-outgoing_some :
    (key : Key) (on : Bool) (v w : Values)
    → toggle outgoing key on v ≡ saved w
    → (a : String) × (a ≢ "none") × (contains a (selected outgoing w) ≡ true)
toggle-outgoing_some key on v w e =
    let (stored, _, some_left) = toggle-saved outgoing key on v w e in
    let (a, held) = nonempty_has (changed outgoing key on v) some_left in
    let real : a ≢ "none" = λ same. cc (no_none outgoing key on v, held, same) in
    (
      a,
      real,
      rw stored (
          contains-or_none a (sort (changed outgoing key on v)) real
          ∙ contains-sort a (changed outgoing key on v)
          ∙ held),
    )

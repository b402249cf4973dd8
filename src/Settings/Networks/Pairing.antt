-- ===== src/Settings/Networks/Pairing.antt =====
-- Core 22 cannot receive over I2P without sending over it.
use text.Mathlib.TextEquality.{eq_iff}
use justverify.Common.{
  ◌≡◌, ◌≢◌, refl, ◌∙◌, arith, String, none, List, Bool, true, false, ◌&&◌, if◌then◌else◌,
  Option-cases, inl, inr,
}
use justverify.Settings.Networks.{
  contains, sort, Key, clearnet, Side, incoming, outgoing, members, Values, selected, guard_listen,
  guard_onlynet, saved, store, or_none, changed, toggle, is_i2p, refused,
}
use justverify.Settings.Networks.Membership.{contains-sort}
use justverify.Settings.Networks.Accepted.{contains-or_none, contains-changed, toggle-saved}

pub record IsPaired (v : Values) : Type 0 where
  pub required : v.i2p_incoming_requires_outgoing ≡ true
  pub paired : contains "i2p" (guard_listen v) ≡ true → contains "i2p" (guard_onlynet v) ≡ true
  pub listen_off : v.listen ≡ none → contains "i2p" v.listen_default ≡ false
  pub onlynet_same :
      v.onlynet ≡ none → contains "i2p" v.onlynet_default ≡ contains "i2p" (guard_onlynet v)

members-i2p : (side : Side) (key : Key) → contains "i2p" (members side key) ≡ is_i2p key
unfolding contains
members-i2p incoming clearnet = refl
members-i2p incoming _ = refl
members-i2p outgoing clearnet = refl
members-i2p outgoing _ = refl

i2p_not_none : ◌≢◌ {A = String} "i2p" "none"
i2p_not_none = ground (arith, eq_iff "i2p" "none")

value-i2p :
    (side : Side) (key : Key) (on : Bool) (v : Values)
    → contains "i2p" (or_none (sort (changed side key on v)))
      ≡ (if is_i2p key then on else contains "i2p" (selected side v))
value-i2p side key on v =
    contains-or_none "i2p" (sort (changed side key on v)) i2p_not_none
    ∙ contains-sort "i2p" (changed side key on v)
    ∙ contains-changed "i2p" side key on v i2p_not_none
    ∙ rw (members-i2p side key) refl

store-IsPaired :
    (side : Side) (key : Key) (on : Bool) (v : Values) (value : List String)
    → IsPaired v
    → (is_i2p key && v.i2p_incoming_requires_outgoing && refused side on v) ≡ false
    → contains "i2p" value ≡ (if is_i2p key then on else contains "i2p" (selected side v))
    → IsPaired (store side value v)
store-IsPaired incoming key on v value p r e = record {
  required = p.required;
  paired = λ h. elim (Option-cases v.listen) [
    | inl n ↦ ground (arith, p.listen_off n, p.required)
    | inr (l, s) ↦ ground (arith, p.paired, p.required)
  ];
  listen_off = λ h. cc;
  onlynet_same = p.onlynet_same;
}
store-IsPaired outgoing key on v value p r e = record {
  required = p.required;
  paired = λ h. elim (Option-cases v.onlynet) [
    | inl n ↦ ground (arith, p.onlynet_same n, p.paired h, p.required)
    | inr (l, s) ↦ ground (arith, p.paired h, p.required)
  ];
  listen_off = p.listen_off;
  onlynet_same = λ h. cc;
}

-- Under that requirement no accepted switch, of any network on either side, makes a node receive
-- over I2P that does not send over it.
pub toggle-IsPaired :
    (side : Side) (key : Key) (on : Bool) (v w : Values)
    → IsPaired v
    → toggle side key on v ≡ saved w
    → IsPaired w
toggle-IsPaired side key on v w p e =
    let (stored, accepted, _) = toggle-saved side key on v w e in
    rw stored (
      store-IsPaired side key on v (or_none (sort (changed side key on v))) p accepted
        (value-i2p side key on v))

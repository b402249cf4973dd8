-- ===== src/Settings/Networks/Tests.antt =====
-- Switches at concrete values.
use text.Mathlib.TextEquality.{eq_iff}
use justverify.Common.{
  ◌≡◌, ◌≢◌, refl, arith, String, some, none, [], ◌∷◌, true, false, if◌then◌else◌,
}
use justverify.Settings.Networks.{
  contains, clearnet, onion, i2p, incoming, outgoing, members, Values, selected, saved,
  needs_outgoing, needs_one, toggle,
}
use justverify.Settings.Networks.Accepted.{other, toggle-selected}
use justverify.Settings.Networks.Pairing.{IsPaired, toggle-IsPaired}

abbrev core22 : Values
core22 = record {
  listen = some ("clearnet" ∷ []);
  onlynet = some ("i2p" ∷ "onion" ∷ []);
  listen_default = "none" ∷ [];
  onlynet_default = "ipv4" ∷ "ipv6" ∷ "onion" ∷ [];
  onlynet_implicit = none;
  i2p_incoming_requires_outgoing = true;
}

abbrev both : Values
both = record core22 { listen = some ("clearnet" ∷ "i2p" ∷ []) }

receiving : toggle incoming i2p true core22 ≡ saved both
unfolding toggle
receiving = refl

switches :
    (toggle outgoing i2p false both ≡ needs_outgoing)
    × (toggle outgoing onion false (record core22 { onlynet = some ("onion" ∷ []) }) ≡ needs_one)
    × (toggle outgoing clearnet true core22
        ≡ saved (record core22 { onlynet = some ("i2p" ∷ "ipv4" ∷ "ipv6" ∷ "onion" ∷ []) }))
    × (toggle incoming clearnet false core22
        ≡ saved (record core22 { listen = some ("none" ∷ []) }))
unfolding toggle
switches = (refl, refl, refl, refl)

tor_not_none : ◌≢◌ {A = String} "tor" "none"
tor_not_none = ground (arith, eq_iff "tor" "none")

toggle-selected_example :
    (contains "tor" (selected incoming both) ≡ (
      if contains "tor" (members incoming i2p)
      then true
      else contains "tor" (selected incoming core22)))
    × (selected (other incoming) both ≡ selected (other incoming) core22)
toggle-selected_example = toggle-selected incoming i2p true core22 both "tor" receiving tor_not_none

sending : toggle outgoing i2p true core22 ≡ saved core22
unfolding toggle
sending = refl

core22-IsPaired : IsPaired core22
unfolding contains
core22-IsPaired = record {
  required = refl;
  paired = λ h. refl;
  listen_off = λ h. refl;
  onlynet_same = λ h. cc;
}

toggle-IsPaired_example : IsPaired both
toggle-IsPaired_example = toggle-IsPaired incoming i2p true core22 both core22-IsPaired receiving

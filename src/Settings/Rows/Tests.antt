-- ===== src/Settings/Rows/Tests.antt =====
-- Rows of a catalogue, and the theorems at concrete inputs.
use justverify.Common.{ℕ, String, none, some, List, [], ◌∷◌, map, true, false, ◌≡◌, refl}
use justverify.I18n.Strings.{◌++◌, all_chars, trim, trim_start, trim_end, is_space, strip_prefix}
use justverify.Settings.Fees.{
  default_value, match, match_from, digits_only, scaled, digits, digits_onto, value_from, pow10,
  pad_start, zeros, strip_zeros,
}
use justverify.Settings.Rows.{
  Kind, boolean, decimal, other_kind, Entry, network, optimization, resources, advanced, rows,
  filter, sort, insert, is_listed, is_on, group_of, priority, value_of, Edit, saved, typed, run,
  unsupported, switch, field, control,
}
use justverify.Settings.Rows.Tabs.{IsOrdered, has_priority, known, rows-IsSorted}
use justverify.Settings.Rows.Edits.{run-value_of}

abbrev option : String → Kind → String → Entry
option key kind text = record {
  key = key;
  kind = kind;
  default_text = text;
  implicit_default = none;
  installation_default = none;
  unit = none;
  editable = true;
  ignored_or_wallet_only = false;
  source_registration_present = true;
  preference_only = false;
}

abbrev catalogue : List Entry
catalogue =
    option "mempoolexpiry" other_kind "336"
    ∷ option "maxorphantx" other_kind "100"
    ∷ option "rest" boolean "0"
    ∷ option "dbcache" other_kind "450"
    ∷ option "listen" boolean "1"
    ∷ []

abbrev keys : List Entry → List String
keys es = map (λ e. e.key) es

rows_tests :
    (keys (rows 29 optimization catalogue) ≡ ("dbcache" ∷ "mempoolexpiry" ∷ "maxorphantx" ∷ []))
    × (keys (rows 30 optimization catalogue) ≡ ("dbcache" ∷ "mempoolexpiry" ∷ []))
    × (keys (rows 30 network catalogue) ≡ ("listen" ∷ []))
    × (keys (rows 30 resources catalogue) ≡ ("rest" ∷ []))
    × (keys (rows 30 advanced catalogue) ≡ [])
unfolding rows filter sort insert is_listed group_of priority
rows_tests = (refl, refl, refl, refl, refl)

control_tests :
    (control false (option "rest" boolean "0") [] ≡ switch false)
    × (control false (option "rest" boolean "0") (("rest", "1") ∷ []) ≡ switch true)
    × (control false (option "blockversion" other_kind "0") [] ≡ unsupported false)
    × (control false (option "minrelaytxfee" decimal "0.00000100") [] ≡ field "" "0.1")
unfolding control value_of strip_prefix default_value match match_from digits_only scaled digits
    digits_onto value_from pow10 pad_start zeros strip_zeros ◌++◌
control_tests = (refl, refl, refl, refl)

rows-IsSorted_example :
    IsOrdered (rows 30 optimization catalogue)
    × ((k : ℕ)
        → filter (has_priority k) (rows 30 optimization catalogue)
          ≡ filter (has_priority k) (filter (is_on optimization) (known 30 catalogue)))
rows-IsSorted_example = rows-IsSorted 30 optimization catalogue

abbrev edits : List Edit
edits =
    typed (option "dbcache" other_kind "450") " 900 "
    ∷ saved (option "rest" boolean "0") "1"
    ∷ typed (option "maxorphantx" other_kind "100") " "
    ∷ []

run-value_of_example : value_of "dbcache" (run edits (("dbcache", "600") ∷ [])) ≡ some "900"
unfolding value_of trim trim_start trim_end is_space all_chars
run-value_of_example = run-value_of "dbcache" edits (("dbcache", "600") ∷ [])

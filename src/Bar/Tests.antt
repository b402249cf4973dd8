-- ===== src/Bar/Tests.antt =====
-- Answers of the server, and the theorems at concrete inputs.
use justverify.Bar.{language_of, path_of, label, Status, label_of, update}
use justverify.Bar.Link.{language_of-path_of}
use justverify.Bar.Said.{is_running, update-empty}
use justverify.Common.{String, some, ◌≡◌, refl, decimal}
use justverify.I18n.Entries.{ko, en, ja}
use justverify.I18n.Strings.{◌++◌, strip_prefix, is_empty}

abbrev status : String → Status
status state = record {
  state = some state;
  electrs_height = some 7;
  blocks = some 8;
  headers = some 9;
}

update_tests :
    (update decimal en (some (status "electrs_finalizing"))
      ≡ "Electrs is finalizing its index · 7 / 8")
    × (update decimal en (some (status "core_sync")) ≡ "Bitcoin Core is synchronizing · 8 / 9")
    × (update decimal en (some (status "new")) ≡ "Waiting for the local node")
    × (update decimal en (some (status "running")) ≡ "")
unfolding update label_of label strip_prefix ◌++◌ decimal
update_tests = (refl, refl, refl, refl)

language_of-path_of_example : language_of (path_of ja ++ "tx/1") ≡ ja
language_of-path_of_example = language_of-path_of ja "tx/1"

update-empty_example :
    is_empty (update decimal ko (some (status "running"))) ≡ is_running (some (status "running"))
update-empty_example = update-empty decimal ko (some (status "running"))

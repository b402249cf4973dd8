-- ===== src/Electrs/Tests.antt =====
-- The cases of tests/electrs_status_view.cjs, and the theorems at concrete reports.
use justverify.Common.{
  ℕ, ◌*◌, ◌≡◌, refl, ◌↔◌, ◌/◌, some, none, true, false, [], ◌∷◌, arith, Field, to_fixed2,
  to_locale_string,
}
use native.Mathlib.Nat.{mul-div_right}
use justverify.Electrs.{
  State, ready, finalizing, indexing, verifying, Status, retained_note, delayed_note, wallet_open,
  progress, rows, note,
}
use justverify.Electrs.Ready.{Cleared, wallet_open_iff, wallet_open_expires}
use justverify.Electrs.Percent.{IsRatio}

-- The quotient of exact arithmetic.
abbrev exact : ℕ → ℕ → ℕ
exact h t = h * 10000 / t

exact-IsRatio : IsRatio exact
exact-IsRatio = record { ratio_self = λ t h. mul-div_right 10000 h }

abbrev blank : Status
blank = record {
  state = State.starting;
  wallet_ready = false;
  height_stale = false;
  target_stale = false;
  rpc_updated = none;
  height_updated = none;
  height = Field.absent;
  target_height = Field.absent;
  compaction_percent_basis_points = Field.absent;
  rpc_error = none;
}

abbrev serving : Status
serving = record blank {
  state = ready;
  wallet_ready = true;
  rpc_updated = some 100;
  height_updated = some 100;
  height = Field.whole 100;
  target_height = Field.whole 100;
}

abbrev compacting : Status
compacting = record blank {
  state = finalizing;
  compaction_percent_basis_points = Field.whole 6400;
  height = Field.whole 968196;
  target_height = Field.whole 968197;
}

abbrev near_tip : Status
near_tip = record blank { height = Field.whole 999999; target_height = Field.whole 1000000 }

serving_tests :
    (wallet_open serving 102000 ≡ true)
    × (wallet_open serving 120000 ≡ false)
    × ((progress exact serving 101000).percent ≡ some 10000)
    × ((progress exact serving 120000).state ≡ "응답 대기")
    × (note serving 120000 ≡ retained_note)
unfolding wallet_open progress note
serving_tests = (refl, refl, refl, refl, refl)

percent_tests :
    ((progress exact compacting 101000).text ≡ "약 64.00%")
    × ((progress exact compacting 101000).state ≡ "DB 정리 중")
    × ((progress exact near_tip 101000).percent ≡ some 9999)
    × ((progress exact near_tip 101000).text ≡ "99.99% (999,999 / 1,000,000)")
    × (rows exact (record blank { state = indexing; height = Field.whole 1234 }) 102000
        ≡ ("electrs", "1,234") ∷ ("인덱싱 상태", "블록 인덱싱 중") ∷ [])
    × (note
          (record blank { state = verifying; rpc_error = some "Electrum response delayed" })
          102000
        ≡ delayed_note)
unfolding wallet_open progress note rows to_fixed2 to_locale_string
percent_tests = (refl, refl, refl, refl, refl, refl)

serving_open : wallet_open serving 102000 ≡ true
unfolding wallet_open
serving_open = refl

wallet_open_iff_example : (wallet_open serving 102000 ≡ true) ↔ Cleared serving 102000
wallet_open_iff_example = wallet_open_iff serving 102000

wallet_open_expires_example : wallet_open serving 120000 ≡ false
wallet_open_expires_example =
    wallet_open_expires serving 102000 120000 100 serving_open refl (omega arith)

near_tip_percent : (progress exact near_tip 101000).percent ≡ some 9999
unfolding progress
near_tip_percent = percent_tests.2

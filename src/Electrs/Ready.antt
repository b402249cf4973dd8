-- ===== src/Electrs/Ready.antt =====
-- When electrs_status.js reports the wallet service as ready, and what the page then shows.
use text.Mathlib.Text.{◌==◌ as str_eq}
use text.Mathlib.TextEquality.{eq_iff}
use justverify.Common.{
  ℕ, ◌+◌, ◌*◌, ◌≤◌, ◌<◌, ◌≡◌, refl, ◌↔◌, ◌⊎◌, inl, inr, String, some, none, true, false, Bool, not,
  ◌&&◌, if◌then◌else◌, arith, Bool-cases, Option-cases,
}
use justverify.Electrs.{
  State, ready, stale, Status, label, is_ready, retained_note, wallet_open, progress, note,
}

-- The report of the server that can open the wallet service, with its two stamps in seconds.
pub record IsCleared (s : Status) (rpc height : ℕ) : Type 0 where
  pub flagged : s.wallet_ready ≡ true
  pub is_ready : s.state ≡ ready
  pub height_live : s.height_stale ≡ false
  pub target_live : s.target_stale ≡ false
  pub rpc_stamp : s.rpc_updated ≡ some rpc
  pub height_stamp : s.height_updated ≡ some height
  pub rpc_set : 0 < rpc
  pub height_set : 0 < height

pub record IsWithin (rpc height at : ℕ) : Type 0 where
  pub begun : rpc * 1000 ≤ at
  pub rpc_recent : at ≤ rpc * 1000 + 15000
  pub height_recent : at ≤ height * 1000 + 15000

abbrev pub Cleared : Status → ℕ → Type 0
Cleared s at = (rpc : ℕ) × (height : ℕ) × IsCleared s rpc height × IsWithin rpc height at

stamps_of_open :
    (s : Status) (at rpc height : ℕ)
    → wallet_open s at ≡ true
    → s.rpc_updated ≡ some rpc
    → s.height_updated ≡ some height
    → IsCleared s rpc height × IsWithin rpc height at
unfolding wallet_open
stamps_of_open s at rpc height h r k = ground arith

has_stamps :
    (s : Status) (at : ℕ)
    → wallet_open s at ≡ true
    → (s.rpc_updated ≡ none → ⊥) × (s.height_updated ≡ none → ⊥)
unfolding wallet_open
has_stamps s at h = ground arith

wallet_open-Cleared : (s : Status) (at : ℕ) → wallet_open s at ≡ true → Cleared s at
wallet_open-Cleared s at h = elim (Option-cases s.rpc_updated) [
  | inl e ↦ absurd ((has_stamps s at h).0 e)
  | inr (rpc, e) ↦ elim (Option-cases s.height_updated) [
    | inl e' ↦ absurd ((has_stamps s at h).1 e')
    | inr (height, e') ↦
        let (cleared, within) = stamps_of_open s at rpc height h e e' in
        (rpc, height, cleared, within)
  ]
]

Cleared-wallet_open :
    (s : Status) (at rpc height : ℕ)
    → IsCleared s rpc height
    → IsWithin rpc height at
    → wallet_open s at ≡ true
unfolding wallet_open
Cleared-wallet_open s at rpc height c w = ground arith

-- The wallet service is open exactly on a report that the server cleared, from the report's RPC stamp
-- on and until fifteen seconds after the older of its two stamps.
pub wallet_open_iff : (s : Status) (at : ℕ) → (wallet_open s at ≡ true) ↔ Cleared s at
wallet_open_iff s at =
    (wallet_open-Cleared s at, λ (rpc, height, c, w). Cleared-wallet_open s at rpc height c w)

-- No later report within the window: the service stays open up to the deadline and is closed behind
-- it, until another report arrives.
pub wallet_open_expires :
    (s : Status) (at later rpc : ℕ)
    → wallet_open s at ≡ true
    → s.rpc_updated ≡ some rpc
    → rpc * 1000 + 15000 < later
    → wallet_open s later ≡ false
unfolding wallet_open
wallet_open_expires s at later rpc h e l = ground arith

shown : Bool → State → String
shown done s = if is_ready s && not done then label stale else label s

shown_complete : (done : Bool) (s : State) → str_eq (shown done s) "동기화 완료" ≡ true → done ≡ true
unfolding shown
shown_complete true s h = refl
shown_complete false ready h = cc
shown_complete false _ h = cc

wallet_open-live :
    (s : Status) (at : ℕ)
    → wallet_open s at ≡ true
    → (s.height_stale ≡ false) × (s.target_stale ≡ false)
unfolding wallet_open
wallet_open-live s at h = ground arith

pub wallet_open-ready : (s : Status) (at : ℕ) → wallet_open s at ≡ true → s.state ≡ ready
unfolding wallet_open
wallet_open-ready s at h = ground arith

-- The label of completed synchronisation is shown exactly while the wallet service is open.
pub progress-complete_iff :
    (ratio : ℕ → ℕ → ℕ) (s : Status) (at : ℕ)
    → ((progress ratio s at).state ≡ "동기화 완료") ↔ (wallet_open s at ≡ true)
unfolding progress shown
progress-complete_iff ratio s at = (
  λ e. shown_complete (wallet_open s at) s.state ((eq_iff _ _).1 e),
  λ h. rw (h, wallet_open-ready s at h) refl,
)

-- Beside a report that opens the wallet service stands no note; beside one that claims readiness and
-- does not open it, the note says that the figures are retained, and the label is that of waiting.
pub note_of_ready :
    (ratio : ℕ → ℕ → ℕ) (s : Status) (at : ℕ)
    → s.state ≡ ready
    → ((wallet_open s at ≡ true) × (note s at ≡ ""))
      ⊎ ((wallet_open s at ≡ false)
          × (note s at ≡ retained_note)
          × ((progress ratio s at).state ≡ label stale))
unfolding note progress
note_of_ready ratio s at r = elim (Bool-cases (wallet_open s at)) [
  | inl o ↦ inl (o, ground (arith, wallet_open-live s at o))
  | inr c ↦ inr (c, ground arith, ground arith)
]

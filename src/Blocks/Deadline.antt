-- ===== src/Blocks/Deadline.antt =====
-- When a staged batch is shown: thirty seconds after the first incomplete one, whatever comes.
use text.Mathlib.TextEquality.{eq_iff}
use justverify.Common.{
  ℕ, ◌+◌, ◌≤◌, ◌≡◌, refl, ap, ◌∙◌, ◌⊎◌, inl, inr, arith, false, some, none, Option, List, [], ◌∷◌,
  String, All,
}
use justverify.Blocks.{Block, Snapshot, View, candidate, change_chain, stage, update}
use justverify.Blocks.Resolved.{update-stage, stages_or_retains}

-- The snapshot is of the network that is shown, or names none.
abbrev pub IsOn : View → Option String → Type 0
IsOn view next = (next ≡ none) ⊎ ((c : String) × (view.chain ≡ some c) × (next ≡ some c))

change_chain_on :
    (view : View) (next : Option String) → IsOn view next → change_chain next view ≡ view
unfolding change_chain
change_chain_on view next (inl e) = rw e refl
change_chain_on view next (inr (c, same, e)) = ground (arith, eq_iff c c)

stage_keeps :
    (now t : ℕ) (staged : List Block) (view : View)
    → view.waiting_since ≡ some t
    → ((stage now staged view).0.chain ≡ view.chain)
      × (((stage now staged view).0.waiting_since ≡ some t)
          ⊎ (((stage now staged view).0.waiting_since ≡ none)
              × ((stage now staged view).0.shown ≡ staged)))
unfolding stage
stage_keeps now t staged view w = ground arith

stage_overdue :
    (now t : ℕ) (staged : List Block) (view : View)
    → view.waiting_since ≡ some t
    → t + 30000 ≤ now
    → ((stage now staged view).0.waiting_since ≡ none) × ((stage now staged view).0.shown ≡ staged)
unfolding stage
stage_overdue now t staged view e h = ground arith

-- Once a batch has waited for thirty seconds, the next list of the same network is shown, complete
-- or not, and the wait is over.
pub update_overdue :
    (s : Snapshot) (now t : ℕ) (view : View) (b : Block) (bs : List Block)
    → IsOn view s.chain
    → s.recentblocks ≡ some (b ∷ bs)
    → s.error ≡ false
    → view.waiting_since ≡ some t
    → t + 30000 ≤ now
    → ((update s now view).0.waiting_since ≡ none)
      × ((update s now view).0.shown ≡ candidate s.initialblockdownload view.shown (b ∷ bs))
update_overdue s now t view b bs on e f w h =
    rw (update-stage s now view b bs e f, change_chain_on view s.chain on)
      (stage_overdue now t (candidate s.initialblockdownload view.shown (b ∷ bs)) view w h)

-- Updates one after the other.
pub run : List (Snapshot × ℕ) → View → View
run [] view = view
run ((s, now) ∷ es) view = run es (update s now view).0

-- The update shows the list of its snapshot as a batch, and the wait is over.
abbrev pub IsShowing : Snapshot → ℕ → View → Type 0
IsShowing s now view =
    (b : Block) × (bs : List Block) × (s.recentblocks ≡ some (b ∷ bs))
    × (s.error ≡ false)
    × ((update s now view).0.waiting_since ≡ none)
    × ((update s now view).0.shown ≡ candidate s.initialblockdownload view.shown (b ∷ bs))

-- Some update of the run ended the wait by showing its batch.
abbrev pub Published : List (Snapshot × ℕ) → View → Type 0
Published [] view = ⊥
Published ((s, now) ∷ es) view = IsShowing s now view ⊎ Published es (update s now view).0

IsShowing-of :
    (s : Snapshot) (now : ℕ) (view : View) (b : Block) (bs : List Block)
    → s.recentblocks ≡ some (b ∷ bs)
    → s.error ≡ false
    → ((update s now view).0.waiting_since ≡ none)
      × ((update s now view).0.shown ≡ candidate s.initialblockdownload view.shown (b ∷ bs))
    → IsShowing s now view
IsShowing-of s now view b bs e f (w, h) = (b, bs, e, f, w, h)

update_wait :
    (s : Snapshot) (now t : ℕ) (view : View)
    → IsOn view s.chain
    → view.waiting_since ≡ some t
    → ((update s now view).0.chain ≡ view.chain)
      × (((update s now view).0.waiting_since ≡ some t) ⊎ IsShowing s now view)
update_wait s now t view on w = elim (stages_or_retains s now view) [
  | inl (b, bs, e, f, staged) ↦
      let batch = candidate s.initialblockdownload view.shown (b ∷ bs) in
      let same : update s now view ≡ stage now batch view =
        rw (change_chain_on view s.chain on) at staged in
      let kept = stage_keeps now t batch view w in
      (
        ap (λ v. v.0.chain) same ∙ kept.0,
        elim kept.1 [
          | inl h ↦ inl (ap (λ v. v.0.waiting_since) same ∙ h)
          | inr (h, k) ↦ inr (
              IsShowing-of s now view b bs e f
                (ap (λ v. v.0.waiting_since) same ∙ h, ap (λ v. v.0.shown) same ∙ k))
        ],
      )
  | inr kept ↦ rw (kept, change_chain_on view s.chain on) (refl, inl w)
]

IsOn-of_eq :
    (view view' : View) (next : Option String)
    → view'.chain ≡ view.chain
    → IsOn view next
    → IsOn view' next
IsOn-of_eq view view' next e (inl h) = inl h
IsOn-of_eq view view' next e (inr (c, same, h)) = inr (c, e ∙ same, h)

All-IsOn :
    (view view' : View) (es : List (Snapshot × ℕ))
    → view'.chain ≡ view.chain
    → All (λ e. IsOn view e.0.chain) es
    → All (λ e. IsOn view' e.0.chain) es
All-IsOn view view' [] e h = tt
All-IsOn view view' ((s, now) ∷ es) e (h, hs) =
    (IsOn-of_eq view view' s.chain e h, All-IsOn view view' es e hs)

-- While the network stays the same, the deadline of a wait stays where it is until an update shows the
-- batch of its own snapshot, a list that is not empty and no failed sample.
pub run_wait :
    (es : List (Snapshot × ℕ)) (view : View) (t : ℕ)
    → All (λ e. IsOn view e.0.chain) es
    → view.waiting_since ≡ some t
    → ((run es view).waiting_since ≡ some t) ⊎ Published es view
unfolding run
run_wait [] view t on w = inl w
run_wait ((s, now) ∷ es) view t (on, ons) w =
    let (same, wait) = update_wait s now t view on w in
    elim wait [
      | inl still ↦
          elim (run_wait es (update s now view).0 t
            (All-IsOn view (update s now view).0 es same ons) still) [
              | inl h ↦ inl h
              | inr h ↦ inr (inr h)
            ]
      | inr over ↦ inr (inl over)
    ]

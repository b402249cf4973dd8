-- ===== src/Blocks/Resolved.antt =====
-- Known details of a block are not lost when a batch is shown.
use justverify.Common.{
  ◌≡◌, refl, arith, true, false, some, none, ◌⊎◌, inl, inr, Option, List, [], ◌∷◌, Bool, ℕ, All,
  not, ◌&&◌, sym, ◌∙◌, ap, all, Bool-cases, Option-cases,
}
use justverify.Blocks.{
  Block, Snapshot, View, is_terminal, is_unavailable, has_size, settled, merge, previous, candidate,
  defer, update, change_chain, is_overdue, stage,
}

-- The pool of a block is looked up, and the look-up was to be had.
abbrev pub is_mined : Block → Bool
is_mined b = is_terminal b.miner.status && not (is_unavailable b.miner.status)

-- The row has what the old block of its hash has: a size if that has one, and a pool if that has one.
pub record IsKept (old row : Block) : Type 0 where
  pub sized : has_size old ≡ true → has_size row ≡ true
  pub mined : is_mined old ≡ true → is_mined row ≡ true

merge-IsKept : (old row : Block) → IsKept old (merge (some old) row)
unfolding merge
merge-IsKept old row = record { sized = λ h. ground (arith, h); mined = λ h. ground (arith, h) }

merge-hash : (old : Option Block) (row : Block) → (merge old row).hash ≡ row.hash
unfolding merge
merge-hash none row = refl
merge-hash (some old) row = ground arith

-- A row of a batch has what the shown block of its hash has.
abbrev pub Keeps : List Block → Block → Type 0
Keeps shown row = (old : Block) → previous row.hash shown ≡ some old → IsKept old row

merge-Keeps :
    (shown : List Block) (row : Block) (o : Option Block)
    → previous row.hash shown ≡ o
    → Keeps shown (merge o row)
merge-Keeps shown row o e old f =
    let same : o ≡ some old = sym e ∙ (rw (merge-hash o row) at f) in rw same (merge-IsKept old row)

defer-hash : (ibd : Bool) (b : Block) → (defer ibd b).hash ≡ b.hash
defer-hash true b = refl
defer-hash false b = refl

pub candidate-Keeps :
    (ibd : Bool) (shown incoming : List Block) → All (Keeps shown) (candidate ibd shown incoming)
unfolding candidate
candidate-Keeps ibd shown [] = tt
candidate-Keeps ibd shown (b ∷ bs) = (
  merge-Keeps shown (defer ibd b) (previous b.hash shown) (rw (defer-hash ibd b)),
  candidate-Keeps ibd shown bs,
)

-- What one update does to the shown list: nothing, or it shows the batch of this snapshot, all of
-- it settled or the wait overdue, in which no block loses its size or its pool.
pub record IsPublished (s : Snapshot) (now : ℕ) (view : View) (shown : List Block) : Type 0 where
  pub incoming : List Block
  pub sampled : s.recentblocks ≡ some incoming
  pub no_error : s.error ≡ false
  pub batch : shown ≡ candidate s.initialblockdownload view.shown incoming
  pub due : (all settled shown ≡ true) ⊎ (is_overdue now view.waiting_since ≡ true)
  pub kept : All (Keeps view.shown) shown

stage_cases :
    (now : ℕ) (staged : List Block) (view : View)
    → ((stage now staged view).0.shown ≡ view.shown)
      ⊎ (((stage now staged view).0.shown ≡ staged)
          × ((all settled staged ≡ true) ⊎ (is_overdue now view.waiting_since ≡ true)))
unfolding stage
stage_cases now staged view = ground arith

pub update-stage :
    (s : Snapshot) (now : ℕ) (view : View) (b : Block) (bs : List Block)
    → s.recentblocks ≡ some (b ∷ bs)
    → s.error ≡ false
    → update s now view
      ≡ stage now
          (candidate s.initialblockdownload (change_chain s.chain view).shown (b ∷ bs))
          (change_chain s.chain view)
unfolding update
update-stage s now view b bs e f = ground arith

pub update_retains :
    (s : Snapshot) (now : ℕ) (view : View)
    → (s.recentblocks ≡ none) ⊎ (s.recentblocks ≡ some []) ⊎ (s.error ≡ true)
    → (update s now view).0 ≡ change_chain s.chain view
unfolding update
update_retains s now view h = ground arith

stage-IsPublished :
    (s : Snapshot) (now : ℕ) (view : View) (bs : List Block)
    → s.recentblocks ≡ some bs
    → s.error ≡ false
    → let next = (stage now (candidate s.initialblockdownload view.shown bs) view).0.shown in
      (next ≡ view.shown) ⊎ IsPublished s now view next
stage-IsPublished s now view bs e f =
    elim (stage_cases now (candidate s.initialblockdownload view.shown bs) view) [
      | inl same ↦ inl same
      | inr (staged, due) ↦ inr (record {
        incoming = bs;
        sampled = e;
        no_error = f;
        batch = staged;
        due = rw staged due;
        kept = rw staged (candidate-Keeps s.initialblockdownload view.shown bs);
      })
    ]

abbrev pub IsStaged : Snapshot → ℕ → View → Type 0
IsStaged s now view =
    (b : Block) × (bs : List Block) × (s.recentblocks ≡ some (b ∷ bs))
    × (s.error ≡ false)
    × (update s now view
        ≡ stage now (candidate s.initialblockdownload (change_chain s.chain view).shown (b ∷ bs))
            (change_chain s.chain view))

pub stages_or_retains :
    (s : Snapshot) (now : ℕ) (view : View)
    → IsStaged s now view ⊎ ((update s now view).0 ≡ change_chain s.chain view)
stages_or_retains s now view = elim (Option-cases s.recentblocks) [
  | inl e ↦ inr (update_retains s now view (inl e))
  | inr ([], e) ↦ inr (update_retains s now view (inr (inl e)))
  | inr (b ∷ bs, e) ↦ elim (Bool-cases s.error) [
    | inl f ↦ inr (update_retains s now view (inr (inr f)))
    | inr f ↦ inl (b, bs, e, f, update-stage s now view b bs e f)
  ]
]

pub update_cases :
    (s : Snapshot) (now : ℕ) (view : View)
    → ((update s now view).0.shown ≡ (change_chain s.chain view).shown)
      ⊎ IsPublished s now (change_chain s.chain view) (update s now view).0.shown
update_cases s now view = elim (stages_or_retains s now view) [
  | inl (b, bs, e, f, staged) ↦
      rw staged (stage-IsPublished s now (change_chain s.chain view) (b ∷ bs) e f)
  | inr kept ↦ inl (ap (λ v. v.shown) kept)
]

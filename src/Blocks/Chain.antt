-- ===== src/Blocks/Chain.antt =====
-- The blocks of one network are never shown as another's.
use text.Mathlib.TextEquality.{eq_iff}
use justverify.Common.{
  ℕ, ◌≡◌, ◌≢◌, refl, ap, ◌∙◌, ◌⊎◌, inl, inr, arith, true, some, none, Option, List, [], ◌∷◌, String,
  Bool, map, all, Option-cases,
}
use justverify.Blocks.{
  Block, Snapshot, View, settled, candidate, defer, merge, previous, change_chain, is_overdue,
  update,
}
use justverify.Blocks.Resolved.{update_cases}

change_chain_new :
    (view : View) (next : String)
    → next ≢ ""
    → view.chain ≢ some next
    → ((change_chain (some next) view).shown ≡ [])
      × ((change_chain (some next) view).waiting_since ≡ none)
unfolding change_chain
change_chain_new view next h k = elim (Option-cases view.chain) [
  | inl e ↦ ground (arith, eq_iff next "")
  | inr (c, e) ↦ ground (arith, eq_iff next "", eq_iff c next)
]

candidate_fresh :
    (ibd : Bool) (incoming : List Block) → candidate ibd [] incoming ≡ map (defer ibd) incoming
unfolding candidate merge previous
candidate_fresh ibd [] = refl
candidate_fresh ibd (b ∷ bs) = ap (λ r. defer ibd b ∷ r) (candidate_fresh ibd bs)

not_overdue : (now : ℕ) (since : Option ℕ) → since ≡ none → is_overdue now since ≡ true → ⊥
not_overdue now since e h = ground arith

-- The first update of another network shows nothing, or a batch of settled blocks that are just
-- those of its own snapshot: no block and no detail of the network before it.
pub update_new_chain :
    (s : Snapshot) (now : ℕ) (view : View) (next : String)
    → s.chain ≡ some next
    → next ≢ ""
    → view.chain ≢ some next
    → ((update s now view).0.shown ≡ [])
      ⊎ ((incoming : List Block) × (s.recentblocks ≡ some incoming)
          × ((update s now view).0.shown ≡ map (defer s.initialblockdownload) incoming)
          × (all settled (update s now view).0.shown ≡ true))
update_new_chain s now view next e h k =
    let (cleared, reset) = change_chain_new view next h k in
    let cleared' : (change_chain s.chain view).shown ≡ [] = rw e cleared in
    let reset' : (change_chain s.chain view).waiting_since ≡ none = rw e reset in
    elim (update_cases s now view) [
      | inl kept ↦ inl (kept ∙ cleared')
      | inr p ↦ inr (
        p.incoming,
        p.sampled,
        p.batch
            ∙ ap (λ l. candidate s.initialblockdownload l p.incoming) cleared'
            ∙ candidate_fresh s.initialblockdownload p.incoming,
        elim p.due [ inl done ↦ done | inr over ↦ absurd (not_overdue now _ reset' over) ],
      )
    ]

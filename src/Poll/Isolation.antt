-- ===== src/Poll/Isolation.antt =====
-- Answers that belong to a page that was left.
use justverify.Common.{
  ℕ, ◌≡◌, ◌≢◌, refl, Option, none, some, List, false, ◌==◌, Bool-cases, ==_iff, inl, inr,
}
use justverify.Poll.{Page, Request, Node, Picks, settle, settle_endpoint}
use justverify.Poll.Single.{IsSingle}
use justverify.Poll.Rounds.{not_owner, finish_stale}

differs : (a b : ℕ) → a ≢ b → (a == b) ≡ false
differs a b h = elim (Bool-cases (a == b)) [ inl e ↦ absurd (h ((==_iff a b).0 e)) | inr e ↦ e ]

endpoint_stale :
    {Snap Info : Type 0} (current : ℕ) (info : Option Info) (n : Node Snap Info)
    → (current == n.generation) ≡ false
    → settle_endpoint current info n ≡ n
unfolding settle_endpoint
endpoint_stale current none n e = refl
endpoint_stale current (some info) n e = rw e refl

module _ {Snap Info : Type 0} (n : Node Snap Info) (r : Request) (rest : List Request)
    (picked : Picks r n.requests rest) (s : IsSingle n) where
  -- An answer that arrives after its page was left, of either page and with or without data, changes
  -- nothing but that the request is gone: no snapshot, no notice, no controller and no new timer.
  pub settle_stale :
      (page : Page) (answer : Option Snap) (info : Option Info)
      → r.current ≢ n.generation
      → (settle page r.id r.current answer (record n { requests = rest })
          ≡ record n { requests = rest })
        × (settle_endpoint r.current info (record n { requests = rest })
            ≡ record n { requests = rest })
  unfolding settle settle_endpoint
  settle_stale page answer info h =
      let other = differs r.current n.generation h in
      let m : Node Snap Info = record n { requests = rest } in
      (
        rw other (finish_stale page r.id r.current m (not_owner n r rest picked s other) other),
        endpoint_stale r.current info m other,
      )

-- ===== src/Wallet/Heard.antt =====
-- dashboard.js, connection: what the events alone say of the reports, apart from what the page stores.
use justverify.Common.{
  ℕ, ◌+◌, Option, none, some, List, [], ◌∷◌, Bool, true, false, ◌==◌, ◌≡◌, refl, arith, any,
  if◌then◌else◌,
}
use justverify.Electrs.{Status, wallet_open}
use justverify.Wallet.{
  Page, or_nothing, outdated, Event, connects, stops, answers, refreshes, fails,
}

-- Whether the last report says that Core is in its initial download, the index as last reported, `none`
-- without a report or after a failure, and the times of the last report and of the answers since.
pub record Heard : Type 0 where
  pub ibd : Bool
  pub status : Option Status
  pub times : List ℕ

pub record Seen : Type 0 where
  pub generation : ℕ
  pub heard : Heard

abbrev pub unheard : Seen
unheard = record { generation = 0; heard = record { ibd = false; status = none; times = [] } }

abbrev pub see : Event → Seen → Seen
see (connects network transport) o = record o { generation = o.generation + 1 }
see stops o = record o { generation = o.generation + 1 }
see (answers n server at) o = record o { heard = record o.heard { times = at ∷ o.heard.times } }
see (refreshes current status ibd at) o = record o {
  heard =
      if current == o.generation
      then record { ibd = ibd; status = status; times = at ∷ [] }
      else o.heard;
}
see (fails current at) o = record o {
  heard =
      if current == o.generation
      then record o.heard { status = none; times = at ∷ [] }
      else o.heard;
}

abbrev pub see_all : List Event → Seen → Seen
see_all [] o = o
see_all (e ∷ es) o = see_all es (see e o)

-- Wallets are served by the index as it was reported.
abbrev pub serves : Option Status → ℕ → Bool
serves none at = false
serves (some s) at = wallet_open s at

abbrev pub is_time : ℕ → Heard → Bool
is_time at h = any (λ t. t == at) h.times

-- The page stores what was heard.
pub record Agrees (o : Seen) (p : Page) : Type 0 where
  pub generation : p.generation ≡ o.generation
  pub ibd : p.core_ibd ≡ o.heard.ibd
  pub serving : (at : ℕ) → wallet_open (or_nothing p.electrs_snapshot) at ≡ serves o.heard.status at

pub or_nothing-serves : (s : Option Status) (at : ℕ) → wallet_open (or_nothing s) at ≡ serves s at
unfolding wallet_open
or_nothing-serves none at = refl
or_nothing-serves (some s) at = refl

pub outdated-closed : (s : Status) (at : ℕ) → wallet_open (outdated s) at ≡ false
unfolding wallet_open
outdated-closed s at = ground arith

-- Both are chosen by the same test.
pub if_both {ℓ} :
    {A B : Type 0} (Q : A → B → Type ℓ) (b : Bool) {x y : A} {z w : B}
    → (b ≡ true → Q x z)
    → (b ≡ false → Q y w)
    → Q (if b then x else y) (if b then z else w)
if_both Q true f g = f refl
if_both Q false f g = g refl

-- ===== src/Poll/Tests.antt =====
-- A short walk through the pages, and the theorems on it.
use justverify.Common.{ℕ, ◌≡◌, refl, arith, some, List, [], ◌∷◌, true, false}
use justverify.Poll.{
  dashboard, electrum, round, endpoint, Request, Node, start, connection, settle, settle_endpoint,
  Picks, here, there, starts, connects, answers, Reach, done, next, initial,
}
use justverify.Poll.Single.{IsSingle}
use justverify.Poll.Rounds.{Reach-initial-IsSingle}
use justverify.Poll.Isolation.{settle_stale}
use justverify.Poll.Continues.{tasks, opened, stayed, polling_continues}

abbrev Page0 : Type 0
Page0 = Node ℕ ℕ

abbrev first : Page0
first = start initial

-- The request of the dashboard.
abbrev asked : Request
asked = record { id = 0; current = 1; task = round dashboard; aborted = false }

asked_first : Picks asked first.requests []
unfolding start initial
asked_first = here

abbrev answered : Page0
answered = settle dashboard 0 1 (some 42) (record first { requests = [] })

answered_test :
    (answered.last_snapshot ≡ some 42) × (answered.timer ≡ some 1) × (tasks answered ≡ 1)
unfolding start initial settle
answered_test = (refl, refl, refl)

to_answered : Reach {Snap = ℕ} {Info = ℕ} initial answered
to_answered = next (next done starts) (answers asked [] dashboard (some 42) asked_first refl)

Reach-initial-IsSingle_example : IsSingle answered
Reach-initial-IsSingle_example = Reach-initial-IsSingle to_answered

polling_continues_example : tasks answered ≡ 1
polling_continues_example =
    polling_continues {n = initial} done
      (stayed opened (answers asked [] dashboard (some 42) asked_first refl) (λ e. e))

-- The dashboard is left for the wallet page before its answer arrives.
abbrev moved : Page0
moved = connection first

abbrev old : Request
old = record { id = 0; current = 1; task = round dashboard; aborted = true }

abbrev others : List Request
others =
    record { id = 2; current = 2; task = endpoint; aborted = false }
    ∷ record { id = 1; current = 2; task = round electrum; aborted = false }
    ∷ []

old_moved : Picks old moved.requests others
unfolding start initial connection
old_moved = there (there here)

moved_generation : moved.generation ≡ 2
unfolding start initial connection
moved_generation = refl

settle_stale_example :
    (settle dashboard 0 1 (some 42) (record moved { requests = others })
      ≡ record moved { requests = others })
    × (settle_endpoint 1 (some 7) (record moved { requests = others })
        ≡ record moved { requests = others })
settle_stale_example =
    settle_stale moved old others old_moved
      (Reach-initial-IsSingle (next (next done starts) connects)) dashboard (some 42) (some 7)
      (λ e. ground (arith, moved_generation))

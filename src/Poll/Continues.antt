-- ===== src/Poll/Continues.antt =====
-- Polling goes on for as long as a page is open.
use justverify.Common.{
  ℕ, ◌+◌, ◌≤◌, ◌≡◌, refl, ◌≢◌, arith, Option, none, some, List, true, false, ◌==◌, length,
  Bool-cases, inl, inr, ◌⊎◌,
}
use justverify.Poll.{
  Page, dashboard, electrum, Request, Node, finish, receive, stop, refresh, start, connection,
  settle, settle_endpoint, Picks, Step, starts, stops, connects, answers, addresses, fires, Reach,
  next, initial,
}
use justverify.Poll.Single.{IsSingle, is_round, rounds, Live, Picks-All, Picks-rounds}
use justverify.Poll.Rounds.{Reach-initial-IsSingle}
use justverify.Poll.Isolation.{settle_stale}

-- The rounds of the current page that are under way or set.
abbrev pub tasks : {Snap Info : Type 0} → Node Snap Info → ℕ
tasks n = rounds n.generation n.requests + length n.timers

abbrev pub Leaves : {Snap Info : Type 0} {n m : Node Snap Info} → Step n m → Type 0
Leaves stops = Unit
Leaves _ = ⊥

-- From where a page was opened, by any steps that do not leave it.
pub data Visit {Snap Info : Type 0} (n : Node Snap Info) : Node Snap Info → Type 0 where
  opened : Visit n (start n)
  connected : Visit n (connection n)
  stayed : {m k : Node Snap Info} → Visit n m → (st : Step m k) → (Leaves st → ⊥) → Visit n k

ne_of_test : (a b : ℕ) → (a == b) ≡ false → a ≢ b
ne_of_test a b h e = ground arith

module _ {Snap Info : Type 0} where
  tasks-refresh :
      (page : Page) (current : ℕ) (n : Node Snap Info)
      → current ≡ n.generation
      → 1 ≤ tasks (refresh page current n)
  unfolding refresh
  tasks-refresh page current n e = ground arith

  tasks-start : (n : Node Snap Info) → 1 ≤ tasks (start n)
  unfolding start
  tasks-start n =
      tasks-refresh dashboard (stop n).generation
        (record (stop n) { last_snapshot = none; transport_failed = false; watchdog = true }) refl

  tasks-connection : (n : Node Snap Info) → 1 ≤ tasks (connection n)
  unfolding connection
  tasks-connection n = ground arith

  tasks-finish :
      (page : Page) (id current : ℕ) (n : Node Snap Info)
      → (current == n.generation) ≡ true
      → 1 ≤ tasks (finish page id current n)
  tasks-finish page id current n e = rw e (ground arith)

  receive-generation :
      (page : Page) (answer : Option Snap) (n : Node Snap Info)
      → (receive page answer n).generation ≡ n.generation
  receive-generation dashboard (some s) n = refl
  receive-generation dashboard none n = refl
  receive-generation electrum (some s) n = refl
  receive-generation electrum none n = refl

  tasks-settle_fresh :
      (page : Page) (id current : ℕ) (answer : Option Snap) (n : Node Snap Info)
      → (current == n.generation) ≡ true
      → 1 ≤ tasks (settle page id current answer n)
  unfolding settle
  tasks-settle_fresh page id current answer n e = rw e (
      tasks-finish page id current (receive page answer n)
        (rw (receive-generation page answer n) e))

  tasks-without :
      (n : Node Snap Info) (r : Request) (rest : List Request)
      → Picks r n.requests rest
      → ((r.current == n.generation) ≡ false) ⊎ (is_round r.task ≡ false)
      → 1 ≤ tasks n
      → 1 ≤ tasks (record n { requests = rest })
  tasks-without n r rest picked (inl h) k = ground (arith, Picks-rounds n.generation picked)
  tasks-without n r rest picked (inr h) k = ground (arith, Picks-rounds n.generation picked)

  tasks-settle :
      (n : Node Snap Info) (r : Request) (rest : List Request) (page : Page) (answer : Option Snap)
      → Picks r n.requests rest
      → IsSingle n
      → 1 ≤ tasks n
      → 1 ≤ tasks (settle page r.id r.current answer (record n { requests = rest }))
  tasks-settle n r rest page answer picked s h = elim (Bool-cases (r.current == n.generation)) [
    | inl same ↦ tasks-settle_fresh page r.id r.current answer (record n { requests = rest }) same
    | inr other ↦
        rw
          (settle_stale n r rest picked s page answer none
            (ne_of_test r.current n.generation other)).0
          (tasks-without n r rest picked (inl other) h)
  ]

  tasks-settle_endpoint :
      (current : ℕ) (answer : Option Info) (n : Node Snap Info)
      → tasks (settle_endpoint current answer n) ≡ tasks n
  unfolding settle_endpoint
  tasks-settle_endpoint current none n = refl
  tasks-settle_endpoint current (some info) n = ground arith

  Step-tasks :
      {n m : Node Snap Info} (st : Step n m)
      → (Leaves st → ⊥)
      → IsSingle n
      → 1 ≤ tasks n
      → 1 ≤ tasks m
  Step-tasks {n} starts l s h = tasks-start n
  Step-tasks stops l s h = absurd (l tt)
  Step-tasks {n} connects l s h = tasks-connection n
  Step-tasks {n} (answers r rest page answer picked t) l s h =
      tasks-settle n r rest page answer picked s h
  Step-tasks {n} (addresses r rest answer picked t) l s h =
      rw (tasks-settle_endpoint r.current answer (record n { requests = rest }))
        (tasks-without n r rest picked (inr (rw t refl)) h)
  Step-tasks {n} (fires t rest picked) l s h =
      tasks-refresh t.page t.current (record n { timers = rest })
        (Picks-All (Live n.generation n.timer) picked s.live).0.0

  Visit-Reach : {n m : Node Snap Info} → Reach initial n → Visit n m → Reach initial m
  Visit-Reach r opened = next r starts
  Visit-Reach r connected = next r connects
  Visit-Reach r (stayed v st l) = next (Visit-Reach r v) st

  Visit-tasks : {n m : Node Snap Info} → Reach initial n → Visit n m → 1 ≤ tasks m
  Visit-tasks {n} r opened = tasks-start n
  Visit-tasks {n} r connected = tasks-connection n
  Visit-tasks r (stayed v st l) =
      Step-tasks st l (Reach-initial-IsSingle (Visit-Reach r v)) (Visit-tasks r v)

  -- From the opening of a page on, for as long as it is not left, exactly one round of polling is
  -- under way or set, whatever the order of answers, failures and timers.
  pub polling_continues : {n m : Node Snap Info} → Reach initial n → Visit n m → tasks m ≡ 1
  polling_continues r v =
      omega (arith, Visit-tasks r v, (Reach-initial-IsSingle (Visit-Reach r v)).one_round)

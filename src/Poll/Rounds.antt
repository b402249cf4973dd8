-- ===== src/Poll/Rounds.antt =====
-- Every step of the page keeps the single round.
use justverify.Common.{
  ℕ, ◌+◌, ◌≤◌, ◌≡◌, ◌≢◌, refl, ◌∙◌, arith, Option, none, some, List, [], ◌∷◌, true, false, ◌==◌,
  if◌then◌else◌, length, inl, inr, Bool-cases, ==_iff,
}
use justverify.Poll.{
  Page, dashboard, electrum, Request, Timer, Node, receive, finish, is_controller, stop, refresh,
  start, connection, settle, settle_endpoint, Picks, Step, starts, stops, connects, answers,
  addresses, fires, Reach, done, next, initial,
}
use justverify.Poll.Single.{
  IsSingle, IsQuiet, Issued, Owned, Live, is_round, Owned-idle, none_owns, Issued-later, Picks-All,
  Picks-rounds, Picks-length, stop-IsQuiet, IsQuiet-IsSingle, refresh-IsSingle, with_endpoint,
  with_endpoint-IsSingle,
}

nil_of_length : {A : Type 0} (xs : List A) → length xs ≤ 0 → xs ≡ []
nil_of_length [] h = refl
nil_of_length (x ∷ xs) h = absurd (omega arith)

released : (id : ℕ) (c : Option ℕ) → c ≡ some id → (if is_controller id c then none else c) ≡ none
released id c e = ground arith

held : (id : ℕ) (c : Option ℕ) → c ≢ some id → (if is_controller id c then none else c) ≡ c
held id none h = refl
held id (some c) h = ground arith

module _ {Snap Info : Type 0} where
  start-IsSingle : (n : Node Snap Info) → IsSingle n → IsSingle (start n)
  unfolding start
  start-IsSingle n s =
      let q = stop-IsQuiet n s in
      refresh-IsSingle
        (record (stop n) { last_snapshot = none; transport_failed = false; watchdog = true })
        dashboard (record { no_round = q.no_round; no_timer = q.no_timer; issued = q.issued })

  connection-IsSingle : (n : Node Snap Info) → IsSingle n → IsSingle (connection n)
  unfolding connection with_endpoint
  connection-IsSingle n s =
      let q = stop-IsQuiet n s in
      let m : Node Snap Info = record (stop n) { endpoint_info = none } in
      with_endpoint-IsSingle (refresh electrum m.generation m) (
        refresh-IsSingle m electrum
          (record { no_round = q.no_round; no_timer = q.no_timer; issued = q.issued }))

  stop-IsSingle : (n : Node Snap Info) → IsSingle n → IsSingle (stop n)
  unfolding stop
  stop-IsSingle n s = IsQuiet-IsSingle (stop n) (stop-IsQuiet n s) refl

  receive-IsQuiet :
      (page : Page) (answer : Option Snap) (n : Node Snap Info)
      → IsQuiet n
      → IsQuiet (receive page answer n)
  receive-IsQuiet dashboard (some s) n q = record {
    no_round = q.no_round;
    no_timer = q.no_timer;
    issued = q.issued;
  }
  receive-IsQuiet dashboard none n q = record {
    no_round = q.no_round;
    no_timer = q.no_timer;
    issued = q.issued;
  }
  receive-IsQuiet electrum (some s) n q = record {
    no_round = q.no_round;
    no_timer = q.no_timer;
    issued = q.issued;
  }
  receive-IsQuiet electrum none n q = record {
    no_round = q.no_round;
    no_timer = q.no_timer;
    issued = q.issued;
  }

  receive-fields :
      (page : Page) (answer : Option Snap) (n : Node Snap Info)
      → ((receive page answer n).generation ≡ n.generation)
        × ((receive page answer n).controller ≡ n.controller)
  receive-fields dashboard (some s) n = (refl, refl)
  receive-fields dashboard none n = (refl, refl)
  receive-fields electrum (some s) n = (refl, refl)
  receive-fields electrum none n = (refl, refl)

  -- The answer to the round of this generation sets the one timer.
  finish-IsSingle :
      (page : Page) (id current : ℕ) (n : Node Snap Info)
      → n.controller ≡ some id
      → (current == n.generation) ≡ true
      → IsQuiet n
      → IsSingle (finish page id current n)
  finish-IsSingle page id current n c e q =
      rw (e, released id n.controller c)
        (record {
          one_round = rw q.no_timer (ground (arith, q.no_round));
          issued =
              Issued-later n.next_id (n.next_id + 1) n.generation n.requests (omega arith) q.issued;
          owned = Owned-idle n.generation none n.requests (none_owns n.requests) q.no_round;
          live = rw q.no_timer (((==_iff current n.generation).0 e, refl), tt);
        })

  -- The answer to a round of an earlier generation changes nothing.
  pub finish_stale :
      (page : Page) (id current : ℕ) (n : Node Snap Info)
      → n.controller ≢ some id
      → (current == n.generation) ≡ false
      → finish page id current n ≡ n
  finish_stale page id current n c e = rw (e, held id n.controller c) refl

  module _ (n : Node Snap Info) (r : Request) (rest : List Request)
      (picked : Picks r n.requests rest) (s : IsSingle n) where
    without-IsSingle : IsSingle (record n { requests = rest })
    without-IsSingle = record {
      one_round = ground (arith, s.one_round, Picks-rounds n.generation picked);
      issued = (Picks-All (Issued n.next_id n.generation) picked s.issued).1;
      owned = (Picks-All (Owned n.generation n.controller) picked s.owned).1;
      live = s.live;
    }

    without-IsQuiet :
        is_round r.task ≡ true
        → (r.current == n.generation) ≡ true
        → IsQuiet (record n { requests = rest })
    without-IsQuiet t e = record {
      no_round = ground (arith, s.one_round, Picks-rounds n.generation picked);
      no_timer =
          nil_of_length n.timers (ground (arith, s.one_round, Picks-rounds n.generation picked));
      issued = (Picks-All (Issued n.next_id n.generation) picked s.issued).1;
    }

    owner : is_round r.task ≡ true → (r.current == n.generation) ≡ true → n.controller ≡ some r.id
    owner t e =
        (Picks-All (Owned n.generation n.controller) picked s.owned).0.1 t
          ((==_iff r.current n.generation).0 e)

    pub not_owner : (r.current == n.generation) ≡ false → n.controller ≢ some r.id
    not_owner e =
        (Picks-All (Owned n.generation n.controller) picked s.owned).0.0
          (ground (arith, (Picks-All (Issued n.next_id n.generation) picked s.issued).0))

    answer-IsSingle :
        (page : Page) (answer : Option Snap)
        → is_round r.task ≡ true
        → IsSingle (settle page r.id r.current answer (record n { requests = rest }))
    unfolding settle
    answer-IsSingle page answer t = elim (Bool-cases (r.current == n.generation)) [
      | inl same ↦
          let m : Node Snap Info = record n { requests = rest } in
          let (same_generation, same_controller) = receive-fields page answer m in
          rw same (
            finish-IsSingle page r.id r.current (receive page answer m)
              (same_controller ∙ owner t same) (rw same_generation same)
              (receive-IsQuiet page answer m (without-IsQuiet t same)))
      | inr other ↦
          let m : Node Snap Info = record n { requests = rest } in
          rw other
            (rw (finish_stale page r.id r.current m (not_owner other) other) without-IsSingle)
    ]

    -- The addresses of the wallet page touch no round.
    addresses-IsSingle :
        (answer : Option Info)
        → IsSingle (settle_endpoint r.current answer (record n { requests = rest }))
    unfolding settle_endpoint
    addresses-IsSingle none = without-IsSingle
    addresses-IsSingle (some info) = elim (Bool-cases (r.current == n.generation)) [
      | inl same ↦ rw same (record {
        one_round = without-IsSingle.one_round;
        issued = without-IsSingle.issued;
        owned = without-IsSingle.owned;
        live = s.live;
      })
      | inr other ↦ rw other without-IsSingle
    ]

  -- A timer that fires is of this generation, and no round is under way.
  fire-IsSingle :
      (n : Node Snap Info) (t : Timer) (rest : List Timer)
      → Picks t n.timers rest
      → IsSingle n
      → IsSingle (refresh t.page t.current (record n { timers = rest }))
  fire-IsSingle n t rest picked s =
      let m : Node Snap Info = record n { timers = rest } in
      let (live, _) = Picks-All (Live n.generation n.timer) picked s.live in
      let quiet : IsQuiet m = record {
        no_round = omega (arith, s.one_round, Picks-length picked);
        no_timer = nil_of_length rest (omega (arith, s.one_round, Picks-length picked));
        issued = s.issued;
      } in
      rw live.0 (refresh-IsSingle m t.page quiet)

  Step-IsSingle : {n m : Node Snap Info} → Step n m → IsSingle n → IsSingle m
  Step-IsSingle {n} starts s = start-IsSingle n s
  Step-IsSingle {n} stops s = stop-IsSingle n s
  Step-IsSingle {n} connects s = connection-IsSingle n s
  Step-IsSingle {n} (answers r rest page answer picked t) s =
      answer-IsSingle n r rest picked s page answer (rw t refl)
  Step-IsSingle {n} (addresses r rest answer picked t) s =
      addresses-IsSingle n r rest picked s answer
  Step-IsSingle {n} (fires t rest picked) s = fire-IsSingle n t rest picked s

  Reach-IsSingle : {n m : Node Snap Info} → Reach n m → IsSingle n → IsSingle m
  Reach-IsSingle done s = s
  Reach-IsSingle (next r st) s = Step-IsSingle st (Reach-IsSingle r s)

  initial-IsSingle : IsSingle (initial {Snap = Snap} {Info = Info})
  unfolding initial
  initial-IsSingle = record { one_round = omega arith; issued = tt; owned = tt; live = tt }

  -- However the user goes through the pages, and whatever the order of answers and timers: at most
  -- one round of polling of the current page is under way or set, every timer is the stored one of
  -- this generation, and the controller is that of the round of this generation and of no other.
  pub Reach-initial-IsSingle : {n : Node Snap Info} → Reach initial n → IsSingle n
  Reach-initial-IsSingle r = Reach-IsSingle r initial-IsSingle

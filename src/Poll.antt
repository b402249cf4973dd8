-- ===== src/Poll.antt =====
-- web/static/dashboard.js, NodeView: the polling of the dashboard and of the wallet page. Requests
-- and timers are the environment's: it answers any request, in any order, and fires any timer that
-- is set.
pub mod Single
pub mod Rounds
pub mod Continues
pub mod Isolation
mod Tests
use justverify.Common.{
  ℕ, ◌+◌, Option, none, some, List, [], ◌∷◌, Bool, true, false, ◌&&◌, not, ◌==◌, ◌≡◌, if◌then◌else◌,
}

-- Which page a round polls for: `refresh` or `refreshElectrum`.
pub data Page : Type 0 where
  dashboard electrum : Page

-- What a request was made for: a round of polling, or the addresses of the wallet page.
pub data Task : Type 0 where
  round : Page → Task
  endpoint : Task

pub record Request : Type 0 where
  pub id : ℕ
  pub current : ℕ
  pub task : Task
  pub aborted : Bool

pub record Timer : Type 0 where
  pub id : ℕ
  pub current : ℕ
  pub page : Page

-- A snapshot and the addresses are data of the caller.
module _ (Snap Info : Type 0) where
  pub record Node : Type 0 where
    pub generation : ℕ
    pub controller : Option ℕ
    pub timer : Option ℕ
    pub watchdog : Bool
    pub next_id : ℕ
    pub requests : List Request
    pub timers : List Timer
    pub last_snapshot : Option Snap
    pub transport_failed : Bool
    pub electrs_snapshot : Option Snap
    pub electrs_stale : Bool
    pub endpoint_info : Option Info

abbrev remove_timer : Option ℕ → List Timer → List Timer
remove_timer none ts = ts
remove_timer (some i) [] = []
remove_timer (some i) (t ∷ ts) =
    if t.id == i then remove_timer (some i) ts else t ∷ remove_timer (some i) ts

abbrev abort : Option ℕ → List Request → List Request
abort none rs = rs
abort (some i) [] = []
abort (some i) (r ∷ rs) = (if r.id == i then record r { aborted = true } else r) ∷ abort (some i) rs

abbrev is_controller : ℕ → Option ℕ → Bool
is_controller id none = false
is_controller id (some c) = c == id

module _ {Snap Info : Type 0} where
  -- `stop`: clearTimeout, clearInterval, a new generation, and the request of the round is aborted.
  unfoldable pub stop : Node Snap Info → Node Snap Info
  stop n = record n {
    timers = remove_timer n.timer n.timers;
    watchdog = false;
    generation = n.generation + 1;
    requests = abort n.controller n.requests;
    controller = none;
  }

  -- The first half of `refresh` and `refreshElectrum`: the request goes out.
  unfoldable pub refresh : Page → ℕ → Node Snap Info → Node Snap Info
  refresh page current n = record n {
    requests =
        record { id = n.next_id; current = current; task = round page; aborted = false }
        ∷ n.requests;
    controller = some n.next_id;
    next_id = n.next_id + 1;
  }

  -- `start`
  unfoldable pub start : Node Snap Info → Node Snap Info
  unfolding stop refresh
  start n =
      let s = stop n in
      refresh dashboard s.generation
        (record s { last_snapshot = none; transport_failed = false; watchdog = true })

  -- `connection`: the wallet page polls too, and asks for its addresses.
  unfoldable pub connection : Node Snap Info → Node Snap Info
  unfolding stop refresh
  connection n =
      let s = record (stop n) { endpoint_info = none } in
      let r = refresh electrum s.generation s in
      record r {
        requests =
            record { id = r.next_id; current = s.generation; task = endpoint; aborted = false }
            ∷ r.requests;
        next_id = r.next_id + 1;
      }

  -- The answer of a round: `none` is a failure or an abort.
  abbrev receive : Page → Option Snap → Node Snap Info → Node Snap Info
  receive dashboard (some s) n = record n { last_snapshot = some s; transport_failed = false }
  receive dashboard none n = record n { transport_failed = true }
  receive electrum (some s) n = record n { electrs_snapshot = some s; electrs_stale = false }
  receive electrum none n = record n { electrs_stale = true }

  -- `finally`: the controller is released, and the next round is set in two seconds.
  abbrev finish : Page → ℕ → ℕ → Node Snap Info → Node Snap Info
  finish page id current n =
      let m = record n {
        controller = if is_controller id n.controller then none else n.controller;
      } in
      if current == n.generation
      then record m {
        timers = record { id = n.next_id; current = current; page = page } ∷ n.timers;
        timer = some n.next_id;
        next_id = n.next_id + 1;
      }
      else m

  -- The second half of `refresh` and `refreshElectrum`.
  unfoldable pub settle : Page → ℕ → ℕ → Option Snap → Node Snap Info → Node Snap Info
  settle page id current answer n =
      finish page id current (if current == n.generation then receive page answer n else n)

  -- The rest of `connection`: the addresses are shown only if the page is still the same.
  unfoldable pub settle_endpoint : ℕ → Option Info → Node Snap Info → Node Snap Info
  settle_endpoint current none n = n
  settle_endpoint current (some info) n =
      if current == n.generation then record n { endpoint_info = some info } else n

-- One element is taken out of a list.
pub data Picks {A : Type 0} (x : A) : List A → List A → Type 0 where
  here : {xs : List A} → Picks x (x ∷ xs) xs
  there : {y : A} {xs ys : List A} → Picks x xs ys → Picks x (y ∷ xs) (y ∷ ys)

-- What can happen: the user opens or leaves a page, a request is answered, a timer fires.
pub data Step {Snap Info : Type 0} (n : Node Snap Info) : Node Snap Info → Type 0 where
  starts : Step n (start n)
  stops : Step n (stop n)
  connects : Step n (connection n)
  answers :
      (r : Request) (rest : List Request) (page : Page) (answer : Option Snap)
      → Picks r n.requests rest
      → r.task ≡ round page
      → Step n (settle page r.id r.current answer (record n { requests = rest }))
  addresses :
      (r : Request) (rest : List Request) (answer : Option Info)
      → Picks r n.requests rest
      → r.task ≡ endpoint
      → Step n (settle_endpoint r.current answer (record n { requests = rest }))
  fires :
      (t : Timer) (rest : List Timer)
      → Picks t n.timers rest
      → Step n (refresh t.page t.current (record n { timers = rest }))

pub data Reach {Snap Info : Type 0} (n : Node Snap Info) : Node Snap Info → Type 0 where
  done : Reach n n
  next : {m k : Node Snap Info} → Reach n m → Step m k → Reach n k

-- The page before anything was opened.
unfoldable pub initial : {Snap Info : Type 0} → Node Snap Info
initial = record {
  generation = 0;
  controller = none;
  timer = none;
  watchdog = false;
  next_id = 0;
  requests = [];
  timers = [];
  last_snapshot = none;
  transport_failed = false;
  electrs_snapshot = none;
  electrs_stale = false;
  endpoint_info = none;
}

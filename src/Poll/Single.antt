-- ===== src/Poll/Single.antt =====
-- At most one round of polling is under way, and stale rounds stay without effect.
use justverify.Common.{
  ℕ, suc, ◌+◌, ◌≤◌, ◌<◌, ◌≡◌, ◌≢◌, refl, ap, arith, Option, none, some, List, [], ◌∷◌, Bool, true,
  false, ◌&&◌, ◌==◌, if◌then◌else◌, All, length,
}
use justverify.Poll.{
  Page, Task, round, endpoint, Request, Timer, Node, remove_timer, abort, stop, refresh, Picks,
  here, there,
}

abbrev pub is_round : Task → Bool
is_round (round _) = true
is_round endpoint = false

abbrev pub rounds : ℕ → List Request → ℕ
rounds g [] = 0
rounds g (r ∷ rs) = if r.current == g && is_round r.task then suc (rounds g rs) else rounds g rs

abbrev pub Issued : ℕ → ℕ → Request → Type 0
Issued next_id g r = (r.id < next_id) × (r.current ≤ g)

abbrev pub Owned : ℕ → Option ℕ → Request → Type 0
Owned g controller r =
    (r.current < g → controller ≢ some r.id)
    × (is_round r.task ≡ true → r.current ≡ g → controller ≡ some r.id)

abbrev pub Live : ℕ → Option ℕ → Timer → Type 0
Live g timer t = (t.current ≡ g) × (timer ≡ some t.id)

pub record IsSingle {Snap Info : Type 0} (n : Node Snap Info) : Type 0 where
  pub one_round : rounds n.generation n.requests + length n.timers ≤ 1
  pub issued : All (Issued n.next_id n.generation) n.requests
  pub owned : All (Owned n.generation n.controller) n.requests
  pub live : All (Live n.generation n.timer) n.timers

remove_timer-Live :
    (g : ℕ) (o : Option ℕ) (ts : List Timer) → All (Live g o) ts → remove_timer o ts ≡ []
remove_timer-Live g none [] h = refl
remove_timer-Live g none (t ∷ ts) h = ground arith
remove_timer-Live g (some i) [] h = refl
remove_timer-Live g (some i) (t ∷ ts) (h, hs) = ground (arith, remove_timer-Live g (some i) ts hs)

rounds-abort :
    (next_id g : ℕ) (c : Option ℕ) (rs : List Request)
    → All (Issued next_id g) rs
    → rounds (g + 1) (abort c rs) ≡ 0
rounds-abort next_id g none [] h = refl
rounds-abort next_id g (some i) [] h = refl
rounds-abort next_id g none (r ∷ rs) (h, hs) = ground (arith, rounds-abort next_id g none rs hs)
rounds-abort next_id g (some i) (r ∷ rs) (h, hs) =
    ground (arith, rounds-abort next_id g (some i) rs hs)

Issued-abort :
    (next_id g : ℕ) (c : Option ℕ) (rs : List Request)
    → All (Issued next_id g) rs
    → All (Issued next_id (g + 1)) (abort c rs)
Issued-abort next_id g none [] h = tt
Issued-abort next_id g (some i) [] h = tt
Issued-abort next_id g none (r ∷ rs) (h, hs) = (omega arith, Issued-abort next_id g none rs hs)
Issued-abort next_id g (some i) (r ∷ rs) (h, hs) =
    (ground arith, Issued-abort next_id g (some i) rs hs)

Owned-abort :
    (next_id g : ℕ) (c : Option ℕ) (rs : List Request)
    → All (Issued next_id g) rs
    → All (Owned (g + 1) none) (abort c rs)
Owned-abort next_id g none [] h = tt
Owned-abort next_id g (some i) [] h = tt
Owned-abort next_id g none (r ∷ rs) (h, hs) = (ground arith, Owned-abort next_id g none rs hs)
Owned-abort next_id g (some i) (r ∷ rs) (h, hs) =
    (ground arith, Owned-abort next_id g (some i) rs hs)

-- No round is under way and no timer is set.
pub record IsQuiet {Snap Info : Type 0} (n : Node Snap Info) : Type 0 where
  pub no_round : rounds n.generation n.requests ≡ 0
  pub no_timer : n.timers ≡ []
  pub issued : All (Issued n.next_id n.generation) n.requests

pub Issued-later :
    (k m g : ℕ) (rs : List Request) → k ≤ m → All (Issued k g) rs → All (Issued m g) rs
Issued-later k m g [] l h = tt
Issued-later k m g (r ∷ rs) l (h, hs) = (omega arith, Issued-later k m g rs l hs)

pub Owned-idle :
    (g : ℕ) (c : Option ℕ) (rs : List Request)
    → All (λ r. c ≢ some r.id) rs
    → rounds g rs ≡ 0
    → All (Owned g c) rs
Owned-idle g c [] h e = tt
Owned-idle g c (r ∷ rs) (h, hs) e =
    ((λ l. h, λ i k. ground arith), Owned-idle g c rs hs (ground arith))

pub none_owns : (rs : List Request) → All (λ r. ◌≢◌ {A = Option ℕ} none (some r.id)) rs
none_owns [] = tt
none_owns (r ∷ rs) = (λ e. cc, none_owns rs)

next_owns : (k g : ℕ) (rs : List Request) → All (Issued k g) rs → All (λ r. some k ≢ some r.id) rs
next_owns k g [] h = tt
next_owns k g (r ∷ rs) (h, hs) = (λ e. ground arith, next_owns k g rs hs)

module _ {Snap Info : Type 0} (n : Node Snap Info) where
  pub stop-IsQuiet : IsSingle n → IsQuiet (stop n)
  unfolding stop
  stop-IsQuiet s = record {
    no_round = rounds-abort n.next_id n.generation n.controller n.requests s.issued;
    no_timer = remove_timer-Live n.generation n.timer n.timers s.live;
    issued = Issued-abort n.next_id n.generation n.controller n.requests s.issued;
  }

  pub IsQuiet-IsSingle : IsQuiet n → n.controller ≡ none → IsSingle n
  IsQuiet-IsSingle q e = record {
    one_round = rw (q.no_round, q.no_timer) (omega arith);
    issued = q.issued;
    owned = rw e (Owned-idle n.generation none n.requests (none_owns n.requests) q.no_round);
    live = rw q.no_timer tt;
  }

  pub refresh-IsSingle : (page : Page) → IsQuiet n → IsSingle (refresh page n.generation n)
  unfolding refresh
  refresh-IsSingle page q = record {
    one_round = rw q.no_timer (ground (arith, q.no_round));
    issued = (
      omega arith,
      Issued-later n.next_id (n.next_id + 1) n.generation n.requests (omega arith) q.issued,
    );
    owned = (
      (λ l. absurd (omega arith), λ i e. refl),
      Owned-idle n.generation (some n.next_id) n.requests
          (next_owns n.next_id n.generation n.requests q.issued) q.no_round,
    );
    live = rw q.no_timer tt;
  }

  -- The endpoint request of the wallet page is no round.
  unfoldable pub with_endpoint : Node Snap Info
  with_endpoint = record n {
    requests =
        record { id = n.next_id; current = n.generation; task = endpoint; aborted = false }
        ∷ n.requests;
    next_id = n.next_id + 1;
  }

  pub with_endpoint-IsSingle : IsSingle n → IsSingle with_endpoint
  unfolding with_endpoint
  with_endpoint-IsSingle s = record {
    one_round = ground (arith, s.one_round);
    issued = (
      omega arith,
      Issued-later n.next_id (n.next_id + 1) n.generation n.requests (omega arith) s.issued,
    );
    owned = ((λ l. absurd (omega arith), λ i. cc), s.owned);
    live = s.live;
  }

pub Picks-All :
    {A : Type 0} (P : A → Type 0) {x : A} {xs ys : List A}
    → Picks x xs ys
    → All P xs
    → P x × All P ys
Picks-All P here (h, hs) = (h, hs)
Picks-All P (there p) (h, hs) = let (k, ks) = Picks-All P p hs in (k, (h, ks))

pub Picks-rounds :
    (g : ℕ) {r : Request} {xs ys : List Request}
    → Picks r xs ys
    → rounds g xs ≡ (if r.current == g && is_round r.task then suc (rounds g ys) else rounds g ys)
Picks-rounds g here = refl
Picks-rounds g (there p) = ground (arith, Picks-rounds g p)

pub Picks-length :
    {A : Type 0} {x : A} {xs ys : List A} → Picks x xs ys → length xs ≡ suc (length ys)
Picks-length here = refl
Picks-length (there p) = ap suc (Picks-length p)

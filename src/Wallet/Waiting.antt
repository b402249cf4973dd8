-- ===== src/Wallet/Waiting.antt =====
-- dashboard.js, connection: one request for the endpoint at most is of the present page.
use justverify.Common.{
  ℕ, zero, suc, ◌+◌, ◌<◌, Option, none, some, List, [], ◌∷◌, ◌≡◌, ◌⊎◌, inl, inr, arith,
}
use justverify.Wallet.{Network, Transport, Request, nth, without}

-- Every request is of an earlier page.
abbrev pub Older : ℕ → List Request → Type 0
Older g [] = Unit
Older g (r ∷ rs) = (r.current < g) × Older g rs

abbrev pub IsOf : ℕ → Network → Transport → Request → Type 0
IsOf g m t r = (r.current ≡ g) × (r.network ≡ m) × (r.transport ≡ t)

-- One request at most is not, and that one asks for what is selected.
abbrev pub Single : ℕ → Network → Transport → List Request → Type 0
Single g m t [] = Unit
Single g m t (r ∷ rs) = (IsOf g m t r × Older g rs) ⊎ ((r.current < g) × Single g m t rs)

pub Older-Single :
    (g : ℕ) (m : Network) (t : Transport) (rs : List Request) → Older g rs → Single g m t rs
Older-Single g m t [] h = tt
Older-Single g m t (r ∷ rs) (a, h) = inr (a, Older-Single g m t rs h)

pub Older-suc : (g : ℕ) (rs : List Request) → Older g rs → Older (g + 1) rs
Older-suc g [] h = tt
Older-suc g (r ∷ rs) (a, h) = (omega (arith, a), Older-suc g rs h)

pub Single-suc :
    (g : ℕ) (m : Network) (t : Transport) (rs : List Request) → Single g m t rs → Older (g + 1) rs
Single-suc g m t [] h = tt
Single-suc g m t (r ∷ rs) (inl (a, h)) = (omega (arith, a.0), Older-suc g rs h)
Single-suc g m t (r ∷ rs) (inr (a, h)) = (omega (arith, a), Single-suc g m t rs h)

-- What is left of the requests when one of them is answered.
abbrev pub OlderTaken : ℕ → Option Request → List Request → Type 0
OlderTaken g none rest = Older g rest
OlderTaken g (some r) rest = (r.current < g) × Older g rest

pub nth-OlderTaken :
    (g n : ℕ) (rs : List Request) → Older g rs → OlderTaken g (nth n rs) (without n rs)
nth-OlderTaken g zero [] h = tt
nth-OlderTaken g (suc n) [] h = tt
nth-OlderTaken g zero (r ∷ rs) h = h
nth-OlderTaken g (suc n) (r ∷ rs) (a, h) = skip (nth n rs) (nth-OlderTaken g n rs h)
  where
    skip : (o : Option Request) → OlderTaken g o (without n rs) → OlderTaken g o (r ∷ without n rs)
    skip none k = (a, k)
    skip (some q) (b, k) = (b, (a, k))

abbrev pub Taken : ℕ → Network → Transport → Option Request → List Request → Type 0
Taken g m t none rest = Single g m t rest
Taken g m t (some r) rest = (IsOf g m t r × Older g rest) ⊎ ((r.current < g) × Single g m t rest)

after_older :
    (g : ℕ) (m : Network) (t : Transport) (r : Request) (rest : List Request) (o : Option Request)
    → r.current < g
    → Taken g m t o rest
    → Taken g m t o (r ∷ rest)
after_older g m t r rest none a k = inr (a, k)
after_older g m t r rest (some q) a (inl (b, k)) = inl (b, (a, k))
after_older g m t r rest (some q) a (inr (b, k)) = inr (b, inr (a, k))

after_present :
    (g : ℕ) (m : Network) (t : Transport) (r : Request) (rest : List Request) (o : Option Request)
    → IsOf g m t r
    → OlderTaken g o rest
    → Taken g m t o (r ∷ rest)
after_present g m t r rest none a k = inl (a, k)
after_present g m t r rest (some q) a (b, k) = inr (b, inl (a, k))

pub nth-Taken :
    (g : ℕ) (m : Network) (t : Transport) (n : ℕ) (rs : List Request)
    → Single g m t rs
    → Taken g m t (nth n rs) (without n rs)
nth-Taken g m t zero [] h = tt
nth-Taken g m t (suc n) [] h = tt
nth-Taken g m t zero (r ∷ rs) h = h
nth-Taken g m t (suc n) (r ∷ rs) (inl (a, h)) =
    after_present g m t r (without n rs) (nth n rs) a (nth-OlderTaken g n rs h)
nth-Taken g m t (suc n) (r ∷ rs) (inr (a, h)) =
    after_older g m t r (without n rs) (nth n rs) a (nth-Taken g m t n rs h)

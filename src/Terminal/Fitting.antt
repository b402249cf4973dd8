-- ===== src/Terminal/Fitting.antt =====
-- app.js: what is known of the terminal and of what was sent on its connection.
use mathlib.Core.Path.{subst}
use justverify.Common.{
  ℕ, String, Option, none, some, List, [], ◌∷◌, Bool, true, false, ◌&&◌, ◌||◌, ◌==◌, leb,
  if◌then◌else◌, ◌≡◌, ◌⊎◌, inr, refl, sym, ap, arith, if_either, all,
}
use justverify.Terminal.{
  Size, Sent, resized_to, input, Ready, connecting, opened, closing, Socket, Console, is_open, fit,
  push, send_to, is_connecting,
}

-- What was sent stands with the last one first.
abbrev pub last_size : List Sent → Option Size
last_size [] = none
last_size (resized_to s ∷ ms) = some s
last_size (input t ∷ ms) = last_size ms

abbrev input_of : Sent → Option String
input_of (resized_to s) = none
input_of (input t) = some t

abbrev or_later : Option String → Option String → Option String
or_later (some t) later = some t
or_later none later = later

abbrev pub first_input : List Sent → Option String
first_input [] = none
first_input (m ∷ ms) = or_later (first_input ms) (input_of m)

abbrev pub IsLast : Size → Option Size → Type 0
IsLast s none = Unit
IsLast s (some t) = t ≡ s

abbrev pub is_sane : Sent → Bool
is_sane (input t) = true
is_sane (resized_to s) = leb 30 s.cols && leb s.cols 120 && (s.rows == 24 || s.rows == 40)

-- On a connection that is open, the first input is the key of the page for which it was made, and the
-- last size is the terminal's; no size is out of range.
pub record IsFitting (s : Size) (k : Socket) : Type 0 where
  pub unsent : is_connecting k.ready ≡ true → k.sent ≡ []
  pub first : is_open k.ready ≡ true → first_input k.sent ≡ some k.key
  pub last : is_open k.ready ≡ true → IsLast s (last_size k.sent)
  pub sane : all is_sane k.sent ≡ true

-- The terminal, its connection, and what is known of it.
pub record IsConnected (ws : Option ℕ) (t : Option Size) (ks : List Socket) : Type 0 where
  pub term : Size
  pub socket : Socket
  pub term_eq : t ≡ some term
  pub live_eq : ks ≡ socket ∷ []
  pub ws_eq : ws ≡ some socket.id
  pub fitting : IsFitting term socket

abbrev pub IsAlone : Option ℕ → Option Size → List Socket → Type 0
IsAlone ws t ks = ((t ≡ none) × (ks ≡ [])) ⊎ IsConnected ws t ks

-- No terminal and no connection, or the terminal with its one connection.
abbrev pub IsSingle : Console → Type 0
IsSingle c = IsAlone c.ws c.term c.live

pub IsFitting-IsAlone :
    (s : Size) (k : Socket) → IsFitting s k → IsAlone (some k.id) (some s) (k ∷ [])
IsFitting-IsAlone s k f =
    inr (record { term = s; socket = k; term_eq = refl; live_eq = refl; ws_eq = refl; fitting = f })

pub same_id : (n : ℕ) → (n == n) ≡ true
same_id n = ground arith

push-id : (m : Sent) (k : Socket) → (push m k).id ≡ k.id
push-id m k = if_either (λ (l : Socket). l.id ≡ k.id) (is_open k.ready) (λ _. refl) (λ _. refl)

-- A console with its one connection.
abbrev pub at : Console → Size → Socket → Console
at c s k = record c { term = some s; live = k ∷ []; ws = some k.id }

pub connected :
    (c : Console) (Q : Console → Type 0) (h : IsConnected c.ws c.term c.live)
    → Q (at c h.term h.socket)
    → Q c
connected c Q h q =
    subst (λ t. Q (record c { term = t })) (sym h.term_eq)
      (subst (λ ks. Q (record c { term = some h.term; live = ks })) (sym h.live_eq)
        (subst (λ w. Q (record c { term = some h.term; live = h.socket ∷ []; ws = w }))
          (sym h.ws_eq) q))

pub alone :
    (c : Console) (Q : Console → Type 0)
    → (c.term ≡ none) × (c.live ≡ [])
    → Q (record c { term = none; live = [] })
    → Q c
alone c Q (t, l) q =
    subst (λ o. Q (record c { term = o })) (sym t)
      (subst (λ ks. Q (record c { term = none; live = ks })) (sym l) q)

pub pushed :
    (c : Console) (s : Size) (k : Socket) (m : Sent)
    → IsFitting s (push m k)
    → IsAlone (some k.id) (some s) (send_to (some k.id) m (k ∷ []))
pushed c s k m f = inr (record {
  term = s;
  socket = push m k;
  term_eq = refl;
  live_eq = ap (λ b. (if b then push m k else k) ∷ []) (same_id k.id);
  ws_eq = ap some (sym (push-id m k));
  fitting = f;
})

not_both : (r : Ready) → is_open r ≡ true → is_connecting r ≡ false
not_both connecting h = absurd (ground (arith, h))
not_both opened h = refl
not_both closing h = refl

pub input-IsFitting :
    (s : Size) (k : Socket) (t : String) → IsFitting s k → IsFitting s (push (input t) k)
input-IsFitting s k t h =
    if_either (IsFitting s) (is_open k.ready)
      (λ o. record {
        unsent = λ e. absurd (ground (arith, e, not_both k.ready o));
        first = λ _. ap (λ f. or_later f (some t)) (h.first o);
        last = h.last;
        sane = h.sane;
      })
      (λ _. h)

pub size-IsFitting :
    (s : Size) (k : Socket) (t : Size)
    → is_sane (resized_to t) ≡ true
    → IsFitting s k
    → IsFitting t (push (resized_to t) k)
size-IsFitting s k t n h =
    if_either (IsFitting t) (is_open k.ready)
      (λ o. record {
        unsent = λ e. absurd (ground (arith, e, not_both k.ready o));
        first = λ _. ap (λ f. or_later f none) (h.first o);
        last = λ _. refl;
        sane = ground (arith, n, h.sane);
      })
      (λ o. record {
        unsent = h.unsent;
        first = h.first;
        last = λ e. absurd (ground (arith, o, e));
        sane = h.sane;
      })

pub fit_sane : (w i : ℕ) → is_sane (resized_to (fit w i)) ≡ true
fit_sane w i = ground arith

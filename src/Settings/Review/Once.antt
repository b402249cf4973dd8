-- ===== src/Settings/Review/Once.antt =====
-- settings.js: the token of a version review is used up by the one call that carries it.
use justverify.Common.{
  ℕ, ◌+◌, ◌≤◌, ◌==◌, ◌≡◌, ◌≢◌, ◌∙◌, refl, Option, none, some, List, [], ◌∷◌, true, false,
  if◌then◌else◌, if_either, arith, ap,
}
use justverify.Settings.Review.{
  Kind, versions, policy, Token, token, Call, cancel, apply_at, Pending, preview_of, applying, View,
  clear_review, stop, open_view, ask, confirm, submit, resolve, send, answer, finish, complete,
  settle, Event, opened, stopped, cleared, asked, confirmed, settled, handle, run, initial, nth,
  without, Outcome,
}

abbrev is_it : ℕ → Token → ℕ
is_it i (token versions j) = if j == i then 1 else 0
is_it i (token policy j) = 0

abbrev token_of : Call → Token
token_of (cancel t) = t
token_of (apply_at k t) = t

-- How many calls carry the version token of this number.
unfoldable pub uses : ℕ → List Call → ℕ
uses i [] = 0
uses i (c ∷ cs) = is_it i (token_of c) + uses i cs

abbrev held : ℕ → Option Token → ℕ
held i none = 0
held i (some t) = is_it i t

unfoldable pub spent : ℕ → View → ℕ
unfolding uses
spent i v = uses i v.calls + held i v.preview

-- A step that issues no token and spends none twice.
record Keeps (i : ℕ) (v w : View) : Type 0 where
  spent_le : spent i w ≤ spent i v
  issued_eq : w.issued ≡ v.issued

-- The calls and the held token count for one at most, and for none before the token is issued.
record IsOnce (i : ℕ) (v : View) : Type 0 where
  at_most : spent i v ≤ 1
  unissued : v.issued ≤ i → spent i v ≡ 0

Keeps-IsOnce : (i : ℕ) (v w : View) → Keeps i v w → IsOnce i v → IsOnce i w
Keeps-IsOnce i v w k h = record {
  at_most = ground (arith, k.spent_le, h.at_most);
  unissued =
      λ le. ground (arith, k.spent_le, k.issued_eq, h.unissued (ground (arith, k.issued_eq)));
}

Keeps-trans : (i : ℕ) (u v w : View) → Keeps i u v → Keeps i v w → Keeps i u w
Keeps-trans i u v w a b = record {
  spent_le = ground (arith, a.spent_le, b.spent_le);
  issued_eq = b.issued_eq ∙ a.issued_eq;
}

send_lem :
    (i : ℕ) (k : Kind) (p : Option Token) (cs : List Call)
    → uses i (send k p cs) ≤ uses i cs + held i p
unfolding uses
send_lem i versions none cs = ground arith
send_lem i versions (some t) cs = ground arith
send_lem i policy p cs = ground arith

clear_review_lem : (i : ℕ) (v : View) → Keeps i v (clear_review v)
unfolding clear_review spent uses
clear_review_lem i v = record {
  spent_le = ground (arith, send_lem i v.kind v.preview v.calls);
  issued_eq = refl;
}

stop_lem : (i : ℕ) (v : View) → Keeps i v (stop v)
unfolding clear_review spent uses stop
stop_lem i v = record {
  spent_le = ground (arith, send_lem i v.kind v.preview v.calls);
  issued_eq = refl;
}

open_view_lem : (i : ℕ) (k : Kind) (v : View) → Keeps i v (open_view k v)
unfolding open_view stop clear_review spent uses
open_view_lem i k v =
    Keeps-trans i v (stop v) (open_view k v) (stop_lem i v)
      (record { spent_le = ground arith; issued_eq = refl })

submit_lem : (i : ℕ) (p : Option Token) (v : View) → v.preview ≡ p → Keeps i v (submit p v)
unfolding spent uses
submit_lem i none v e = record { spent_le = ground arith; issued_eq = refl }
submit_lem i (some (token versions j)) v e = record {
  spent_le = ground (arith, ap (held i) e);
  issued_eq = refl;
}
submit_lem i (some (token policy j)) v e = record {
  spent_le = ground (arith, ap (held i) e);
  issued_eq = refl;
}

Keeps-refl : (i : ℕ) (v : View) → Keeps i v v
Keeps-refl i v = record { spent_le = ground arith; issued_eq = refl }

confirm_lem : (i : ℕ) (v : View) → Keeps i v (confirm v)
unfolding confirm
confirm_lem i v =
    if_either (Keeps i v) v.busy (λ _. Keeps-refl i v)
      (λ _.
        if_either (Keeps i v) v.review_hidden (λ _. Keeps-refl i v)
          (λ _. submit_lem i v.preview v refl))

ask_lem : (i : ℕ) (v : View) → Keeps i v (ask v)
unfolding ask spent
ask_lem i v =
    if_either (Keeps i v) v.busy (λ _. Keeps-refl i v)
      (λ _. record { spent_le = ground arith; issued_eq = refl })

held_fresh :
    (i : ℕ) (k : Kind) (n : ℕ)
    → held i (some (token k n)) ≤ 1 × ((n ≢ i) → held i (some (token k n)) ≡ 0)
held_fresh i versions n = (ground arith, λ ne. ground arith)
held_fresh i policy n = (ground arith, λ ne. ground arith)

-- A preview is the first to hold its token.
answer_lem : (i : ℕ) (k : Kind) (v : View) → IsOnce i v → IsOnce i (answer k v)
unfolding answer spent
answer_lem i k v h = record {
  at_most = ground (arith, h.at_most, h.unissued, held_fresh i k v.issued);
  unissued = λ le. ground (arith, h.unissued, held_fresh i k v.issued);
}

finish_lem : (i : ℕ) (k : Kind) (v : View) → IsOnce i v → IsOnce i (finish (open_view k v))
unfolding spent
finish_lem i k v h =
    Keeps-IsOnce i v (finish (open_view k v))
      (Keeps-trans i v (open_view k v) (finish (open_view k v)) (open_view_lem i k v)
        (record { spent_le = ground arith; issued_eq = refl }))
      h

complete_lem : (i : ℕ) (p : Pending) (v : View) → IsOnce i v → IsOnce i (complete p v)
unfolding complete
complete_lem i (preview_of k) v h = answer_lem i k v h
complete_lem i (applying versions) v h = finish_lem i versions v h
complete_lem i (applying policy) v h = finish_lem i v.kind v h

resolve_lem :
    (i : ℕ) (p : Option Pending) (ok : Outcome) (v : View) → IsOnce i v → IsOnce i (resolve p ok v)
unfolding spent
resolve_lem i none ok v h = h
resolve_lem i (some p) true v h = complete_lem i p v h
resolve_lem i (some p) false v h = record { at_most = h.at_most; unissued = h.unissued }

settle_lem : (i n : ℕ) (ok : Outcome) (v : View) → IsOnce i v → IsOnce i (settle n ok v)
unfolding settle spent
settle_lem i n ok v h =
    resolve_lem i (nth n v.pending) ok (record v { pending = without n v.pending })
      (record { at_most = h.at_most; unissued = h.unissued })

handle_lem : (i : ℕ) (e : Event) (v : View) → IsOnce i v → IsOnce i (handle e v)
unfolding handle
handle_lem i (opened k) v h = Keeps-IsOnce i v (open_view k v) (open_view_lem i k v) h
handle_lem i stopped v h = Keeps-IsOnce i v (stop v) (stop_lem i v) h
handle_lem i cleared v h = Keeps-IsOnce i v (clear_review v) (clear_review_lem i v) h
handle_lem i asked v h = Keeps-IsOnce i v (ask v) (ask_lem i v) h
handle_lem i confirmed v h = Keeps-IsOnce i v (confirm v) (confirm_lem i v) h
handle_lem i (settled n ok) v h = settle_lem i n ok v h

run_lem : (i : ℕ) (es : List Event) (v : View) → IsOnce i v → IsOnce i (run es v)
unfolding run
run_lem i [] v h = h
run_lem i (e ∷ es) v h = run_lem i es (handle e v) (handle_lem i e v h)

-- In every order of opening pages, previews, edits, cancellations, confirmations and late answers, the
-- token of a version review is carried by one request at most: it is cancelled or applied, never
-- both and never twice.
pub run-uses_le : (i : ℕ) (es : List Event) → uses i (run es initial).calls ≤ 1
unfolding spent
run-uses_le i es = ground (
  arith,
  (run_lem i es initial (record { at_most = ground arith; unissued = λ le. refl })).at_most,
)

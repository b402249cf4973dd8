-- ===== src/Settings/Review.antt =====
-- settings.js, the review of a change: a preview with a token, its cancellation and its application.
-- The server issues each token once. Requests that only read the state reach no token and are left
-- out. Operations whose answers are outstanding are a list, since opening a page clears `busy`. The
-- `inert` attributes are left out, so the model has every order the page has, and more.
pub mod Once
mod Tests
use justverify.Common.{
  ℕ, zero, suc, ◌+◌, Option, none, some, List, [], ◌∷◌, Bool, true, false, if◌then◌else◌,
}

pub data Kind : Type 0 where
  versions policy : Kind

-- A token of the server, and what it was issued for.
pub data Token : Type 0 where
  token : Kind → ℕ → Token

pub data Call : Type 0 where
  cancel : Token → Call
  apply_at : Kind → Token → Call

-- What an operation under way waits for.
pub data Pending : Type 0 where
  preview_of : Kind → Pending
  applying : Kind → Pending

pub record View : Type 0 where
  pub generation : ℕ
  pub kind : Kind
  pub preview : Option Token
  pub review_hidden : Bool
  pub busy : Bool
  pub pending : List Pending
  pub calls : List Call  -- the last one first
  pub issued : ℕ  -- how many tokens the server has issued

-- Only the page of versions cancels.
abbrev send : Kind → Option Token → List Call → List Call
send versions (some t) calls = cancel t ∷ calls
send versions none calls = calls
send policy _ calls = calls

-- `clearReview`: also the cancel button, and every change of an edited value.
unfoldable pub clear_review : View → View
clear_review v = record v {
  preview = none;
  review_hidden = true;
  calls = send v.kind v.preview v.calls;
}

unfoldable pub stop : View → View
unfolding clear_review
stop v = clear_review (record v { generation = v.generation + 1 })

-- `open`: `stop`, the new kind, `clearReview` once more, and nothing is busy.
unfoldable pub open_view : Kind → View → View
unfolding stop clear_review
open_view which v = record (clear_review (record (stop v) { kind = which })) { busy = false }

-- `operation(async()=>{preview=await api(…, {method:'preview'})})`
unfoldable pub ask : View → View
ask v = if v.busy then v else record v { busy = true; pending = preview_of v.kind ∷ v.pending }

-- The button of the review that is shown. The version review takes the token out before it is sent
-- to its own address; the policy review sends its token to the page's address and keeps it.
abbrev submit : Option Token → View → View
submit none v = v
submit (some (token versions i)) v = record v {
  preview = none;
  busy = true;
  pending = applying versions ∷ v.pending;
  calls = apply_at versions (token versions i) ∷ v.calls;
}
submit (some (token policy i)) v = record v {
  busy = true;
  pending = applying policy ∷ v.pending;
  calls = apply_at v.kind (token policy i) ∷ v.calls;
}

-- A hidden review has no button to press, and a busy page presses none.
unfoldable pub confirm : View → View
confirm v = if v.busy then v else if v.review_hidden then v else submit v.preview v

-- `finally{busy=false; …}`
abbrev finish : View → View
finish v = record v { busy = false }

-- The preview arrives and its review is shown, on whatever page.
unfoldable pub answer : Kind → View → View
answer k v =
    finish
      (record v { preview = some (token k v.issued); issued = v.issued + 1; review_hidden = false })

-- `await api(…, apply); await open(…)`: a version review opens the versions, a policy review the page
-- that is open by then.
unfoldable pub complete : Pending → View → View
unfolding answer open_view
complete (preview_of k) v = answer k v
complete (applying versions) v = finish (open_view versions v)
complete (applying policy) v = finish (open_view v.kind v)

abbrev pub without : ℕ → List Pending → List Pending
without n [] = []
without zero (p ∷ ps) = ps
without (suc n) (p ∷ ps) = p ∷ without n ps

abbrev pub nth : ℕ → List Pending → Option Pending
nth n [] = none
nth zero (p ∷ ps) = some p
nth (suc n) (p ∷ ps) = nth n ps

abbrev pub Outcome : Type 0
Outcome = Bool

abbrev resolve : Option Pending → Outcome → View → View
resolve none ok v = v
resolve (some p) true v = complete p v
resolve (some p) false v = finish v

-- The answer, or the error, of the n-th operation under way.
unfoldable pub settle : ℕ → Outcome → View → View
unfolding complete
settle n ok v = resolve (nth n v.pending) ok (record v { pending = without n v.pending })

pub data Event : Type 0 where
  opened : Kind → Event
  stopped : Event
  cleared : Event
  asked : Event
  confirmed : Event
  settled : ℕ → Outcome → Event

unfoldable pub handle : Event → View → View
unfolding open_view stop clear_review ask confirm settle
handle (opened k) v = open_view k v
handle stopped v = stop v
handle cleared v = clear_review v
handle asked v = ask v
handle confirmed v = confirm v
handle (settled n ok) v = settle n ok v

unfoldable pub run : List Event → View → View
unfolding handle
run [] v = v
run (e ∷ es) v = run es (handle e v)

abbrev pub initial : View
initial = record {
  generation = 0;
  kind = policy;
  preview = none;
  review_hidden = true;
  busy = false;
  pending = [];
  calls = [];
  issued = 0;
}

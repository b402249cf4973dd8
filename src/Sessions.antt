-- ===== src/Sessions.antt =====
-- web/static/device.js, `sessions`: the dialog of the logged-in devices, whose list is refreshed while it is
-- open, and where a logout is confirmed first. This is the state of one call; the element is shared, so
-- that a later call, or `account`, opens it again. The requests of the call are counted, and answered in
-- any order. The listener of `close` is run with the closing.
pub mod Single
pub mod Quiet
mod Tests
use justverify.Common.{
  ◌&&◌, ℕ, ◌+◌, ◌-◌, Option, none, some, List, [], ◌∷◌, Bool, true, false, not, ◌||◌, ◌==◌,
  if◌then◌else◌,
}

pub data Body : Type 0 where
  revoke : ℕ → Body
  revoke_others : Body

-- What the form shows.
pub data Shown : Type 0 where
  waiting : Shown
  listed : List ℕ → Shown
  asking : ℕ → Body → Shown  -- each confirmation has buttons of its own

pub record Dialog : Type 0 where
  pub is_open : Bool  -- of the shared element
  pub listens : Bool  -- the listener of `close` of this call is there, `once`
  pub attached : Bool  -- the element shows the form of this call
  pub updating : Bool
  pub confirming : Bool
  pub session_timer : Bool
  pub first : Bool  -- the first refresh is not over
  pub shown : Shown
  pub disabled : Bool  -- the buttons of the confirmation that is shown
  pub next_id : ℕ
  pub listings : ℕ  -- how many requests for the list are under way
  pub sent : List Body

-- `refresh`, up to its request
unfoldable pub refresh : Dialog → Dialog
refresh d =
    if d.updating || d.confirming || not d.is_open
    then d
    else record d { updating = true; listings = d.listings + 1 }

-- After the first refresh: `if(d.open)sessionTimer=setInterval(refresh,30000)`
abbrev arm : Dialog → Dialog
arm d = record d { session_timer = d.session_timer || d.first && d.is_open; first = false }

abbrev fill : Option (List ℕ) → Dialog → Dialog
fill none d = d
fill (some ss) d = if d.is_open then record d { shown = listed ss } else d

-- The rest of `refresh`; no list is the answer of an error.
unfoldable pub answer_list : Option (List ℕ) → Dialog → Dialog
answer_list answer d =
    if d.listings == 0
    then d
    else arm (record (fill answer d) { updating = false; listings = d.listings - 1 })

-- `confirm`, from a button of the list
abbrev confirm_from : Shown → Body → Dialog → Dialog
confirm_from (listed ss) body d = record d {
  confirming = true;
  shown = asking d.next_id body;
  disabled = false;
  next_id = d.next_id + 1;
}
confirm_from waiting body d = d
confirm_from (asking i b) body d = d

unfoldable pub confirm : Body → Dialog → Dialog
confirm body d = confirm_from d.shown body d

-- The cancel button
abbrev cancel_from : Shown → Dialog → Dialog
cancel_from (asking i b) d = if d.disabled then d else refresh (record d { confirming = false })
cancel_from waiting d = d
cancel_from (listed ss) d = d

unfoldable pub cancel : Dialog → Dialog
unfolding refresh
cancel d = cancel_from d.shown d

-- The logout button of the confirmation, up to its request
abbrev apply_from : Shown → Dialog → Dialog
apply_from (asking i b) d =
    if d.disabled then d else record d { disabled = true; sent = b ∷ d.sent }
apply_from waiting d = d
apply_from (listed ss) d = d

unfoldable pub apply : Dialog → Dialog
apply d = apply_from d.shown d

-- `d.close()`, and the listener the first time
unfoldable pub close : Dialog → Dialog
close d = record d {
  is_open = false;
  session_timer = not d.listens && d.session_timer;
  listens = false;
}

-- `dialog` of another call: `replaceChildren` and `showModal` of the same element, when it is closed
unfoldable pub reopen : Dialog → Dialog
reopen d = if d.is_open then d else record d { is_open = true; attached = false }

-- The answer of the logout: this session is gone, another one is, or the request failed.
pub data Revoked : Type 0 where
  current : Revoked
  other : Revoked
  failed : Revoked

-- `finally`: the buttons of that confirmation are enabled again.
abbrev release_from : Shown → ℕ → Dialog → Dialog
release_from (asking j b) i d = if j == i then record d { disabled = false } else d
release_from waiting i d = d
release_from (listed ss) i d = d

abbrev release : ℕ → Dialog → Dialog
release i d = release_from d.shown i d

unfoldable pub answer_revoke : ℕ → Revoked → Dialog → Dialog
unfolding close refresh
answer_revoke i current d = release i (close d)
answer_revoke i other d = release i (refresh (record d { confirming = false }))
answer_revoke i failed d = release i d

pub data Event : Type 0 where
  ticked : Event
  answered : Option (List ℕ) → Event
  asked : Body → Event
  cancelled : Event
  applied : Event
  revoked : ℕ → Revoked → Event
  closed : Event
  reopened : Event

-- A closed dialog shows no buttons, nor does a form that was replaced.
abbrev when : Bool → (Dialog → Dialog) → Dialog → Dialog
when true f d = f d
when false f d = d

unfoldable pub handle : Event → Dialog → Dialog
unfolding refresh answer_list confirm cancel apply answer_revoke close reopen
handle ticked d = when d.session_timer refresh d
handle (answered a) d = answer_list a d
handle (asked b) d = when (d.is_open && d.attached) (confirm b) d
handle cancelled d = when (d.is_open && d.attached) cancel d
handle applied d = when (d.is_open && d.attached) apply d
handle (revoked i r) d = answer_revoke i r d
handle closed d = close d
handle reopened d = reopen d

unfoldable pub run : List Event → Dialog → Dialog
unfolding handle
run [] d = d
run (e ∷ es) d = run es (handle e d)

-- The dialog opens with its first refresh.
abbrev pub initial : Dialog
initial = record {
  is_open = true;
  listens = true;
  attached = true;
  updating = true;
  confirming = false;
  session_timer = false;
  first = true;
  shown = waiting;
  disabled = false;
  next_id = 0;
  listings = 1;
  sent = [];
}

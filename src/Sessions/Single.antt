-- ===== src/Sessions/Single.antt =====
-- device.js, the dialog of the devices: one refresh of a call at a time, and its timer.
use justverify.Common.{
  ℕ, ◌≤◌, Option, none, some, List, [], ◌∷◌, Bool, true, false, not, ◌&&◌, ◌||◌, ◌==◌, ◌≡◌, refl,
  ap, arith, if_either,
}
use justverify.Sessions.{
  Body, Shown, waiting, listed, asking, Dialog, refresh, answer_list, fill, confirm, confirm_from,
  cancel, cancel_from, apply, apply_from, close, current, other, failed, answer_revoke, Event,
  ticked, answered, asked, cancelled, applied, revoked, closed, reopened, reopen, handle, run,
  initial, when, release_from,
}

-- `early` is whether the dialog was opened again before the first list of the call was answered.
pub record IsSingle (early : Bool) (d : Dialog) : Type 0 where
  pub at_most : d.listings ≤ 1
  pub updating_iff : d.updating ≡ not (d.listings == 0)
  pub timer_open : d.session_timer ≡ true → (d.is_open || early) ≡ true

record IsKept (early : Bool) (d : Dialog) : Type 0 where
  at_most : d.listings ≤ 1
  updating_iff : d.updating ≡ not (d.listings == 0)
  listening : (not d.listens || d.is_open) ≡ true
  quiet : (d.listens || not d.session_timer && (not d.first || not d.is_open) || early) ≡ true

IsKept-IsSingle : (early : Bool) (d : Dialog) → IsKept early d → IsSingle early d
IsKept-IsSingle early d h = record {
  at_most = h.at_most;
  updating_iff = h.updating_iff;
  timer_open = λ t. ground (arith, t, h.listening, h.quiet);
}

-- A list that arrives changes neither what is open nor the timer.
record Filled (d e : Dialog) : Type 0 where
  open_eq : e.is_open ≡ d.is_open
  timer_eq : e.session_timer ≡ d.session_timer
  listens_eq : e.listens ≡ d.listens
  first_eq : e.first ≡ d.first

filled : (a : Option (List ℕ)) (d : Dialog) → Filled d (fill a d)
filled none d = record { open_eq = refl; timer_eq = refl; listens_eq = refl; first_eq = refl }
filled (some ss) d =
    if_either (Filled d) d.is_open
      (λ _. record { open_eq = refl; timer_eq = refl; listens_eq = refl; first_eq = refl })
      (λ _. record { open_eq = refl; timer_eq = refl; listens_eq = refl; first_eq = refl })

module _ (early : Bool) where
  refresh-IsKept : (d : Dialog) → IsKept early d → IsKept early (refresh d)
  unfolding refresh
  refresh-IsKept d h =
      if_either (IsKept early) (d.updating || d.confirming || not d.is_open) (λ _. h)
        (λ u. record {
          at_most = ground (arith, h.updating_iff, u);
          updating_iff = ground arith;
          listening = h.listening;
          quiet = h.quiet;
        })

  answer_list-IsKept :
      (a : Option (List ℕ)) (d : Dialog) → IsKept early d → IsKept early (answer_list a d)
  unfolding answer_list
  answer_list-IsKept a d h =
      if_either (IsKept early) (d.listings == 0) (λ _. h)
        (λ n.
          let f = filled a d in
          record {
            at_most = ground (arith, h.at_most);
            updating_iff = ground (arith, h.at_most, n);
            listening = ground (arith, f.listens_eq, f.open_eq, h.listening);
            quiet =
                ground
                  (arith, f.listens_eq, f.open_eq, f.timer_eq, f.first_eq, h.listening, h.quiet);
          })

  -- Nothing of the refreshing changes, and the dialog does not close.
  same-IsKept :
      (d e : Dialog)
      → e.listings ≡ d.listings
      → e.updating ≡ d.updating
      → (e.session_timer ≡ d.session_timer) × (e.first ≡ d.first)
      → (e.is_open ≡ d.is_open) × (e.listens ≡ d.listens)
      → IsKept early d
      → IsKept early e
  same-IsKept d e l u (t, f) (o, k) h = record {
    at_most = ground (arith, l, h.at_most);
    updating_iff = ground (arith, l, u, h.updating_iff);
    listening = ground (arith, o, k, h.listening);
    quiet = ground (arith, t, f, k, h.quiet);
  }

  form-IsKept :
      (d e : Dialog)
      → e ≡ record d {
        confirming = e.confirming;
        shown = e.shown;
        disabled = e.disabled;
        next_id = e.next_id;
        sent = e.sent;
      }
      → IsKept early d
      → IsKept early e
  form-IsKept d e q h =
      same-IsKept d e (ap (λ x. x.listings) q) (ap (λ x. x.updating) q)
        (ap (λ x. x.session_timer) q, ap (λ x. x.first) q)
        (ap (λ x. x.is_open) q, ap (λ x. x.listens) q) h

  confirm-IsKept :
      (s : Shown) (b : Body) (d : Dialog) → IsKept early d → IsKept early (confirm_from s b d)
  confirm-IsKept (listed ss) b d h = form-IsKept d _ refl h
  confirm-IsKept waiting b d h = h
  confirm-IsKept (asking i c) b d h = h

  unasked-IsKept : (d : Dialog) → IsKept early d → IsKept early (record d { confirming = false })
  unasked-IsKept d h = form-IsKept d (record d { confirming = false }) refl h

  cancel-IsKept : (s : Shown) (d : Dialog) → IsKept early d → IsKept early (cancel_from s d)
  cancel-IsKept (asking i b) d h =
      if_either (IsKept early) d.disabled (λ _. h)
        (λ _. refresh-IsKept (record d { confirming = false }) (unasked-IsKept d h))
  cancel-IsKept waiting d h = h
  cancel-IsKept (listed ss) d h = h

  apply-IsKept : (s : Shown) (d : Dialog) → IsKept early d → IsKept early (apply_from s d)
  apply-IsKept (asking i b) d h =
      if_either (IsKept early) d.disabled (λ _. h) (λ _. form-IsKept d _ refl h)
  apply-IsKept waiting d h = h
  apply-IsKept (listed ss) d h = h

  release-IsKept :
      (s : Shown) (i : ℕ) (d : Dialog) → IsKept early d → IsKept early (release_from s i d)
  release-IsKept (asking j b) i d h =
      if_either (IsKept early) (j == i) (λ _. form-IsKept d _ refl h) (λ _. h)
  release-IsKept waiting i d h = h
  release-IsKept (listed ss) i d h = h

  close-IsKept : (d : Dialog) → IsKept early d → IsKept early (close d)
  unfolding close
  close-IsKept d h = record {
    at_most = h.at_most;
    updating_iff = h.updating_iff;
    listening = refl;
    quiet = ground (arith, h.quiet);
  }

  reopen-IsKept :
      (d : Dialog) → IsKept early d → IsKept (d.first && not d.is_open || early) (reopen d)
  unfolding reopen
  reopen-IsKept d h = record {
    at_most = ground (arith, h.at_most);
    updating_iff = ground (arith, h.updating_iff);
    listening = ground (arith, h.listening);
    quiet = ground (arith, h.listening, h.quiet);
  }

  when-IsKept :
      (b : Bool) (f : Dialog → Dialog) (d : Dialog)
      → IsKept early d
      → IsKept early (f d)
      → IsKept early (when b f d)
  when-IsKept true f d h k = k
  when-IsKept false f d h k = h

-- The event opens the closed dialog again, before the first list of the call is answered.
abbrev pub is_early : Event → Dialog → Bool
is_early reopened d = d.first && not d.is_open
is_early closed d = false
is_early (revoked i r) d = false
is_early ticked d = false
is_early (answered a) d = false
is_early (asked b) d = false
is_early cancelled d = false
is_early applied d = false

handle-IsKept :
    (early : Bool) (e : Event) (d : Dialog)
    → IsKept early d
    → IsKept (is_early e d || early) (handle e d)
unfolding handle confirm cancel apply answer_revoke
handle-IsKept early ticked d h =
    when-IsKept early d.session_timer refresh d h (refresh-IsKept early d h)
handle-IsKept early (answered a) d h = answer_list-IsKept early a d h
handle-IsKept early (asked b) d h =
    when-IsKept early (d.is_open && d.attached) (confirm b) d h (confirm-IsKept early d.shown b d h)
handle-IsKept early cancelled d h =
    when-IsKept early (d.is_open && d.attached) cancel d h (cancel-IsKept early d.shown d h)
handle-IsKept early applied d h =
    when-IsKept early (d.is_open && d.attached) apply d h (apply-IsKept early d.shown d h)
handle-IsKept early (revoked i current) d h =
    release-IsKept early _ i (close d) (close-IsKept early d h)
handle-IsKept early (revoked i other) d h =
    release-IsKept early _ i (refresh (record d { confirming = false }))
      (refresh-IsKept early (record d { confirming = false }) (unasked-IsKept early d h))
handle-IsKept early (revoked i failed) d h = release-IsKept early d.shown i d h
handle-IsKept early closed d h = close-IsKept early d h
handle-IsKept early reopened d h = reopen-IsKept early d h

-- Some event of the run opens the closed dialog again before the first list of the call is answered.
pub reopened_early : List Event → Bool → Dialog → Bool
reopened_early [] early d = early
reopened_early (e ∷ es) early d = reopened_early es (is_early e d || early) (handle e d)

run-IsKept :
    (es : List Event) (early : Bool) (d : Dialog)
    → IsKept early d
    → IsKept (reopened_early es early d) (run es d)
unfolding run reopened_early
run-IsKept [] early d h = h
run-IsKept (e ∷ es) early d h =
    run-IsKept es (is_early e d || early) (handle e d) (handle-IsKept early e d h)

initial-IsKept : IsKept false initial
initial-IsKept = record {
  at_most = ground arith;
  updating_iff = refl;
  listening = refl;
  quiet = refl;
}

-- Whatever the user does, whatever else opens the dialog again, and in whatever order the answers come: of
-- one call at most one request for the list of devices is under way, just while the call says that it is
-- updating; and its timer is set only while the dialog is open, unless the closed dialog was opened again
-- before the first list was answered.
pub run-sessions-IsSingle :
    (es : List Event) → IsSingle (reopened_early es false initial) (run es initial)
run-sessions-IsSingle es =
    IsKept-IsSingle (reopened_early es false initial) (run es initial)
      (run-IsKept es false initial initial-IsKept)

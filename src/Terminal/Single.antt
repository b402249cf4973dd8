-- ===== src/Terminal/Single.antt =====
-- app.js: one connection of the terminal at a time, and what is sent on it.
use mathlib.Core.Path.{subst}
use justverify.Common.{
  ℕ, String, Option, none, some, List, [], ◌∷◌, true, false, ◌&&◌, ◌==◌, if◌then◌else◌, ◌≡◌, inl,
  inr, refl, sym, ap, ◌∙◌, arith, if_either,
}
use justverify.Terminal.{
  Size, Sent, resized_to, input, connecting, opened, closing, Socket, Console, fit, push, send_to,
  size_of, size, send_input, create, ensure_from, ensure_terminal, open_socket, is_connecting,
  open_with, open_ws, is_live, close_ws, write, receive, end_socket, log_out, type_from, Event,
  shows, leaves, types, resizes, opens, closes, receives, logs_in, logs_out, handle, run, initial,
}
use justverify.Terminal.Fitting.{
  is_sane, IsFitting, IsFitting-IsAlone, IsAlone, IsSingle, same_id, at, connected, alone, pushed,
  input-IsFitting, size-IsFitting, fit_sane,
}

send_to-nil : (ws : Option ℕ) (m : Sent) → send_to ws m [] ≡ []
send_to-nil none m = refl
send_to-nil (some i) m = refl

send_input-IsSingle : (t : String) (c : Console) → IsSingle c → IsSingle (send_input t c)
send_input-IsSingle t c (inl h) =
    alone c (λ d. IsSingle (send_input t d)) h (inl (refl, send_to-nil c.ws (input t)))
send_input-IsSingle t c (inr h) =
    connected c (λ d. IsSingle (send_input t d)) h
      (pushed c h.term h.socket (input t) (input-IsFitting h.term h.socket t h.fitting))

size-IsSingle : (c : Console) → IsSingle c → IsSingle (size c)
unfolding size
size-IsSingle c (inl h) = alone c (λ d. IsSingle (size_of d.term d)) h (inl (refl, refl))
size-IsSingle c (inr h) =
    connected c (λ d. IsSingle (size_of d.term d)) h
      (if_either IsSingle c.hidden (λ _. IsFitting-IsAlone h.term h.socket h.fitting)
        (λ _.
          let s = fit c.client_width c.inner_width in
          pushed c s h.socket (resized_to s)
            (size-IsFitting h.term h.socket s (fit_sane c.client_width c.inner_width) h.fitting)))

create-IsSingle : (key : String) (c : Console) → c.live ≡ [] → IsSingle (create key c)
create-IsSingle key c l = inr (record {
  term = record { cols = 120; rows = 40 };
  socket = record { id = c.next_id; ready = connecting; key = key; sent = [] };
  term_eq = refl;
  live_eq = ap (record { id = c.next_id; ready = connecting; key = key; sent = [] } ∷◌) l;
  ws_eq = refl;
  fitting = record {
    unsent = λ _. refl;
    first = λ e. absurd (ground (arith, e));
    last = λ _. tt;
    sane = refl;
  };
})

-- A terminal that is missing has no connection.
no_term : (c : Console) → c.term ≡ none → IsSingle c → c.live ≡ []
no_term c e (inl h) = h.1
no_term c e (inr h) = absurd (ground (arith, sym e ∙ h.term_eq))

ensure_from-IsSingle :
    (key : String) (c : Console) (o : Option Size)
    → c.term ≡ o
    → IsSingle c
    → IsSingle (ensure_from o key c)
ensure_from-IsSingle key c none e h = create-IsSingle key c (no_term c e h)
ensure_from-IsSingle key c (some s) e h = send_input-IsSingle key (size c) (size-IsSingle c h)

type_from-IsSingle :
    (t : String) (c : Console) (o : Option Size) → IsSingle c → IsSingle (type_from o t c)
type_from-IsSingle t c none h = h
type_from-IsSingle t c (some s) h = send_input-IsSingle t c h

write-IsSingle : (b : String) (c : Console) (o : Option Size) → IsSingle c → IsSingle (write o b c)
write-IsSingle b c none h = h
write-IsSingle b c (some s) h = h

receive-IsSingle : (i : ℕ) (b : String) (c : Console) → IsSingle c → IsSingle (receive i b c)
unfolding receive
receive-IsSingle i b c h =
    if_either IsSingle (is_live i c.live) (λ _. write-IsSingle b c c.term h) (λ _. h)

close_ws-IsSingle : (i : ℕ) (c : Console) → IsSingle c → IsSingle (close_ws i c)
unfolding close_ws
close_ws-IsSingle i c (inl h) = alone c (λ d. IsSingle (close_ws i d)) h (inl (refl, refl))
close_ws-IsSingle i c (inr h) =
    connected c (λ d. IsSingle (close_ws i d)) h
      (if_either IsSingle (is_live i (h.socket ∷ [])) (λ t. inl (refl, ground (arith, t)))
        (λ _. IsFitting-IsAlone h.term h.socket h.fitting))

end_socket-nil : (ws : Option ℕ) → end_socket ws [] ≡ []
end_socket-nil none = refl
end_socket-nil (some i) = refl

log_out-IsSingle : (c : Console) → IsSingle c → IsSingle (log_out c)
unfolding log_out
log_out-IsSingle c (inl h) = alone c (λ d. IsSingle (log_out d)) h (inl (refl, end_socket-nil c.ws))
log_out-IsSingle c (inr h) =
    connected c (λ d. IsSingle (log_out d)) h
      (inr (record {
        term = h.term;
        socket = record h.socket { ready = closing };
        term_eq = refl;
        live_eq =
            ap (λ b. (if b then record h.socket { ready = closing } else h.socket) ∷ [])
              (same_id h.socket.id);
        ws_eq = refl;
        fitting = record {
          unsent = λ e. absurd (ground (arith, e));
          first = λ e. absurd (ground (arith, e));
          last = λ e. absurd (ground (arith, e));
          sane = h.fitting.sane;
        };
      }))

-- The socket that has just been opened.
abbrev fresh : Socket → Socket
fresh k = record k { ready = opened; sent = [] }

greeted : (s : Size) (k : Socket) → IsFitting s (push (input k.key) (fresh k))
greeted s k = record {
  unsent = λ e. absurd (ground (arith, e));
  first = λ _. refl;
  last = λ _. tt;
  sane = refl;
}

greeted_sized :
    (s : Size) (k : Socket)
    → is_sane (resized_to s) ≡ true
    → IsFitting s (push (input k.key) (push (resized_to s) (fresh k)))
greeted_sized s k n = record {
  unsent = λ e. absurd (ground (arith, e));
  first = λ _. refl;
  last = λ _. refl;
  sane = ground (arith, n);
}

fresh-IsSingle :
    (c : Console) (s : Size) (k : Socket)
    → IsSingle (send_input k.key (size_of (some s) (at c s (fresh k))))
fresh-IsSingle c s k =
    if_either (λ d. IsSingle (send_input k.key d)) c.hidden
      (λ _. pushed c s (fresh k) (input k.key) (greeted s k))
      (λ _.
        let t = fit c.client_width c.inner_width in
        let sized = push (resized_to t) (fresh k) in
        subst
          (λ b.
            IsAlone (some k.id) (some t)
              (send_to (some k.id) (input k.key) ((if b then sized else fresh k) ∷ [])))
          (sym (same_id k.id))
          (pushed c t sized (input k.key)
            (greeted_sized t k (fit_sane c.client_width c.inner_width))))

opened-IsSingle :
    (i : ℕ) (c : Console) (s : Size) (k : Socket)
    → IsFitting s k
    → (k.id == i && is_connecting k.ready) ≡ true
    → IsSingle
        (send_input k.key (size_of (some s) (record (at c s k) { live = open_socket i (k ∷ []) })))
opened-IsSingle i c s k f t =
    let unsent : record k { ready = opened } ≡ fresh k =
      ap (λ ms. record k { ready = opened; sent = ms }) (f.unsent (ground (arith, t))) in
    let own : (k.id == i) ≡ true = ground (arith, t) in
    let same : open_socket i (k ∷ []) ≡ fresh k ∷ [] =
      ap (λ b. (if b then record k { ready = opened } else k) ∷ []) own ∙ ap (◌∷ []) unsent in
    subst (λ ks. IsSingle (send_input k.key (size_of (some s) (record (at c s k) { live = ks }))))
      (sym same) (fresh-IsSingle c s k)

open_ws-IsSingle : (i : ℕ) (c : Console) → IsSingle c → IsSingle (open_ws i c)
unfolding open_ws size
open_ws-IsSingle i c (inl h) = alone c (λ d. IsSingle (open_ws i d)) h (inl (refl, refl))
open_ws-IsSingle i c (inr h) =
    connected c (λ d. IsSingle (open_ws i d)) h
      (if_either (λ o. IsSingle (open_with i o (at c h.term h.socket)))
        (h.socket.id == i && is_connecting h.socket.ready)
        (λ t. opened-IsSingle i c h.term h.socket h.fitting t)
        (λ _. IsFitting-IsAlone h.term h.socket h.fitting))

handle-IsSingle : (e : Event) (c : Console) → IsSingle c → IsSingle (handle e c)
unfolding handle ensure_terminal
handle-IsSingle (shows key) c h =
    ensure_from-IsSingle key (record c { hidden = false }) c.term refl h
handle-IsSingle leaves c h = h
handle-IsSingle (types text) c h = type_from-IsSingle text c c.term h
handle-IsSingle (resizes client_width inner_width) c h =
    size-IsSingle (record c { client_width = client_width; inner_width = inner_width }) h
handle-IsSingle (opens i) c h = open_ws-IsSingle i c h
handle-IsSingle (closes i) c h = close_ws-IsSingle i c h
handle-IsSingle (receives i bytes) c h = receive-IsSingle i bytes c h
handle-IsSingle logs_in c h = h
handle-IsSingle logs_out c h = log_out-IsSingle c h

run-IsSingle : (es : List Event) (c : Console) → IsSingle c → IsSingle (run es c)
unfolding run
run-IsSingle [] c h = h
run-IsSingle (e ∷ es) c h = run-IsSingle es (handle e c) (handle-IsSingle e c h)

-- In every order of events there is either neither a terminal nor a connection, or a terminal with one
-- connection, which is the one that is written to. While it is open, the first input on it is the key of
-- the page for which it was made, and the last size that was sent on it, if any was, is the terminal's;
-- every size has 30 to 120 columns and 24 or 40 rows; and nothing is sent before it is open.
pub run-initial-IsSingle : (es : List Event) → IsSingle (run es initial)
run-initial-IsSingle es = run-IsSingle es initial (inl (refl, refl))

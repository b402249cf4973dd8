-- ===== src/Terminal.antt =====
-- web/static/app.js: the terminal and its connection (size, ensureTerminal), as showPage, the logout and the
-- window use them. The screen of the terminal and the socket are the browser's; what is sent is kept.
pub mod Fitting
pub mod Single
mod Tests
use justverify.Common.{
  ℕ, ◌+◌, ◌/◌, String, Option, none, some, List, [], ◌∷◌, Bool, true, false, ◌&&◌, ◌==◌, ltb,
  if◌then◌else◌, min, max,
}

pub record Size : Type 0 where
  pub cols : ℕ
  pub rows : ℕ

-- `{cols,rows}` or `{input}`
pub data Sent : Type 0 where
  resized_to : Size → Sent
  input : String → Sent

-- `readyState`, up to the event `close`.
pub data Ready : Type 0 where
  connecting opened closing : Ready

-- A socket whose event `close` is still to come, with the key of its handler and what was sent, the last
-- one first.
pub record Socket : Type 0 where
  pub id : ℕ
  pub ready : Ready
  pub key : String
  pub sent : List Sent

pub record Console : Type 0 where
  pub term : Option Size
  pub output : List String  -- what was written on the terminal, the last one first
  pub ws : Option ℕ
  pub live : List Socket
  pub next_id : ℕ
  pub hidden : Bool  -- the element of the terminal
  pub client_width : ℕ
  pub inner_width : ℕ
  pub session : Bool  -- `csrf` is set
  pub resumes : ℕ  -- calls of `resume`

abbrev pub is_open : Ready → Bool
is_open opened = true
is_open connecting = false
is_open closing = false

abbrev pub fit : ℕ → ℕ → Size
fit client_width inner_width = record {
  cols = max 30 (min 120 (client_width / 9));
  rows = if ltb inner_width 700 then 24 else 40;
}

abbrev push : Sent → Socket → Socket
push m k = if is_open k.ready then record k { sent = m ∷ k.sent } else k

-- `if(ws?.readyState===1)ws.send(…)`
abbrev pub send_to : Option ℕ → Sent → List Socket → List Socket
send_to none m ks = ks
send_to (some i) m [] = []
send_to (some i) m (k ∷ ks) = (if k.id == i then push m k else k) ∷ send_to (some i) m ks

abbrev fitted : Size → Console → Console
fitted s c = record c { term = some s; live = send_to c.ws (resized_to s) c.live }

abbrev size_of : Option Size → Console → Console
size_of none c = c
size_of (some old) c = if c.hidden then c else fitted (fit c.client_width c.inner_width) c

-- `size`
unfoldable pub size : Console → Console
size c = size_of c.term c

abbrev send_input : String → Console → Console
send_input text c = record c { live = send_to c.ws (input text) c.live }

-- The rest of `ensureTerminal`: a new terminal of 120 by 40, and its socket.
abbrev create : String → Console → Console
create key c = record c {
  term = some (record { cols = 120; rows = 40 });
  output = [];
  ws = some c.next_id;
  live = record { id = c.next_id; ready = connecting; key = key; sent = [] } ∷ c.live;
  next_id = c.next_id + 1;
}

abbrev ensure_from : Option Size → String → Console → Console
ensure_from none key c = create key c
ensure_from (some s) key c = send_input key (size c)

-- `ensureTerminal`
unfoldable pub ensure_terminal : String → Console → Console
unfolding size
ensure_terminal key c = ensure_from c.term key c

abbrev open_socket : ℕ → List Socket → List Socket
open_socket i [] = []
open_socket i (k ∷ ks) = (if k.id == i then record k { ready = opened } else k) ∷ open_socket i ks

abbrev pub is_connecting : Ready → Bool
is_connecting connecting = true
is_connecting opened = false
is_connecting closing = false

abbrev pub connecting_key : ℕ → List Socket → Option String
connecting_key i [] = none
connecting_key i (k ∷ ks) =
    if k.id == i && is_connecting k.ready then some k.key else connecting_key i ks

abbrev open_with : ℕ → Option String → Console → Console
open_with i none c = c
open_with i (some key) c = send_input key (size (record c { live = open_socket i c.live }))

-- `ws.onopen` of a socket that was connecting; `size` and `send` are of the present one.
unfoldable pub open_ws : ℕ → Console → Console
unfolding size
open_ws i c = open_with i (connecting_key i c.live) c

abbrev pub is_live : ℕ → List Socket → Bool
is_live i [] = false
is_live i (k ∷ ks) = if k.id == i then true else is_live i ks

abbrev close_socket : ℕ → List Socket → List Socket
close_socket i [] = []
close_socket i (k ∷ ks) = if k.id == i then close_socket i ks else k ∷ close_socket i ks

abbrev closed : ℕ → Console → Console
closed i c = record c {
  live = close_socket i c.live;
  term = none;
  resumes = if c.session then c.resumes + 1 else c.resumes;
}

-- `ws.onclose` of a socket
unfoldable pub close_ws : ℕ → Console → Console
close_ws i c = if is_live i c.live then closed i c else c

abbrev write : Option Size → String → Console → Console
write none bytes c = c
write (some s) bytes c = record c { output = bytes ∷ c.output }

-- `ws.onmessage` of a socket
unfoldable pub receive : ℕ → String → Console → Console
receive i bytes c = if is_live i c.live then write c.term bytes c else c

-- `ws?.close()`
abbrev end_socket : Option ℕ → List Socket → List Socket
end_socket none ks = ks
end_socket (some i) [] = []
end_socket (some i) (k ∷ ks) =
    (if k.id == i then record k { ready = closing } else k) ∷ end_socket (some i) ks

-- The end of the session: `finishLogout`, and `keepSession` after a 401.
unfoldable pub log_out : Console → Console
log_out c = record c { session = false; hidden = true; live = end_socket c.ws c.live }

abbrev type_from : Option Size → String → Console → Console
type_from none text c = c
type_from (some s) text c = send_input text c

pub data Event : Type 0 where
  shows : String → Event  -- a page of the terminal, with its function key
  leaves : Event  -- another page
  types : String → Event
  resizes : ℕ → ℕ → Event
  opens : ℕ → Event
  closes : ℕ → Event
  receives : ℕ → String → Event
  logs_in : Event
  logs_out : Event

unfoldable pub handle : Event → Console → Console
unfolding ensure_terminal size open_ws close_ws receive log_out
handle (shows key) c = ensure_terminal key (record c { hidden = false })
handle leaves c = record c { hidden = true }
handle (types text) c = type_from c.term text c
handle (resizes client_width inner_width) c =
    size (record c { client_width = client_width; inner_width = inner_width })
handle (opens i) c = open_ws i c
handle (closes i) c = close_ws i c
handle (receives i bytes) c = receive i bytes c
handle logs_in c = record c { session = true }
handle logs_out c = log_out c

unfoldable pub run : List Event → Console → Console
unfolding handle
run [] c = c
run (e ∷ es) c = run es (handle e c)

abbrev pub initial : Console
initial = record {
  term = none;
  output = [];
  ws = none;
  live = [];
  next_id = 0;
  hidden = true;
  client_width = 0;
  inner_width = 0;
  session = false;
  resumes = 0;
}

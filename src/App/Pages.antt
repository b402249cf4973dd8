-- ===== src/App/Pages.antt =====
-- app.js: each page shows just the view of what it starts.
use justverify.Common.{ℕ, Option, none, some, Bool, not, true, false, ◌≡◌, arith}
use justverify.App.Menu.{
  Service, stopped, node_view, connection, device, troubleshoot, versions, policy, terminal_key,
  Screen, service_of, show_page,
}

pub data View : Type 0 where
  overview electrum terminal settings device_view : View

-- The view that belongs to what is started.
abbrev pub view_of : Service → Option View
view_of stopped = none
view_of node_view = some overview
view_of connection = some electrum
view_of device = some device_view
view_of troubleshoot = some device_view
view_of versions = some settings
view_of policy = some settings
view_of (terminal_key k) = some terminal

abbrev same : View → View → Bool
same overview overview = true
same electrum electrum = true
same terminal terminal = true
same settings settings = true
same device_view device_view = true
same _ _ = false

abbrev pub is_view : Option View → View → Bool
is_view none w = false
is_view (some v) w = same v w

abbrev pub hides : Screen → View → Bool
hides s overview = s.overview
hides s electrum = s.electrum
hides s terminal = s.terminal
hides s settings = s.settings
hides s device_view = s.device_view

-- The view of what is started is shown, and no other.
abbrev pub IsMatched : Screen → Type 0
IsMatched s = (w : View) → hides s w ≡ not (is_view (view_of s.active) w)

-- Whatever the number of the page, it shows the view of what it starts, and no other.
pub show_page-IsMatched : (n : ℕ) (s : Screen) → IsMatched (show_page n s)
unfolding show_page service_of
show_page-IsMatched n s overview = ground arith
show_page-IsMatched n s electrum = ground arith
show_page-IsMatched n s terminal = ground arith
show_page-IsMatched n s settings = ground arith
show_page-IsMatched n s device_view = ground arith

-- ===== src/Settings/Choice.antt =====
-- settings.js, versions: the selected version, its network and mode, and what the page offers to do with it.
pub mod Offered
mod Tests
use text.Mathlib.Text.{◌==◌ as str_eq}
use justverify.Common.{
  ℕ, String, Option, none, some, List, [], ◌∷◌, Bool, true, false, not, ◌&&◌, ◌||◌, if◌then◌else◌,
  get_elem?, any,
}
use justverify.I18n.Strings.{equals}
use justverify.Settings.Releases.{Release, last_downloaded}

pub record Selection : Type 0 where
  pub version : String
  pub network : String
  pub watch_only : Bool

-- `state`: the releases, and the instance that runs.
pub record State : Type 0 where
  pub releases : List Release
  pub active : Option Selection

pub record Page : Type 0 where
  pub state : State
  pub selection : Option Selection

-- `state.releases.find(r=>r.version===…)`
unfoldable pub find : String → List Release → Option Release
unfolding equals
find v [] = none
find v (r ∷ rs) = if equals r.version v then some r else find v rs

-- `release.networks.includes`
abbrev pub has_network : String → Release → Bool
has_network n r = any (equals n) r.networks

abbrev with_network : Option Release → Selection → Selection
with_network none s = s
with_network (some r) s = if has_network s.network r then s else record s { network = "main" }

abbrev chosen : List Release → Option Selection → Option Selection
chosen releases none = none
chosen releases (some s) = some (with_network (find s.version releases) s)

-- `choose`
unfoldable pub choose : Page → Page
unfolding find
choose p = record p { selection = chosen p.state.releases p.selection }

abbrev first_selection : Option Release → Option Selection
first_selection none = none
first_selection (some r) =
    some (record { version = r.version; network = "main"; watch_only = false })

abbrev initial_selection : Option Selection → List Release → Option Selection
initial_selection none releases = first_selection (last_downloaded releases)
initial_selection (some s) releases = some s

-- `open` and `versions`: the instance that runs, or the last release that is downloaded.
unfoldable pub open_view : State → Page
unfolding choose
open_view s = choose (record { state = s; selection = initial_selection s.active s.releases })

abbrev network_or_main : Option Selection → String
network_or_main none = "main"
network_or_main (some s) = if equals s.network "" then "main" else s.network

abbrev mode_of : Option Selection → Bool
mode_of none = false
mode_of (some s) = s.watch_only

abbrev pick_from : Option Release → Page → Page
pick_from none p = p
pick_from (some r) p =
    if r.verified
    then choose (record p {
      selection = some (record {
        version = r.version;
        network = network_or_main p.selection;
        watch_only = mode_of p.selection;
      });
    })
    else p

-- The card of the n-th release; the others' buttons are disabled.
unfoldable pub pick : ℕ → Page → Page
unfolding choose equals
pick n p = pick_from (get_elem? p.state.releases n) p

abbrev release_of : Page → Option Selection → Option Release
release_of p none = none
release_of p (some s) = find s.version p.state.releases

abbrev network_at : ℕ → Option Release → Option String
network_at n none = none
network_at n (some r) = get_elem? r.networks n

abbrev set_network : Option String → Option Selection → Option Selection
set_network (some n) (some s) = some (record s { network = n })
set_network none s = s
set_network (some n) none = none

-- `network.onchange`: the n-th network of the selected release
unfoldable pub select_network : ℕ → Page → Page
unfolding choose
select_network n p =
    choose
      (record p { selection = set_network (network_at n (release_of p p.selection)) p.selection })

abbrev set_mode : Bool → Option Selection → Option Selection
set_mode on none = none
set_mode on (some s) = some (record s { watch_only = on })

abbrev mode_from : Option Release → Bool → Page → Page
mode_from none on p = p
mode_from (some r) on p = choose (record p { selection = set_mode on p.selection })

-- The switch of the mode, which is there with the selected release.
unfoldable pub select_mode : Bool → Page → Page
unfolding choose
select_mode on p = mode_from (release_of p p.selection) on p

pub data Event : Type 0 where
  picks : ℕ → Event
  networks : ℕ → Event
  modes : Bool → Event

unfoldable pub handle : Event → Page → Page
unfolding pick select_network select_mode
handle (picks n) p = pick n p
handle (networks n) p = select_network n p
handle (modes on) p = select_mode on p

unfoldable pub run : List Event → Page → Page
unfolding handle
run [] p = p
run (e ∷ es) p = run es (handle e p)

-- What stands below the cards: nothing, the button of the download, that the version is in use, or the
-- button of the review, with what it sends.
pub data Detail : Type 0 where
  nothing : Detail
  download : String → Detail
  in_use : Detail
  review : Selection → Detail

abbrev pub same_bool : Bool → Bool → Bool
same_bool true b = b
same_bool false b = not b

abbrev pub is_active : Option Selection → Selection → Bool
is_active none s = false
is_active (some a) s =
    str_eq s.version a.version && str_eq s.network a.network && same_bool s.watch_only a.watch_only

abbrev detail_from : Option Selection → Option Release → Selection → Detail
detail_from active none s = nothing
detail_from active (some r) s =
    if not r.downloaded then download s.version else if is_active active s then in_use else review s

abbrev detail_of : State → Option Selection → Detail
detail_of state none = nothing
detail_of state (some s) = detail_from state.active (find s.version state.releases) s

unfoldable pub detail : Page → Detail
unfolding find equals
detail p = detail_of p.state p.selection

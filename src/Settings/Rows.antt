-- ===== src/Settings/Rows.antt =====
-- settings.js, policy: which options stand on which tab and in what order, what a row of an option offers,
-- and what the user's edits do to the values that are sent.
pub mod Tabs
pub mod Edits
mod Tests
use text.Mathlib.Text.{◌==◌ as str_eq}
use justverify.Common.{
  ℕ, ◌+◌, String, Option, none, some, List, [], ◌∷◌, Bool, true, false, not, ◌&&◌, ◌||◌, leb,
  if◌then◌else◌, digit,
}
use justverify.I18n.Strings.{◌++◌, trim, is_empty, strip_prefix, is_some}
use justverify.Settings.Fees.{Written, default_value}

pub data Kind : Type 0 where
  boolean tor_proxy incoming_set network_set decimal : Kind
  other_kind : Kind

-- An option of the catalogue. `default_text` is `String(e.default)`, or nothing.
pub record Entry : Type 0 where
  pub key : String
  pub kind : Kind
  pub default_text : String
  pub implicit_default : Option String
  pub installation_default : Option String
  pub unit : Option String
  pub editable : Bool  -- not `false`
  pub ignored_or_wallet_only : Bool
  pub source_registration_present : Bool
  pub preference_only : Bool

abbrev pub is_one_of : String → List String → Bool
is_one_of k [] = false
is_one_of k (x ∷ xs) = str_eq k x || is_one_of k xs

abbrev optimization_keys : List String
optimization_keys =
    "dbcache" ∷ "txindex" ∷ "txospenderindex" ∷ "datacarrier" ∷ "datacarriersize" ∷ "maxmempool"
    ∷ "blockmintxfee" ∷ "minrelaytxfee" ∷ "incrementalrelayfee" ∷ "mempoolexpiry" ∷ "persistmempool"
    ∷ "maxorphantx" ∷ "legacy_maxorphantx" ∷ []

abbrev net_keys : List String
net_keys =
    "listen" ∷ "onlynet" ∷ "proxy" ∷ "maxconnections" ∷ "maxuploadtarget" ∷ "maxsendbuffer"
    ∷ "maxreceivebuffer" ∷ "timeout" ∷ "peertimeout" ∷ "bantime" ∷ []

abbrev resource_keys : List String
resource_keys =
    "dbcache" ∷ "txindex" ∷ "blockfilterindex" ∷ "peerblockfilters" ∷ "peerbloomfilters" ∷ "rest"
    ∷ "txospenderindex" ∷ "asmap" ∷ []

-- The tabs with options; the fifth is the text of bitcoin.conf.
pub data Tab : Type 0 where
  network optimization resources advanced : Tab

unfoldable pub group_of : String → Tab
group_of key =
    if is_one_of key net_keys
    then network
    else if is_one_of key optimization_keys
    then optimization
    else if is_one_of key resource_keys
    then resources
    else advanced

abbrev pub order_keys : List String
order_keys =
    "listen" ∷ "onlynet" ∷ "proxy" ∷ "datacarrier" ∷ "datacarriersize" ∷ "dbcache" ∷ "txindex"
    ∷ "txospenderindex" ∷ "maxmempool" ∷ "blockmintxfee" ∷ "minrelaytxfee" ∷ "incrementalrelayfee"
    ∷ "mempoolexpiry" ∷ "persistmempool" ∷ "maxorphantx" ∷ "legacy_maxorphantx" ∷ []

-- `indexOf`, or 99
abbrev pub index_from : ℕ → String → List String → ℕ
index_from i k [] = 99
index_from i k (x ∷ xs) = if str_eq k x then i else index_from (i + 1) k xs

unfoldable pub priority : Entry → ℕ
priority e = index_from 0 e.key order_keys

-- `state.entries.filter(…)`; `major` is the first part of Core's version.
unfoldable pub is_listed : ℕ → Entry → Bool
is_listed major e = not (str_eq e.key "maxorphantx" && leb 30 major)

unfoldable pub filter : (Entry → Bool) → List Entry → List Entry
filter p [] = []
filter p (e ∷ es) = if p e then e ∷ filter p es else filter p es

-- `sort((a,b)=>priority(a.key)-priority(b.key))`, which keeps the order of equal ones.
unfoldable pub insert : Entry → List Entry → List Entry
insert e [] = e ∷ []
insert e (f ∷ fs) = if leb (priority e) (priority f) then e ∷ f ∷ fs else f ∷ insert e fs

unfoldable pub sort : List Entry → List Entry
unfolding insert
sort [] = []
sort (e ∷ es) = insert e (sort es)

abbrev pub same_tab : Tab → Tab → Bool
same_tab network network = true
same_tab network optimization = false
same_tab network resources = false
same_tab network advanced = false
same_tab optimization network = false
same_tab optimization optimization = true
same_tab optimization resources = false
same_tab optimization advanced = false
same_tab resources network = false
same_tab resources optimization = false
same_tab resources resources = true
same_tab resources advanced = false
same_tab advanced network = false
same_tab advanced optimization = false
same_tab advanced resources = false
same_tab advanced advanced = true

abbrev pub is_on : Tab → Entry → Bool
is_on tab e = same_tab (group_of e.key) tab

-- The options of a tab, as `rows` lists them.
unfoldable pub rows : ℕ → Tab → List Entry → List Entry
unfolding filter sort is_listed
rows major tab es = filter (is_on tab) (sort (filter (is_listed major) es))

-- `values`: the options that have a value.
abbrev pub Values : Type 0
Values = List (String × String)

unfoldable pub value_of : String → Values → Option String
value_of k [] = none
value_of k ((l, v) ∷ vs) = if str_eq l k then some v else value_of k vs

-- `delete values[key]`
unfoldable pub delete : String → Values → Values
delete k [] = []
delete k ((l, v) ∷ vs) = if str_eq l k then delete k vs else (l, v) ∷ delete k vs

-- `values[key] = v`
abbrev pub set : String → String → Values → Values
set k v vs = (k, v) ∷ delete k vs

-- What the user does in a row: a switch or the networks, a text, the removal of a value that the version
-- does not support, and the button of the default.
pub data Edit : Type 0 where
  saved : Entry → String → Edit
  typed : Entry → String → Edit
  removed : Entry → Edit
  reset : Entry → Edit

abbrev pub set_or_delete : String → Option String → Values → Values
set_or_delete k none vs = delete k vs
set_or_delete k (some v) vs = set k v vs

abbrev pub typed_value : String → Option String
typed_value t = if is_empty t then none else some t

unfoldable pub apply : Edit → Values → Values
unfolding delete trim
apply (saved e v) vs = set e.key v vs
apply (typed e t) vs = set_or_delete e.key (typed_value (trim t)) vs
apply (removed e) vs = delete e.key vs
apply (reset e) vs = set_or_delete e.key e.installation_default vs

unfoldable pub run : List Edit → Values → Values
unfolding apply
run [] vs = vs
run (e ∷ es) vs = run es (apply e vs)

abbrev pub is_supported : Bool → Entry → Bool
is_supported regtest e =
    e.editable
    && not e.ignored_or_wallet_only
    && e.source_registration_present
    && not (str_eq e.key "blockversion" && not regtest)

abbrev show_digits : List ℕ → String
show_digits [] = ""
show_digits (d ∷ ds) = digit d ++ show_digits ds

abbrev show_fraction : List ℕ → String
show_fraction [] = ""
show_fraction (d ∷ ds) = "." ++ show_digits (d ∷ ds)

abbrev show_written : Option Written → String
show_written none = ""
show_written (some w) = show_digits w.whole ++ show_fraction w.fraction

-- `defaultValue`
abbrev fallback : Entry → String
fallback e = elim e.kind [
  | decimal ↦ show_written (default_value e.default_text)
  | boolean ↦ e.default_text
  | tor_proxy ↦ e.default_text
  | incoming_set ↦ e.default_text
  | network_set ↦ e.default_text
  | other_kind ↦ e.default_text
]

abbrev first_of : Option String → Option String → String → String
first_of (some a) b c = a
first_of none (some b) c = b
first_of none none c = c

-- `current ?? e.implicit_default ?? fallback`
abbrev display : Entry → Values → String
display e vs = first_of (value_of e.key vs) e.implicit_default (fallback e)

-- What a row offers: nothing but the removal of a value, a switch, the switches of the networks, or a
-- field with its placeholder.
pub data Control : Type 0 where
  unsupported : Bool → Control
  switch : Bool → Control
  networks : String → Control
  field : String → String → Control

abbrev or_blank : Option String → String
or_blank none = ""
or_blank (some v) = v

abbrev control_of : Entry → Values → Control
control_of e vs = elim e.kind [
  | boolean ↦ switch (is_some (strip_prefix "1" (display e vs)))
  | tor_proxy ↦ switch (is_some (strip_prefix "1" (display e vs)))
  | incoming_set ↦ networks (display e vs)
  | network_set ↦ networks (display e vs)
  | decimal ↦ field (or_blank (value_of e.key vs)) (fallback e)
  | other_kind ↦ field (or_blank (value_of e.key vs)) (fallback e)
]

-- The controls of a row.
unfoldable pub control : Bool → Entry → Values → Control
unfolding value_of strip_prefix default_value
control regtest e vs =
    if is_supported regtest e then control_of e vs else unsupported (is_some (value_of e.key vs))

-- ===== src/Rain.antt =====
-- web/static/genesis-rain.js: the settings of the background, its animation loop and its glyphs.
pub mod Range
pub mod Loop
pub mod Glyphs
mod Tests
use Prim.Native.String.{◌++◌, count}
use justverify.Common.{
  ℕ, suc, ◌+◌, ◌-◌, ◌%◌, String, Option, none, some, List, [], ◌∷◌, Bool, true, false, not, ◌&&◌,
  ◌||◌, ltb, leb, ◌==◌, if◌then◌else◌, Field,
}

-- Mainnet genesis block: header plus the original coinbase transaction.
abbrev pub hex : String
hex =
    "0100000000000000000000000000000000000000000000000000000000000000000000003ba3edfd"
    ++ "7a7b12b27ac72c3e67768f617fc81bc3888a51323a9fb8aa4b1e5e4a29ab5f49ffff001d1dac2b7c"
    ++ "0101000000010000000000000000000000000000000000000000000000000000000000000000ffff"
    ++ "ffff4d04ffff001d0104455468652054696d65732030332f4a616e2f32303039204368616e63656c"
    ++ "6c6f72206f6e206272696e6b206f66207365636f6e64206261696c6f757420666f722062616e6b73"
    ++ "ffffffff0100f2052a01000000434104678afdb0fe5548271967f1a67130b7105cd6a828e03909a6"
    ++ "7962e0ea1f61deb649f6bc3f4cef38c4f35504e51ec112de5c384df7ba0b8d578a4c702b6bf11d5f"
    ++ "ac00000000"

pub record Settings : Type 0 where
  pub enabled : Bool
  pub brightness : ℕ
  pub speed : ℕ
  pub density : ℕ

abbrev pub defaults : Settings
defaults = record { enabled = false; brightness = 40; speed = 160; density = 140 }

-- What normalize is given: no object, or an object of any values; `enabled` is `none` if it is no
-- boolean.
pub data Input : Type 0 where
  not_object : Input
  object : Option Bool → Field → Field → Field → Input

-- The test of one range: an integer from `low` to `high`.
abbrev within : ℕ → ℕ → Field → Option ℕ
within low high (Field.whole n) = if ltb n low || ltb high n then none else some n
within low high _ = none

abbrev gather : Bool → Option ℕ → Option ℕ → Option ℕ → Settings
gather enabled (some b) (some s) (some d) = record {
  enabled = enabled;
  brightness = b;
  speed = s;
  density = d;
}
gather enabled _ _ _ = defaults

unfoldable pub normalize : Input → Settings
normalize not_object = defaults
normalize (object none brightness speed density) = defaults
normalize (object (some enabled) brightness speed density) =
    gather enabled (within 3 100 brightness) (within 15 400 speed) (within 30 300 density)

pub record Stream : Type 0 where
  pub length : ℕ
  pub offset : ℕ

-- The state of the animation, with the document's: hidden, frozen, and reduced motion.
pub record Rain : Type 0 where
  pub settings : Settings
  pub canvas : Bool
  pub ctx : Bool
  pub canvas_hidden : Bool
  pub marked : Bool  -- body.dataset.rain
  pub streams : List Stream
  pub raf : Bool  -- a frame is requested
  pub frozen : Bool
  pub document_hidden : Bool
  pub reduced : Bool

abbrev halt : Rain → Rain
halt s = record s { raf = false }

unfoldable pub resume : Rain → Rain
resume s =
    if not s.settings.enabled || not s.ctx || s.document_hidden || s.frozen
    then halt s
    else record s { raf = not s.reduced }

-- A frame that was requested fires.
unfoldable pub animate : Rain → Rain
animate s =
    if not s.settings.enabled || s.document_hidden || s.frozen || s.reduced
    then record s { raf = false }
    else record s { raf = true }

-- `resize` makes new streams, by the size of the window and at random: `fresh`.
abbrev resize : List Stream → Rain → Rain
resize fresh s = if s.canvas then record s { streams = fresh } else s

abbrev is_empty : List Stream → Bool
is_empty [] = true
is_empty (_ ∷ _) = false

turn_off : Rain → Rain
turn_off s =
    let h = halt s in
    let c = if h.canvas then record h { canvas_hidden = true; streams = [] } else h in
    record c { marked = false }

turn_on : Bool → Bool → List Stream → Rain → Rain
turn_on was_enabled density_changed fresh s =
    let shown = record s { canvas_hidden = false; marked = true } in
    if not was_enabled || density_changed || is_empty shown.streams
    then resume (resize fresh shown)
    else resume shown

-- `getContext('2d')` may give nothing: `context`.
ensure_canvas : Bool → Rain → Rain
ensure_canvas context s = if s.canvas then s else record s { canvas = true; ctx = context }

-- The part of apply behind `settings = next`.
take_effect : Bool → Bool → Bool → List Stream → Rain → Rain
take_effect was_enabled density_changed context fresh s =
    if not s.settings.enabled
    then turn_off s
    else let e = ensure_canvas context s in
      if not e.ctx then e else turn_on was_enabled density_changed fresh e

unfoldable pub apply : Input → Bool → List Stream → Rain → Rain
unfolding take_effect turn_off turn_on ensure_canvas
apply value context fresh s =
    let next = normalize value in
    take_effect s.settings.enabled (not (s.settings.density == next.density)) context fresh
      (record s { settings = next })

pub data Event : Type 0 where
  applied : Input → Bool → List Stream → Event
  resized : List Stream → Event
  frame : Event
  visibility : Bool → Event
  motion : Bool → Event
  freeze unfreeze pagehide pageshow : Event

-- The listeners, with what the browser changes before it calls them. A frame fires only if one is
-- requested.
unfoldable pub handle : Event → Rain → Rain
handle (applied value context fresh) s = apply value context fresh s
handle (resized fresh) s = if s.settings.enabled && s.ctx then resume (resize fresh s) else s
handle frame s = if s.raf then animate s else s
handle (visibility hidden) s = resume (record s { document_hidden = hidden })
handle (motion reduced) s = resume (record s { reduced = reduced })
handle freeze s = halt (record s { frozen = true })
handle unfreeze s = resume (record s { frozen = false })
handle pagehide s = halt s
handle pageshow s = resume s

-- The page when the script has run.
unfoldable pub initial : Bool → Bool → Rain
initial hidden reduced = record {
  settings = defaults;
  canvas = false;
  ctx = false;
  canvas_hidden = false;
  marked = false;
  streams = [];
  raf = false;
  frozen = false;
  document_hidden = hidden;
  reduced = reduced;
}

-- `Math.floor(stream.y / 18) - j`, which may be negative, as a sign and a distance from zero.
pub data Row : Type 0 where
  ahead : ℕ → Row
  behind : ℕ → Row

abbrev glyphs : ℕ
glyphs = 570

-- `((offset + row) % n + n) % n`, where `%` keeps the sign of its left side.
abbrev wrap : Row → ℕ
wrap (ahead z) = (z % glyphs + glyphs) % glyphs
wrap (behind z) = (glyphs - z % glyphs) % glyphs

-- offset + row as one of the two.
abbrev shifted : ℕ → Row → Row
shifted offset (ahead r) = ahead (offset + r)
shifted offset (behind r) = if leb r offset then ahead (offset - r) else behind (r - offset)

unfoldable pub index : Stream → Row → ℕ
index stream row = wrap (shifted stream.offset row)

-- The stream has left the window: it starts over with other glyphs.
unfoldable pub restart : Stream → Stream
restart stream = record stream { offset = (stream.offset + 37) % glyphs }

-- ===== src/Rain/Range.antt =====
-- The settings that normalize accepts.
use justverify.Common.{◌≤◌, ◌≡◌, arith, none, some, Field}
use justverify.Rain.{Settings, Input, not_object, object, normalize}

pub record IsInRange (s : Settings) : Type 0 where
  pub brightness_low : 3 ≤ s.brightness
  pub brightness_high : s.brightness ≤ 100
  pub speed_low : 15 ≤ s.speed
  pub speed_high : s.speed ≤ 400
  pub density_low : 30 ≤ s.density
  pub density_high : s.density ≤ 300

abbrev pub stored : Settings → Input
stored s =
    object (some s.enabled) (Field.whole s.brightness) (Field.whole s.speed) (Field.whole s.density)

-- Whatever was stored or sent, the settings in force are in range.
pub normalize-IsInRange : (value : Input) → IsInRange (normalize value)
unfolding normalize
normalize-IsInRange not_object = omega arith
normalize-IsInRange (object none b s d) = omega arith
normalize-IsInRange (object (some e) b s d) = ground arith

-- Settings that are in range are read back as they were stored.
pub normalize-stored : (s : Settings) → IsInRange s → normalize (stored s) ≡ s
unfolding normalize
normalize-stored s r = ground arith

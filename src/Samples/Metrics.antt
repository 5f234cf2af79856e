-- ===== src/Samples/Metrics.antt =====
-- samples/include/Metrics.h.
use bark_direct_x.Prelude.{ℕ}
use bark_direct_x.Math.{Math}

-- The compiler evaluates `MetersToPixels(12)` and `MetersToPixels(8)`.
abbrev pub width : ℕ
width = 1200

abbrev pub height : ℕ
height = 800

module _ ⦃m : Math⦄ where
  open m use {Float, literal, mul, div}

  abbrev pub meter_ratio : Float
  meter_ratio = literal 100 0

  abbrev pub pixels_to_meters : Float → Float
  pixels_to_meters pixels = div pixels meter_ratio

  abbrev pub meters_to_pixels : Float → Float
  meters_to_pixels meters = mul meters meter_ratio

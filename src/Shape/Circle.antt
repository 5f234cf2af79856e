-- ===== src/Shape/Circle.antt =====
-- `class Circle` of Physics/include/Shape.h.
use bark_direct_x.Prelude.{Bool}
use bark_direct_x.Math.{Math}
use bark_direct_x.Common.Utility.{abs}

module _ ⦃m : Math⦄ where
  open m use {Float, Vector, mul, le, get_x, xm_add, xm_subtract, length_sq3}

  pub record Circle : Type 0 where
    pub center : Vector
    pub radius : Float

  -- The constructor makes the radius positive.
  unfoldable pub make : Vector → Float → Circle
  make center radius = record { center = center; radius = abs radius }

  unfoldable pub set_center : Circle → Vector → Circle
  set_center c center = record c { center = center }

  unfoldable pub set_radius : Circle → Float → Circle
  set_radius c radius = record c { radius = abs radius }

  unfoldable pub contains : Circle → Vector → Bool
  contains c point =
      let delta = xm_subtract c.center point in
      let squared_distance = get_x (length_sq3 delta) in le squared_distance (mul c.radius c.radius)

  -- `operator+`.
  unfoldable pub translate : Circle → Vector → Circle
  unfolding make
  translate c vec = make (xm_add c.center vec) c.radius

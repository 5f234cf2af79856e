-- ===== src/Shape/Rectangle.antt =====
-- `class Rectangle` of Physics/include/Shape.h.
use bark_direct_x.Prelude.{Bool, true, false, ◌||◌, if◌then◌else◌}
use bark_direct_x.Math.{Math}

module _ ⦃m : Math⦄ where
  open m use {Vector, half_f, lt, get_x, get_y, xm_add, xm_subtract, xm_scale}

  pub record Rectangle : Type 0 where
    pub min_bound : Vector
    pub max_bound : Vector

  abbrev pub make : Vector → Vector → Rectangle
  make min max = record { min_bound = min; max_bound = max }

  unfoldable pub contains : Rectangle → Vector → Bool
  contains r point =
      if lt (get_x r.max_bound) (get_x point) || lt (get_x point) (get_x r.min_bound)
      then false
      else if lt (get_y r.max_bound) (get_y point) || lt (get_y point) (get_y r.min_bound)
      then false
      else true

  unfoldable pub center : Rectangle → Vector
  center r = xm_scale (xm_add r.min_bound r.max_bound) half_f

  unfoldable pub size : Rectangle → Vector
  size r = xm_subtract r.max_bound r.min_bound

  unfoldable pub half_size : Rectangle → Vector
  half_size r = xm_scale (xm_subtract r.max_bound r.min_bound) half_f

  -- `operator+`.
  unfoldable pub translate : Rectangle → Vector → Rectangle
  translate r vec = make (xm_add r.min_bound vec) (xm_add r.max_bound vec)

  unfoldable pub from_center : Vector → Vector → Rectangle
  from_center center half_size = make (xm_subtract center half_size) (xm_add center half_size)

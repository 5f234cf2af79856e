-- ===== src/Physics/Collider.antt =====
-- `Collider` of Physics/include/Collider.h and Physics/src/Collider.cpp.
pub mod Bounds
use bark_direct_x.Prelude.{Bool, false, List, foldl, if◌then◌else◌}
use bark_direct_x.Math.{Math}
use bark_direct_x.Shape.{Shape, circle_shape, rectangle_shape, polygon_shape}
use bark_direct_x.Shape.Circle
use bark_direct_x.Shape.Rectangle
use bark_direct_x.Shape.Rectangle.{Rectangle}
use bark_direct_x.Physics.Refs.{BodyRef}

module _ ⦃m : Math⦄ where
  open m use {Float, Vector, one_f, max_f, min_f, lt, xm_zero, xm_braces, get_x, get_y}

  pub record Collider : Type 0 where
    pub shape : Shape
    pub body_ref : BodyRef
    pub body_position : Vector
    pub restitution : Float
    pub is_trigger : Bool
    pub is_attached : Bool

  -- `Collider()`: value initialisation makes the reference zero.
  unfoldable pub default : Collider
  unfolding Circle.make
  default = record {
    shape = circle_shape (Circle.make xm_zero one_f);
    body_ref = record { index = 0; gen_index = 0 };
    body_position = xm_zero;
    restitution = one_f;
    is_trigger = false;
    is_attached = false;
  }

  -- `std::min` and `std::max`.
  unfoldable pub std_min : Float → Float → Float
  std_min a b = if lt b a then b else a

  unfoldable pub std_max : Float → Float → Float
  std_max a b = if lt a b then b else a

  -- The four locals of the loop over a polygon's vertices.
  pub record Extent : Type 0 where
    pub min_x : Float
    pub min_y : Float
    pub max_x : Float
    pub max_y : Float

  abbrev pub initial_extent : Extent
  initial_extent = record { min_x = max_f; min_y = max_f; max_x = min_f; max_y = min_f }

  unfoldable pub extend : Extent → Vector → Extent
  unfolding std_min std_max
  extend e vertex =
      let x = get_x vertex in
      let y = get_y vertex in
      record {
        min_x = std_min e.min_x x;
        min_y = std_min e.min_y y;
        max_x = std_max e.max_x x;
        max_y = std_max e.max_y y;
      }

  unfoldable pub polygon_bounds : List Vector → Rectangle
  unfolding extend
  polygon_bounds vertices =
      let e = foldl extend initial_extent vertices in
      Rectangle.make (xm_braces e.min_x e.min_y) (xm_braces e.max_x e.max_y)

  local_bounds : Shape → Rectangle
  unfolding Rectangle.from_center polygon_bounds
  local_bounds (circle_shape c) = Rectangle.from_center c.center (xm_braces c.radius c.radius)
  local_bounds (rectangle_shape r) = r
  local_bounds (polygon_shape p) = polygon_bounds p.vertices

  unfoldable pub get_bounds : Collider → Rectangle
  unfolding Rectangle.translate local_bounds
  get_bounds col = Rectangle.translate (local_bounds col.shape) col.body_position

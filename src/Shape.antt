-- ===== src/Shape.antt =====
-- Physics/include/Shape.h at `T = float`: circles, rectangles, polygons, and the variant that
-- colliders and graphics data hold.
pub mod Circle
pub mod Rectangle
pub mod Polygon
pub mod Intersect
pub mod Symmetry
pub mod Points
pub mod Vertices
use bark_direct_x.Math.{Math}

module _ ⦃m : Math⦄ where
  -- `std::variant<CircleF, RectangleF, PolygonF>`; `ShapeType` numbers its cases.
  pub data Shape : Type 0 where
    circle_shape : Circle.Circle → Shape
    rectangle_shape : Rectangle.Rectangle → Shape
    polygon_shape : Polygon.Polygon → Shape

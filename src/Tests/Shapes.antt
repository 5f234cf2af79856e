-- ===== src/Tests/Shapes.antt =====
-- Runs of Common/include/Utility.h and Physics/include/Shape.h.
use bark_direct_x.Prelude.{ℕ, ◌≡◌, refl, ◌↔◌, true, false, List, [], ◌∷◌, arith, All}
use bark_direct_x.Prelude.Outcome.{ok}
use bark_direct_x.Math.Laws.{IsNumber}
use bark_direct_x.Math.Exact.{
  ℤ, pos, negsuc, Triple, triple, le_ℤ, exact, exact-IsOrdered, exact-IsComponentwise,
  exact-IsSymmetric,
}
use bark_direct_x.Common.Utility.{clamp, clamp_range, clamp-inside}
use bark_direct_x.Physics.Collider.{polygon_bounds}
use bark_direct_x.Physics.Collider.Bounds.{IsPlaced, polygon_bounds-contains}
use bark_direct_x.Shape.Circle.{Circle}
use bark_direct_x.Shape.Circle
use bark_direct_x.Shape.Rectangle.{Rectangle}
use bark_direct_x.Shape.Rectangle
use bark_direct_x.Shape.Polygon.{Polygon}
use bark_direct_x.Shape.Polygon
use bark_direct_x.Shape.Intersect.{
  circle_circle, rectangle_rectangle, rectangle_circle, polygon_polygon, normal_of,
}
use bark_direct_x.Shape.Symmetry.{circle_circle_comm, polygon_polygon_comm}
use bark_direct_x.Shape.Points.{CommonPoint, rectangle_rectangle_iff}
use bark_direct_x.Shape.Vertices.{HasProjections, HasValues, polygon_polygon-shared}

abbrev point : ℕ → ℕ → Triple
point x y = triple (pos x) (pos y) (pos 0)

clamp_above : clamp (pos 9) (pos 5) (negsuc 2) ≡ pos 5
unfolding clamp
clamp_above = refl

clamp_range_example :
    (le_ℤ (pos 2) (clamp (pos 9) (pos 2) (pos 7)) ≡ true)
    × (le_ℤ (clamp (pos 9) (pos 2) (pos 7)) (pos 7) ≡ true)
    × (le_ℤ (pos 2) (clamp (pos 9) (pos 7) (pos 2)) ≡ true)
    × (le_ℤ (clamp (pos 9) (pos 7) (pos 2)) (pos 7) ≡ true)
clamp_range_example = clamp_range exact-IsOrdered (pos 9) (pos 2) (pos 7) refl refl refl refl

clamp-inside_example :
    (clamp (pos 5) (pos 2) (pos 7) ≡ pos 5) × (clamp (pos 5) (pos 7) (pos 2) ≡ pos 5)
clamp-inside_example = clamp-inside exact-IsOrdered (pos 5) (pos 2) (pos 7) refl refl refl refl refl

abbrev small_box : Rectangle
small_box = Rectangle.make (point 0 0) (point 2 2)

abbrev next_box : Rectangle
next_box = Rectangle.make (point 2 1) (point 5 4)

boxes_touch : rectangle_rectangle small_box next_box ≡ true
unfolding rectangle_rectangle
boxes_touch = refl

rectangle_rectangle_iff_example :
    (rectangle_rectangle small_box next_box ≡ true) ↔ CommonPoint small_box next_box
rectangle_rectangle_iff_example =
    rectangle_rectangle_iff exact-IsOrdered exact-IsComponentwise small_box next_box
      (record { x_ordered = refl; y_ordered = refl })
      (record { x_ordered = refl; y_ordered = refl })

abbrev left_triangle : Polygon
left_triangle = Polygon.make (point 0 0 ∷ point 3 0 ∷ point 0 3 ∷ [])

abbrev right_triangle : Polygon
right_triangle = Polygon.make (point 3 0 ∷ point 6 0 ∷ point 6 3 ∷ [])

abbrev far_triangle : Polygon
far_triangle = Polygon.make (point 8 8 ∷ point 9 8 ∷ point 9 9 ∷ [])

far_apart : polygon_polygon left_triangle far_triangle ≡ ok false
unfolding polygon_polygon bark_direct_x.Shape.Intersect.separated
    bark_direct_x.Shape.Intersect.widen_all bark_direct_x.Common.Utility.max
    bark_direct_x.Common.Utility.min
far_apart = refl

All-of {ℓ κ} : {A : Type ℓ} (P : A → Type κ) (xs : List A) → ((a : A) → P a) → All P xs
All-of P [] holds = tt
All-of P (x ∷ xs) holds = (holds x, All-of P xs holds)

is_number : (a : ℤ) → IsNumber a
is_number a = ground arith

values : (n : Triple) (us : List Triple) → HasValues exact-IsOrdered exact-IsComponentwise n us
values n us =
    All-of (λ v. IsNumber (exact.get_x (exact.dot3 v n))) us
      (λ v. is_number (exact.get_x (exact.dot3 v n)))

projections :
    HasProjections exact-IsOrdered exact-IsComponentwise left_triangle.vertices
      right_triangle.vertices
projections = (
  All-of _ _ (λ e.
      (values (normal_of e) left_triangle.vertices, values (normal_of e) right_triangle.vertices)),
  All-of _ _ (λ e.
      (values (normal_of e) left_triangle.vertices, values (normal_of e) right_triangle.vertices)),
)

polygon_polygon-shared_example : polygon_polygon left_triangle right_triangle ≡ ok true
polygon_polygon-shared_example =
    polygon_polygon-shared exact-IsOrdered exact-IsComponentwise left_triangle right_triangle 1 0
      projections refl refl

polygon_polygon_comm_example :
    polygon_polygon left_triangle far_triangle ≡ polygon_polygon far_triangle left_triangle
polygon_polygon_comm_example = polygon_polygon_comm left_triangle far_triangle

abbrev small_circle : Circle
small_circle = Circle.make (point 0 0) (pos 2)

abbrev big_circle : Circle
big_circle = Circle.make (point 3 4) (pos 3)

circle_circle_comm_example :
    circle_circle small_circle big_circle ≡ circle_circle big_circle small_circle
circle_circle_comm_example = circle_circle_comm exact-IsSymmetric small_circle big_circle

right-IsPlaced : All IsPlaced right_triangle.vertices
right-IsPlaced = All-of IsPlaced right_triangle.vertices (λ v. (is_number v.x, is_number v.y))

polygon_bounds-contains_example :
    Rectangle.contains (polygon_bounds right_triangle.vertices) (point 6 3) ≡ true
polygon_bounds-contains_example =
    polygon_bounds-contains exact-IsOrdered exact-IsComponentwise right_triangle.vertices 2 refl
      refl right-IsPlaced refl

-- The bounds of a polygon left of the origin reach to the least positive value.
abbrev left_corner : Triple
left_corner = triple (negsuc 4) (negsuc 4) (pos 0)

not_tight : polygon_bounds (left_corner ∷ []) ≡ Rectangle.make left_corner (point 1 1)
unfolding polygon_bounds
not_tight = refl

-- ===== src/Shape/Intersect.antt =====
-- The `Intersect` overloads of Physics/include/Shape.h and `ClosestPointOnSegment`. Reading the
-- first vertex of an empty polygon is undefined behaviour, so what compares two polygons returns an
-- `Outcome`.
use bark_direct_x.Prelude.{Bool, true, false, not, ◌||◌, List, [], ◌∷◌, zero, if◌then◌else◌, foldl}
use bark_direct_x.Prelude.Outcome.{Outcome, ok, ◌>>=◌, at}
use bark_direct_x.Math.{Math}
use bark_direct_x.Common.Utility.{min, max}
use bark_direct_x.Shape.Circle.{Circle}
use bark_direct_x.Shape.Rectangle.{Rectangle}
use bark_direct_x.Shape.Polygon.{Polygon}
use bark_direct_x.Shape.Circle
use bark_direct_x.Shape.Rectangle
use bark_direct_x.Shape.Polygon

module _ ⦃m : Math⦄ where
  open m use {
    Float, Vector, zero_f, one_f, add, mul, div, neg, lt, le, get_x, get_y, xm_set, xm_add,
    xm_subtract, xm_scale, length_sq3, dot3,
  }

  unfoldable pub circle_circle : Circle → Circle → Bool
  circle_circle circle1 circle2 =
      let radius_sum =
        mul (add circle1.radius circle2.radius) (add circle1.radius circle2.radius) in
      let distance_between_centers =
        get_x (length_sq3 (xm_subtract circle1.center circle2.center)) in
      le distance_between_centers radius_sum

  unfoldable pub rectangle_rectangle : Rectangle → Rectangle → Bool
  rectangle_rectangle r1 r2 =
      if lt (get_x r1.max_bound) (get_x r2.min_bound)
        || lt (get_x r2.max_bound) (get_x r1.min_bound)
      then false
      else if lt (get_y r1.max_bound) (get_y r2.min_bound)
          || lt (get_y r2.max_bound) (get_y r1.min_bound)
      then false
      else true

  -- `for (const auto& point : points) if (circle.Contains(point)) return true;`
  contains_any : Circle → List Vector → Bool
  contains_any circle [] = false
  contains_any circle (point ∷ points) = Circle.contains circle point || contains_any circle points

  corners : Rectangle → List Vector
  corners r =
      r.min_bound
      ∷ r.max_bound
      ∷ xm_set (get_x r.min_bound) (get_y r.max_bound) zero_f zero_f
      ∷ xm_set (get_x r.max_bound) (get_y r.min_bound) zero_f zero_f
      ∷ []

  widened_x : Rectangle → Float → Rectangle
  widened_x r radius =
      Rectangle.make (xm_subtract r.min_bound (xm_set radius zero_f zero_f zero_f))
        (xm_add r.max_bound (xm_set radius zero_f zero_f zero_f))

  widened_y : Rectangle → Float → Rectangle
  widened_y r radius =
      Rectangle.make (xm_subtract r.min_bound (xm_set zero_f radius zero_f zero_f))
        (xm_add r.max_bound (xm_set zero_f radius zero_f zero_f))

  unfoldable pub rectangle_circle : Rectangle → Circle → Bool
  unfolding contains_any corners widened_x widened_y
  rectangle_circle rectangle circle =
      if Rectangle.contains rectangle circle.center
      then true
      else if Rectangle.contains (widened_x rectangle circle.radius) circle.center
      then true
      else if Rectangle.contains (widened_y rectangle circle.radius) circle.center
      then true
      else contains_any circle (corners rectangle)

  unfoldable pub circle_rectangle : Circle → Rectangle → Bool
  circle_rectangle circle rectangle = rectangle_circle rectangle circle

  -- The edges of a loop `for (i = 0, j = n - 1; i < n; j = i++)`: each vertex with the one before.
  pub edges_from : Vector → List Vector → List (Vector × Vector)
  edges_from j [] = []
  edges_from j (i ∷ is) = (i, j) ∷ edges_from i is

  pub last : Vector → List Vector → Vector
  last v [] = v
  last v (w ∷ ws) = last w ws

  unfoldable pub edges : List Vector → List (Vector × Vector)
  unfolding edges_from last
  edges [] = []
  edges (v ∷ vs) = edges_from (last v vs) (v ∷ vs)

  unfoldable pub widen : Vector → Vector → Vector → Vector
  widen normal projection1 vertex =
      let projection = get_x (dot3 vertex normal) in
      xm_set (min (get_x projection1) projection) (max (get_y projection1) projection) zero_f zero_f

  unfoldable pub widen_all : Vector → Vector → List Vector → Vector
  unfolding widen
  widen_all normal first vertices =
      let start = get_x (dot3 first normal) in
      foldl (widen normal) (xm_set start start zero_f zero_f) vertices

  -- The interval that the vertices cover on an axis, in the first two components of a vector.
  unfoldable pub project : List Vector → Vector → Outcome Vector
  project vertices normal = do first ← at vertices zero; ok (widen_all normal first vertices)

  unfoldable pub separated : Vector → Vector → Bool
  separated projection1 projection2 =
      lt (get_y projection1) (get_x projection2) || lt (get_y projection2) (get_x projection1)

  abbrev pub normal_of : Vector × Vector → Vector
  normal_of (i, j) =
      let edge = xm_subtract i j in xm_set (neg (get_y edge)) (get_x edge) zero_f zero_f

  -- One of the two loops over edges, true where it returns early.
  unfoldable pub has_separating_axis :
      List (Vector × Vector) → List Vector → List Vector → Outcome Bool
  unfolding project
  has_separating_axis [] vertices1 vertices2 = ok false
  has_separating_axis (e ∷ es) vertices1 vertices2 =
      let rest = has_separating_axis es vertices1 vertices2 in
      do
        projection1 ← project vertices1 (normal_of e)
        projection2 ← project vertices2 (normal_of e)
        if separated projection1 projection2 then ok true else rest

  unfoldable pub polygon_polygon : Polygon → Polygon → Outcome Bool
  unfolding has_separating_axis edges
  polygon_polygon polygon1 polygon2 = do
    found1 ← has_separating_axis (edges polygon1.vertices) polygon1.vertices polygon2.vertices
    if found1 then ok false else do
      found2 ← has_separating_axis (edges polygon2.vertices) polygon1.vertices polygon2.vertices
      ok (not found2)

  unfoldable pub closest_point_on_segment : Vector → Vector → Vector → Vector
  closest_point_on_segment a b p =
      let ab = xm_subtract b a in
      let ab_square_length = get_x (length_sq3 ab) in
      let p_sub_a = xm_subtract p a in
      let t =
        div (add (mul (get_x p_sub_a) (get_x ab)) (mul (get_y p_sub_a) (get_y ab)))
          ab_square_length in
      if le t zero_f then a else if le one_f t then b else xm_add a (xm_scale ab t)

  touches_edge : Circle → List (Vector × Vector) → Bool
  touches_edge circle [] = false
  touches_edge circle ((p1, p2) ∷ es) =
      let closest = closest_point_on_segment p1 p2 circle.center in
      le (get_x (length_sq3 (xm_subtract circle.center closest))) (mul circle.radius circle.radius)
      || touches_edge circle es

  unfoldable pub polygon_circle : Polygon → Circle → Bool
  unfolding contains_any touches_edge edges
  polygon_circle polygon circle =
      contains_any circle polygon.vertices || touches_edge circle (edges polygon.vertices)

  unfoldable pub circle_polygon : Circle → Polygon → Bool
  circle_polygon circle polygon = polygon_circle polygon circle

  unfoldable pub rect_to_polygon : Rectangle → Polygon
  rect_to_polygon r = Polygon.make (
      r.min_bound
      ∷ xm_set (get_x r.min_bound) (get_y r.max_bound) zero_f zero_f
      ∷ r.max_bound
      ∷ xm_set (get_x r.max_bound) (get_y r.min_bound) zero_f zero_f
      ∷ [])

  unfoldable pub polygon_rectangle : Polygon → Rectangle → Outcome Bool
  unfolding rect_to_polygon
  polygon_rectangle polygon rectangle = polygon_polygon polygon (rect_to_polygon rectangle)

  unfoldable pub rectangle_polygon : Rectangle → Polygon → Outcome Bool
  rectangle_polygon rectangle polygon = polygon_rectangle polygon rectangle

-- ===== src/Shape/Symmetry.antt =====
-- The `Intersect` overloads of Physics/include/Shape.h for two shapes of one kind, with their
-- arguments exchanged.
use bark_direct_x.Prelude.{
  ◌<◌, length, ◌≡◌, refl, ap, ap₂, Bool, true, false, not, List, [], ◌∷◌, arith, if◌then◌else◌,
}
use bark_direct_x.Prelude.Outcome.{ok}
use bark_direct_x.Math.{Math}
use bark_direct_x.Math.Laws.{IsSymmetric}
use bark_direct_x.Shape.Circle.{Circle}
use bark_direct_x.Shape.Rectangle.{Rectangle}
use bark_direct_x.Shape.Polygon.{Polygon}
use bark_direct_x.Shape.Polygon
use bark_direct_x.Shape.Intersect.{
  circle_circle, rectangle_rectangle, separated, has_separating_axis, edges, polygon_polygon,
  normal_of, widen_all,
}

module _ ⦃m : Math⦄ where
  open m use {Float, Vector, mul, add, le, length_sq3, get_x, xm_subtract}

  -- Where addition commutes and the length of a difference does not depend on its sign, two circles
  -- intersect in one order exactly if they do in the other.
  pub circle_circle_comm : IsSymmetric m → (a b : Circle) → circle_circle a b ≡ circle_circle b a
  unfolding circle_circle
  circle_circle_comm laws a b =
      ap₂ le (ap get_x (laws.length_sq_subtract a.center b.center))
        (ap (λ s. mul s s) (laws.add_comm a.radius b.radius))

  pub rectangle_rectangle_comm :
      (a b : Rectangle) → rectangle_rectangle a b ≡ rectangle_rectangle b a
  unfolding rectangle_rectangle
  rectangle_rectangle_comm a b = ground arith

  separated_comm : (p q : Vector) → separated p q ≡ separated q p
  unfolding separated
  separated_comm p q = ground arith

  -- On two polygons that have vertices every axis gives an answer, the same in either order.
  axis_comm :
      (es : List (Vector × Vector)) (u v : Vector) (us vs : List Vector)
      → (b : Bool) × (has_separating_axis es (u ∷ us) (v ∷ vs) ≡ ok b)
        × (has_separating_axis es (v ∷ vs) (u ∷ us) ≡ ok b)
  unfolding has_separating_axis
  axis_comm [] u v us vs = (false, refl, refl)
  axis_comm (e ∷ es) u v us vs =
      let (b, h, k) = axis_comm es u v us vs in
      let p : Vector = widen_all (normal_of e) u (u ∷ us) in
      let q : Vector = widen_all (normal_of e) v (v ∷ vs) in
      (
        if separated p q then true else b,
        ground (arith, h, k),
        ground (arith, h, k, separated_comm p q),
      )

  -- The separating axis test gives the same outcome in either order, for polygons without vertices
  -- too.
  pub polygon_polygon_comm : (a b : Polygon) → polygon_polygon a b ≡ polygon_polygon b a
  unfolding polygon_polygon
  polygon_polygon_comm a b = vertices_comm a.vertices b.vertices
    where
      vertices_comm :
          (us vs : List Vector)
          → polygon_polygon (Polygon.make us) (Polygon.make vs)
            ≡ polygon_polygon (Polygon.make vs) (Polygon.make us)
      vertices_comm [] [] = refl
      vertices_comm [] (v ∷ vs) = refl
      vertices_comm (u ∷ us) [] = refl
      vertices_comm (u ∷ us) (v ∷ vs) =
          let (b1, h1, k1) = axis_comm (edges (u ∷ us)) u v us vs in
          let (b2, h2, k2) = axis_comm (edges (v ∷ vs)) u v us vs in ground (arith, h1, k1, h2, k2)

  -- Two polygons that have vertices get an answer.
  pub polygon_polygon-answers :
      (a b : Polygon)
      → 0 < length a.vertices
      → 0 < length b.vertices
      → (hit : Bool) × (polygon_polygon a b ≡ ok hit)
  unfolding polygon_polygon
  polygon_polygon-answers a b ha hb = answers a.vertices b.vertices ha hb
    where
      answers :
          (us vs : List Vector)
          → 0 < length us
          → 0 < length vs
          → (hit : Bool) × (polygon_polygon (Polygon.make us) (Polygon.make vs) ≡ ok hit)
      answers [] vs h k = elim h [ ]
      answers (u ∷ us) [] h k = elim k [ ]
      answers (u ∷ us) (v ∷ vs) h k =
          let (b1, h1, _) = axis_comm (edges (u ∷ us)) u v us vs in
          let (b2, h2, _) = axis_comm (edges (v ∷ vs)) u v us vs in
          (if b1 then false else not b2, ground (arith, h1, h2))

-- ===== src/Physics/World/Overlaps.antt =====
-- `World::Overlap` of Physics/src/World.cpp, with its arguments exchanged.
use bark_direct_x.Prelude.{
  Bool, List, [], ◌∷◌, map, ◌<◌, ◌≡◌, refl, ap, ◌⊎◌, inl, inr, arith, length, get_elem?-some,
  Bool-cases, ◌==◌,
}
use bark_direct_x.Prelude.Outcome.{ok, throws, noexcept, no_body_found}
use bark_direct_x.Math.{Math}
use bark_direct_x.Math.Laws.{IsSymmetric}
use bark_direct_x.Shape.{Shape, circle_shape, rectangle_shape, polygon_shape}
use bark_direct_x.Shape.Circle
use bark_direct_x.Shape.Rectangle
use bark_direct_x.Shape.Polygon
use bark_direct_x.Shape.Intersect.{
  circle_rectangle, circle_polygon, polygon_rectangle, rectangle_polygon, rect_to_polygon,
}
use bark_direct_x.Shape.Symmetry.{
  circle_circle_comm, rectangle_rectangle_comm, polygon_polygon_comm, polygon_polygon-answers,
}
use bark_direct_x.Physics.Body.{Body}
use bark_direct_x.Physics.Collider.{Collider}
use bark_direct_x.Physics.Refs.{BodyRef}
use bark_direct_x.Physics.World.{World, get_body}
use bark_direct_x.Physics.World.Bodies.{IsSized}
use bark_direct_x.Physics.World.Collisions.{intersect, overlap}

module _ ⦃m : Math⦄ where
  open m use {Vector, xm_add}

  intersect_comm :
      IsSymmetric m
      → (s : Shape) (u : Vector) (t : Shape) (v : Vector) → intersect s u t v ≡ intersect t v s u
  unfolding intersect circle_rectangle circle_polygon rectangle_polygon
  intersect_comm laws (circle_shape a) u (circle_shape b) v =
      ap ok (circle_circle_comm laws (Circle.translate a u) (Circle.translate b v))
  intersect_comm laws (circle_shape a) u (rectangle_shape b) v = refl
  intersect_comm laws (circle_shape a) u (polygon_shape b) v = refl
  intersect_comm laws (rectangle_shape a) u (circle_shape b) v = refl
  intersect_comm laws (rectangle_shape a) u (rectangle_shape b) v =
      ap ok (rectangle_rectangle_comm (Rectangle.translate a u) (Rectangle.translate b v))
  intersect_comm laws (rectangle_shape a) u (polygon_shape b) v = refl
  intersect_comm laws (polygon_shape a) u (circle_shape b) v = refl
  intersect_comm laws (polygon_shape a) u (rectangle_shape b) v = refl
  intersect_comm laws (polygon_shape a) u (polygon_shape b) v =
      polygon_polygon_comm (Polygon.translate a u) (Polygon.translate b v)

  -- A lookup at an index in the vectors finds the body or throws.
  get_body-cases :
      (w : World) (ref : BodyRef)
      → IsSized w
      → ref.index < length w.bodies
      → ((b : Body) × (get_body w ref ≡ ok b)) ⊎ (get_body w ref ≡ throws no_body_found)
  unfolding get_body
  get_body-cases w ref s h =
      let (gen, e) = get_elem?-some w.body_gen_indices ref.index (omega (arith, s)) in
      let (b, e') = get_elem?-some w.bodies ref.index h in
      elim (Bool-cases (gen == ref.gen_index)) [
        | inl t ↦ inl (b, rw (e, t, e') refl)
        | inr f ↦ inr (rw (e, f) refl)
      ]

  -- In a world with one generation index for each body, for colliders whose bodies' indices lie in
  -- the vector, and where addition commutes and lengths do not depend on signs, `Overlap` gives the
  -- same answer in either order, for each of the nine pairs of shapes and also where a reference is
  -- stale.
  pub overlap_comm :
      IsSymmetric m
      → (w : World) (a b : Collider) → IsSized w
      → a.body_ref.index < length w.bodies
      → b.body_ref.index < length w.bodies
      → overlap w a b ≡ overlap w b a
  unfolding overlap
  overlap_comm laws w a b s ha hb = elim (get_body-cases w a.body_ref s ha) [
    | inl (x, ex) ↦ elim (get_body-cases w b.body_ref s hb) [
      | inl (y, ey) ↦
          rw (ex, ey) (ap noexcept (intersect_comm laws a.shape x.position b.shape y.position))
      | inr ey ↦ rw (ex, ey) refl
    ]
    | inr ex ↦ elim (get_body-cases w b.body_ref s hb) [
      | inl (y, ey) ↦ rw (ex, ey) refl
      | inr ey ↦ rw (ex, ey) refl
    ]
  ]

  -- A polygon has a vertex.
  abbrev pub HasVertices : Shape → Type 0
  HasVertices (circle_shape c) = Unit
  HasVertices (rectangle_shape r) = Unit
  HasVertices (polygon_shape p) = 0 < length p.vertices

  translated :
      (p : Polygon.Polygon) (u : Vector)
      → 0 < length p.vertices
      → 0 < length (Polygon.translate p u).vertices
  unfolding Polygon.translate
  translated p u h = moved p.vertices h
    where
      moved : (vs : List Vector) → 0 < length vs → 0 < length (map (λ v. xm_add v u) vs)
      moved [] h = h
      moved (v ∷ vs) h = omega arith

  boxed : (r : Rectangle.Rectangle) → 0 < length (rect_to_polygon r).vertices
  unfolding rect_to_polygon
  boxed r = omega arith

  pub intersect-answers :
      (s : Shape) (u : Vector) (t : Shape) (v : Vector)
      → HasVertices s
      → HasVertices t
      → (hit : Bool) × (intersect s u t v ≡ ok hit)
  unfolding intersect rectangle_polygon polygon_rectangle
  intersect-answers (circle_shape a) u (circle_shape b) v h k = (_, refl)
  intersect-answers (circle_shape a) u (rectangle_shape b) v h k = (_, refl)
  intersect-answers (circle_shape a) u (polygon_shape b) v h k = (_, refl)
  intersect-answers (rectangle_shape a) u (circle_shape b) v h k = (_, refl)
  intersect-answers (rectangle_shape a) u (rectangle_shape b) v h k = (_, refl)
  intersect-answers (rectangle_shape a) u (polygon_shape b) v h k =
      polygon_polygon-answers (Polygon.translate b v) (rect_to_polygon (Rectangle.translate a u))
        (translated b v k) (boxed (Rectangle.translate a u))
  intersect-answers (polygon_shape a) u (circle_shape b) v h k = (_, refl)
  intersect-answers (polygon_shape a) u (rectangle_shape b) v h k =
      polygon_polygon-answers (Polygon.translate a u) (rect_to_polygon (Rectangle.translate b v))
        (translated a u h) (boxed (Rectangle.translate b v))
  intersect-answers (polygon_shape a) u (polygon_shape b) v h k =
      polygon_polygon-answers (Polygon.translate a u) (Polygon.translate b v) (translated a u h)
        (translated b v k)

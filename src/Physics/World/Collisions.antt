-- ===== src/Physics/World/Collisions.antt =====
-- `Overlap` and `UpdateQuadTreeCollisions` of Physics/src/World.cpp. The contact listener is a log of
-- its calls; what a client does in them is in Samples.
use bark_direct_x.Prelude.{
  ℕ, zero, suc, Bool, false, not, ◌&&◌, ◌||◌, Option, none, some, List, [], ◌∷◌, if◌then◌else◌,
}
use mathlib.Core.Option
use bark_direct_x.Prelude.Outcome.{Outcome, ok, undefined, out_of_fuel, ◌>>=◌, noexcept, at}
use bark_direct_x.Math.{Math}
use bark_direct_x.Shape.{Shape, circle_shape, rectangle_shape, polygon_shape}
use bark_direct_x.Shape.Circle
use bark_direct_x.Shape.Rectangle
use bark_direct_x.Shape.Polygon
use bark_direct_x.Shape.Intersect.{
  circle_circle, circle_rectangle, rectangle_circle, rectangle_rectangle, polygon_polygon,
  polygon_circle, circle_polygon, polygon_rectangle, rectangle_polygon,
}
use bark_direct_x.Physics.Refs.{ColliderRef, ColliderRefPair, pair_eq}
use bark_direct_x.Physics.Collider.{Collider}
use bark_direct_x.Physics.QuadTree.{ColliderRefAabb, has_children}
use bark_direct_x.Physics.Contact
use bark_direct_x.Physics.World.{
  World, Event, on_trigger_enter, on_trigger_exit, on_collision_enter, on_collision_exit, get_body,
  get_collider,
}

-- `_colRefPairs.find(pair) != end()`, `emplace` and `erase` of the unordered set.
unfoldable pub contains_pair : ColliderRefPair → List ColliderRefPair → Bool
contains_pair p [] = false
contains_pair p (q ∷ qs) = pair_eq p q || contains_pair p qs

unfoldable pub emplace : ColliderRefPair → List ColliderRefPair → List ColliderRefPair
unfolding contains_pair
emplace p qs = if contains_pair p qs then qs else p ∷ qs

unfoldable pub erase : ColliderRefPair → List ColliderRefPair → List ColliderRefPair
erase p [] = []
erase p (q ∷ qs) = if pair_eq p q then erase p qs else q ∷ erase p qs

abbrev pub pair_of : ColliderRef → ColliderRef → ColliderRefPair
pair_of a b = record { col_ref_a = a; col_ref_b = b }

module _ ⦃m : Math⦄ where
  open m use {Vector}

  -- The nine cases of `Overlap`, on shapes that are moved to their bodies.
  unfoldable pub intersect : Shape → Vector → Shape → Vector → Outcome Bool
  unfolding Circle.translate Rectangle.translate Polygon.translate circle_circle circle_rectangle
      rectangle_circle rectangle_rectangle polygon_polygon polygon_circle circle_polygon
      polygon_rectangle rectangle_polygon
  intersect (circle_shape a) u (circle_shape b) v =
      ok (circle_circle (Circle.translate a u) (Circle.translate b v))
  intersect (circle_shape a) u (rectangle_shape b) v =
      ok (circle_rectangle (Circle.translate a u) (Rectangle.translate b v))
  intersect (circle_shape a) u (polygon_shape b) v =
      ok (circle_polygon (Circle.translate a u) (Polygon.translate b v))
  intersect (rectangle_shape a) u (circle_shape b) v =
      ok (rectangle_circle (Rectangle.translate a u) (Circle.translate b v))
  intersect (rectangle_shape a) u (rectangle_shape b) v =
      ok (rectangle_rectangle (Rectangle.translate a u) (Rectangle.translate b v))
  intersect (rectangle_shape a) u (polygon_shape b) v =
      rectangle_polygon (Rectangle.translate a u) (Polygon.translate b v)
  intersect (polygon_shape a) u (circle_shape b) v =
      ok (polygon_circle (Polygon.translate a u) (Circle.translate b v))
  intersect (polygon_shape a) u (rectangle_shape b) v =
      polygon_rectangle (Polygon.translate a u) (Rectangle.translate b v)
  intersect (polygon_shape a) u (polygon_shape b) v =
      polygon_polygon (Polygon.translate a u) (Polygon.translate b v)

  unfoldable pub overlap : World → Collider → Collider → Outcome Bool
  unfolding get_body intersect
  overlap w col_a col_b = noexcept (do
    body_a ← get_body w col_a.body_ref
    body_b ← get_body w col_b.body_ref
    intersect col_a.shape body_a.position col_b.shape body_b.position)

  -- A call of the listener, if there is one.
  unfoldable pub notify : Event → World → World
  notify event w = record w {
    contact_listener = Option.map (λ log. event ∷ log) w.contact_listener;
  }

  -- The first branch of the loop's body: neither collider is a trigger.
  unfoldable pub collide : World → ColliderRef → ColliderRef → Collider → Collider → Outcome World
  unfolding overlap get_body Contact.resolve notify
  collide w ref1 ref2 col1 col2 = do
    hit ← overlap w col1 col2
    if hit
        then (do
          _ ← get_body w col1.body_ref
          _ ← get_body w col2.body_ref
          (bodies, _) ← Contact.resolve 2 w.bodies (
              Contact.make (record { body = col1.body_ref.index; collider = col1 })
                (record { body = col2.body_ref.index; collider = col2 }))
          ok (notify (on_collision_enter ref1 ref2) (record w { bodies = bodies })))
        else ok (notify (on_collision_exit ref1 ref2) w)

  -- The rest of the body: one of them is a trigger, and there is a listener.
  unfoldable pub watch : World → ColliderRef → ColliderRef → Collider → Collider → Outcome World
  unfolding overlap notify contains_pair emplace erase
  watch w ref1 ref2 col1 col2 = do
    let pair = pair_of ref1 ref2
    hit ← overlap w col1 col2
    if contains_pair pair w.col_ref_pairs
        then if hit
          then ok w
          else ok (record (notify (on_trigger_exit ref1 ref2) w) {
            col_ref_pairs = erase pair w.col_ref_pairs;
          })
        else if hit
        then ok (record (notify (on_trigger_enter ref1 ref2) w) {
          col_ref_pairs = emplace pair w.col_ref_pairs;
        })
        else ok w

  -- The body of the two loops.
  unfoldable pub meet : World → ColliderRef → ColliderRef → Collider → Collider → Outcome World
  unfolding collide watch
  meet w ref1 ref2 col1 col2 =
      if not col2.is_trigger && not col1.is_trigger
      then collide w ref1 ref2 col1 col2
      else elim w.contact_listener [ none ↦ ok w | some log ↦ watch w ref1 ref2 col1 col2 ]

  -- The inner loop: one entry against those after it.
  unfoldable pub meet_all : ColliderRef → Collider → List ColliderRefAabb → World → Outcome World
  unfolding get_collider meet
  meet_all ref1 col1 [] w = ok w
  meet_all ref1 col1 (e ∷ es) w = do
    col2 ← get_collider w e.col_ref
    w' ← meet w ref1 e.col_ref col1 col2
    meet_all ref1 col1 es w'

  -- The outer loop, which stops before the last entry.
  unfoldable pub meet_pairs : List ColliderRefAabb → World → Outcome World
  unfolding get_collider meet_all
  meet_pairs [] w = ok w
  meet_pairs (e ∷ []) w = ok w
  meet_pairs (e ∷ e' ∷ es) w = do
    col1 ← get_collider w e.col_ref
    w' ← meet_all e.col_ref col1 (e' ∷ es) w
    meet_pairs (e' ∷ es) w'

  -- `for (const auto& child : node.Children)`.
  unfoldable pub visit_children :
      (World → ℕ → Outcome World) → List (Option ℕ) → World → Outcome World
  visit_children visit [] w = ok w
  visit_children visit (none ∷ cs) w = undefined
  visit_children visit (some c ∷ cs) w = do w' ← visit w c; visit_children visit cs w'

  -- `UpdateQuadTreeCollisions`, with fuel for its recursion. No call changes the tree.
  unfoldable pub update_quad_tree_collisions : ℕ → World → ℕ → Outcome World
  unfolding meet_pairs visit_children
  update_quad_tree_collisions zero w i = out_of_fuel
  update_quad_tree_collisions (suc fuel) w i = do
    node ← at w.quad_tree.nodes i
    noexcept (
        if has_children node.children
        then visit_children (update_quad_tree_collisions fuel) node.children w
        else meet_pairs node.collider_ref_aabbs w)

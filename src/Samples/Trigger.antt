-- ===== src/Samples/Trigger.antt =====
-- samples/include/TriggerSample.h and samples/src/TriggerSample.cpp.
pub mod Creation
pub mod Life
use bark_direct_x.Prelude.{
  ℕ, ◌+◌, ◌*◌, true, false, some, List, [], ◌∷◌, ◌++◌, length, resize, if◌then◌else◌,
}
use bark_direct_x.Prelude.Integers.{ℤ, pos}
use bark_direct_x.Prelude.Outcome.{Outcome, ok, ◌>>=◌, at, modify}
use bark_direct_x.Math.{Math}
use bark_direct_x.Common.Random.{Draws}
use bark_direct_x.Shape.{Shape, circle_shape, rectangle_shape, polygon_shape}
use bark_direct_x.Shape.Circle
use bark_direct_x.Shape.Rectangle
use bark_direct_x.Shape.Polygon
use bark_direct_x.Physics.Refs.{ColliderRef}
use bark_direct_x.Physics.Body.{Body}
use bark_direct_x.Physics.Collider.{Collider}
use bark_direct_x.Physics.World.{World, Event, get_body, get_collider, set_contact_listener}
use bark_direct_x.Samples.{Sample, Hooks, GraphicsData, default_data}
use bark_direct_x.Samples.Metrics.{meters_to_pixels}
use bark_direct_x.Samples.Objects.{
  for_loop, add_unnamed, thrown, count_call, trigger_color, translate_shape, bounce_object, trim,
  draw_quadtree, draw_fuel,
}

-- `CIRCLE_NBR`, `RECTANGLE_NBR` and `TRIANGLE_NBR`.
abbrev pub circle_nbr : ℕ
circle_nbr = 100

abbrev pub rectangle_nbr : ℕ
rectangle_nbr = 100

abbrev pub triangle_nbr : ℕ
triangle_nbr = 100

module _ ⦃m : Math⦄ where
  open m use {Float, literal, zero_f, neg, xm_zero, xm_braces}

  pub record Trigger : Type 0 where
    pub quad_tree_graphics_data : List GraphicsData
    pub trigger_nbr_per_collider : List ℤ
    pub nb_objects : ℕ

  abbrev pub with_counters : Sample Trigger → List ℤ → Sample Trigger
  with_counters s counters = record s { own = record s.own { trigger_nbr_per_collider = counters } }

  -- The four handlers of the contact listener.
  unfoldable pub receive : Draws → ℕ → Event → Sample Trigger → Outcome (Sample Trigger)
  unfolding count_call
  receive draws k event s = do
    counters ← count_call event s.own.trigger_nbr_per_collider
    ok (with_counters s counters)

  abbrev pub circle_radius : Float
  circle_radius = meters_to_pixels (literal 2 1)

  abbrev pub rectangle_side : Float
  rectangle_side = meters_to_pixels (literal 4 1)

  -- `SPEED`.
  abbrev pub speed : Float
  speed = literal 100 0

  abbrev pub the_circle : Shape
  the_circle = circle_shape (Circle.make xm_zero circle_radius)

  abbrev pub the_rectangle : Shape
  the_rectangle = rectangle_shape (Rectangle.make xm_zero (xm_braces rectangle_side rectangle_side))

  -- `PolygonF(TRIANGLE_VERTICES)`.
  abbrev pub the_triangle : Shape
  the_triangle =
      let arm = meters_to_pixels (literal 2 1) in
      let back = meters_to_pixels (neg (literal 2 1)) in
      polygon_shape (
        Polygon.make
          (xm_braces (meters_to_pixels zero_f) back ∷ xm_braces arm arm ∷ xm_braces back arm ∷ []))

  abbrev pub object_collider : Shape → Body → Collider → Collider
  object_collider shape body col = record col {
    shape = shape;
    body_position = body.position;
    is_trigger = true;
  }

  -- The body of each of the three loops, with four draws for each object.
  unfoldable pub create_object : Draws → ℕ → Shape → ℕ → Sample Trigger → Outcome (Sample Trigger)
  unfolding add_unnamed thrown translate_shape default_data
  create_object draws first shape i =
      add_unnamed (thrown draws ((first + i) * 4) speed) (object_collider shape)
        (λ body. record default_data { shape = translate_shape shape body.position })

  -- The sample before its objects are created.
  unfoldable pub listening : Sample Trigger → Sample Trigger
  unfolding set_contact_listener resize
  listening s =
      let nb_objects = circle_nbr + rectangle_nbr + triangle_nbr in
      record s {
        world = set_contact_listener s.world (some []);
        own = record s.own {
          nb_objects = nb_objects;
          trigger_nbr_per_collider = resize s.own.trigger_nbr_per_collider nb_objects (pos 0);
        };
      }

  unfoldable pub sample_set_up : Draws → Sample Trigger → Outcome (Sample Trigger)
  unfolding listening for_loop create_object Circle.make
  sample_set_up draws s = do
    s1 ← for_loop (create_object draws 0 the_circle) 0 circle_nbr (listening s)
    s2 ← for_loop (create_object draws circle_nbr the_rectangle) 0 rectangle_nbr s1
    for_loop (create_object draws (circle_nbr + rectangle_nbr) the_triangle) 0 triangle_nbr s2

  -- The body of the loop in `SampleUpdate`.
  unfoldable pub update_object : ℕ → Sample Trigger → Outcome (Sample Trigger)
  unfolding bounce_object get_collider get_body translate_shape trigger_color
  update_object i s = do
    ref ← at s.col_refs i
    w ← bounce_object s.world ref
    col ← get_collider w ref
    body ← get_body w col.body_ref
    let shape = translate_shape col.shape body.position
    shown ← modify s.all_graphics_data i (λ (gd : GraphicsData). record gd { shape = shape })
    n ← at s.own.trigger_nbr_per_collider i
    painted ← modify shown i (λ (gd : GraphicsData). record gd { color = trigger_color n })
    ok (record s { world = w; all_graphics_data = painted })

  -- The end of `SampleUpdate`: the outlines of the quadtree.
  unfoldable pub show_quadtree : Sample Trigger → Outcome (Sample Trigger)
  unfolding draw_quadtree
  show_quadtree s = do
    drawn ← draw_quadtree draw_fuel s.world.quad_tree 0 []
    ok (record s {
      all_graphics_data = s.all_graphics_data ++ drawn;
      own = record s.own { quad_tree_graphics_data = drawn };
    })

  unfoldable pub sample_update : Draws → Sample Trigger → Outcome (Sample Trigger)
  unfolding trim for_loop update_object show_quadtree
  sample_update draws s = do
    let trimmed : Sample Trigger = record s {
      all_graphics_data = trim s.own.nb_objects s.all_graphics_data;
    }
    s' ← for_loop update_object 0 (length s.col_refs) trimmed
    show_quadtree s'

  unfoldable pub sample_tear_down : Sample Trigger → Sample Trigger
  sample_tear_down s = record s {
    own = record s.own { trigger_nbr_per_collider = []; quad_tree_graphics_data = [] };
  }

  unfoldable pub hooks : Hooks Trigger
  unfolding sample_set_up sample_update sample_tear_down receive
  hooks = record {
    sample_set_up = sample_set_up;
    sample_update = sample_update;
    sample_tear_down = sample_tear_down;
    receive = receive;
  }

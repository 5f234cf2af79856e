-- ===== src/Samples/FormsTrigger.antt =====
-- samples/include/FormsTriggerSample.h and samples/src/FormsTriggerSample.cpp.
pub mod Creation
pub mod Life
use bark_direct_x.Prelude.{ℕ, true, false, some, List, [], ◌∷◌, length, resize, if◌then◌else◌}
use bark_direct_x.Prelude.Integers.{ℤ, pos}
use bark_direct_x.Prelude.Outcome.{Outcome, ok, undefined, ◌>>=◌, at, modify}
use bark_direct_x.Math.{Math}
use bark_direct_x.Common.Random.{Draws}
use bark_direct_x.Shape.{Shape, circle_shape, rectangle_shape, polygon_shape}
use bark_direct_x.Shape.Circle
use bark_direct_x.Shape.Rectangle
use bark_direct_x.Shape.Polygon
use bark_direct_x.Physics.Refs.{BodyRef, ColliderRef}
use bark_direct_x.Physics.Body.{Body}
use bark_direct_x.Physics.Collider.{Collider}
use bark_direct_x.Physics.World.{
  World, Event, modify_body, get_body, get_collider, set_contact_listener,
}
use bark_direct_x.Samples.{Sample, Hooks, GraphicsData, default_data}
use bark_direct_x.Samples.Metrics.{width, height, meters_to_pixels}
use bark_direct_x.Samples.Objects.{
  for_loop, add_object, add_unnamed, count_call, trigger_color, translate_shape,
}

module _ ⦃m : Math⦄ where
  open m use {Float, Vector, literal, zero_f, one_f, neg, sub, div, xm_zero, xm_set, xm_braces}

  pub record FormsTrigger : Type 0 where
    pub trigger_nbr_per_collider : List ℤ
    pub movable_triangle_ref : BodyRef

  abbrev pub with_counters : Sample FormsTrigger → List ℤ → Sample FormsTrigger
  with_counters s counters = record s { own = record s.own { trigger_nbr_per_collider = counters } }

  -- The four handlers of the contact listener.
  unfoldable pub receive : Draws → ℕ → Event → Sample FormsTrigger → Outcome (Sample FormsTrigger)
  unfolding count_call
  receive draws k event s = do
    counters ← count_call event s.own.trigger_nbr_per_collider
    ok (with_counters s counters)

  abbrev two_meters : Float
  two_meters = meters_to_pixels (literal 2 0)

  abbrev pub triangle_body : Body → Body
  triangle_body body = record body {
    position = xm_braces (sub (literal width 0) two_meters) (sub (literal height 0) two_meters);
    mass = literal 4 0;
  }

  abbrev pub triangle_shape : Shape
  triangle_shape =
      let meter = meters_to_pixels (literal 1 0) in
      polygon_shape (
        Polygon.make (
          xm_braces zero_f zero_f
          ∷ xm_braces (neg two_meters) (neg meter)
          ∷ xm_braces (neg meter) (neg two_meters)
          ∷ []))

  abbrev pub movable_triangle_body : Body → Body
  movable_triangle_body body = record body {
    position =
        xm_braces (div (literal width 0) (literal 2 0)) (div (literal height 0) (literal 2 0));
    mass = one_f;
  }

  abbrev pub movable_triangle_shape : Shape
  movable_triangle_shape =
      let half = meters_to_pixels (literal 5 1) in
      polygon_shape (
        Polygon.make
          (xm_braces zero_f half ∷ xm_braces (neg half) half ∷ xm_braces half (neg half) ∷ []))

  abbrev pub circle_body : Body → Body
  circle_body body = record body {
    position = xm_braces (meters_to_pixels (literal 7 0)) two_meters;
  }

  abbrev pub the_circle : Shape
  the_circle = circle_shape (Circle.make xm_zero (meters_to_pixels (literal 3 1)))

  abbrev pub rect_body : Body → Body
  rect_body body = record body { position = xm_set two_meters two_meters zero_f zero_f }

  abbrev pub the_rect : Shape
  the_rect = rectangle_shape (Rectangle.make xm_zero (xm_set two_meters two_meters zero_f zero_f))

  -- The collider of each of the four, and its drawing.
  abbrev pub form_collider : Shape → Body → Collider → Collider
  form_collider shape body col = record col { shape = shape; is_trigger = true }

  abbrev pub form_data : Shape → Body → GraphicsData
  form_data shape body = record default_data { shape = translate_shape shape body.position }

  -- The sample before its objects are created.
  unfoldable pub listening : Sample FormsTrigger → Sample FormsTrigger
  unfolding set_contact_listener resize
  listening s = record s {
    world = set_contact_listener s.world (some []);
    own = record s.own {
      trigger_nbr_per_collider = resize s.own.trigger_nbr_per_collider 4 (pos 0);
    };
  }

  unfoldable pub create_triangles : Sample FormsTrigger → Outcome (Sample FormsTrigger)
  unfolding add_object add_unnamed default_data translate_shape
  create_triangles s = do
    s1 ← add_unnamed triangle_body (form_collider triangle_shape) (form_data triangle_shape) s
    (s2, movable) ←
        add_object movable_triangle_body (form_collider movable_triangle_shape)
          (form_data movable_triangle_shape) s1
    ok (record s2 { own = record s2.own { movable_triangle_ref = movable } })

  unfoldable pub create_others : Sample FormsTrigger → Outcome (Sample FormsTrigger)
  unfolding add_unnamed default_data translate_shape Circle.make
  create_others s = do
    s' ← add_unnamed circle_body (form_collider the_circle) (form_data the_circle) s
    add_unnamed rect_body (form_collider the_rect) (form_data the_rect) s'

  unfoldable pub sample_set_up : Draws → Sample FormsTrigger → Outcome (Sample FormsTrigger)
  unfolding listening create_triangles create_others
  sample_set_up draws s = do s' ← create_triangles (listening s); create_others s'

  -- `std::get<PolygonF>(shape)`; another shape throws `std::bad_variant_access`, which leaves a
  -- `noexcept` function.
  unfoldable pub polygon_of : Shape → Outcome Polygon.Polygon
  polygon_of (polygon_shape p) = ok p
  polygon_of _ = Outcome.terminates

  -- The body of the loop in `SampleUpdate`.
  unfoldable pub paint : ℕ → Sample FormsTrigger → Outcome (Sample FormsTrigger)
  unfolding trigger_color
  paint i s = do
    n ← at s.own.trigger_nbr_per_collider i
    graphics ←
        modify s.all_graphics_data i (λ (gd : GraphicsData). record gd { color = trigger_color n })
    ok (record s { all_graphics_data = graphics })

  unfoldable pub sample_update : Draws → Sample FormsTrigger → Outcome (Sample FormsTrigger)
  unfolding modify_body get_body get_collider polygon_of Polygon.translate for_loop paint
  sample_update draws s = do
    let movable = s.own.movable_triangle_ref
    w ← modify_body s.world movable (λ body. record body { position = s.mouse_pos })
    ref ← at s.col_refs 1
    col ← get_collider w ref
    polygon ← polygon_of col.shape
    body ← get_body w movable
    let shape = polygon_shape (Polygon.translate polygon body.position)
    graphics ← modify s.all_graphics_data 1 (λ (gd : GraphicsData). record gd { shape = shape })
    let moved : Sample FormsTrigger = record s { world = w; all_graphics_data = graphics }
    for_loop paint 0 (length s.col_refs) moved

  unfoldable pub sample_tear_down : Sample FormsTrigger → Sample FormsTrigger
  sample_tear_down s = with_counters s []

  unfoldable pub hooks : Hooks FormsTrigger
  unfolding sample_set_up sample_update sample_tear_down receive
  hooks = record {
    sample_set_up = sample_set_up;
    sample_update = sample_update;
    sample_tear_down = sample_tear_down;
    receive = receive;
  }

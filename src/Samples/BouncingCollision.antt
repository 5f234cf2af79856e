-- ===== src/Samples/BouncingCollision.antt =====
-- samples/include/BouncingCollisionSample.h and samples/src/BouncingCollisionSample.cpp.
pub mod Creation
pub mod Life
use bark_direct_x.Prelude.{
  ℕ, ◌+◌, ◌*◌, true, false, some, List, [], ◌∷◌, ◌++◌, length, resize, if◌then◌else◌,
}
use bark_direct_x.Prelude.Integers.{ℤ, pos}
use bark_direct_x.Prelude.Outcome.{Outcome, ok, ◌>>=◌, at, modify}
use bark_direct_x.Math.{Math}
use bark_direct_x.Common.Random.{Draws}
use bark_direct_x.Shape.{Shape, circle_shape, rectangle_shape}
use bark_direct_x.Shape.Circle
use bark_direct_x.Shape.Rectangle
use bark_direct_x.Physics.Body.{Body}
use bark_direct_x.Physics.Collider.{Collider}
use bark_direct_x.Physics.World.{
  World, Event, on_trigger_enter, on_trigger_exit, on_collision_enter, on_collision_exit,
  get_collider, set_contact_listener,
}
use bark_direct_x.Samples.{Sample, Hooks, GraphicsData, default_data, Color}
use bark_direct_x.Samples.Metrics.{meters_to_pixels}
use bark_direct_x.Samples.Objects.{
  for_loop, add_unnamed, thrown, random_color, translate_shape, redraw, bounce_object, trim,
  draw_quadtree, draw_fuel,
}

-- `CIRCLE_NBR` and `RECTANGLE_NBR`.
abbrev pub circle_nbr : ℕ
circle_nbr = 20

abbrev pub rectangle_nbr : ℕ
rectangle_nbr = 20

module _ ⦃m : Math⦄ where
  open m use {Float, literal, one_f, xm_zero, xm_braces}

  pub record BouncingCollision : Type 0 where
    pub quad_tree_graphics_data : List GraphicsData
    pub collision_nbr_per_collider : List ℤ
    pub nb_objects : ℕ

  abbrev pub paint : Color → GraphicsData → GraphicsData
  paint color gd = record gd { color = color }

  -- The four handlers of the contact listener, with three draws for each call.
  unfoldable pub receive :
      Draws → ℕ → Event → Sample BouncingCollision → Outcome (Sample BouncingCollision)
  unfolding random_color
  receive draws k (on_collision_enter col1 col2) s = do
    let color = random_color draws (k * 3)
    graphics ← modify s.all_graphics_data col1.index (paint color)
    graphics' ← modify graphics col2.index (paint color)
    ok (record s { all_graphics_data = graphics' })
  receive draws k (on_collision_exit col1 col2) s = ok s
  receive draws k (on_trigger_enter col1 col2) s = ok s
  receive draws k (on_trigger_exit col1 col2) s = ok s

  abbrev pub circle_radius : Float
  circle_radius = meters_to_pixels (literal 3 1)

  abbrev pub rectangle_side : Float
  rectangle_side = meters_to_pixels (literal 6 1)

  -- `SPEED`.
  abbrev pub speed : Float
  speed = literal 200 0

  abbrev pub the_circle : Shape
  the_circle = circle_shape (Circle.make xm_zero circle_radius)

  abbrev pub the_rectangle : Shape
  the_rectangle = rectangle_shape (Rectangle.make xm_zero (xm_braces rectangle_side rectangle_side))

  abbrev pub object_collider : Shape → Body → Collider → Collider
  object_collider shape body col = record col { shape = shape; body_position = body.position }

  abbrev pub object_data : Shape → Body → GraphicsData
  object_data shape body = record default_data { shape = translate_shape shape body.position }

  -- The bodies of the two loops, with four draws for each object.
  unfoldable pub create_circle :
      Draws → ℕ → Sample BouncingCollision → Outcome (Sample BouncingCollision)
  unfolding add_unnamed thrown translate_shape default_data Circle.make
  create_circle draws i =
      add_unnamed (λ body. thrown draws (i * 4) speed (record body { mass = one_f }))
        (object_collider the_circle) (object_data the_circle)

  unfoldable pub create_rectangle :
      Draws → ℕ → Sample BouncingCollision → Outcome (Sample BouncingCollision)
  unfolding add_unnamed thrown translate_shape default_data
  create_rectangle draws i =
      add_unnamed (thrown draws ((circle_nbr + i) * 4) speed) (object_collider the_rectangle)
        (object_data the_rectangle)

  -- The sample before its objects are created.
  unfoldable pub listening : Sample BouncingCollision → Sample BouncingCollision
  unfolding set_contact_listener resize
  listening s =
      let nb_objects = circle_nbr + rectangle_nbr in
      record s {
        world = set_contact_listener s.world (some []);
        own = record s.own {
          nb_objects = nb_objects;
          collision_nbr_per_collider = resize s.own.collision_nbr_per_collider nb_objects (pos 0);
        };
      }

  unfoldable pub sample_set_up :
      Draws → Sample BouncingCollision → Outcome (Sample BouncingCollision)
  unfolding listening for_loop create_circle create_rectangle
  sample_set_up draws s = do
    s1 ← for_loop (create_circle draws) 0 circle_nbr (listening s)
    for_loop (create_rectangle draws) 0 rectangle_nbr s1

  -- The body of the loop in `SampleUpdate`.
  unfoldable pub update_object : ℕ → Sample BouncingCollision → Outcome (Sample BouncingCollision)
  unfolding bounce_object get_collider redraw
  update_object i s = do
    ref ← at s.col_refs i
    w ← bounce_object s.world ref
    col ← get_collider w ref
    graphics ← redraw col.shape col.body_position i s.all_graphics_data
    ok (record s { world = w; all_graphics_data = graphics })

  -- The end of `SampleUpdate`.
  unfoldable pub show_quadtree : Sample BouncingCollision → Outcome (Sample BouncingCollision)
  unfolding draw_quadtree
  show_quadtree s = do
    drawn ← draw_quadtree draw_fuel s.world.quad_tree 0 []
    ok (record s {
      all_graphics_data = s.all_graphics_data ++ drawn;
      own = record s.own { quad_tree_graphics_data = drawn };
    })

  unfoldable pub sample_update :
      Draws → Sample BouncingCollision → Outcome (Sample BouncingCollision)
  unfolding trim for_loop update_object show_quadtree
  sample_update draws s = do
    let trimmed : Sample BouncingCollision = record s {
      all_graphics_data = trim s.own.nb_objects s.all_graphics_data;
    }
    s' ← for_loop update_object 0 (length s.col_refs) trimmed
    show_quadtree s'

  unfoldable pub sample_tear_down : Sample BouncingCollision → Sample BouncingCollision
  sample_tear_down s = record s {
    own = record s.own { collision_nbr_per_collider = []; quad_tree_graphics_data = [] };
  }

  unfoldable pub hooks : Hooks BouncingCollision
  unfolding sample_set_up sample_update sample_tear_down receive
  hooks = record {
    sample_set_up = sample_set_up;
    sample_update = sample_update;
    sample_tear_down = sample_tear_down;
    receive = receive;
  }

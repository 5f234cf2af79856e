-- ===== src/Samples/GroundCollision.antt =====
-- samples/include/GroundCollisionSample.h and samples/src/GroundCollisionSample.cpp, without
-- `SDL_ENABLE`, which the build does not define.
pub mod Life
use bark_direct_x.Prelude.{
  ℕ, ◌+◌, ◌==◌, Bool, true, false, some, List, [], ◌∷◌, ◌++◌, length, if◌then◌else◌,
}
use bark_direct_x.Prelude.Outcome.{Outcome, ok, ◌>>=◌, at, modify}
use bark_direct_x.Math.{Math}
use bark_direct_x.Common.Random.{Draws, range}
use bark_direct_x.Shape.{Shape, circle_shape, rectangle_shape, polygon_shape}
use bark_direct_x.Shape.Circle
use bark_direct_x.Shape.Rectangle
use bark_direct_x.Physics.Body.{Body, static, dynamic, apply_force}
use bark_direct_x.Physics.Collider.{Collider}
use bark_direct_x.Physics.World.{World, modify_body, get_collider, set_contact_listener}
use bark_direct_x.Samples.{Sample, Hooks, GraphicsData, default_data}
use bark_direct_x.Samples.Metrics.{width, height, meters_to_pixels}
use bark_direct_x.Samples.Objects.{for_loop, add_unnamed, random_color, redraw}

module _ ⦃m : Math⦄ where
  open m use {Float, Vector, literal, zero_f, one_f, neg, sub, mul, div, xm_zero, xm_braces}

  -- `SPEED`.
  abbrev pub speed : Float
  speed = literal 500 0

  abbrev pub ground_body : Body → Body
  ground_body body = record body {
    type = static;
    mass = one_f;
    position =
        xm_braces (div (literal width 0) (literal 2 0))
          (sub (literal height 0) (div (literal height 0) (literal 5 0)));
  }

  abbrev pub ground_collider : Body → Collider → Collider
  ground_collider body col = record col {
    shape = rectangle_shape (
        Rectangle.make (xm_braces (div (neg (literal width 0)) (literal 3 0)) zero_f)
          (xm_braces (div (literal width 0) (literal 3 0)) (meters_to_pixels (literal 2 1))));
    body_position = body.position;
    restitution = one_f;
  }

  unfoldable pub sample_set_up : Draws → Sample Unit → Outcome (Sample Unit)
  unfolding set_contact_listener add_unnamed default_data
  sample_set_up draws s =
      let listening : Sample Unit = record s { world = set_contact_listener s.world (some []) } in
      add_unnamed ground_body ground_collider (λ _. default_data) listening

  abbrev pub ball_collider : Draws → Body → Collider → Collider
  ball_collider draws body col = record col {
    shape = circle_shape (Circle.make xm_zero (range draws 0 (literal 10 0) (literal 40 0)));
    body_position = body.position;
    restitution = zero_f;
  }

  -- `CreateBall`, at `_mousePos`.
  unfoldable pub create_ball : Draws → Vector → Sample Unit → Outcome (Sample Unit)
  unfolding add_unnamed range Circle.make default_data random_color
  create_ball draws position =
      add_unnamed (λ body. record body { mass = one_f; position = position }) (ball_collider draws)
        (λ _. record default_data { color = random_color draws 1 })

  abbrev pub rect_collider : Draws → Body → Collider → Collider
  rect_collider draws body col =
      let side = λ (k : ℕ). range draws k one_f (literal 4 0) in
      let ten = literal 10 0 in
      record col {
        shape = rectangle_shape (
            Rectangle.make (xm_braces (mul (neg (side 0)) ten) (mul (neg (side 1)) ten))
              (xm_braces (mul (side 2) ten) (mul (side 3) ten)));
        body_position = body.position;
        restitution = zero_f;
      }

  -- `CreateRect`.
  unfoldable pub create_rect : Draws → Vector → Sample Unit → Outcome (Sample Unit)
  unfolding add_unnamed range default_data random_color
  create_rect draws position =
      add_unnamed (λ body. record body { type = dynamic; position = position })
        (rect_collider draws) (λ _. record default_data { color = random_color draws 4 })

  unfoldable pub click : Draws → Sample Unit → Outcome (Sample Unit)
  unfolding create_ball create_rect
  click draws s =
      if s.mouse_left_released
      then create_ball draws s.mouse_pos s
      else if s.mouse_right_released
      then create_rect draws s.mouse_pos s
      else ok s

  -- Whether object `i` falls: the first rectangle is the ground.
  abbrev pub falls : ℕ → Shape → Bool
  falls i (circle_shape c) = true
  falls i (rectangle_shape r) = if i == 0 then false else true
  falls i (polygon_shape p) = false

  -- The body of the loop in `SampleUpdate`.
  unfoldable pub pull : ℕ → Sample Unit → Outcome (Sample Unit)
  unfolding get_collider modify_body apply_force redraw
  pull i s = do
    ref ← at s.col_refs i
    col ← get_collider s.world ref
    w ←
        if falls i col.shape
        then modify_body s.world col.body_ref (λ body. apply_force body (xm_braces zero_f speed))
        else ok s.world
    graphics ← redraw col.shape col.body_position i s.all_graphics_data
    ok (record s { world = w; all_graphics_data = graphics })

  unfoldable pub sample_update : Draws → Sample Unit → Outcome (Sample Unit)
  unfolding click for_loop pull
  sample_update draws s = do s' ← click draws s; for_loop pull 0 (length s'.col_refs) s'

  unfoldable pub hooks : Hooks Unit
  unfolding sample_set_up sample_update
  hooks = record {
    sample_set_up = sample_set_up;
    sample_update = sample_update;
    sample_tear_down = λ s. s;
    receive = λ draws k event s. ok s;
  }

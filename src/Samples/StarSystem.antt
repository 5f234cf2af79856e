-- ===== src/Samples/StarSystem.antt =====
-- samples/include/StarSystemSample.h and samples/src/StarSystemSample.cpp.
pub mod Creation
pub mod Life
use bark_direct_x.Prelude.{ℕ, ◌+◌, ◌*◌, true, false, List, [], ◌∷◌, ◌++◌, length, if◌then◌else◌}
use bark_direct_x.Prelude.Integers.{pos}
use bark_direct_x.Prelude.Outcome.{Outcome, ok, ◌>>=◌, at, modify}
use bark_direct_x.Math.{Math}
use bark_direct_x.Common.Random.{Draws, range}
use bark_direct_x.Shape.{circle_shape}
use bark_direct_x.Shape.Circle.{Circle}
use bark_direct_x.Shape.Circle
use bark_direct_x.Physics.Refs.{BodyRef, body_ref_eq}
use bark_direct_x.Physics.Body.{Body, apply_force}
use bark_direct_x.Physics.World.{World, create_body, get_body, modify_body}
use bark_direct_x.Samples.{Sample, Hooks, GraphicsData, default_data, rgb}
use bark_direct_x.Samples.Metrics.{width, height, meters_to_pixels}
use bark_direct_x.Samples.Objects.{for_loop, random_color}

abbrev pub planet_nbr : ℕ
planet_nbr = 1000

module _ ⦃m : Math⦄ where
  open m use {
    Float, Vector, literal, mul, div, sub, neg, sqrt, zero_f, get_x, get_y, xm_zero, xm_set,
    xm_braces, xm_subtract, xm_scale, length3, normalize3,
  }

  pub record StarSystem : Type 0 where
    pub circles : List Circle
    pub sun_ref : BodyRef

  -- `G`.
  abbrev pub gravity : Float
  gravity = literal 667 2

  abbrev pub sun_body : Body → Body
  sun_body sun = record sun {
    position =
        xm_braces (div (literal width 0) (literal 2 0)) (div (literal height 0) (literal 2 0));
    mass = literal 1000000 0;
  }

  -- What both the sun and a planet add to the vectors of the sample.
  unfoldable pub enlist :
      BodyRef → Circle → GraphicsData → World → Sample StarSystem → Sample StarSystem
  enlist ref circle gd w s = record s {
    world = w;
    body_refs = s.body_refs ++ ref ∷ [];
    all_graphics_data = s.all_graphics_data ++ gd ∷ [];
    own = record s.own { circles = s.own.circles ++ circle ∷ [] };
  }

  abbrev pub sun_circle : Circle
  sun_circle = Circle.make xm_zero (meters_to_pixels (literal 3 2))

  abbrev pub sun_data : GraphicsData
  sun_data = record default_data { color = rgb (pos 255) (pos 255) (pos 0) }

  unfoldable pub create_sun : Sample StarSystem → Outcome (Sample StarSystem)
  unfolding create_body modify_body enlist Circle.make default_data
  create_sun s = do
    (w1, ref) ← create_body s.world
    w2 ← modify_body w1 ref sun_body
    let named : Sample StarSystem = record s { own = record s.own { sun_ref = ref } }
    ok (enlist ref sun_circle sun_data w2 named)

  -- The speed of a planet at the given place from the sun, and the planet.
  unfoldable pub launch : Body → Body → Body
  launch sun body =
      let r = xm_subtract sun.position body.position in
      let v = sqrt (mul gravity (div sun.mass (get_x (length3 r)))) in
      record body {
        velocity = xm_scale (normalize3 (xm_set (neg (get_y r)) (get_x r) zero_f zero_f)) v;
        mass = literal 10 0;
      }

  abbrev pub planet_place : Draws → ℕ → Body → Body
  planet_place draws k body =
      let margin = literal 100 0 in
      record body {
        position =
            xm_braces (range draws k margin (sub (literal width 0) margin))
              (range draws (k + 1) margin (sub (literal height 0) margin));
      }

  abbrev pub planet_circle : Draws → ℕ → Circle
  planet_circle draws k =
      Circle.make xm_zero
        (range draws k (meters_to_pixels (literal 5 2)) (meters_to_pixels (literal 15 2)))

  abbrev pub planet_data : Draws → ℕ → GraphicsData
  planet_data draws k = record default_data { color = random_color draws k }

  -- The body of the loop, with six draws for each planet.
  unfoldable pub create_planet : Draws → ℕ → Sample StarSystem → Outcome (Sample StarSystem)
  unfolding create_body modify_body get_body launch enlist Circle.make default_data random_color
      range
  create_planet draws i s = do
    let k = i * 6
    (w1, ref) ← create_body s.world
    w2 ← modify_body w1 ref (planet_place draws k)
    sun ← get_body w2 s.own.sun_ref
    w3 ← modify_body w2 ref (launch sun)
    ok (enlist ref (planet_circle draws (k + 2)) (planet_data draws (k + 3)) w3 s)

  unfoldable pub sample_set_up : Draws → Sample StarSystem → Outcome (Sample StarSystem)
  unfolding create_sun for_loop create_planet
  sample_set_up draws s = do s' ← create_sun s; for_loop (create_planet draws) 0 planet_nbr s'

  unfoldable pub calculate_gravitational_force : Body → Body → Body
  unfolding apply_force
  calculate_gravitational_force sun body =
      let m1m2 = mul sun.mass body.mass in
      let r = get_x (length3 (xm_subtract sun.position body.position)) in
      let r2 = mul r r in
      let force = mul gravity (div m1m2 r2) in
      let direction = normalize3 (xm_subtract sun.position body.position) in
      apply_force body (xm_scale direction force)

  -- The body of the loop in `SampleUpdate`. The sun is not changed.
  unfoldable pub attract : ℕ → Sample StarSystem → Outcome (Sample StarSystem)
  unfolding get_body modify_body Circle.translate body_ref_eq calculate_gravitational_force
  attract i s = do
    sun ← get_body s.world s.own.sun_ref
    ref ← at s.body_refs i
    body ← get_body s.world ref
    circle ← at s.own.circles i
    let shape = circle_shape (Circle.translate circle body.position)
    graphics ← modify s.all_graphics_data i (λ gd. record gd { shape = shape })
    w ←
        if body_ref_eq ref s.own.sun_ref
        then ok s.world
        else modify_body s.world ref (calculate_gravitational_force sun)
    ok (record s { world = w; all_graphics_data = graphics })

  unfoldable pub sample_update : Draws → Sample StarSystem → Outcome (Sample StarSystem)
  unfolding get_body for_loop attract
  sample_update draws s = do
    _ ← get_body s.world s.own.sun_ref
    for_loop attract 0 (length s.body_refs) s

  unfoldable pub sample_tear_down : Sample StarSystem → Sample StarSystem
  sample_tear_down s = record s { own = record s.own { circles = [] } }

  unfoldable pub hooks : Hooks StarSystem
  unfolding sample_set_up sample_update sample_tear_down
  hooks = record {
    sample_set_up = sample_set_up;
    sample_update = sample_update;
    sample_tear_down = sample_tear_down;
    receive = λ draws k event s. ok s;
  }

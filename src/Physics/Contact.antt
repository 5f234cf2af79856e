-- ===== src/Physics/Contact.antt =====
-- `Contact` of Physics/include/Contact.h and Physics/src/Contact.cpp. The two bodies are pointers
-- into the world's vector, here indices, so that a body which meets itself is aliased as in the
-- source. The colliders are only read.
pub mod Frame
pub mod Resolve
use bark_direct_x.Prelude.{ℕ, zero, suc, Bool, true, false, List, if◌then◌else◌}
use bark_direct_x.Prelude.Outcome.{Outcome, ok, out_of_fuel, ◌>>=◌, at, modify}
use bark_direct_x.Math.{Math}
use bark_direct_x.Common.Utility.{clamp}
use bark_direct_x.Shape.{Shape, circle_shape, rectangle_shape}
use bark_direct_x.Shape.Circle.{Circle}
use bark_direct_x.Shape.Rectangle.{Rectangle}
use bark_direct_x.Shape.Rectangle
use bark_direct_x.Physics.Body.{Body, is_dynamic, is_static}
use bark_direct_x.Physics.Collider.{Collider}

module _ ⦃m : Math⦄ where
  open m use {
    Float, Vector, zero_f, one_f, add, sub, mul, div, neg, lt, le, xm_zero, xm_set, identity_r1,
    get_x, get_y, xm_add, xm_subtract, xm_scale, xm_abs, length3, normalize3, dot3, store_float,
  }

  pub record CollidingBody : Type 0 where
    pub body : ℕ
    pub collider : Collider

  pub record Contact : Type 0 where
    pub body0 : CollidingBody
    pub body1 : CollidingBody
    pub normal : Vector
    pub restitution : Float
    pub penetration : Float

  -- `Contact contact;` with its two colliding bodies set.
  abbrev pub make : CollidingBody → CollidingBody → Contact
  make first second = record {
    body0 = first;
    body1 = second;
    normal = xm_zero;
    restitution = one_f;
    penetration = zero_f;
  }

  -- `std::swap(CollidingBodies[0], CollidingBodies[1])`.
  abbrev pub swap : Contact → Contact
  swap c = record c { body0 = c.body1; body1 = c.body0 }

  unfoldable pub calculate_separate_velocity : Contact → Body → Body → Float
  calculate_separate_velocity c b0 b1 =
      let relative_velocity = xm_subtract b0.velocity b1.velocity in
      store_float (dot3 relative_velocity c.normal)

  abbrev accelerate : Vector → Body → Body
  accelerate v b = record b { velocity = xm_add b.velocity v }

  abbrev decelerate : Vector → Body → Body
  decelerate v b = record b { velocity = xm_subtract b.velocity v }

  abbrev advance : Vector → Body → Body
  advance v b = record b { position = xm_add b.position v }

  abbrev retreat : Vector → Body → Body
  retreat v b = record b { position = xm_subtract b.position v }

  -- `if (test) f(body);`
  abbrev modify_if : Bool → List Body → ℕ → (Body → Body) → Outcome (List Body)
  modify_if test bodies i f = if test then modify bodies i f else ok bodies

  -- The four conditional writes at the end of `ResolveVelocityAndInterpenetration`.
  unfoldable pub apply_impulse : Contact → Vector → Float → Float → List Body → Outcome (List Body)
  apply_impulse c impulse_per_i_mass inverse_mass1 inverse_mass2 bodies = do
    let i = c.body0.body
    let j = c.body1.body
    b0 ← at bodies i
    b1 ← at bodies j
    bodies1 ←
        modify_if (is_dynamic b0.type) bodies i
          (accelerate (xm_scale impulse_per_i_mass inverse_mass1))
    bodies2 ←
        modify_if (is_dynamic b1.type) bodies1 j
          (decelerate (xm_scale impulse_per_i_mass inverse_mass2))
    bodies3 ←
        modify_if (is_static b0.type) bodies2 j
          (decelerate (xm_scale impulse_per_i_mass inverse_mass1))
    modify_if (is_static b1.type) bodies3 i (accelerate (xm_scale impulse_per_i_mass inverse_mass2))

  unfoldable pub resolve_velocity : Contact → List Body → Outcome (List Body)
  unfolding calculate_separate_velocity apply_impulse
  resolve_velocity c bodies = do
    b0 ← at bodies c.body0.body
    b1 ← at bodies c.body1.body
    let separating_velocity = calculate_separate_velocity c b0 b1
    let new_separating_velocity = mul (neg separating_velocity) c.restitution
    let delta_velocity = sub new_separating_velocity separating_velocity
    let inverse_mass1 = div one_f b0.mass
    let inverse_mass2 = div one_f b1.mass
    let total_inverse_mass = add inverse_mass1 inverse_mass2
    let impulse = div delta_velocity total_inverse_mass
    if lt zero_f separating_velocity
        then ok bodies
        else if le total_inverse_mass zero_f
        then ok bodies
        else apply_impulse c (xm_scale c.normal impulse) inverse_mass1 inverse_mass2 bodies

  unfoldable pub apply_move : Contact → Vector → Float → Float → List Body → Outcome (List Body)
  apply_move c move_per_i_mass inverse_mass1 inverse_mass2 bodies = do
    b0 ← at bodies c.body0.body
    b1 ← at bodies c.body1.body
    bodies1 ←
        modify_if (is_dynamic b0.type) bodies c.body0.body
          (advance (xm_scale move_per_i_mass inverse_mass1))
    modify_if (is_dynamic b1.type) bodies1 c.body1.body
        (retreat (xm_scale move_per_i_mass inverse_mass2))

  unfoldable pub resolve_interpenetration : Contact → List Body → Outcome (List Body)
  unfolding apply_move
  resolve_interpenetration c bodies = if le c.penetration zero_f then ok bodies else do
    b0 ← at bodies c.body0.body
    b1 ← at bodies c.body1.body
    let inverse_mass1 = div one_f b0.mass
    let inverse_mass2 = div one_f b1.mass
    let total_inverse_mass = add inverse_mass1 inverse_mass2
    let move_per_i_mass = xm_scale c.normal (div c.penetration total_inverse_mass)
    if le total_inverse_mass zero_f
        then ok bodies
        else apply_move c move_per_i_mass inverse_mass1 inverse_mass2 bodies

  -- The end of `Resolve`: the restitution, and the two corrections.
  unfoldable pub respond : List Body → Contact → Outcome (List Body × Contact)
  unfolding resolve_velocity resolve_interpenetration
  respond bodies c = do
    b0 ← at bodies c.body0.body
    b1 ← at bodies c.body1.body
    let rest1 = c.body0.collider.restitution
    let rest2 = c.body1.collider.restitution
    let restitution = div (add (mul b0.mass rest1) (mul b1.mass rest2)) (add b0.mass b1.mass)
    let c' = record c { restitution = restitution }
    bodies1 ← resolve_velocity c' bodies
    bodies2 ← resolve_interpenetration c' bodies1
    ok (bodies2, c')

  unfoldable pub circle_circle : Circle → Circle → Body → Body → Contact → Contact
  circle_circle circle0 circle1 b0 b1 c =
      let delta =
        xm_subtract (xm_subtract (xm_add b0.position circle0.center) b1.position) circle1.center in
      let length = get_x (length3 delta) in
      record c {
        normal = if lt zero_f length then normalize3 delta else identity_r1;
        penetration = sub (add circle0.radius circle1.radius) length;
      }

  unfoldable pub circle_rectangle : Circle → Rectangle → Body → Body → Contact → Contact
  unfolding clamp
  circle_rectangle circle rectangle b0 b1 c =
      let closest_x =
        clamp (add (get_x b0.position) (get_x circle.center))
          (add (get_x rectangle.min_bound) (get_x b1.position))
          (add (get_x rectangle.max_bound) (get_x b1.position)) in
      let closest_y =
        clamp (add (get_y b0.position) (get_y circle.center))
          (add (get_y rectangle.min_bound) (get_y b1.position))
          (add (get_y rectangle.max_bound) (get_y b1.position)) in
      let closest = xm_set closest_x closest_y zero_f zero_f in
      let delta = xm_subtract (xm_add b0.position circle.center) closest in
      let distance = get_x (length3 delta) in
      record c {
        penetration = sub circle.radius distance;
        normal = if lt zero_f distance then normalize3 delta else identity_r1;
      }

  unfoldable pub rectangle_rectangle : Rectangle → Rectangle → Body → Body → Contact → Contact
  unfolding Rectangle.center Rectangle.half_size
  rectangle_rectangle rect0 rect1 b0 b1 c =
      let delta =
        xm_subtract (xm_subtract (xm_add b0.position (Rectangle.center rect0)) b1.position)
          (Rectangle.center rect1) in
      let penetration =
        xm_subtract (xm_add (Rectangle.half_size rect0) (Rectangle.half_size rect1))
          (xm_abs delta) in
      if lt (get_x penetration) (get_y penetration)
      then record c {
        penetration = get_x penetration;
        normal =
            if lt zero_f (get_x delta)
            then xm_set one_f zero_f zero_f zero_f
            else xm_set (neg one_f) zero_f zero_f zero_f;
      }
      else record c {
        penetration = get_y penetration;
        normal =
            if lt zero_f (get_y delta)
            then xm_set zero_f one_f zero_f zero_f
            else xm_set zero_f (neg one_f) zero_f zero_f;
      }

  abbrev with_bodies :
      List Body
      → Contact
      → (Body → Body → Outcome (List Body × Contact))
      → Outcome (List Body × Contact)
  with_bodies bodies c f = do b0 ← at bodies c.body0.body; b1 ← at bodies c.body1.body; f b0 b1

  -- The body of `Resolve`, by the shapes of the two colliders, with its call of itself on the
  -- exchanged bodies as an argument. That call responds to the contact, and the caller then goes on
  -- and responds again.
  unfoldable pub resolve_shapes :
      (List Body → Contact → Outcome (List Body × Contact))
      → List Body
      → Contact
      → Shape
      → Shape
      → Outcome (List Body × Contact)
  unfolding respond circle_circle circle_rectangle rectangle_rectangle
  resolve_shapes call bodies c (circle_shape circle0) (circle_shape circle1) =
      with_bodies bodies c λ b0 b1. respond bodies (circle_circle circle0 circle1 b0 b1 c)
  resolve_shapes call bodies c (circle_shape circle0) (rectangle_shape rect1) =
      with_bodies bodies c λ b0 b1. respond bodies (circle_rectangle circle0 rect1 b0 b1 c)
  resolve_shapes call bodies c (rectangle_shape rect0) (circle_shape circle1) =
      call bodies (swap c) >>= λ r. respond r.0 r.1
  resolve_shapes call bodies c (rectangle_shape rect0) (rectangle_shape rect1) =
      with_bodies bodies c λ b0 b1. respond bodies (rectangle_rectangle rect0 rect1 b0 b1 c)
  resolve_shapes call bodies c _ _ = respond bodies c

  -- `Resolve`, with fuel for its recursion.
  unfoldable pub resolve : ℕ → List Body → Contact → Outcome (List Body × Contact)
  resolve zero bodies c = out_of_fuel
  resolve (suc fuel) bodies c =
      resolve_shapes (resolve fuel) bodies c c.body0.collider.shape c.body1.collider.shape

-- ===== src/Samples.antt =====
-- samples/include/Sample.h and samples/src/Sample.cpp: the part that all samples share. The members
-- of a derived class stand in `own`, its virtual functions in a record of hooks.
pub mod Metrics
pub mod Objects
pub mod Staged
pub mod Laws
pub mod Counters
pub mod All
pub mod Manager
pub mod Default
pub mod StarSystem
pub mod FormsTrigger
pub mod Trigger
pub mod BouncingCollision
pub mod GroundCollision
use bark_direct_x.Prelude.{
  ℕ, ◌-◌, Bool, true, false, Option, none, some, List, [], ◌∷◌, length, take,
}
use bark_direct_x.Prelude.Integers.{ℤ, pos}
use bark_direct_x.Prelude.Outcome.{Outcome, ok, ◌>>=◌, noexcept}
use bark_direct_x.Math.{Math}
use bark_direct_x.Common.Random.{Draws}
use bark_direct_x.Common.Timer.{Timer, new_timer}
use bark_direct_x.Common.Timer
use bark_direct_x.Shape.{Shape, circle_shape}
use bark_direct_x.Shape.Circle
use bark_direct_x.Physics.Refs.{BodyRef, ColliderRef}
use bark_direct_x.Physics.World.{World, Event, new_world}
use bark_direct_x.Physics.World
use bark_direct_x.Physics.World.Step.{step}

pub record Color : Type 0 where
  pub r : ℤ
  pub g : ℤ
  pub b : ℤ
  pub a : ℤ

abbrev pub rgb : ℤ → ℤ → ℤ → Color
rgb r g b = record { r = r; g = g; b = b; a = pos 255 }

-- `Color()`.
abbrev pub white : Color
white = rgb (pos 255) (pos 255) (pos 255)

-- The calls that a listener has received between two states of its log, the latest first.
unfoldable pub new_calls : Option (List Event) → Option (List Event) → List Event
new_calls old none = []
new_calls none (some log) = log
new_calls (some old) (some log) = take (length log - length old) log

module _ ⦃m : Math⦄ where
  open m use {Float, Vector, one_f, xm_zero}

  pub record GraphicsData : Type 0 where
    pub shape : Shape
    pub filled : Bool
    pub color : Color

  -- `GraphicsData()`.
  unfoldable pub default_data : GraphicsData
  unfolding Circle.make
  default_data = record {
    shape = circle_shape (Circle.make xm_zero one_f);
    filled = true;
    color = white;
  }

  -- What a call reads from outside: the clock, the conversion of its differences, and the random
  -- distributions.
  pub record Input : Type 0 where
    pub now : ℤ
    pub seconds : ℤ → Float
    pub draws : Draws

  pub record Sample (Own : Type 0) : Type 0 where
    pub all_graphics_data : List GraphicsData
    pub world : World
    pub body_refs : List BodyRef
    pub col_refs : List ColliderRef
    pub mouse_pos : Vector
    pub mouse_left_released : Bool
    pub mouse_right_released : Bool
    pub timer : Timer
    pub own : Own

  -- A new sample. The constructor leaves `_mousePos` as the memory was.
  unfoldable pub new_sample : {Own : Type 0} → Vector → Own → Sample Own
  unfolding new_world
  new_sample memory own = record {
    all_graphics_data = [];
    world = new_world;
    body_refs = [];
    col_refs = [];
    mouse_pos = memory;
    mouse_left_released = false;
    mouse_right_released = false;
    timer = new_timer;
    own = own;
  }

  -- The virtual functions, and what the sample does in a call of its contact listener: `receive
  -- draws k event` for the `k`-th call of a frame.
  pub record Hooks (Own : Type 0) : Type 0 where
    pub sample_set_up : Draws → Sample Own → Outcome (Sample Own)
    pub sample_update : Draws → Sample Own → Outcome (Sample Own)
    pub sample_tear_down : Sample Own → Sample Own
    pub receive : Draws → ℕ → Event → Sample Own → Outcome (Sample Own)

  -- `World::SetUp` is called with its default argument.
  abbrev pub init_size : ℕ
  init_size = 100

  -- The calls of the listener in a frame. The handlers touch neither the world nor anything that
  -- `World::Update` reads, so that they run after it.
  unfoldable pub receive_all :
      {Own : Type 0} → Hooks Own → Draws → List Event → Sample Own → Outcome (Sample Own)
  receive_all hooks draws [] s = ok s
  receive_all hooks draws (event ∷ earlier) s = do
    s' ← receive_all hooks draws earlier s
    hooks.receive draws (length earlier) event s'

  unfoldable pub set_up : {Own : Type 0} → Hooks Own → Input → Sample Own → Outcome (Sample Own)
  unfolding Timer.set_up World.set_up
  set_up {Own} hooks input s =
      let ready : Sample Own = record s {
        timer = Timer.set_up input.now s.timer;
        world = World.set_up s.world init_size;
      } in
      noexcept (hooks.sample_set_up input.draws ready)

  -- `_timer.Tick(); _world.Update(_timer.DeltaTime);`
  unfoldable pub advance : {Own : Type 0} → Hooks Own → Input → Sample Own → Outcome (Sample Own)
  unfolding Timer.tick step receive_all new_calls
  advance {Own} hooks input s = do
    let timer = Timer.tick input.seconds input.now s.timer
    world ← step timer.delta_time s.world
    let calls = new_calls s.world.contact_listener world.contact_listener
    let after : Sample Own = record s { timer = timer; world = world }
    receive_all hooks input.draws calls after

  unfoldable pub update : {Own : Type 0} → Hooks Own → Input → Sample Own → Outcome (Sample Own)
  unfolding advance
  update hooks input s = noexcept (do
    s1 ← hooks.sample_update input.draws s
    s2 ← advance hooks input s1
    ok (record s2 { mouse_left_released = false; mouse_right_released = false }))

  unfoldable pub tear_down : {Own : Type 0} → Hooks Own → Sample Own → Sample Own
  unfolding World.tear_down
  tear_down hooks s =
      let down = hooks.sample_tear_down s in
      record down {
        body_refs = [];
        all_graphics_data = [];
        col_refs = [];
        world = World.tear_down down.world;
      }

  unfoldable pub get_mouse_pos : {Own : Type 0} → Vector → Sample Own → Sample Own
  get_mouse_pos mouse_pos s = record s { mouse_pos = mouse_pos }

  unfoldable pub on_left_click : {Own : Type 0} → Sample Own → Sample Own
  on_left_click s = record s { mouse_left_released = true }

  unfoldable pub on_right_click : {Own : Type 0} → Sample Own → Sample Own
  on_right_click s = record s { mouse_right_released = true }

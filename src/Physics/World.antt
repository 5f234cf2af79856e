-- ===== src/Physics/World.antt =====
-- `World` of Physics/include/World.h and Physics/src/World.cpp: its state, and the functions that
-- create, find and destroy bodies and colliders. The profiling macros have no effect on the state.
pub mod Slots
pub mod Bodies
pub mod Stale
pub mod Colliders
pub mod Collisions
pub mod Step
pub mod Motion
pub mod Stored
pub mod Placed
pub mod Placement
pub mod Extent
pub mod Coverage
pub mod Frames
pub mod Operations
pub mod Ready
pub mod Protocol
pub mod Triggers
pub mod Traversal
pub mod Overlaps
use bark_direct_x.Prelude.{
  ℕ, zero, suc, ◌+◌, ◌*◌, ◌≡◌, Bool, true, false, not, Option, none, some, List, [], ◌∷◌, arith,
  length, get_elem?, set, resize, ◌==◌, if◌then◌else◌,
}
use mathlib.Core.Option
use bark_direct_x.Prelude.Outcome.{
  Outcome, ok, throws, no_body_found, no_collider_found, ◌>>=◌, noexcept, at, modify,
}
use bark_direct_x.Math.{Math}
use bark_direct_x.Physics.Refs.{BodyRef, ColliderRef, ColliderRefPair}
use bark_direct_x.Physics.Body.{Body, is_enabled, enable, disable}
use bark_direct_x.Physics.Body
use bark_direct_x.Physics.Collider.{Collider}
use bark_direct_x.Physics.Collider
use bark_direct_x.Physics.QuadTree.{QuadTree}
use bark_direct_x.Physics.QuadTree

-- A call of the contact listener, which the clients of the world implement.
pub data Event : Type 0 where
  on_trigger_enter : ColliderRef → ColliderRef → Event
  on_trigger_exit : ColliderRef → ColliderRef → Event
  on_collision_enter : ColliderRef → ColliderRef → Event
  on_collision_exit : ColliderRef → ColliderRef → Event

-- The position of the first element that passes the test, as `std::find_if` finds it.
unfoldable pub find_if {ℓ} : {A : Type ℓ} → (A → Bool) → List A → Option ℕ
find_if test [] = none
find_if test (x ∷ xs) = if test x then some 0 else Option.map suc (find_if test xs)

module _ ⦃m : Math⦄ where
  -- `contact_listener` is `none` for a null pointer, and else the calls received so far, the latest
  -- first. `col_ref_pairs` is a set: no two of its pairs are equal.
  pub record World : Type 0 where
    pub bodies : List Body
    pub colliders : List Collider
    pub col_ref_pairs : List ColliderRefPair
    pub contact_listener : Option (List Event)
    pub body_gen_indices : List ℕ
    pub collider_gen_indices : List ℕ
    pub quad_tree : QuadTree

  -- `World()`.
  unfoldable pub new_world : World
  unfolding QuadTree.make
  new_world = record {
    bodies = [];
    colliders = [];
    col_ref_pairs = [];
    contact_listener = none;
    body_gen_indices = [];
    collider_gen_indices = [];
    quad_tree = QuadTree.make;
  }

  unfoldable pub set_contact_listener : World → Option (List Event) → World
  set_contact_listener w listener = record w { contact_listener = listener }

  -- `SetUp`, for a size that is not negative.
  unfoldable pub set_up : World → ℕ → World
  unfolding resize Collider.default
  set_up w init_size = record w {
    bodies = resize w.bodies init_size Body.default;
    body_gen_indices = resize w.body_gen_indices init_size 0;
    colliders = resize w.colliders init_size Collider.default;
    collider_gen_indices = resize w.collider_gen_indices init_size 0;
  }

  unfoldable pub tear_down : World → World
  tear_down w = record w {
    bodies = [];
    body_gen_indices = [];
    colliders = [];
    collider_gen_indices = [];
    col_ref_pairs = [];
  }

  unfoldable pub get_body : World → BodyRef → Outcome Body
  get_body w ref = do
    gen ← at w.body_gen_indices ref.index
    if gen == ref.gen_index then at w.bodies ref.index else throws no_body_found

  -- `f(GetBody(ref))`: a change of the body through the reference that `GetBody` returns.
  unfoldable pub modify_body : World → BodyRef → (Body → Body) → Outcome World
  modify_body w ref f = do
    gen ← at w.body_gen_indices ref.index
    bodies ← if gen == ref.gen_index then modify w.bodies ref.index f else throws no_body_found
    ok (record w { bodies = bodies })

  -- The end of `CreateBody`, at the index that it has chosen.
  unfoldable pub claim_body : World → ℕ → Outcome (World × BodyRef)
  unfolding modify_body
  claim_body w index = do
    gen ← at w.body_gen_indices index
    let ref : BodyRef = record { index = index; gen_index = gen }
    w' ← modify_body w ref enable
    ok (w', ref)

  unfoldable pub grow_bodies : World → World
  unfolding resize
  grow_bodies w =
      let size = length w.bodies * 2 in
      record w {
        bodies = resize w.bodies size Body.default;
        body_gen_indices = resize w.body_gen_indices size 0;
      }

  unfoldable pub create_body : World → Outcome (World × BodyRef)
  unfolding find_if claim_body grow_bodies
  create_body w = noexcept (elim (find_if (λ body. not (is_enabled body)) w.bodies) [
    | some index ↦ claim_body w index
    | none ↦ claim_body (grow_bodies w) (length w.bodies)
  ])

  unfoldable pub destroy_body : World → BodyRef → Outcome World
  unfolding modify_body
  destroy_body w ref = modify_body w ref disable

  unfoldable pub get_collider : World → ColliderRef → Outcome Collider
  get_collider w ref = do
    gen ← at w.collider_gen_indices ref.index
    if gen == ref.gen_index then at w.colliders ref.index else throws no_collider_found

  -- `f(GetCollider(ref))`.
  unfoldable pub modify_collider : World → ColliderRef → (Collider → Collider) → Outcome World
  modify_collider w ref f = do
    gen ← at w.collider_gen_indices ref.index
    colliders ←
        if gen == ref.gen_index then modify w.colliders ref.index f else throws no_collider_found
    ok (record w { colliders = colliders })

  abbrev attach : BodyRef → Collider → Collider
  attach body_ref col = record col { is_attached = true; body_ref = body_ref }

  unfoldable pub claim_collider : World → ℕ → BodyRef → Outcome (World × ColliderRef)
  unfolding modify_collider
  claim_collider w index body_ref = do
    gen ← at w.collider_gen_indices index
    let ref : ColliderRef = record { index = index; gen_index = gen }
    w' ← modify_collider w ref (attach body_ref)
    ok (w', ref)

  unfoldable pub grow_colliders : World → World
  unfolding resize Collider.default
  grow_colliders w =
      let size = length w.colliders * 2 in
      record w {
        colliders = resize w.colliders size Collider.default;
        collider_gen_indices = resize w.collider_gen_indices size 0;
      }

  unfoldable pub create_collider : World → BodyRef → Outcome (World × ColliderRef)
  unfolding find_if claim_collider grow_colliders
  create_collider w body_ref = noexcept (elim (find_if (λ col. not col.is_attached) w.colliders) [
    | some index ↦ claim_collider w index body_ref
    | none ↦ claim_collider (grow_colliders w) (length w.colliders) body_ref
  ])

  abbrev pub detach : Collider → Collider
  detach col = record col { is_attached = false }

  unfoldable pub destroy_collider : World → ColliderRef → Outcome World
  unfolding modify_collider
  destroy_collider w ref = modify_collider w ref detach

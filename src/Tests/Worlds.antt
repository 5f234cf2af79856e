-- ===== src/Tests/Worlds.antt =====
-- Runs of Physics/src/World.cpp and Physics/src/Contact.cpp.
use bark_direct_x.Prelude.{
  ℕ, zero, suc, ◌≡◌, refl, ap, true, false, some, [], ◌∷◌, arith, get_elem?, replicate,
  length-replicate, subst,
}
use bark_direct_x.Prelude.Outcome.{ok, undefined}
use bark_direct_x.Math.Exact.{pos, Triple, triple, exact, exact-IsSigned, exact-IsSymmetric}
use bark_direct_x.Shape.{circle_shape, rectangle_shape}
use bark_direct_x.Shape.Circle
use bark_direct_x.Shape.Rectangle
use bark_direct_x.Physics.Refs.{BodyRef, ColliderRef}
use bark_direct_x.Physics.Body.{Body, static, is_enabled, disable}
use bark_direct_x.Physics.Body
use bark_direct_x.Physics.Collider.{Collider}
use bark_direct_x.Physics.Contact
use bark_direct_x.Physics.Contact.Resolve.{Resolves, resolve-Resolves}
use bark_direct_x.Physics.QuadTree.{ColliderRefAabb, QuadNode, QuadTree, new_node, nodes_count}
use bark_direct_x.Physics.QuadTree
use bark_direct_x.Physics.QuadTree.Valid.{IsValid}
use bark_direct_x.Physics.QuadTree.Root.{make-IsReusable, fresh-IsValid, unused_leaves}
use bark_direct_x.Physics.World.{
  World, get_body, get_collider, create_body, create_collider, destroy_body, destroy_collider,
  tear_down, set_up, new_world,
}
use bark_direct_x.Physics.World.Bodies.{Creates, create_body-Creates}
use bark_direct_x.Physics.World.Colliders.{Attaches, create_collider-Attaches}
use bark_direct_x.Physics.World.Stale.{
  create_body-tear_down, destroy_body-get, create_body-destroy_body,
}
use bark_direct_x.Physics.World.Collisions.{overlap, update_quad_tree_collisions}
use bark_direct_x.Physics.World.Protocol.{Protocol, Alternates, open_pairs}
use bark_direct_x.Physics.World.Overlaps.{HasVertices, overlap_comm}
use bark_direct_x.Physics.World.Operations.{
  AllDrawn, set_up-IsSound, create_body-IsSound, create_collider-IsSound, destroy_body-IsSound,
  destroy_collider-IsSound,
}
use bark_direct_x.Physics.World.Triggers.{IsLive, IsGood-get}
use bark_direct_x.Physics.World.Triggers
use bark_direct_x.Physics.World.Traversal.{
  IsKnown, AllKnown, IsStocked, update_quad_tree_collisions-Returns,
}
use bark_direct_x.Physics.World.Step.{update_bodies, set_up_quad_tree, step}
use bark_direct_x.Physics.World.Stored.{entry}
use bark_direct_x.Physics.World.Placement.{SetsUp, set_up_quad_tree-SetsUp}
use bark_direct_x.Physics.World.Frames.{IsSound, AllLive, KeepsBodies, step-IsSound}

abbrev point : ℕ → ℕ → Triple
point x y = triple (pos x) (pos y) (pos 0)

abbrev body_ref0 : BodyRef
body_ref0 = record { index = 0; gen_index = 0 }

abbrev body_ref1 : BodyRef
body_ref1 = record { index = 1; gen_index = 0 }

abbrev ball : Body
ball = record Body.default {
  position = point 2 2;
  velocity = point 1 0;
  mass = pos 1;
  force = point 3 0;
}

abbrev wall : Body
wall = record Body.default { position = point 4 2; mass = pos 1; type = static }

abbrev ball_collider : Collider
ball_collider = record {
  shape = circle_shape (Circle.make (point 0 0) (pos 2));
  body_ref = body_ref0;
  body_position = point 0 0;
  restitution = pos 1;
  is_trigger = false;
  is_attached = true;
}

abbrev wall_collider : Collider
wall_collider = record {
  shape = rectangle_shape (Rectangle.make (point 0 0) (point 1 1));
  body_ref = body_ref1;
  body_position = point 0 0;
  restitution = pos 1;
  is_trigger = true;
  is_attached = true;
}

-- A moving ball that a listener watches against a static trigger.
abbrev two : World
two = record {
  bodies = ball ∷ wall ∷ [];
  colliders = ball_collider ∷ wall_collider ∷ [];
  col_ref_pairs = [];
  contact_listener = some [];
  body_gen_indices = 0 ∷ 0 ∷ [];
  collider_gen_indices = 0 ∷ 0 ∷ [];
  quad_tree = QuadTree.make;
}

moved :
    get_elem? (update_bodies (pos 1) two).bodies 0
    ≡ some (record ball { position = point 6 2; velocity = point 4 0; force = point 0 0 })
unfolding update_bodies
moved = refl

two-AllLive : AllLive two
two-AllLive zero col at on =
    let same : ball_collider ≡ col = ground (arith, at) in
    subst (IsLive two) same ((refl, omega arith), tt)
two-AllLive (suc zero) col at on =
    let same : wall_collider ≡ col = ground (arith, at) in
    subst (IsLive two) same ((refl, omega arith), tt)
two-AllLive (suc (suc n)) col at on = absurd (ground (arith, at))

two-Protocol : Protocol two
unfolding Alternates open_pairs
two-Protocol log e =
    let same : [] ≡ log = ground (arith, e) in
    subst (λ l. Alternates l × (open_pairs l ≡ [])) same (tt, refl)

two-IsSound : IsSound two
two-IsSound = record {
  sized = refl;
  gens = refl;
  reusable = make-IsReusable;
  live = two-AllLive;
  protocol = two-Protocol;
}

step-IsSound_example : (w' : World) × (step (pos 1) two ≡ ok w') × IsSound w' × KeepsBodies two w'
step-IsSound_example = step-IsSound (pos 1) two two-IsSound

two-HaveBodies :
    (n : ℕ) (col : Collider)
    → get_elem? two.colliders n ≡ some col
    → col.is_attached ≡ true
    → (b : Body) × (get_body two col.body_ref ≡ ok b)
two-HaveBodies n col at on = IsGood-get two col.body_ref (two-AllLive n col at on).0

set_up_quad_tree-SetsUp_example : (w' : World) × (set_up_quad_tree two ≡ ok w') × SetsUp two w'
set_up_quad_tree-SetsUp_example = set_up_quad_tree-SetsUp two make-IsReusable refl two-HaveBodies

overlap_comm_example :
    overlap two ball_collider wall_collider ≡ overlap two wall_collider ball_collider
overlap_comm_example =
    overlap_comm exact-IsSymmetric two ball_collider wall_collider refl (omega arith) (omega arith)

create_body-Creates_example :
    (w' : World) × (ref : BodyRef) × (create_body two ≡ ok (w', ref)) × Creates two w' ref
create_body-Creates_example = create_body-Creates exact-IsSigned two refl (omega arith)

create_collider-Attaches_example :
    (w' : World) × (ref : ColliderRef) × (create_collider two body_ref1 ≡ ok (w', ref))
    × Attaches body_ref1 two w' ref
create_collider-Attaches_example = create_collider-Attaches body_ref1 two refl (omega arith)

create_body-tear_down_example : create_body (tear_down two) ≡ undefined
create_body-tear_down_example = create_body-tear_down two

abbrev one_down : World
one_down = record two { bodies = disable ball ∷ wall ∷ [] }

found_ball : get_body two body_ref0 ≡ ok ball
unfolding get_body
found_ball = refl

destroyed_ball : destroy_body two body_ref0 ≡ ok one_down
unfolding destroy_body
destroyed_ball = refl

destroy_body-get_example :
    (w' : World) × (destroy_body two body_ref0 ≡ ok w')
    × (get_body w' body_ref0 ≡ ok (disable ball))
    × (w' ≡ record two { bodies = disable ball ∷ wall ∷ [] })
destroy_body-get_example = destroy_body-get two body_ref0 found_ball

two_full : (n : ℕ) (x : Body) → get_elem? two.bodies n ≡ some x → is_enabled x ≡ true
unfolding is_enabled
two_full zero x at =
    let same : ball ≡ x = ground (arith, at) in subst (λ (b : Body). is_enabled b ≡ true) same refl
two_full (suc zero) x at =
    let same : wall ≡ x = ground (arith, at) in subst (λ (b : Body). is_enabled b ≡ true) same refl
two_full (suc (suc n)) x at = absurd (ground (arith, at))

create_body-destroy_body_example : (w'' : World) × (create_body one_down ≡ ok (w'', body_ref0))
create_body-destroy_body_example =
    create_body-destroy_body exact-IsSigned two body_ref0 two_full found_ball destroyed_ball

abbrev contact : Contact.Contact
contact =
    Contact.make (record { body = 1; collider = wall_collider })
      (record { body = 0; collider = ball_collider })

resolve-Resolves_example : Resolves 1 0 two.bodies (Contact.resolve 2 two.bodies contact)
resolve-Resolves_example = resolve-Resolves 0 two.bodies contact (omega arith) (omega arith)

-- The world with both colliders in the root of its tree.
abbrev root : QuadNode
root = record new_node {
  collider_ref_aabbs = entry 0 0 ball_collider ∷ entry 1 0 wall_collider ∷ [];
}

abbrev filed : World
filed = record two { quad_tree = record { nodes = root ∷ replicate 1364 new_node; node_index = 1 } }

filed-IsValid : IsValid filed.quad_tree
unfolding nodes_count
filed-IsValid =
    fresh-IsValid root (replicate 1364 new_node) (ap suc (length-replicate 1364 new_node)) refl refl
      (unused_leaves 1364)

root_known : AllKnown filed root.collider_ref_aabbs
unfolding get_collider
root_known zero e at =
    let same : entry 0 0 ball_collider ≡ e = ground (arith, at) in
    subst (IsKnown filed) same
      (ball_collider, refl, ((refl, omega arith), tt), (ball_collider, refl, refl, refl))
root_known (suc zero) e at =
    let same : entry 1 0 wall_collider ≡ e = ground (arith, at) in
    subst (IsKnown filed) same
      (wall_collider, refl, ((refl, omega arith), tt), (wall_collider, refl, refl, refl))
root_known (suc (suc n)) e at = absurd (ground (arith, at))

filed-IsStocked : IsStocked filed
filed-IsStocked zero node h at =
    let same : root ≡ node = ground (arith, at) in
    subst (λ (x : QuadNode). AllKnown filed x.collider_ref_aabbs) same root_known
filed-IsStocked (suc i) node h at = absurd (omega arith)

update_quad_tree_collisions-Returns_example :
    Triggers.Returns filed (update_quad_tree_collisions 6 filed 0)
update_quad_tree_collisions-Returns_example =
    update_quad_tree_collisions-Returns 6 filed 0 root filed-IsValid filed-IsStocked (omega arith)
      refl (omega arith)

set_up-IsSound_example : IsSound (set_up new_world 3)
set_up-IsSound_example = set_up-IsSound 3

create_body-IsSound_example :
    (w' : World) × (ref : BodyRef) × (create_body two ≡ ok (w', ref))
    × IsSound w'
    × Triggers.IsGood w' ref
create_body-IsSound_example = create_body-IsSound exact-IsSigned two two-IsSound (omega arith)

two-AllDrawn : AllDrawn two
two-AllDrawn zero col at =
    let same : ball_collider ≡ col = ground (arith, at) in
    subst (λ (c : Collider). HasVertices c.shape) same tt
two-AllDrawn (suc zero) col at =
    let same : wall_collider ≡ col = ground (arith, at) in
    subst (λ (c : Collider). HasVertices c.shape) same tt
two-AllDrawn (suc (suc n)) col at = absurd (ground (arith, at))

create_collider-IsSound_example :
    (w' : World) × (ref : ColliderRef) × (create_collider two body_ref1 ≡ ok (w', ref)) × IsSound w'
create_collider-IsSound_example =
    create_collider-IsSound two body_ref1 two-IsSound (refl, omega arith) two-AllDrawn (omega arith)

destroy_body-IsSound_example : (w' : World) × (destroy_body two body_ref0 ≡ ok w') × IsSound w'
destroy_body-IsSound_example = destroy_body-IsSound two body_ref0 ball two-IsSound found_ball

abbrev wall_ref : ColliderRef
wall_ref = record { index = 1; gen_index = 0 }

found_wall : get_collider two wall_ref ≡ ok wall_collider
unfolding get_collider
found_wall = refl

destroy_collider-IsSound_example :
    (w' : World) × (destroy_collider two wall_ref ≡ ok w') × IsSound w'
destroy_collider-IsSound_example =
    destroy_collider-IsSound two wall_ref wall_collider two-IsSound found_wall

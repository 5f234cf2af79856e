-- ===== src/Tests/Division.antt =====
-- A run of `World::SetUpQuadTree` of Physics/src/World.cpp that divides the root of the tree.
use bark_direct_x.Prelude.{
  ℕ, zero, suc, ◌≡◌, ◌≢◌, refl, ◌∙◌, sym, ap, subst, true, false, Option, none, some, List, [], ◌∷◌,
  ◌++◌, arith, get_elem?, replicate, map, take,
}
use bark_direct_x.Prelude.Outcome.{ok}
use bark_direct_x.Math.Exact.{
  pos, triple, exact, exact-IsOrdered, exact-IsComponentwise, exact-IsReflecting,
}
use bark_direct_x.Shape.{rectangle_shape}
use bark_direct_x.Shape.Rectangle.{Rectangle}
use bark_direct_x.Shape.Rectangle
use bark_direct_x.Shape.Points.{IsProper}
use bark_direct_x.Physics.Body.{Body}
use bark_direct_x.Physics.Body
use bark_direct_x.Physics.Collider.{Collider, get_bounds}
use bark_direct_x.Physics.QuadTree.{
  ColliderRefAabb, QuadNode, QuadTree, block, insert, new_node, no_children, quarter1, quarter2,
}
use bark_direct_x.Physics.QuadTree
use bark_direct_x.Physics.QuadTree.Settled.{Stands}
use bark_direct_x.Physics.QuadTree.Coverage.{AllHalved, IsHalved}
use bark_direct_x.Physics.QuadTree.Root.{make-IsReusable}
use bark_direct_x.Physics.World.{World, get_body}
use bark_direct_x.Physics.World.Placed.{HasBody, HaveBodies}
use bark_direct_x.Physics.World.Extent.{AllProper}
use bark_direct_x.Physics.World.Coverage.{set_up_quad_tree-Stands}
use bark_direct_x.Physics.World.Step.{set_up_quad_tree}
use bark_direct_x.Physics.World.Stored.{entry}

abbrev body_at : ℕ → Body
body_at x = record Body.default { position = triple (pos x) (pos x) (pos 0); mass = pos 1 }

abbrev collider_of : ℕ → ℕ → Collider
collider_of body x = record {
  shape =
      rectangle_shape
        (Rectangle.make (triple (pos 0) (pos 0) (pos 0)) (triple (pos 2) (pos 2) (pos 0)));
  body_ref = record { index = body; gen_index = 0 };
  body_position = triple (pos x) (pos x) (pos 0);
  restitution = pos 1;
  is_trigger = false;
  is_attached = true;
}

-- Nine colliders at one corner and eight at the other.
abbrev crowd : World
crowd = record {
  bodies = body_at 0 ∷ body_at 30 ∷ [];
  colliders = replicate 9 (collider_of 0 0) ++ (replicate 8 (collider_of 1 0) ++ []);
  col_ref_pairs = [];
  contact_listener = some [];
  body_gen_indices = 0 ∷ 0 ∷ [];
  collider_gen_indices = replicate 17 0;
  quad_tree = QuadTree.make;
}

abbrev after : World
after = elim (set_up_quad_tree crowd) [ ok w ↦ w | _ ↦ crowd ]

runs : set_up_quad_tree crowd ≡ ok after
unfolding set_up_quad_tree QuadTree.make QuadTree.insert_in QuadTree.split QuadTree.subdivide_node
    QuadTree.distribute QuadTree.offer_entries QuadTree.offer
    bark_direct_x.Shape.Intersect.rectangle_rectangle
runs = refl

divided : after.quad_tree.node_index ≡ 5
unfolding set_up_quad_tree QuadTree.make QuadTree.insert_in QuadTree.split QuadTree.subdivide_node
    QuadTree.distribute QuadTree.offer_entries QuadTree.offer
    bark_direct_x.Shape.Intersect.rectangle_rectangle
divided = refl

abbrev children_of : Option QuadNode → Option (List (Option ℕ))
children_of none = none
children_of (some node) = some node.children

-- The children of the node at an index, if there is one.
abbrev children_at : ℕ → Option (List (Option ℕ))
children_at i = children_of (get_elem? after.quad_tree.nodes i)

leaves :
    (children_at 1 ≡ some no_children)
    × (children_at 2 ≡ some no_children)
    × (children_at 3 ≡ some no_children)
    × (children_at 4 ≡ some no_children)
unfolding set_up_quad_tree QuadTree.make QuadTree.insert_in QuadTree.split QuadTree.subdivide_node
    QuadTree.distribute QuadTree.offer_entries QuadTree.offer
    bark_direct_x.Shape.Intersect.rectangle_rectangle
leaves = (refl, refl, refl, refl)

colliders_after :
    after.colliders ≡ replicate 9 (collider_of 0 0) ++ (replicate 8 (collider_of 1 30) ++ [])
unfolding set_up_quad_tree QuadTree.make QuadTree.insert_in QuadTree.split QuadTree.subdivide_node
    QuadTree.distribute QuadTree.offer_entries QuadTree.offer
    bark_direct_x.Shape.Intersect.rectangle_rectangle
colliders_after = refl

abbrev field : Rectangle
field = Rectangle.make (triple (pos 0) (pos 0) (pos 0)) (triple (pos 32) (pos 32) (pos 0))

root_after :
    (root : QuadNode) × (get_elem? after.quad_tree.nodes 0 ≡ some root) × (root.bounds ≡ field)
unfolding set_up_quad_tree QuadTree.make QuadTree.insert_in QuadTree.split QuadTree.subdivide_node
    QuadTree.distribute QuadTree.offer_entries QuadTree.offer
    bark_direct_x.Shape.Intersect.rectangle_rectangle
root_after = (_, refl, refl)

-- A property of all colliders of a list.
abbrev Each : (Collider → Type 0) → List Collider → Type 0
Each p cols = (n : ℕ) (col : Collider) → get_elem? cols n ≡ some col → p col

Each-replicate :
    (p : Collider → Type 0) (a : Collider) (rest : List Collider)
    → p a
    → Each p rest
    → (n : ℕ) → Each p (replicate n a ++ rest)
Each-replicate p a rest h hs zero i col at = hs i col at
Each-replicate p a rest h hs (suc n) zero col at = subst p (ground (arith, at)) h
Each-replicate p a rest h hs (suc n) (suc i) col at = Each-replicate p a rest h hs n i col at

Each-none : (p : Collider → Type 0) → Each p []
Each-none p n col at = absurd (ground (arith, at))

crowd-HaveBodies : HaveBodies crowd crowd.colliders
unfolding get_body
crowd-HaveBodies =
    let p = λ (c : Collider). (c.is_attached ≡ true → HasBody crowd c) in
    Each-replicate p (collider_of 0 0) (replicate 8 (collider_of 1 0) ++ [])
      (λ _. (body_at 0, refl))
      (Each-replicate p (collider_of 1 0) [] (λ _. (body_at 30, refl)) (Each-none p) 8) 9

after-AllProper : AllProper after.colliders
unfolding get_bounds
after-AllProper =
    let p = λ (c : Collider). (c.is_attached ≡ true → IsProper (get_bounds c)) in
    subst AllProper (sym colliders_after) (
      Each-replicate p (collider_of 0 0) (replicate 8 (collider_of 1 30) ++ [])
        (λ _. record { x_ordered = refl; y_ordered = refl })
        (Each-replicate p (collider_of 1 30) [] (λ _. record { x_ordered = refl; y_ordered = refl })
          (Each-none p) 8)
        9)

field-IsHalved : IsHalved field
unfolding quarter1 quarter2
field-IsHalved = record { middle_x = refl; middle_y = refl; reaches_x = refl; reaches_y = refl }

leaf_not_divided :
    (i k : ℕ) (node : QuadNode)
    → children_at i ≡ some no_children
    → get_elem? after.quad_tree.nodes i ≡ some node
    → node.children ≢ block k
leaf_not_divided i k node e at inner =
    let here : children_at i ≡ some node.children = ap children_of at in
    ground (arith, e, here, inner)

after-AllHalved : AllHalved after.quad_tree
after-AllHalved zero k node h at inner =
    let (root, found, bounds) = root_after in
    let same : root ≡ node = ground (arith, found, at) in
    subst IsHalved (sym bounds ∙ ap (λ (x : QuadNode). x.bounds) same) field-IsHalved
after-AllHalved (suc zero) k node h at inner = absurd (leaf_not_divided 1 k node leaves.0 at inner)
after-AllHalved (suc (suc zero)) k node h at inner =
    absurd (leaf_not_divided 2 k node leaves.1 at inner)
after-AllHalved (suc (suc (suc zero))) k node h at inner =
    absurd (leaf_not_divided 3 k node leaves.2 at inner)
after-AllHalved (suc (suc (suc (suc zero)))) k node h at inner =
    absurd (leaf_not_divided 4 k node leaves.3 at inner)
after-AllHalved (suc (suc (suc (suc (suc i))))) k node h at inner =
    absurd (omega (arith, h, divided))

set_up_quad_tree-Stands_example : Stands after.quad_tree (entry 12 0 (collider_of 1 30)) 0
set_up_quad_tree-Stands_example =
    set_up_quad_tree-Stands exact-IsOrdered exact-IsComponentwise exact-IsReflecting crowd after
      refl refl make-IsReusable refl crowd-HaveBodies runs after-AllProper after-AllHalved 12 0
      (collider_of 1 30) (ap (λ cs. get_elem? cs 12) colliders_after) refl refl

-- Bounds whose halves are rounded down: no quarter reaches the upper edge.
abbrev odd_field : Rectangle
odd_field = Rectangle.make (triple (pos 0) (pos 0) (pos 0)) (triple (pos 5) (pos 5) (pos 0))

abbrev edge_entry : ColliderRefAabb
edge_entry = record {
  aabb = Rectangle.make (triple (pos 0) (pos 5) (pos 0)) (triple (pos 1) (pos 5) (pos 0));
  col_ref = record { index = 0; gen_index = 0 };
}

abbrev full_tree : QuadTree
full_tree = record {
  nodes =
      record new_node { collider_ref_aabbs = replicate 16 edge_entry; bounds = odd_field }
      ∷ replicate 1364 new_node;
  node_index = 1;
}

abbrev entries_left : QuadTree → List (List ColliderRefAabb)
entries_left tree = map (λ (node : QuadNode). node.collider_ref_aabbs) (take 5 tree.nodes)

-- A split after which all of the entries at the upper edge are lost.
all_lost :
    elim (insert 6 full_tree 0 edge_entry) [ ok t ↦ entries_left t | _ ↦ [] ]
    ≡ [] ∷ [] ∷ [] ∷ [] ∷ [] ∷ []
unfolding insert QuadTree.insert_in QuadTree.split QuadTree.subdivide_node QuadTree.distribute
    QuadTree.offer_entries QuadTree.offer bark_direct_x.Shape.Intersect.rectangle_rectangle
all_lost = refl

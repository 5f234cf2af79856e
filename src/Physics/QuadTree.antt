-- ===== src/Physics/QuadTree.antt =====
-- Physics/include/QuadTree.h and Physics/src/QuadTree.cpp. The nodes stand in one vector, a pointer
-- to a node is its index there, a null pointer is `none`. The vector is never resized after
-- construction, so a reference to a node is its index too. Memory that the nodes' vectors reserve is
-- not modelled.
pub mod Potential
pub mod Valid
pub mod Subdivide
pub mod Filed
pub mod Settled
pub mod Coverage
pub mod Loops
pub mod Insert
pub mod Root
pub mod Entries
use bark_direct_x.Prelude.{
  ℕ, zero, suc, ◌+◌, Bool, true, false, ◌&&◌, Option, none, some, List, [], ◌∷◌, ◌++◌, map, length,
  set, replicate, ltb, leb, if◌then◌else◌,
}
use bark_direct_x.Prelude.Outcome.{Outcome, ok, undefined, out_of_fuel, ◌>>=◌, at, modify}
use bark_direct_x.Math.{Math}
use bark_direct_x.Common.Utility.{pow}
use bark_direct_x.Shape.Rectangle.{Rectangle}
use bark_direct_x.Shape.Rectangle
use bark_direct_x.Shape.Intersect.{rectangle_rectangle}
use bark_direct_x.Physics.Refs.{ColliderRef}

abbrev pub max_col_nbr : ℕ
max_col_nbr = 16

abbrev pub max_depth : ℕ
max_depth = 5

abbrev pub no_children : List (Option ℕ)
no_children = none ∷ none ∷ none ∷ none ∷ []

-- `Children` after a subdivision: pointers to four nodes in a row.
abbrev pub block : ℕ → List (Option ℕ)
block k = some k ∷ some (k + 1) ∷ some (k + 2) ∷ some (k + 3) ∷ []

-- `Children[0] != nullptr`.
abbrev pub has_children : List (Option ℕ) → Bool
has_children (some c ∷ cs) = true
has_children _ = false

-- The sum of `Pow(4, i)` in the constructor, for `i` from `level` on, over the given rounds.
sum_powers : ℕ → ℕ → ℕ
unfolding pow
sum_powers level zero = 0
sum_powers level (suc rounds) = pow 4 level + sum_powers (suc level) rounds

unfoldable pub nodes_count : ℕ
unfolding sum_powers
nodes_count = sum_powers 0 (suc max_depth)

module _ ⦃m : Math⦄ where
  open m use {
    Float, Vector, two_f, add, mul, get_x, get_y, xm_zero, xm_set, xm_braces, xm_add, xm_subtract,
    xm_divide,
  }

  pub record ColliderRefAabb : Type 0 where
    pub aabb : Rectangle
    pub col_ref : ColliderRef

  pub record QuadNode : Type 0 where
    pub collider_ref_aabbs : List ColliderRefAabb
    pub bounds : Rectangle
    pub children : List (Option ℕ)
    pub depth : ℕ

  pub record QuadTree : Type 0 where
    pub nodes : List QuadNode
    pub node_index : ℕ

  abbrev pub new_node : QuadNode
  new_node = record {
    collider_ref_aabbs = [];
    bounds = Rectangle.make xm_zero xm_zero;
    children = no_children;
    depth = 0;
  }

  -- The constructor of `QuadTree`.
  unfoldable pub make : QuadTree
  unfolding nodes_count
  make = record { nodes = replicate nodes_count new_node; node_index = 1 }

  unfoldable pub clear_node : QuadNode → QuadNode
  clear_node node = record node { collider_ref_aabbs = []; children = no_children }

  unfoldable pub set_up_root : QuadTree → Rectangle → Outcome QuadTree
  unfolding clear_node
  set_up_root tree bounds = do
    nodes ← modify (map clear_node tree.nodes) 0 (λ root. record root { bounds = bounds })
    ok (record { nodes = nodes; node_index = 1 })

  half_size : Rectangle → Vector
  half_size b = xm_divide (xm_subtract b.max_bound b.min_bound) (xm_set two_f two_f two_f two_f)

  -- The bounds that `SubdivideNode` gives to the four children.
  pub quarter0 : Rectangle → Rectangle
  unfolding half_size
  quarter0 b = Rectangle.make b.min_bound (xm_add b.min_bound (half_size b))

  unfoldable pub quarter1 : Rectangle → Rectangle
  unfolding half_size
  quarter1 b =
      let min = b.min_bound in
      let half = half_size b in
      Rectangle.make (xm_braces (get_x min) (add (get_y min) (get_y half)))
        (xm_braces (add (get_x min) (get_x half)) (add (get_y min) (mul two_f (get_y half))))

  unfoldable pub quarter2 : Rectangle → Rectangle
  unfolding half_size
  quarter2 b =
      let min = b.min_bound in
      let half = half_size b in
      Rectangle.make (xm_braces (add (get_x min) (get_x half)) (get_y min))
        (xm_braces (add (get_x min) (mul two_f (get_x half))) (add (get_y min) (get_y half)))

  pub quarter3 : Rectangle → Rectangle
  unfolding half_size
  quarter3 b =
      let min = b.min_bound in
      let half = half_size b in
      Rectangle.make (xm_braces (add (get_x min) (get_x half)) (add (get_y min) (get_y half)))
        b.max_bound

  -- What becomes of a child: its bounds, and its depth, which the loop at the end of
  -- `SubdivideNode` sets.
  abbrev adopt : ℕ → Rectangle → QuadNode → QuadNode
  adopt depth bounds child = record child { bounds = bounds; depth = depth + 1 }

  abbrev pub with_children : ℕ → QuadNode → QuadNode
  with_children k node = record node { children = block k }

  unfoldable pub subdivide_node : QuadTree → ℕ → Outcome QuadTree
  unfolding quarter0 quarter1 quarter2 quarter3
  subdivide_node tree i = do
    node ← at tree.nodes i
    let k = tree.node_index
    nodes0 ← modify tree.nodes k (adopt node.depth (quarter0 node.bounds))
    nodes1 ← modify nodes0 (k + 1) (adopt node.depth (quarter1 node.bounds))
    nodes2 ← modify nodes1 (k + 2) (adopt node.depth (quarter2 node.bounds))
    nodes3 ← modify nodes2 (k + 3) (adopt node.depth (quarter3 node.bounds))
    nodes4 ← modify nodes3 i (with_children k)
    ok (record { nodes = nodes4; node_index = k + 4 })

  -- `ColliderRefAabbs.push_back` and `clear` at a node.
  abbrev push : ColliderRefAabb → QuadNode → QuadNode
  push e node = record node { collider_ref_aabbs = node.collider_ref_aabbs ++ e ∷ [] }

  abbrev clear : QuadNode → QuadNode
  clear node = record node { collider_ref_aabbs = [] }

  abbrev update : QuadTree → ℕ → (QuadNode → QuadNode) → Outcome QuadTree
  update tree i f = modify tree.nodes i f >>= λ nodes. ok (record tree { nodes = nodes })

  -- The rest of `Insert` takes the recursive call as an argument.
  abbrev Call : Type 0
  Call = QuadTree → ℕ → ColliderRefAabb → Outcome QuadTree

  -- `if (Intersect(col.Aabb, child->Bounds)) Insert(*child, col);`
  unfoldable pub offer : Call → Option ℕ → ColliderRefAabb → QuadTree → Outcome QuadTree
  offer insert none e tree = undefined
  offer insert (some c) e tree = do
    child ← at tree.nodes c
    if rectangle_rectangle e.aabb child.bounds then insert tree c e else ok tree

  -- `for (const auto& child : node.Children)` with one entry. The array does not change meanwhile:
  -- a call below a child never writes the node.
  unfoldable pub offer_children :
      Call → List (Option ℕ) → ColliderRefAabb → QuadTree → Outcome QuadTree
  offer_children insert [] e tree = ok tree
  offer_children insert (c ∷ cs) e tree = do
    tree' ← offer insert c e tree
    offer_children insert cs e tree'

  -- `for (auto& col : node.ColliderRefAabbs)` for one child.
  unfoldable pub offer_entries :
      Call → Option ℕ → List ColliderRefAabb → QuadTree → Outcome QuadTree
  offer_entries insert c [] tree = ok tree
  offer_entries insert c (e ∷ es) tree = do
    tree' ← offer insert c e tree
    offer_entries insert c es tree'

  unfoldable pub distribute :
      Call → List (Option ℕ) → List ColliderRefAabb → QuadTree → Outcome QuadTree
  distribute insert [] es tree = ok tree
  distribute insert (c ∷ cs) es tree = do
    tree' ← offer_entries insert c es tree
    distribute insert cs es tree'

  -- The second branch of `Insert`.
  unfoldable pub split : Call → QuadTree → ℕ → ColliderRefAabb → Outcome QuadTree
  split insert tree i e = do
    tree1 ← subdivide_node tree i
    tree2 ← update tree1 i (push e)
    node ← at tree2.nodes i
    tree3 ← distribute insert node.children node.collider_ref_aabbs tree2
    update tree3 i clear

  unfoldable pub insert_in : Call → QuadTree → ℕ → QuadNode → ColliderRefAabb → Outcome QuadTree
  insert_in insert tree i node e =
      if has_children node.children
      then offer_children insert node.children e tree
      else if leb max_col_nbr (length node.collider_ref_aabbs) && ltb node.depth max_depth
      then split insert tree i e
      else update tree i (push e)

  -- `Insert`, with fuel for its recursion.
  unfoldable pub insert : ℕ → Call
  insert zero tree i e = out_of_fuel
  insert (suc fuel) tree i e = do node ← at tree.nodes i; insert_in (insert fuel) tree i node e

-- ===== src/Physics/QuadTree/Root.antt =====
-- `QuadTree::QuadTree` and `QuadTree::SetUpRoot` of Physics/src/QuadTree.cpp: the tree that each
-- frame starts from. `SetUpRoot` leaves the depths of the nodes as they are.
use bark_direct_x.Prelude.{
  ℕ, zero, suc, ◌≤◌, ◌<◌, ◌≡◌, refl, ap, subst, ◌∙◌, some, List, [], ◌∷◌, map, arith, length,
  get_elem?, length-replicate, replicate,
}
use bark_direct_x.Prelude.Outcome.{ok}
use bark_direct_x.Math.{Math}
use bark_direct_x.Shape.Rectangle.{Rectangle}
use bark_direct_x.Physics.QuadTree.{
  QuadNode, QuadTree, no_children, nodes_count, max_depth, new_node, make, clear_node, set_up_root,
}
use bark_direct_x.Physics.QuadTree.Potential.{weight, potential, nodes_count_lem}
use bark_direct_x.Physics.QuadTree.Valid.{leaf, IsValid}
use bark_direct_x.Physics.QuadTree.Filed.{Keeps}

module _ ⦃m : Math⦄ where
  -- What holds of the tree between frames: its size, and a root at depth 0.
  pub record IsReusable (tree : QuadTree) : Type 0 where
    pub sized : length tree.nodes ≡ nodes_count
    pub root : QuadNode
    pub found : get_elem? tree.nodes 0 ≡ some root
    pub at_top : root.depth ≡ 0

  pub make-IsReusable : IsReusable make
  unfolding make
  make-IsReusable = record {
    sized = length-replicate nodes_count new_node;
    root = new_node;
    found = refl;
    at_top = refl;
  }

  -- A valid tree whose root is at depth 0 can be reused, in particular after insertions.
  pub IsReusable-Keeps :
      (s t : QuadTree) → IsReusable s → 0 < s.node_index → IsValid t → Keeps s t → IsReusable t
  IsReusable-Keeps s t r h v x =
      let (root', found', d, b) = x.extends.keeps 0 r.root h r.found in
      record { sized = v.sized; root = root'; found = found'; at_top = d ∙ r.at_top }

  length-clear : (nodes : List QuadNode) → length (map clear_node nodes) ≡ length nodes
  length-clear [] = refl
  length-clear (x ∷ xs) = ap suc (length-clear xs)

  cleared :
      (nodes : List QuadNode) (i : ℕ) (node : QuadNode)
      → get_elem? (map clear_node nodes) i ≡ some node
      → node.children ≡ no_children
  unfolding clear_node
  cleared [] i node e = absurd (ground (arith, e))
  cleared (x ∷ xs) zero node e = ground (arith, e)
  cleared (x ∷ xs) (suc i) node e = cleared xs i node e

  -- The root that `SetUpRoot` leaves.
  abbrev pub fresh_root : Rectangle → QuadNode → QuadNode
  fresh_root bounds root = record root {
    collider_ref_aabbs = [];
    children = no_children;
    bounds = bounds;
  }

  pub fresh-IsValid :
      (root : QuadNode) (rest : List QuadNode)
      → suc (length rest) ≡ nodes_count
      → root.depth ≡ 0
      → root.children ≡ no_children
      → ((i : ℕ) (node : QuadNode) → get_elem? rest i ≡ some node → node.children ≡ no_children)
      → IsValid (record { nodes = root ∷ rest; node_index = 1 })
  unfolding potential weight
  fresh-IsValid root rest size top c cs = record {
    sized = size;
    budget = rw (c, top) (omega (arith, nodes_count_lem));
    shallow = λ i node h e. at_zero i node h e (λ n. n.depth ≤ max_depth) (rw top (omega arith));
    linked = λ i node h e. leaf (at_zero i node h e (λ n. n.children ≡ no_children) c);
    unused = λ i node h e. rest_of i node h e;
  }
    where
      at_zero :
          (i : ℕ) (node : QuadNode)
          → i < 1
          → get_elem? (root ∷ rest) i ≡ some node
          → (P : QuadNode → Type 0) → P root
          → P node
      at_zero zero node h e P p = let same : root ≡ node = ground (arith, e) in subst P same p
      at_zero (suc i) node h e P p = absurd (omega arith)

      rest_of :
          (i : ℕ) (node : QuadNode)
          → 1 ≤ i
          → get_elem? (root ∷ rest) i ≡ some node
          → node.children ≡ no_children
      rest_of zero node h e = absurd (omega arith)
      rest_of (suc i) node h e = cs i node e

  pub unused_leaves :
      (n i : ℕ) (node : QuadNode)
      → get_elem? (replicate n new_node) i ≡ some node
      → node.children ≡ no_children
  unused_leaves zero i node e = absurd (ground (arith, e))
  unused_leaves (suc n) zero node e = ground (arith, e)
  unused_leaves (suc n) (suc i) node e = unused_leaves n i node e

  -- `SetUpRoot` succeeds on any tree of the right size with its root at depth 0, whatever the last
  -- frame left in it: the tree is then valid and consists of the root alone, which has the given
  -- bounds and no entries.
  pub set_up_root-IsValid :
      (tree : QuadTree) (bounds : Rectangle) (r : IsReusable tree)
      → (tree' : QuadTree) × (set_up_root tree bounds ≡ ok tree')
        × IsValid tree'
        × IsReusable tree'
        × (tree'.node_index ≡ 1)
        × (get_elem? tree'.nodes 0 ≡ some (fresh_root bounds r.root))
  unfolding set_up_root
  set_up_root-IsValid tree bounds r = at_root tree.nodes r.sized r.found refl
    where
      at_root :
          (nodes : List QuadNode)
          → length nodes ≡ nodes_count
          → get_elem? nodes 0 ≡ some r.root
          → tree.nodes ≡ nodes
          → (tree' : QuadTree) × (set_up_root tree bounds ≡ ok tree')
            × IsValid tree'
            × IsReusable tree'
            × (tree'.node_index ≡ 1)
            × (get_elem? tree'.nodes 0 ≡ some (fresh_root bounds r.root))
      at_root [] size found e = absurd (ground (arith, found))
      at_root (x ∷ xs) size found e =
          let same : x ≡ r.root = ground (arith, found) in
          let root = fresh_root bounds x in
          let tree' : QuadTree = record { nodes = root ∷ map clear_node xs; node_index = 1 } in
          let size' = ap suc (length-clear xs) ∙ size in
          let top : root.depth ≡ 0 = ap (λ n. n.depth) same ∙ r.at_top in
          (
            tree',
            ground (arith, e),
            fresh-IsValid root (map clear_node xs) size' top refl (λ i n h. cleared xs i n h),
            record { sized = size'; root = root; found = refl; at_top = top },
            refl,
            ap (λ n. some (fresh_root bounds n)) same,
          )

-- ===== src/Physics/QuadTree/Valid.antt =====
-- The invariant of the quadtree of Physics/src/QuadTree.cpp, and what the writes of `Insert` and
-- `SubdivideNode` do to it.
use bark_direct_x.Prelude.{
  ℕ, ◌+◌, ◌≤◌, ◌<◌, ◌≡◌, refl, sym, ap, subst, ◌∙◌, inl, inr, some, arith, length, get_elem?, set,
  length-set, get_elem?-set_self, get_elem?-set_ne, get_elem?-set_cases, get_elem?-lt,
}
use native.Mathlib.Decide.{ℕ_discrete, dec_lt}
use bark_direct_x.Math.{Math}
use bark_direct_x.Shape.Rectangle.{Rectangle}
use bark_direct_x.Physics.QuadTree.{
  QuadNode, QuadTree, block, no_children, max_depth, nodes_count, quarter0, quarter1, quarter2,
  quarter3,
}
use bark_direct_x.Physics.QuadTree.Potential.{
  weight, potential, potential-set, potential-set_beyond,
}

module _ ⦃m : Math⦄ where
  -- Node `c` is in use, one level below `depth`.
  pub record IsChild (tree : QuadTree) (depth c : ℕ) : Type 0 where
    pub in_use : c < tree.node_index
    pub node : QuadNode
    pub found : get_elem? tree.nodes c ≡ some node
    pub one_below : node.depth ≡ depth + 1

  -- Node `c` has the given bounds.
  abbrev pub HasBounds : QuadTree → ℕ → Rectangle → Type 0
  HasBounds tree c bounds =
      (node : QuadNode) × (get_elem? tree.nodes c ≡ some node) × (node.bounds ≡ bounds)

  -- The four nodes from `k` on have the quarters of the bounds.
  pub record Quarters (tree : QuadTree) (k : ℕ) (bounds : Rectangle) : Type 0 where
    pub first : HasBounds tree k (quarter0 bounds)
    pub second : HasBounds tree (k + 1) (quarter1 bounds)
    pub third : HasBounds tree (k + 2) (quarter2 bounds)
    pub fourth : HasBounds tree (k + 3) (quarter3 bounds)

  -- A node in use has no children, or four that follow one another further on and have the quarters
  -- of its bounds.
  pub data Children (tree : QuadTree) (i : ℕ) (node : QuadNode) : Type 0 where
    leaf : node.children ≡ no_children → Children tree i node
    inner :
        (k : ℕ)
        → node.children ≡ block k
        → i < k
        → IsChild tree node.depth k
        → IsChild tree node.depth (k + 1)
        → IsChild tree node.depth (k + 2)
        → IsChild tree node.depth (k + 3)
        → Quarters tree k node.bounds
        → Children tree i node

  pub record IsValid (tree : QuadTree) : Type 0 where
    pub sized : length tree.nodes ≡ nodes_count
    -- Nodes in use and what they can still ask for fill the vector exactly.
    pub budget : tree.node_index + potential tree.node_index tree.nodes ≡ nodes_count
    pub shallow :
        (i : ℕ) (node : QuadNode)
        → i < tree.node_index
        → get_elem? tree.nodes i ≡ some node
        → node.depth ≤ max_depth
    pub linked :
        (i : ℕ) (node : QuadNode)
        → i < tree.node_index
        → get_elem? tree.nodes i ≡ some node
        → Children tree i node
    pub unused :
        (i : ℕ) (node : QuadNode)
        → tree.node_index ≤ i
        → get_elem? tree.nodes i ≡ some node
        → node.children ≡ no_children

  -- `t` is `s` after some insertions: nodes in use keep their place, depth and bounds.
  pub record Extends (s t : QuadTree) : Type 0 where
    pub grows : s.node_index ≤ t.node_index
    pub keeps :
        (i : ℕ) (node : QuadNode)
        → i < s.node_index
        → get_elem? s.nodes i ≡ some node
        → (node' : QuadNode) × (get_elem? t.nodes i ≡ some node')
          × (node'.depth ≡ node.depth)
          × (node'.bounds ≡ node.bounds)

  pub Extends-refl : (s : QuadTree) → Extends s s
  Extends-refl s = record { grows = omega arith; keeps = λ i node h e. (node, e, refl, refl) }

  pub Extends-trans : {s t u : QuadTree} → Extends s t → Extends t u → Extends s u
  Extends-trans {s} {t} {u} p q = record { grows = omega (arith, p.grows, q.grows); keeps = keeps }
    where
      keeps :
          (i : ℕ) (node : QuadNode)
          → i < s.node_index
          → get_elem? s.nodes i ≡ some node
          → (node' : QuadNode) × (get_elem? u.nodes i ≡ some node')
            × (node'.depth ≡ node.depth)
            × (node'.bounds ≡ node.bounds)
      keeps i node h e =
          let (node1, e1, d1, b1) = p.keeps i node h e in
          let (node2, e2, d2, b2) = q.keeps i node1 (omega (arith, p.grows)) e1 in
          (node2, e2, d2 ∙ d1, b2 ∙ b1)

  pub IsChild-Extends :
      {s t : QuadTree} {depth c : ℕ} → Extends s t → IsChild s depth c → IsChild t depth c
  IsChild-Extends x h =
      let (node', e, d, b) = x.keeps _ h.node h.in_use h.found in
      record {
        in_use = omega (arith, x.grows, h.in_use);
        node = node';
        found = e;
        one_below = d ∙ h.one_below;
      }

  pub Children-Extends :
      {s t : QuadTree} {i : ℕ} {node node' : QuadNode}
      → Extends s t
      → node'.children ≡ node.children
      → node'.depth ≡ node.depth
      → node'.bounds ≡ node.bounds
      → Children s i node
      → Children t i node'
  Children-Extends x c d b (leaf e) = leaf (c ∙ e)
  Children-Extends {s} {t} {i} {node} {node'} x c d b (inner k e h a0 a1 a2 a3 q) =
      inner k (c ∙ e) h (moved a0) (moved a1) (moved a2) (moved a3) (record {
        first = kept a0.in_use (λ r. quarter0 r) q.first;
        second = kept a1.in_use (λ r. quarter1 r) q.second;
        third = kept a2.in_use (λ r. quarter2 r) q.third;
        fourth = kept a3.in_use (λ r. quarter3 r) q.fourth;
      })
    where
      kept :
          {j : ℕ}
          → j < s.node_index
          → (part : Rectangle → Rectangle) → HasBounds s j (part node.bounds)
          → HasBounds t j (part node'.bounds)
      kept l part (y, at, same) =
          let (y', at', _, b') = x.keeps _ y l at in (y', at', b' ∙ same ∙ ap part (sym b))

      moved : {j : ℕ} → IsChild s node.depth j → IsChild t node'.depth j
      moved a = rw d (IsChild-Extends x a)

  -- A write that leaves depth, bounds and children alone, as `push_back` and `clear` do.
  module _ (tree : QuadTree) (i : ℕ) (node node' : QuadNode) (valid : IsValid tree)
      (found : get_elem? tree.nodes i ≡ some node) (same_children : node'.children ≡ node.children)
      (same_depth : node'.depth ≡ node.depth) (same_bounds : node'.bounds ≡ node.bounds) where
    abbrev written : QuadTree
    written = record tree { nodes = set tree.nodes i node' }

    stored : get_elem? written.nodes i ≡ some node'
    stored = get_elem?-set_self tree.nodes i node' (get_elem?-lt tree.nodes i found)

    pub write-Extends : Extends tree written
    write-Extends = record { grows = omega arith; keeps = keeps }
      where
        keeps :
            (j : ℕ) (x : QuadNode)
            → j < tree.node_index
            → get_elem? tree.nodes j ≡ some x
            → (x' : QuadNode) × (get_elem? written.nodes j ≡ some x')
              × (x'.depth ≡ x.depth)
              × (x'.bounds ≡ x.bounds)
        keeps j x h e = elim (ℕ_discrete i j) [
          | yes p ↦
              let same : node ≡ x = ground (arith, found, e, p) in
              (
                node',
                subst (λ k. get_elem? written.nodes k ≡ some node') p stored,
                same_depth ∙ ap (λ n. n.depth) same,
                same_bounds ∙ ap (λ n. n.bounds) same,
              )
          | no n ↦ (x, get_elem?-set_ne tree.nodes i j node' n ∙ e, refl, refl)
        ]

    weight_same : weight node' ≡ weight node
    unfolding weight
    weight_same = rw (same_children, same_depth)

    potential_same : potential tree.node_index written.nodes ≡ potential tree.node_index tree.nodes
    potential_same = elim (dec_lt i tree.node_index) [
      | yes h ↦ omega (arith, potential-set tree.node_index i tree.nodes node' h found, weight_same)
      | no h ↦ potential-set_beyond tree.node_index i tree.nodes node' (omega arith)
    ]

    pub write-IsValid : IsValid written
    write-IsValid = record {
      sized = length-set tree.nodes i node' ∙ valid.sized;
      budget = omega (arith, valid.budget, potential_same);
      shallow = λ j x h e. elim (get_elem?-set_cases tree.nodes i j node' e) [
        | inl (p, q) ↦
            subst (λ n. n ≤ max_depth) (sym (ap (λ n. n.depth) q ∙ same_depth))
              (valid.shallow i node (omega (arith, p)) found)
        | inr (_, q) ↦ valid.shallow j x h q
      ];
      linked = λ j x h e. elim (get_elem?-set_cases tree.nodes i j node' e) [
        | inl (p, q) ↦
            subst (λ k. Children written k x) p
              (Children-Extends write-Extends (ap (λ n. n.children) q ∙ same_children)
                (ap (λ n. n.depth) q ∙ same_depth) (ap (λ n. n.bounds) q ∙ same_bounds)
                (valid.linked i node (omega (arith, p)) found))
        | inr (_, q) ↦ Children-Extends write-Extends refl refl refl (valid.linked j x h q)
      ];
      unused = λ j x h e. elim (get_elem?-set_cases tree.nodes i j node' e) [
        | inl (p, q) ↦
            ap (λ n. n.children) q ∙ same_children ∙ valid.unused i node (omega (arith, p)) found
        | inr (_, q) ↦ valid.unused j x h q
      ];
    }

-- ===== src/Physics/QuadTree/Subdivide.antt =====
-- `QuadTree::SubdivideNode` of Physics/src/QuadTree.cpp on a leaf above the greatest depth.
use bark_direct_x.Prelude.{
  ℕ, ◌+◌, ◌*◌, ◌≤◌, ◌<◌, ◌≡◌, ◌≢◌, refl, ap, subst, ◌∙◌, ◌⊎◌, inl, inr, some, List, arith, length,
  get_elem?, set, length-set, get_elem?-set_self, get_elem?-set_ne, get_elem?-set_cases,
  get_elem?-some, get_elem?-lt,
}
use bark_direct_x.Prelude.Outcome.{ok}
use native.Mathlib.Decide.{ℕ_discrete}
use bark_direct_x.Math.{Math}
use bark_direct_x.Physics.QuadTree.{
  QuadNode, QuadTree, no_children, max_depth, subdivide_node, adopt, with_children, quarter0,
  quarter1, quarter2, quarter3,
}
use bark_direct_x.Physics.QuadTree.Potential.{
  capacity, weight, potential, capacity_step, potential-set, potential-set_beyond,
  potential-add_one, weight-le-potential,
}
use bark_direct_x.Physics.QuadTree.Valid.{
  IsChild, Children, leaf, inner, IsValid, Extends, Children-Extends,
}

module _ ⦃m : Math⦄ where
  module _ (tree : QuadTree) (i : ℕ) (node : QuadNode) (valid : IsValid tree)
      (in_use : i < tree.node_index) (found : get_elem? tree.nodes i ≡ some node)
      (is_leaf : node.children ≡ no_children) (above : node.depth < max_depth) where
    abbrev k : ℕ
    k = tree.node_index

    weight_node : weight node ≡ 4 + 4 * capacity (node.depth + 1)
    unfolding weight
    weight_node = rw is_leaf (capacity_step node.depth above)

    room : k + 4 ≤ length tree.nodes
    room = omega (
      arith,
      valid.sized,
      valid.budget,
      weight-le-potential k i tree.nodes in_use found,
      weight_node,
    )

    -- Four nodes that the vector still has.
    module _ (x0 x1 x2 x3 : QuadNode) (f0 : get_elem? tree.nodes k ≡ some x0)
        (f1 : get_elem? tree.nodes (k + 1) ≡ some x1) (f2 : get_elem? tree.nodes (k + 2) ≡ some x2)
        (f3 : get_elem? tree.nodes (k + 3) ≡ some x3) where
      abbrev child0 : QuadNode
      child0 = adopt node.depth (quarter0 node.bounds) x0

      abbrev child1 : QuadNode
      child1 = adopt node.depth (quarter1 node.bounds) x1

      abbrev child2 : QuadNode
      child2 = adopt node.depth (quarter2 node.bounds) x2

      abbrev child3 : QuadNode
      child3 = adopt node.depth (quarter3 node.bounds) x3

      abbrev parent : QuadNode
      parent = with_children k node

      abbrev nodes0 : List QuadNode
      nodes0 = set tree.nodes k child0

      abbrev nodes1 : List QuadNode
      nodes1 = set nodes0 (k + 1) child1

      abbrev nodes2 : List QuadNode
      nodes2 = set nodes1 (k + 2) child2

      abbrev nodes3 : List QuadNode
      nodes3 = set nodes2 (k + 3) child3

      abbrev divided : QuadTree
      divided = record { nodes = set nodes3 i parent; node_index = k + 4 }

      read1 : get_elem? nodes0 (k + 1) ≡ some x1
      read1 = get_elem?-set_ne tree.nodes k (k + 1) child0 (omega arith) ∙ f1

      read2 : get_elem? nodes1 (k + 2) ≡ some x2
      read2 =
          get_elem?-set_ne nodes0 (k + 1) (k + 2) child1 (omega arith)
          ∙ get_elem?-set_ne tree.nodes k (k + 2) child0 (omega arith)
          ∙ f2

      read3 : get_elem? nodes2 (k + 3) ≡ some x3
      read3 =
          get_elem?-set_ne nodes1 (k + 2) (k + 3) child2 (omega arith)
          ∙ get_elem?-set_ne nodes0 (k + 1) (k + 3) child1 (omega arith)
          ∙ get_elem?-set_ne tree.nodes k (k + 3) child0 (omega arith)
          ∙ f3

      -- Below the four new nodes nothing has changed yet.
      read_below : (j : ℕ) → j < k → get_elem? nodes3 j ≡ get_elem? tree.nodes j
      read_below j h =
          get_elem?-set_ne nodes2 (k + 3) j child3 (omega arith)
          ∙ get_elem?-set_ne nodes1 (k + 2) j child2 (omega arith)
          ∙ get_elem?-set_ne nodes0 (k + 1) j child1 (omega arith)
          ∙ get_elem?-set_ne tree.nodes k j child0 (omega arith)

      read_parent : get_elem? nodes3 i ≡ some node
      read_parent = read_below i in_use ∙ found

      subdivide_node-divided : subdivide_node tree i ≡ ok divided
      unfolding subdivide_node
      subdivide_node-divided = rw (found, f0, read1, read2, read3, read_parent)

      abbrev IsNew : QuadNode → Type 0
      IsNew x = (x.depth ≡ node.depth + 1) × (x.children ≡ no_children)

      new0 : IsNew child0
      new0 = (refl, valid.unused k x0 (omega arith) f0)

      new1 : IsNew child1
      new1 = (refl, valid.unused (k + 1) x1 (omega arith) f1)

      new2 : IsNew child2
      new2 = (refl, valid.unused (k + 2) x2 (omega arith) f2)

      new3 : IsNew child3
      new3 = (refl, valid.unused (k + 3) x3 (omega arith) f3)

      -- The nodes after the subdivision.
      data Node (j : ℕ) (x : QuadNode) : Type 0 where
        is_parent : i ≡ j → x ≡ parent → Node j x
        is_new : k ≤ j → j < k + 4 → IsNew x → Node j x
        is_old : i ≢ j → (j < k) ⊎ (k + 4 ≤ j) → get_elem? tree.nodes j ≡ some x → Node j x

      IsNew-of : {x y : QuadNode} → x ≡ y → IsNew y → IsNew x
      IsNew-of e (d, c) = (ap (λ n. n.depth) e ∙ d, ap (λ n. n.children) e ∙ c)

      IsNew-cases :
          (j : ℕ) (x : QuadNode)
          → get_elem? nodes3 j ≡ some x
          → ((k ≤ j) × (j < k + 4) × IsNew x)
            ⊎ (((j < k) ⊎ (k + 4 ≤ j)) × (get_elem? tree.nodes j ≡ some x))
      IsNew-cases j x e = elim (get_elem?-set_cases nodes2 (k + 3) j child3 e) [
        | inl (p, q) ↦ inl (omega arith, omega arith, IsNew-of q new3)
        | inr (n3, e3) ↦ elim (get_elem?-set_cases nodes1 (k + 2) j child2 e3) [
          | inl (p, q) ↦ inl (omega arith, omega arith, IsNew-of q new2)
          | inr (n2, e2) ↦ elim (get_elem?-set_cases nodes0 (k + 1) j child1 e2) [
            | inl (p, q) ↦ inl (omega arith, omega arith, IsNew-of q new1)
            | inr (n1, e1) ↦ elim (get_elem?-set_cases tree.nodes k j child0 e1) [
              | inl (p, q) ↦ inl (omega arith, omega arith, IsNew-of q new0)
              | inr (n0, e0) ↦ inr (omega arith, e0)
            ]
          ]
        ]
      ]

      Node-cases : (j : ℕ) (x : QuadNode) → get_elem? divided.nodes j ≡ some x → Node j x
      Node-cases j x e = elim (get_elem?-set_cases nodes3 i j parent e) [
        | inl (p, q) ↦ is_parent p q
        | inr (n, e') ↦ elim (IsNew-cases j x e') [
          | inl (a, b, c) ↦ is_new a b c
          | inr (w, f) ↦ is_old n w f
        ]
      ]

      divided-Extends : Extends tree divided
      divided-Extends = record { grows = omega arith; keeps = keeps }
        where
          keeps :
              (j : ℕ) (x : QuadNode)
              → j < k
              → get_elem? tree.nodes j ≡ some x
              → (x' : QuadNode) × (get_elem? divided.nodes j ≡ some x')
                × (x'.depth ≡ x.depth)
                × (x'.bounds ≡ x.bounds)
          keeps j x h e = elim (ℕ_discrete i j) [
            | yes p ↦
                let same : node ≡ x = ground (arith, found, e, p) in
                (
                  parent,
                  subst (λ l. get_elem? divided.nodes l ≡ some parent) p
                      (get_elem?-set_self nodes3 i parent (get_elem?-lt nodes3 i read_parent)),
                  ap (λ n. n.depth) same,
                  ap (λ n. n.bounds) same,
                )
            | no n ↦ (x, get_elem?-set_ne nodes3 i j parent n ∙ read_below j h ∙ e, refl, refl)
          ]

      -- The four new nodes can still ask for what the divided one could, less themselves.
      weight_new : (x : QuadNode) → IsNew x → weight x ≡ capacity (node.depth + 1)
      unfolding weight
      weight_new x (d, c) = rw (d, c)

      stored3 : get_elem? divided.nodes (k + 3) ≡ some child3
      stored3 =
          get_elem?-set_ne nodes3 i (k + 3) parent (omega arith)
          ∙ get_elem?-set_self nodes2 (k + 3) child3 (get_elem?-lt nodes2 (k + 3) read3)

      stored2 : get_elem? divided.nodes (k + 2) ≡ some child2
      stored2 =
          get_elem?-set_ne nodes3 i (k + 2) parent (omega arith)
          ∙ get_elem?-set_ne nodes2 (k + 3) (k + 2) child3 (omega arith)
          ∙ get_elem?-set_self nodes1 (k + 2) child2 (get_elem?-lt nodes1 (k + 2) read2)

      stored1 : get_elem? divided.nodes (k + 1) ≡ some child1
      stored1 =
          get_elem?-set_ne nodes3 i (k + 1) parent (omega arith)
          ∙ get_elem?-set_ne nodes2 (k + 3) (k + 1) child3 (omega arith)
          ∙ get_elem?-set_ne nodes1 (k + 2) (k + 1) child2 (omega arith)
          ∙ get_elem?-set_self nodes0 (k + 1) child1 (get_elem?-lt nodes0 (k + 1) read1)

      stored0 : get_elem? divided.nodes k ≡ some child0
      stored0 =
          get_elem?-set_ne nodes3 i k parent (omega arith)
          ∙ get_elem?-set_ne nodes2 (k + 3) k child3 (omega arith)
          ∙ get_elem?-set_ne nodes1 (k + 2) k child2 (omega arith)
          ∙ get_elem?-set_ne nodes0 (k + 1) k child1 (omega arith)
          ∙ get_elem?-set_self tree.nodes k child0 (get_elem?-lt tree.nodes k f0)

      potential_rest : potential k divided.nodes + weight node ≡ potential k tree.nodes
      unfolding weight
      potential_rest = omega (
        arith,
        potential-set k i nodes3 parent in_use read_parent,
        potential-set_beyond k (k + 3) nodes2 child3 (omega arith),
        potential-set_beyond k (k + 2) nodes1 child2 (omega arith),
        potential-set_beyond k (k + 1) nodes0 child1 (omega arith),
        potential-set_beyond k k tree.nodes child0 (omega arith),
      )

      potential_new :
          potential (k + 4) divided.nodes
          ≡ potential k divided.nodes + 4 * capacity (node.depth + 1)
      potential_new =
          let to1 : k + 2 ≡ k + 1 + 1 = omega arith in
          let to2 : k + 3 ≡ k + 2 + 1 = omega arith in
          let to3 : k + 4 ≡ k + 3 + 1 = omega arith in
          omega (
            arith,
            ap (λ n. potential n divided.nodes) to3,
            potential-add_one (k + 3) divided.nodes stored3,
            ap (λ n. potential n divided.nodes) to2,
            potential-add_one (k + 2) divided.nodes stored2,
            ap (λ n. potential n divided.nodes) to1,
            potential-add_one (k + 1) divided.nodes stored1,
            potential-add_one k divided.nodes stored0,
            weight_new child0 new0,
            weight_new child1 new1,
            weight_new child2 new2,
            weight_new child3 new3,
          )

      is_child :
          (j : ℕ) (x : QuadNode)
          → j < k + 4
          → get_elem? divided.nodes j ≡ some x
          → IsNew x
          → IsChild divided node.depth j
      is_child j x h e new = record { in_use = h; node = x; found = e; one_below = new.0 }

      length_divided : length divided.nodes ≡ length tree.nodes
      length_divided =
          length-set nodes3 i parent
          ∙ length-set nodes2 (k + 3) child3
          ∙ length-set nodes1 (k + 2) child2
          ∙ length-set nodes0 (k + 1) child1
          ∙ length-set tree.nodes k child0

      Node-shallow : (j : ℕ) (x : QuadNode) → j < k + 4 → Node j x → x.depth ≤ max_depth
      Node-shallow j x h (is_parent p e) = rw e (omega (arith, above))
      Node-shallow j x h (is_new a b c) = omega (arith, c.0, above)
      Node-shallow j x h (is_old n (inl b) f) = valid.shallow j x b f
      Node-shallow j x h (is_old n (inr b) f) = absurd (omega arith)

      Node-linked : (j : ℕ) (x : QuadNode) → j < k + 4 → Node j x → Children divided j x
      Node-linked j x h (is_parent p e) =
          inner k (ap (λ n. n.children) e) (omega arith)
            (rw e (is_child k child0 (omega arith) stored0 new0))
            (rw e (is_child (k + 1) child1 (omega arith) stored1 new1))
            (rw e (is_child (k + 2) child2 (omega arith) stored2 new2))
            (rw e (is_child (k + 3) child3 (omega arith) stored3 new3))
            (rw e (record {
              first = (child0, stored0, refl);
              second = (child1, stored1, refl);
              third = (child2, stored2, refl);
              fourth = (child3, stored3, refl);
            }))
      Node-linked j x h (is_new a b c) = leaf c.1
      Node-linked j x h (is_old n (inl b) f) =
          Children-Extends divided-Extends refl refl refl (valid.linked j x b f)
      Node-linked j x h (is_old n (inr b) f) = absurd (omega arith)

      Node-unused : (j : ℕ) (x : QuadNode) → k + 4 ≤ j → Node j x → x.children ≡ no_children
      Node-unused j x h (is_parent p e) = absurd (omega arith)
      Node-unused j x h (is_new a b c) = absurd (omega arith)
      Node-unused j x h (is_old n w f) = valid.unused j x (omega arith) f

      divided-IsValid : IsValid divided
      divided-IsValid = record {
        sized = length_divided ∙ valid.sized;
        budget = omega (arith, valid.budget, potential_new, potential_rest, weight_node);
        shallow = λ j x h e. Node-shallow j x h (Node-cases j x e);
        linked = λ j x h e. Node-linked j x h (Node-cases j x e);
        unused = λ j x h e. Node-unused j x h (Node-cases j x e);
      }

    -- On a valid tree, `SubdivideNode` of a leaf in use above the greatest depth returns normally:
    -- the four nodes that it takes lie within the vector. The tree it leaves is valid, nodes in use
    -- keep their depths and bounds, the divided node has the four new children, and no other node
    -- that was in use has changed.
    pub subdivide_node-IsValid :
        (tree' : QuadTree) × (subdivide_node tree i ≡ ok tree')
        × IsValid tree'
        × Extends tree tree'
        × (get_elem? tree'.nodes i ≡ some (with_children tree.node_index node))
        × ((j : ℕ) → j < tree.node_index → i ≢ j → get_elem? tree'.nodes j ≡ get_elem? tree.nodes j)
    subdivide_node-IsValid =
        let (x0, f0) = get_elem?-some tree.nodes k (omega (arith, room)) in
        let (x1, f1) = get_elem?-some tree.nodes (k + 1) (omega (arith, room)) in
        let (x2, f2) = get_elem?-some tree.nodes (k + 2) (omega (arith, room)) in
        let (x3, f3) = get_elem?-some tree.nodes (k + 3) (omega (arith, room)) in
        (
          divided x0 x1 x2 x3 f0 f1 f2 f3,
          subdivide_node-divided x0 x1 x2 x3 f0 f1 f2 f3,
          divided-IsValid x0 x1 x2 x3 f0 f1 f2 f3,
          divided-Extends x0 x1 x2 x3 f0 f1 f2 f3,
          get_elem?-set_self (nodes3 x0 x1 x2 x3 f0 f1 f2 f3) i (parent x0 x1 x2 x3 f0 f1 f2 f3)
              (get_elem?-lt _ i (read_parent x0 x1 x2 x3 f0 f1 f2 f3)),
          λ j h n.
              get_elem?-set_ne (nodes3 x0 x1 x2 x3 f0 f1 f2 f3) i j (parent x0 x1 x2 x3 f0 f1 f2 f3)
                n
              ∙ read_below x0 x1 x2 x3 f0 f1 f2 f3 j h,
        )

-- ===== src/Physics/QuadTree/Filed.antt =====
-- Where the quadtree keeps an entry: in every leaf that is reached through nodes whose bounds the
-- entry's box intersects. This is what the search for collisions relies on.
use bark_direct_x.Prelude.{
  ℕ, ◌+◌, ◌<◌, ◌≡◌, sym, ap, subst, ◌∙◌, true, some, arith, get_elem?, set, get_elem?-set_self,
  get_elem?-set_ne, get_elem?-lt,
}
use native.Mathlib.Decide.{ℕ_discrete}
use bark_direct_x.Math.{Math}
use bark_direct_x.Shape.Intersect.{rectangle_rectangle}
use bark_direct_x.Physics.QuadTree.{ColliderRefAabb, QuadNode, QuadTree, block, no_children}
use bark_direct_x.Physics.QuadTree.Valid.{
  IsValid, Extends, Extends-refl, Extends-trans, write-Extends,
}

module _ ⦃m : Math⦄ where
  -- The entry stands somewhere in the node's own list.
  abbrev pub Holds : QuadNode → ColliderRefAabb → Type 0
  Holds node e = (n : ℕ) × (get_elem? node.collider_ref_aabbs n ≡ some e)

  pub data Filed (tree : QuadTree) (e : ColliderRefAabb) : ℕ → Type 0 where
    in_leaf :
        {i : ℕ} (node : QuadNode)
        → get_elem? tree.nodes i ≡ some node
        → node.children ≡ no_children
        → Holds node e
        → Filed tree e i
    below :
        {i : ℕ} (node : QuadNode) (k : ℕ) (child : (t : ℕ) → t < 4 → QuadNode)
        → get_elem? tree.nodes i ≡ some node
        → node.children ≡ block k
        → k + 3 < tree.node_index
        → ((t : ℕ) (l : t < 4) → get_elem? tree.nodes (k + t) ≡ some (child t l))
        → ((t : ℕ) (l : t < 4)
            → rectangle_rectangle e.aabb (child t l).bounds ≡ true
            → Filed tree e (k + t))
        → Filed tree e i

  -- From `s` to `t` no leaf loses an entry, unless to its new children, and no node its children.
  pub record Keeps (s t : QuadTree) : Type 0 where
    pub extends : Extends s t
    pub leaves :
        (i : ℕ) (node : QuadNode)
        → i < s.node_index
        → get_elem? s.nodes i ≡ some node
        → node.children ≡ no_children
        → (e : ColliderRefAabb) → Holds node e
        → Filed t e i
    pub inners :
        (i k : ℕ) (node : QuadNode)
        → i < s.node_index
        → get_elem? s.nodes i ≡ some node
        → node.children ≡ block k
        → (node' : QuadNode) × (get_elem? t.nodes i ≡ some node') × (node'.children ≡ block k)

  pub Filed-Keeps :
      (s t : QuadTree) (e : ColliderRefAabb) (i : ℕ)
      → Keeps s t
      → i < s.node_index
      → Filed s e i
      → Filed t e i
  Filed-Keeps s t e i keeps h (in_leaf node found c holds) = keeps.leaves i node h found c e holds
  Filed-Keeps s t e i keeps h (below node k child found c room at under) =
      let (node', found', c') = keeps.inners i k node h found c in
      let x = keeps.extends.keeps in
      let moved = λ (j : ℕ) (l : j < 4). x (k + j) (child j l) (omega arith) (at j l) in
      below node' k (λ j l. (moved j l).0) found' c' (omega (arith, keeps.extends.grows))
        (λ j l. (moved j l).1)
        (λ j l hit.
          Filed-Keeps s t e (k + j) keeps (omega arith)
            (under j l (subst (λ b. rectangle_rectangle e.aabb b ≡ true) (moved j l).3 hit)))

  pub Keeps-refl : (s : QuadTree) → Keeps s s
  Keeps-refl s = record {
    extends = Extends-refl s;
    leaves = λ i node h found c e holds. in_leaf node found c holds;
    inners = λ i k node h found c. (node, found, c);
  }

  pub Keeps-trans : {s t u : QuadTree} → Keeps s t → Keeps t u → Keeps s u
  Keeps-trans {s} {t} {u} p q = record {
    extends = Extends-trans p.extends q.extends;
    leaves = λ i node h found c e holds.
        Filed-Keeps t u e i q (omega (arith, p.extends.grows)) (p.leaves i node h found c e holds);
    inners = λ i k node h found c.
        let (node', found', c') = p.inners i k node h found c in
        q.inners i k node' (omega (arith, p.extends.grows)) found' c';
  }

  -- A write that leaves depth, bounds and children alone, and takes no entry from a leaf.
  module _ (tree : QuadTree) (i : ℕ) (node node' : QuadNode) (valid : IsValid tree)
      (found : get_elem? tree.nodes i ≡ some node) (same_children : node'.children ≡ node.children)
      (same_depth : node'.depth ≡ node.depth) (same_bounds : node'.bounds ≡ node.bounds)
      (takes_none : node.children ≡ no_children
        → (e : ColliderRefAabb) → Holds node e
        → Holds node' e) where
    abbrev after_write : QuadTree
    after_write = record tree { nodes = set tree.nodes i node' }

    read_written : (j : ℕ) → i ≡ j → get_elem? after_write.nodes j ≡ some node'
    read_written j p =
        subst (λ l. get_elem? after_write.nodes l ≡ some node') p
          (get_elem?-set_self tree.nodes i node' (get_elem?-lt tree.nodes i found))

    same_node : (j : ℕ) (x : QuadNode) → i ≡ j → get_elem? tree.nodes j ≡ some x → node ≡ x
    same_node j x p at = ground (arith, found, at, p)

    pub write-Keeps : Keeps tree after_write
    write-Keeps = record {
      extends = write-Extends tree i node node' valid found same_children same_depth same_bounds;
      leaves = λ j x h at c e holds. elim (ℕ_discrete i j) [
        | yes p ↦
            let same = same_node j x p at in
            let c' : node.children ≡ no_children = ap (λ n. n.children) same ∙ c in
            in_leaf node' (read_written j p) (same_children ∙ c')
              (takes_none c' e (subst (λ n. Holds n e) (sym same) holds))
        | no n ↦ in_leaf x (get_elem?-set_ne tree.nodes i j node' n ∙ at) c holds
      ];
      inners = λ j k x h at c. elim (ℕ_discrete i j) [
        | yes p ↦
            (node', read_written j p, same_children ∙ ap (λ n. n.children) (same_node j x p at) ∙ c)
        | no n ↦ (x, get_elem?-set_ne tree.nodes i j node' n ∙ at, c)
      ];
    }

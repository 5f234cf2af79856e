-- ===== src/Physics/QuadTree/Insert.antt =====
-- `QuadTree::Insert` of Physics/src/QuadTree.cpp on a valid tree.
use bark_direct_x.Prelude.{
  ℕ, zero, suc, ◌+◌, ◌<◌, ◌≡◌, ◌≢◌, refl, subst, ◌∙◌, inl, inr, true, some, [], ◌∷◌, arith, length,
  get_elem?, set, get_elem?-set_self, get_elem?-set_ne, get_elem?-lt, get_elem?-append_left,
  get_elem?-append_right, Bool-cases, leb, ltb, ◌&&◌,
}
use native.Mathlib.Decide.{ℕ_discrete}
use bark_direct_x.Math.{Math}
use bark_direct_x.Physics.QuadTree.{
  ColliderRefAabb, QuadNode, QuadTree, Call, block, no_children, max_depth, max_col_nbr,
  with_children, push, clear, update, split, insert_in, insert,
}
use bark_direct_x.Shape.Intersect.{rectangle_rectangle}
use bark_direct_x.Physics.QuadTree.Valid.{
  IsChild, Children, leaf, inner, IsValid, Extends, Extends-trans, IsChild-Extends, write-Extends,
  write-IsValid,
}
use bark_direct_x.Physics.QuadTree.Subdivide.{subdivide_node-IsValid}
use bark_direct_x.Physics.QuadTree.Filed.{
  Filed, in_leaf, below, Holds, Keeps, Filed-Keeps, Keeps-trans, write-Keeps,
}
use bark_direct_x.Physics.QuadTree.Settled.{Settles, Filed-Settles}
use bark_direct_x.Physics.QuadTree.Loops.{
  Returns, Inserts, AreChildren, Met, AllMet, offer_children-Returns, distribute-Returns,
}

module _ ⦃m : Math⦄ where
  Holds-old : (node : QuadNode) (e e' : ColliderRefAabb) → Holds node e' → Holds (push e node) e'
  Holds-old node e e' (n, at) = (
    n,
    get_elem?-append_left node.collider_ref_aabbs (e ∷ []) n
          (get_elem?-lt node.collider_ref_aabbs n at)
        ∙ at,
  )

  Holds-new : (node : QuadNode) (e : ColliderRefAabb) → Holds (push e node) e
  Holds-new node e = (
    length node.collider_ref_aabbs + 0,
    get_elem?-append_right node.collider_ref_aabbs (e ∷ []) 0,
  )

  -- `push_back` at a leaf.
  push-Returns :
      (tree : QuadTree) (i : ℕ) (e : ColliderRefAabb) (node : QuadNode)
      → IsValid tree
      → get_elem? tree.nodes i ≡ some node
      → node.children ≡ no_children
      → Returns tree (update tree i (push e)) (λ t. Filed t e i)
  push-Returns tree i e node v found c = (
    record tree { nodes = set tree.nodes i (push e node) },
    rw found,
    write-IsValid tree i node (push e node) v found refl refl refl,
    write-Keeps tree i node (push e node) v found refl refl refl (λ _ e' h. Holds-old node e e' h),
    in_leaf (push e node)
        (get_elem?-set_self tree.nodes i (push e node) (get_elem?-lt tree.nodes i found)) c
        (Holds-new node e),
  )

  block-AreChildren :
      (tree : QuadTree) (i : ℕ) (node : QuadNode)
      → Children tree i node
      → (k : ℕ) → node.children ≡ block k
      → AreChildren node.depth tree (block k)
  block-AreChildren tree i node (leaf e) k p = absurd (ground (arith, e, p))
  block-AreChildren tree i node (inner j e h a0 a1 a2 a3 _) k p =
      let same : j ≡ k = ground (arith, e, p) in rw (← same) (a0, (a1, (a2, (a3, tt))))

  nth-IsChild :
      (depth : ℕ) (tree : QuadTree) (k t : ℕ)
      → t < 4
      → AreChildren depth tree (block k)
      → IsChild tree depth (k + t)
  nth-IsChild depth tree k zero l h =
      let e : k ≡ k + 0 = omega arith in subst (IsChild tree depth) e h.0
  nth-IsChild depth tree k (suc zero) l h = h.1.0
  nth-IsChild depth tree k (suc (suc zero)) l h = h.1.1.0
  nth-IsChild depth tree k (suc (suc (suc zero))) l h = h.1.1.1.0
  nth-IsChild depth tree k (suc (suc (suc (suc t)))) l h = absurd (omega arith)

  nth-Met :
      (s t : QuadTree) (e : ColliderRefAabb) (k n : ℕ)
      → n < 4
      → AllMet s t e (block k)
      → Met s t e (k + n)
  nth-Met s t e k zero l h = let p : k ≡ k + 0 = omega arith in subst (Met s t e) p h.0
  nth-Met s t e k (suc zero) l h = h.1.0
  nth-Met s t e k (suc (suc zero)) l h = h.1.1.0
  nth-Met s t e k (suc (suc (suc zero))) l h = h.1.1.1.0
  nth-Met s t e k (suc (suc (suc (suc n)))) l h = absurd (omega arith)

  -- An entry that the four children have been offered is filed at their parent.
  below_all :
      (s t : QuadTree) (e : ColliderRefAabb) (i k depth : ℕ) (node : QuadNode)
      → get_elem? t.nodes i ≡ some node
      → node.children ≡ block k
      → Keeps s t
      → AreChildren depth s (block k)
      → AllMet s t e (block k)
      → Filed t e i
  below_all s t e i k depth node found c x kids mets =
      let moved = λ (j : ℕ) (l : j < 4).
        (let kid = nth-IsChild depth s k j l kids in
          x.extends.keeps (k + j) kid.node kid.in_use kid.found) in
      below node k (λ j l. (moved j l).0) found c
        (IsChild-Extends x.extends (nth-IsChild depth s k 3 (omega arith) kids)).in_use
        (λ j l. (moved j l).1)
        (λ j l hit.
          let kid = nth-IsChild depth s k j l kids in
          nth-Met s t e k j l mets kid.node kid.found
            (subst (λ b. rectangle_rectangle e.aabb b ≡ true) (moved j l).3 hit))

  -- The tree that `split` leaves, related to the one before it.
  module _ (tree tree2 tree4 : QuadTree) (i : ℕ) (node pushed : QuadNode)
      (found : get_elem? tree.nodes i ≡ some node) (is_leaf : node.children ≡ no_children)
      (extends : Extends tree tree2) (keeps : Keeps tree2 tree4)
      (others : (j : ℕ)
        → j < tree.node_index
        → i ≢ j
        → get_elem? tree2.nodes j ≡ get_elem? tree.nodes j)
      (took : (e : ColliderRefAabb) → Holds pushed e → Filed tree4 e i)
      (held : (e : ColliderRefAabb) → Holds node e → Holds pushed e) where
    split-Keeps : Keeps tree tree4
    split-Keeps = record {
      extends = Extends-trans extends keeps.extends;
      leaves = λ j x h at c e holds. elim (ℕ_discrete i j) [
        | yes p ↦
            let same : x ≡ node = ground (arith, found, at, p) in
            subst (Filed tree4 e) p (took e (held e (subst (λ n. Holds n e) same holds)))
        | no n ↦ keeps.leaves j x (omega (arith, extends.grows)) (others j h n ∙ at) c e holds
      ];
      inners = λ j k x h at c. elim (ℕ_discrete i j) [
        | yes p ↦ absurd (ground (arith, found, at, p, c, is_leaf))
        | no n ↦ keeps.inners j k x (omega (arith, extends.grows)) (others j h n ∙ at) c
      ];
    }

  split-Returns :
      (call : Call) (tree : QuadTree) (i : ℕ) (node : QuadNode) (e : ColliderRefAabb)
      → Inserts call node.depth
      → IsValid tree
      → i < tree.node_index
      → get_elem? tree.nodes i ≡ some node
      → node.children ≡ no_children
      → node.depth < max_depth
      → Returns tree (split call tree i e) (λ t. Filed t e i)
  unfolding split
  split-Returns call tree i node e inserts v h found is_leaf above =
      let (tree1, eq1, v1, x1, at1, others1) =
        subdivide_node-IsValid tree i node v h found is_leaf above in
      let k = tree.node_index in
      let divided : QuadNode = with_children k node in
      let pushed : QuadNode = push e divided in
      let tree2 : QuadTree = record tree1 { nodes = set tree1.nodes i pushed } in
      let v2 = write-IsValid tree1 i divided pushed v1 at1 refl refl refl in
      let x2 = write-Extends tree1 i divided pushed v1 at1 refl refl refl in
      let at2 : get_elem? tree2.nodes i ≡ some pushed =
        get_elem?-set_self tree1.nodes i pushed (get_elem?-lt tree1.nodes i at1) in
      let h2 : i < tree2.node_index = omega (arith, x1.grows) in
      let kids = block-AreChildren tree2 i pushed (v2.linked i pushed h2 at2) k refl in
      let (tree3, eq3, v3, x3, mets) =
        distribute-Returns call node.depth inserts tree2 (block k) pushed.collider_ref_aabbs v2
          kids in
      let (node3, at3, c3) = x3.inners i k pushed h2 at2 refl in
      let tree4 : QuadTree = record tree3 { nodes = set tree3.nodes i (clear node3) } in
      let x4 : Keeps tree3 tree4 =
        write-Keeps tree3 i node3 (clear node3) v3 at3 refl refl refl
          (λ c. absurd (ground (arith, c, c3))) in
      let at4 : get_elem? tree4.nodes i ≡ some (clear node3) =
        get_elem?-set_self tree3.nodes i (clear node3) (get_elem?-lt tree3.nodes i at3) in
      let x24 = Keeps-trans x3 x4 in
      let took : (e' : ColliderRefAabb) → Holds pushed e' → Filed tree4 e' i = λ e' holds.
        Filed-Keeps tree3 tree4 e' i x4 (omega (arith, x3.extends.grows)) (
          below_all tree2 tree3 e' i k node.depth node3 at3 c3 x3 kids (mets holds.0 e' holds.1)) in
      (
        tree4,
        rw (eq1, at1, at2, eq3, at3),
        write-IsValid tree3 i node3 (clear node3) v3 at3 refl refl refl,
        split-Keeps tree tree2 tree4 i node pushed found is_leaf (Extends-trans x1 x2) x24
            (λ j l n. get_elem?-set_ne tree1.nodes i j pushed n ∙ others1 j l n) took
            (λ e' holds. Holds-old divided e e' holds),
        took e (Holds-new divided e),
      )

  insert_in-Returns :
      (call : Call) (tree : QuadTree) (i : ℕ) (node : QuadNode) (e : ColliderRefAabb)
      → Inserts call node.depth
      → IsValid tree
      → i < tree.node_index
      → get_elem? tree.nodes i ≡ some node
      → Returns tree (insert_in call tree i node e) (λ t. Filed t e i)
  unfolding insert_in
  insert_in-Returns call tree i node e inserts v h found = cases (v.linked i node h found)
    where
      cases : Children tree i node → Returns tree (insert_in call tree i node e) (λ t. Filed t e i)
      cases (leaf c) =
          elim (Bool-cases
            (leb max_col_nbr (length node.collider_ref_aabbs) && ltb node.depth max_depth)) [
              | inl full ↦
                  rw (c, full) (split-Returns call tree i node e inserts v h found c (ground arith))
              | inr fits ↦ rw (c, fits) (push-Returns tree i e node v found c)
            ]
      cases (inner k c a a0 a1 a2 a3 _) =
          let kids : AreChildren node.depth tree (block k) = (a0, (a1, (a2, (a3, tt)))) in
          let (t, eq, w, x, met) =
            offer_children-Returns call node.depth inserts tree (block k) e v kids in
          let (node', at', c') = x.inners i k node h found c in
          (t, rw c eq, w, x, below_all tree t e i k node.depth node' at' c' x kids met)

  pub insert-Filed :
      (fuel : ℕ) (tree : QuadTree) (i : ℕ) (e : ColliderRefAabb) {node : QuadNode}
      → IsValid tree
      → i < tree.node_index
      → get_elem? tree.nodes i ≡ some node
      → max_depth < node.depth + fuel
      → Returns tree (insert fuel tree i e) (λ t. Filed t e i)
  unfolding insert
  insert-Filed zero tree i e {node} v h found enough =
      absurd (omega (arith, v.shallow i node h found))
  insert-Filed (suc fuel) tree i e {node} v h found enough = rw found (
      insert_in-Returns (insert fuel) tree i node e
        (λ t c x w a. insert-Filed fuel t c x w a.in_use a.found (omega (arith, a.one_below))) v h
        found)

  -- Each entry of a leaf of `s` settles at that node of `t`.
  abbrev pub AllSettle : QuadTree → QuadTree → Type 0
  AllSettle s t =
      (j : ℕ) (leaf : QuadNode) (e : ColliderRefAabb)
      → j < s.node_index
      → get_elem? s.nodes j ≡ some leaf
      → leaf.children ≡ no_children
      → Holds leaf e
      → Settles t e j

  -- On a valid tree, `Insert` at a node in use returns normally if the fuel exceeds the levels that
  -- are left: every pointer that it follows and every node that it takes lies within the vector, and
  -- the recursion ends. The tree it leaves is valid. The new entry is filed below `i`: in each leaf
  -- that is reached through nodes whose bounds its box meets; every entry that a leaf held is filed
  -- in the same way below that leaf. For the new entry and for each of those, at least one of two
  -- things is so: such a leaf holds it, or there is on the way down a node with four children none of
  -- whose bounds its box meets, where `Insert` drops it.
  pub insert-Returns :
      (fuel : ℕ) (tree : QuadTree) (i : ℕ) (e : ColliderRefAabb) {node : QuadNode}
      → IsValid tree
      → i < tree.node_index
      → get_elem? tree.nodes i ≡ some node
      → max_depth < node.depth + fuel
      → Returns tree (insert fuel tree i e) (λ t. Filed t e i × Settles t e i × AllSettle tree t)
  insert-Returns fuel tree i e v h found enough =
      let (t, eq, w, keeps, filed) = insert-Filed fuel tree i e v h found enough in
      (
        t,
        eq,
        w,
        keeps,
        (
          filed,
          Filed-Settles t e i filed,
          λ j x e' l at c holds. Filed-Settles t e' j (keeps.leaves j x l at c e' holds),
        ),
      )

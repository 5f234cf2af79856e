-- ===== src/Physics/QuadTree/Entries.antt =====
-- Where the entries of the quadtree of Physics/src/QuadTree.cpp come from.
use bark_direct_x.Prelude.{
  ℕ, zero, suc, ◌+◌, ◌≡◌, refl, sym, subst, ◌&&◌, inl, inr, Option, none, some, List, [], ◌∷◌, ◌++◌,
  map, arith, length, get_elem?, set, get_elem?-set_cases, Option-cases, Bool-cases, ltb, leb,
}
use bark_direct_x.Prelude.Outcome.{ok, >>=-eq-ok, at, modify}
use bark_direct_x.Math.{Math}
use bark_direct_x.Shape.Rectangle.{Rectangle}
use bark_direct_x.Shape.Intersect.{rectangle_rectangle}
use bark_direct_x.Physics.QuadTree.{
  ColliderRefAabb, QuadNode, QuadTree, Call, max_col_nbr, max_depth, has_children, clear_node,
  set_up_root, adopt, with_children, subdivide_node, quarter0, quarter1, quarter2, quarter3, push,
  clear, update, offer, offer_children, offer_entries, distribute, split, insert_in, insert,
}

-- `v[i]` that succeeds.
pub at-eq-ok {ℓ} :
    {A : Type ℓ} (xs : List A) (i : ℕ) {a : A} → at xs i ≡ ok a → get_elem? xs i ≡ some a
at-eq-ok xs i h = elim (Option-cases (get_elem? xs i)) [
  | inl e ↦ absurd (ground (arith, h, e))
  | inr (a, e) ↦ ground (arith, h, e)
]

module _ ⦃m : Math⦄ (P : ColliderRefAabb → Type 0) where
  abbrev pub OnlyList : List ColliderRefAabb → Type 0
  OnlyList es = (n : ℕ) (e : ColliderRefAabb) → get_elem? es n ≡ some e → P e

  -- All entries of all nodes satisfy `P`.
  abbrev pub Only : List QuadNode → Type 0
  Only nodes =
      (i : ℕ) (node : QuadNode) → get_elem? nodes i ≡ some node → OnlyList node.collider_ref_aabbs

  OnlyList-push :
      (es : List ColliderRefAabb) (e : ColliderRefAabb)
      → OnlyList es
      → P e
      → OnlyList (es ++ e ∷ [])
  OnlyList-push [] e only p zero x h = let same : e ≡ x = ground (arith, h) in subst P same p
  OnlyList-push [] e only p (suc n) x h = absurd (ground (arith, h))
  OnlyList-push (y ∷ ys) e only p zero x h = only 0 x h
  OnlyList-push (y ∷ ys) e only p (suc n) x h = OnlyList-push ys e (λ k z. only (suc k) z) p n x h

  modify-Only :
      (nodes : List QuadNode) (i : ℕ) (f : QuadNode → QuadNode) {nodes' : List QuadNode}
      → modify nodes i f ≡ ok nodes'
      → ((node : QuadNode)
          → OnlyList node.collider_ref_aabbs
          → OnlyList (f node).collider_ref_aabbs)
      → Only nodes
      → Only nodes'
  modify-Only nodes i f {nodes'} h keeps only j node at =
      let (old, found, same) = >>=-eq-ok _ (λ a. ok (set nodes i (f a))) h in
      let shape : set nodes i (f old) ≡ nodes' = ground (arith, same) in
      elim (get_elem?-set_cases nodes i j (f old)
        (subst (λ (ns : List QuadNode). get_elem? ns j ≡ some node) (sym shape) at)) [
          | inl (_, e) ↦
              subst (λ (x : QuadNode). OnlyList x.collider_ref_aabbs) (sym e)
                (keeps old (only i old (at-eq-ok nodes i found)))
          | inr (_, e) ↦ only j node e
        ]

  update-Only :
      (tree : QuadTree) (i : ℕ) (f : QuadNode → QuadNode) {t : QuadTree}
      → update tree i f ≡ ok t
      → ((node : QuadNode)
          → OnlyList node.collider_ref_aabbs
          → OnlyList (f node).collider_ref_aabbs)
      → Only tree.nodes
      → Only t.nodes
  update-Only tree i f {t} h keeps only =
      let (nodes, e, same) =
        >>=-eq-ok (modify tree.nodes i f) (λ nodes. ok (record tree { nodes = nodes })) h in
      let shape : nodes ≡ t.nodes = ground (arith, same) in
      subst Only shape (modify-Only tree.nodes i f e keeps only)

  subdivide_node-Only :
      (tree : QuadTree) (i : ℕ) {t : QuadTree}
      → subdivide_node tree i ≡ ok t
      → Only tree.nodes
      → Only t.nodes
  unfolding subdivide_node
  subdivide_node-Only tree i {t} h only =
      let k = tree.node_index in
      let (node, _, h0) = >>=-eq-ok (at tree.nodes i) _ h in
      let f0 = adopt node.depth (quarter0 node.bounds) in
      let f1 = adopt node.depth (quarter1 node.bounds) in
      let f2 = adopt node.depth (quarter2 node.bounds) in
      let f3 = adopt node.depth (quarter3 node.bounds) in
      let (nodes0, e0, h1) = >>=-eq-ok (modify tree.nodes k f0) _ h0 in
      let (nodes1, e1, h2) = >>=-eq-ok (modify nodes0 (k + 1) f1) _ h1 in
      let (nodes2, e2, h3) = >>=-eq-ok (modify nodes1 (k + 2) f2) _ h2 in
      let (nodes3, e3, h4) = >>=-eq-ok (modify nodes2 (k + 3) f3) _ h3 in
      let (nodes4, e4, same) = >>=-eq-ok (modify nodes3 i (with_children k)) _ h4 in
      let only0 = modify-Only tree.nodes k f0 e0 (λ _ o. o) only in
      let only1 = modify-Only nodes0 (k + 1) f1 e1 (λ _ o. o) only0 in
      let only2 = modify-Only nodes1 (k + 2) f2 e2 (λ _ o. o) only1 in
      let only3 = modify-Only nodes2 (k + 3) f3 e3 (λ _ o. o) only2 in
      let only4 = modify-Only nodes3 i (with_children k) e4 (λ _ o. o) only3 in
      let shape : nodes4 ≡ t.nodes = ground (arith, same) in subst Only shape only4

  -- What the recursive call stores.
  abbrev Stores : Call → Type 0
  Stores call =
      (tree : QuadTree) (c : ℕ) (e : ColliderRefAabb) (t : QuadTree)
      → call tree c e ≡ ok t
      → P e
      → Only tree.nodes
      → Only t.nodes

  module _ (call : Call) (stores : Stores call) where
    offer-Only :
        (c : Option ℕ) (e : ColliderRefAabb) (tree : QuadTree) {t : QuadTree}
        → offer call c e tree ≡ ok t
        → P e
        → Only tree.nodes
        → Only t.nodes
    unfolding offer
    offer-Only none e tree h p only = cc
    offer-Only (some c) e tree {t} h p only =
        let (child, _, h') = >>=-eq-ok (at tree.nodes c) _ h in
        elim (Bool-cases (rectangle_rectangle e.aabb child.bounds)) [
          | inl hit ↦ stores tree c e t (ground (arith, h', hit)) p only
          | inr miss ↦
              let same : tree ≡ t = ground (arith, h', miss) in
              subst (λ (x : QuadTree). Only x.nodes) same only
        ]

    offer_children-Only :
        (cs : List (Option ℕ)) (e : ColliderRefAabb) (tree : QuadTree) {t : QuadTree}
        → offer_children call cs e tree ≡ ok t
        → P e
        → Only tree.nodes
        → Only t.nodes
    unfolding offer_children
    offer_children-Only [] e tree {t} h p only =
        let same : tree ≡ t = ground (arith, h) in subst (λ (x : QuadTree). Only x.nodes) same only
    offer_children-Only (c ∷ cs) e tree h p only =
        let (tree', h1, h2) = >>=-eq-ok (offer call c e tree) _ h in
        offer_children-Only cs e tree' h2 p (offer-Only c e tree h1 p only)

    offer_entries-Only :
        (c : Option ℕ) (es : List ColliderRefAabb) (tree : QuadTree) {t : QuadTree}
        → offer_entries call c es tree ≡ ok t
        → OnlyList es
        → Only tree.nodes
        → Only t.nodes
    unfolding offer_entries
    offer_entries-Only c [] tree {t} h ps only =
        let same : tree ≡ t = ground (arith, h) in subst (λ (x : QuadTree). Only x.nodes) same only
    offer_entries-Only c (e ∷ es) tree h ps only =
        let (tree', h1, h2) = >>=-eq-ok (offer call c e tree) _ h in
        offer_entries-Only c es tree' h2 (λ n x at. ps (suc n) x at)
          (offer-Only c e tree h1 (ps 0 e refl) only)

    distribute-Only :
        (cs : List (Option ℕ)) (es : List ColliderRefAabb) (tree : QuadTree) {t : QuadTree}
        → distribute call cs es tree ≡ ok t
        → OnlyList es
        → Only tree.nodes
        → Only t.nodes
    unfolding distribute
    distribute-Only [] es tree {t} h ps only =
        let same : tree ≡ t = ground (arith, h) in subst (λ (x : QuadTree). Only x.nodes) same only
    distribute-Only (c ∷ cs) es tree h ps only =
        let (tree', h1, h2) = >>=-eq-ok (offer_entries call c es tree) _ h in
        distribute-Only cs es tree' h2 ps (offer_entries-Only c es tree h1 ps only)

    split-Only :
        (tree : QuadTree) (i : ℕ) (e : ColliderRefAabb) {t : QuadTree}
        → split call tree i e ≡ ok t
        → P e
        → Only tree.nodes
        → Only t.nodes
    unfolding split
    split-Only tree i e h p only =
        let (tree1, e1, h1) = >>=-eq-ok (subdivide_node tree i) _ h in
        let (tree2, e2, h2) = >>=-eq-ok (update tree1 i (push e)) _ h1 in
        let (node, e3, h3) = >>=-eq-ok (at tree2.nodes i) _ h2 in
        let (tree3, e4, h4) =
          >>=-eq-ok (distribute call node.children node.collider_ref_aabbs tree2) _ h3 in
        let only1 = subdivide_node-Only tree i e1 only in
        let only2 =
          update-Only tree1 i (push e) e2 (λ x o. OnlyList-push x.collider_ref_aabbs e o p) only1 in
        let entries = only2 i node (at-eq-ok tree2.nodes i e3) in
        let only3 = distribute-Only node.children node.collider_ref_aabbs tree2 e4 entries only2 in
        update-Only tree3 i clear h4 (λ x o n z at. absurd (ground (arith, at))) only3

    insert_in-Only :
        (tree : QuadTree) (i : ℕ) (node : QuadNode) (e : ColliderRefAabb) {t : QuadTree}
        → insert_in call tree i node e ≡ ok t
        → P e
        → Only tree.nodes
        → Only t.nodes
    unfolding insert_in
    insert_in-Only tree i node e {t} h p only = elim (Bool-cases (has_children node.children)) [
      | inl inner ↦
          offer_children-Only node.children e tree {t = t} (ground (arith, h, inner)) p only
      | inr leaf ↦
          elim (Bool-cases
            (leb max_col_nbr (length node.collider_ref_aabbs) && ltb node.depth max_depth)) [
              | inl full ↦ split-Only tree i e {t = t} (ground (arith, h, leaf, full)) p only
              | inr fits ↦
                  update-Only tree i (push e) {t = t} (ground (arith, h, leaf, fits))
                    (λ x o. OnlyList-push x.collider_ref_aabbs e o p) only
            ]
    ]

  -- When `Insert` returns, all entries of the tree satisfy what the new one and the old ones did.
  pub insert-Only : (fuel : ℕ) → Stores (insert fuel)
  unfolding insert
  insert-Only zero tree i e t h p only = absurd (ground (arith, h))
  insert-Only (suc fuel) tree i e t h p only =
      let (node, _, h') = >>=-eq-ok (at tree.nodes i) _ h in
      insert_in-Only (insert fuel) (insert-Only fuel) tree i node e h' p only

  map-clear-Only : (nodes : List QuadNode) → Only (map clear_node nodes)
  unfolding clear_node
  map-clear-Only [] i node at = absurd (ground (arith, at))
  map-clear-Only (x ∷ xs) zero node at =
      let same : clear_node x ≡ node = ground (arith, at) in
      subst (λ (y : QuadNode). OnlyList y.collider_ref_aabbs) same
        (λ n e h. absurd (ground (arith, h)))
  map-clear-Only (x ∷ xs) (suc i) node at = map-clear-Only xs i node at

  -- `SetUpRoot` leaves no entry.
  pub set_up_root-Only :
      (tree : QuadTree) (bounds : Rectangle) {t : QuadTree}
      → set_up_root tree bounds ≡ ok t
      → Only t.nodes
  unfolding set_up_root
  set_up_root-Only tree bounds {t} h =
      let f : QuadNode → QuadNode = λ root. record root { bounds = bounds } in
      let (nodes, e, same) = >>=-eq-ok (modify (map clear_node tree.nodes) 0 f) _ h in
      let shape : nodes ≡ t.nodes = ground (arith, same) in
      subst Only shape
        (modify-Only (map clear_node tree.nodes) 0 f e (λ _ o. o) (map-clear-Only tree.nodes))

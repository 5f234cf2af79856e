-- ===== src/Physics/QuadTree/Settled.antt =====
-- What becomes of an entry that `QuadTree::Insert` in Physics/src/QuadTree.cpp hands down: it stands in
-- a leaf, or it is dropped at a node none of whose children its box meets.
use bark_direct_x.Prelude.{
  ℕ, zero, suc, ◌+◌, ◌<◌, ◌≡◌, Bool, subst, ◌⊎◌, inl, inr, true, false, some, arith, get_elem?,
  Bool-cases,
}
use native.Mathlib.Bridge.{le_prop}
use bark_direct_x.Math.{Math}
use bark_direct_x.Shape.Intersect.{rectangle_rectangle}
use bark_direct_x.Physics.QuadTree.{ColliderRefAabb, QuadNode, QuadTree, block, no_children}
use bark_direct_x.Physics.QuadTree.Filed.{Filed, in_leaf, below, Holds}

module _ ⦃m : Math⦄ where
  -- A leaf holds the entry, and is reached from the node through children whose bounds its box meets.
  pub data Stands (tree : QuadTree) (e : ColliderRefAabb) : ℕ → Type 0 where
    stands_here :
        {i : ℕ} (node : QuadNode)
        → get_elem? tree.nodes i ≡ some node
        → node.children ≡ no_children
        → Holds node e
        → Stands tree e i
    stands_below :
        {i : ℕ} (node : QuadNode) (k t : ℕ) (child : QuadNode)
        → get_elem? tree.nodes i ≡ some node
        → node.children ≡ block k
        → t < 4
        → get_elem? tree.nodes (k + t) ≡ some child
        → rectangle_rectangle e.aabb child.bounds ≡ true
        → Stands tree e (k + t)
        → Stands tree e i

  -- A node with four children, none of whose bounds the entry's box meets, is reached in the same way.
  pub data Drops (tree : QuadTree) (e : ColliderRefAabb) : ℕ → Type 0 where
    drops_here :
        {i : ℕ} (node : QuadNode) (k : ℕ) (child : (t : ℕ) → t < 4 → QuadNode)
        → get_elem? tree.nodes i ≡ some node
        → node.children ≡ block k
        → ((t : ℕ) (l : t < 4)
            → (get_elem? tree.nodes (k + t) ≡ some (child t l))
              × (rectangle_rectangle e.aabb (child t l).bounds ≡ false))
        → Drops tree e i
    drops_below :
        {i : ℕ} (node : QuadNode) (k t : ℕ) (child : QuadNode)
        → get_elem? tree.nodes i ≡ some node
        → node.children ≡ block k
        → t < 4
        → get_elem? tree.nodes (k + t) ≡ some child
        → rectangle_rectangle e.aabb child.bounds ≡ true
        → Drops tree e (k + t)
        → Drops tree e i

  abbrev pub Settles : QuadTree → ColliderRefAabb → ℕ → Type 0
  Settles tree e i = Stands tree e i ⊎ Drops tree e i

  -- One of the numbers below 4 satisfies a test, or none does.
  find_hit :
      (test : (t : ℕ) → t < 4 → Bool)
      → ((t : ℕ) × (l : t < 4) × (test t l ≡ true)) ⊎ ((t : ℕ) (l : t < 4) → test t l ≡ false)
  find_hit test = elim (Bool-cases (test 0 (omega arith))) [
    | inl h ↦ inl (0, omega arith, h)
    | inr h0 ↦ elim (Bool-cases (test 1 (omega arith))) [
      | inl h ↦ inl (1, omega arith, h)
      | inr h1 ↦ elim (Bool-cases (test 2 (omega arith))) [
        | inl h ↦ inl (2, omega arith, h)
        | inr h2 ↦ elim (Bool-cases (test 3 (omega arith))) [
          | inl h ↦ inl (3, omega arith, h)
          | inr h3 ↦ inr (all h0 h1 h2 h3)
        ]
      ]
    ]
  ]
    where
      all :
          test 0 (omega arith) ≡ false
          → test 1 (omega arith) ≡ false
          → test 2 (omega arith) ≡ false
          → test 3 (omega arith) ≡ false
          → (t : ℕ) (l : t < 4) → test t l ≡ false
      all h0 h1 h2 h3 zero l = subst (λ p. test 0 p ≡ false) (le_prop _ _) h0
      all h0 h1 h2 h3 (suc zero) l = subst (λ p. test 1 p ≡ false) (le_prop _ _) h1
      all h0 h1 h2 h3 (suc (suc zero)) l = subst (λ p. test 2 p ≡ false) (le_prop _ _) h2
      all h0 h1 h2 h3 (suc (suc (suc zero))) l = subst (λ p. test 3 p ≡ false) (le_prop _ _) h3
      all h0 h1 h2 h3 (suc (suc (suc (suc t)))) l = absurd (omega arith)

  handed_down :
      (tree : QuadTree) (e : ColliderRefAabb) (i : ℕ) (node : QuadNode) (k t : ℕ) (child : QuadNode)
      → get_elem? tree.nodes i ≡ some node
      → node.children ≡ block k
      → t < 4
      → get_elem? tree.nodes (k + t) ≡ some child
      → rectangle_rectangle e.aabb child.bounds ≡ true
      → Settles tree e (k + t)
      → Settles tree e i
  handed_down tree e i node k t child found c l at hit (inl s) =
      inl (stands_below node k t child found c l at hit s)
  handed_down tree e i node k t child found c l at hit (inr d) =
      inr (drops_below node k t child found c l at hit d)

  pub Filed-Settles :
      (tree : QuadTree) (e : ColliderRefAabb) (i : ℕ) → Filed tree e i → Settles tree e i
  Filed-Settles tree e i (in_leaf node found c holds) = inl (stands_here node found c holds)
  Filed-Settles tree e i (below node k child found c room at under) =
      settle (λ t l hit. Filed-Settles tree e (k + t) (under t l hit))
    where
      settle :
          ((t : ℕ) (l : t < 4)
            → rectangle_rectangle e.aabb (child t l).bounds ≡ true
            → Settles tree e (k + t))
          → Settles tree e i
      settle under' = elim (find_hit (λ t l. rectangle_rectangle e.aabb (child t l).bounds)) [
        | inl (t, l, hit) ↦
            handed_down tree e i node k t (child t l) found c l (at t l) hit (under' t l hit)
        | inr misses ↦ inr (drops_here node k child found c (λ t l. (at t l, misses t l)))
      ]

-- ===== src/Physics/QuadTree/Potential.antt =====
-- How many nodes a quadtree can still take from its vector: the argument for the size that the
-- constructor of `QuadTree` computes.
use bark_direct_x.Prelude.{
  ℕ, zero, suc, ◌+◌, ◌-◌, ◌*◌, ◌≤◌, ◌<◌, ◌≡◌, refl, ap, ◌∙◌, some, List, [], ◌∷◌, arith, get_elem?,
  set, if◌then◌else◌,
}
use bark_direct_x.Math.{Math}
use bark_direct_x.Physics.QuadTree.{QuadNode, has_children, max_depth, nodes_count}

-- The nodes below a node with so many levels under it.
unfoldable pub descendants : ℕ → ℕ
descendants zero = 0
descendants (suc levels) = 4 * (1 + descendants levels)

unfoldable pub capacity : ℕ → ℕ
capacity depth = descendants (max_depth - depth)

pub capacity_step : (d : ℕ) → d < max_depth → capacity d ≡ 4 + 4 * capacity (d + 1)
unfolding capacity descendants
capacity_step zero h = refl
capacity_step (suc zero) h = refl
capacity_step (suc (suc zero)) h = refl
capacity_step (suc (suc (suc zero))) h = refl
capacity_step (suc (suc (suc (suc zero)))) h = refl
capacity_step (suc (suc (suc (suc (suc d))))) h = absurd (omega arith)

-- The constructor makes room for a root and all that can be below it.
pub nodes_count_lem : nodes_count ≡ 1 + capacity 0
unfolding nodes_count capacity descendants
nodes_count_lem = refl

module _ ⦃m : Math⦄ where
  -- What a node can still ask for: nothing once it has children.
  unfoldable pub weight : QuadNode → ℕ
  weight node = if has_children node.children then 0 else capacity node.depth

  unfoldable pub potential : ℕ → List QuadNode → ℕ
  potential zero nodes = 0
  potential (suc k) [] = 0
  potential (suc k) (node ∷ nodes) = weight node + potential k nodes

  pub potential-set :
      (k i : ℕ) (nodes : List QuadNode) (v : QuadNode) {node : QuadNode}
      → i < k
      → get_elem? nodes i ≡ some node
      → potential k (set nodes i v) + weight node ≡ potential k nodes + weight v
  unfolding potential
  potential-set zero i nodes v h e = elim h [ ]
  potential-set (suc k) i [] v h e = absurd (ground arith)
  potential-set (suc k) zero (x ∷ nodes) v {node} h e =
      let same : x ≡ node = ground arith in omega (arith, ap weight same)
  potential-set (suc k) (suc i) (x ∷ nodes) v h e =
      omega (arith, potential-set k i nodes v (omega arith) e)

  pub potential-set_beyond :
      (k i : ℕ) (nodes : List QuadNode) (v : QuadNode)
      → k ≤ i
      → potential k (set nodes i v) ≡ potential k nodes
  unfolding potential
  potential-set_beyond zero i nodes v h = refl
  potential-set_beyond (suc k) i [] v h = refl
  potential-set_beyond (suc k) zero (x ∷ nodes) v h = absurd (omega arith)
  potential-set_beyond (suc k) (suc i) (x ∷ nodes) v h =
      ap (λ p. weight x + p) (potential-set_beyond k i nodes v (omega arith))

  pub potential-suc :
      (k : ℕ) (nodes : List QuadNode) {node : QuadNode}
      → get_elem? nodes k ≡ some node
      → potential (suc k) nodes ≡ potential k nodes + weight node
  unfolding potential
  potential-suc k [] e = absurd (ground arith)
  potential-suc zero (x ∷ nodes) {node} e =
      let same : x ≡ node = ground arith in omega (arith, ap weight same)
  potential-suc (suc k) (x ∷ nodes) e = omega (arith, potential-suc k nodes e)

  pub weight-le-potential :
      (k i : ℕ) (nodes : List QuadNode) {node : QuadNode}
      → i < k
      → get_elem? nodes i ≡ some node
      → weight node ≤ potential k nodes
  unfolding potential
  weight-le-potential zero i nodes h e = elim h [ ]
  weight-le-potential (suc k) i [] h e = absurd (ground arith)
  weight-le-potential (suc k) zero (x ∷ nodes) {node} h e =
      let same : x ≡ node = ground arith in omega (arith, ap weight same)
  weight-le-potential (suc k) (suc i) (x ∷ nodes) h e =
      omega (arith, weight-le-potential k i nodes (omega arith) e)

  pub potential-add_one :
      (k : ℕ) (nodes : List QuadNode) {node : QuadNode}
      → get_elem? nodes k ≡ some node
      → potential (k + 1) nodes ≡ potential k nodes + weight node
  potential-add_one k nodes e =
      let next : k + 1 ≡ suc k = omega arith in
      ap (λ j. potential j nodes) next ∙ potential-suc k nodes e

-- ===== src/Tests/Trees.antt =====
-- Runs of Physics/include/Refs.h and Physics/src/QuadTree.cpp.
use bark_direct_x.Prelude.{
  ℕ, suc, ◌<◌, ◌≡◌, ◌≢◌, refl, ◌↔◌, ◌⊎◌, true, some, [], ◌∷◌, arith, get_elem?, replicate,
  length-replicate, ap, ◌*◌,
}
use bark_direct_x.Prelude.Outcome.{ok}
use bark_direct_x.Math.Exact.{pos, triple, exact}
use bark_direct_x.Shape.Rectangle.{Rectangle}
use bark_direct_x.Shape.Rectangle
use bark_direct_x.Physics.Refs.{ColliderRef, ColliderRefPair, pair_eq, pair_hash}
use bark_direct_x.Physics.Refs.Pairs.{flip, pair_eq_iff, pair_eq-hash}
use bark_direct_x.Physics.QuadTree.{
  ColliderRefAabb, QuadNode, QuadTree, with_children, subdivide_node, set_up_root, insert, new_node,
  nodes_count,
}
use bark_direct_x.Physics.QuadTree.Valid.{IsValid, Extends}
use bark_direct_x.Physics.QuadTree.Filed.{Filed}
use bark_direct_x.Physics.QuadTree.Settled.{Settles}
use bark_direct_x.Physics.QuadTree.Loops.{Returns}
use bark_direct_x.Physics.QuadTree.Subdivide.{subdivide_node-IsValid}
use bark_direct_x.Physics.QuadTree.Insert.{AllSettle, insert-Returns}
use bark_direct_x.Physics.QuadTree.Root.{
  IsReusable, fresh-IsValid, fresh_root, unused_leaves, set_up_root-IsValid,
}

abbrev first_ref : ColliderRef
first_ref = record { index = 3; gen_index = 0 }

abbrev second_ref : ColliderRef
second_ref = record { index = 5; gen_index = 0 }

abbrev pair : ColliderRefPair
pair = record { col_ref_a = first_ref; col_ref_b = second_ref }

abbrev other_way : ColliderRefPair
other_way = record { col_ref_a = second_ref; col_ref_b = first_ref }

pair_eq_iff_example :
    (pair_eq pair other_way ≡ true) ↔ ((pair ≡ other_way) ⊎ (pair ≡ flip other_way))
pair_eq_iff_example = pair_eq_iff pair other_way

pairs_equal : pair_eq pair other_way ≡ true
unfolding pair_eq
pairs_equal = refl

pairs_equal_back : pair_eq other_way pair ≡ true
unfolding pair_eq
pairs_equal_back = refl

pair_eq-hash_example :
    (pair_eq pair pair ≡ true)
    × (pair_eq other_way pair ≡ true)
    × (pair_eq pair pair ≡ true)
    × (pair_hash (λ n. n * 31) pair ≡ pair_hash (λ n. n * 31) other_way)
pair_eq-hash_example = pair_eq-hash (λ n. n * 31) pair other_way pair pairs_equal pairs_equal_back

count : nodes_count ≡ 1365
unfolding nodes_count
count = refl

-- A tree with one leaf of one entry.
abbrev box : Rectangle
box = Rectangle.make (triple (pos 1) (pos 1) (pos 0)) (triple (pos 3) (pos 3) (pos 0))

abbrev field : Rectangle
field = Rectangle.make (triple (pos 0) (pos 0) (pos 0)) (triple (pos 64) (pos 64) (pos 0))

abbrev entry : ColliderRefAabb
entry = record { aabb = box; col_ref = first_ref }

abbrev root : QuadNode
root = record new_node { collider_ref_aabbs = entry ∷ []; bounds = field }

abbrev tree : QuadTree
tree = record { nodes = root ∷ replicate 1364 new_node; node_index = 1 }

tree-IsValid : IsValid tree
unfolding nodes_count
tree-IsValid =
    fresh-IsValid root (replicate 1364 new_node) (ap suc (length-replicate 1364 new_node)) refl refl
      (unused_leaves 1364)

subdivide_node-IsValid_example :
    (tree' : QuadTree) × (subdivide_node tree 0 ≡ ok tree')
    × IsValid tree'
    × Extends tree tree'
    × (get_elem? tree'.nodes 0 ≡ some (with_children tree.node_index root))
    × ((j : ℕ) → j < tree.node_index → 0 ≢ j → get_elem? tree'.nodes j ≡ get_elem? tree.nodes j)
subdivide_node-IsValid_example =
    subdivide_node-IsValid tree 0 root tree-IsValid (omega arith) refl refl (omega arith)

abbrev new_entry : ColliderRefAabb
new_entry = record { aabb = field; col_ref = second_ref }

insert-Returns_example :
    Returns tree
      (insert 6 tree 0 new_entry)
      (λ t. Filed t new_entry 0 × Settles t new_entry 0 × AllSettle tree t)
insert-Returns_example =
    insert-Returns 6 tree 0 new_entry tree-IsValid (omega arith) refl (omega arith)

tree-IsReusable : IsReusable tree
unfolding nodes_count
tree-IsReusable = record {
  sized = ap suc (length-replicate 1364 new_node);
  root = root;
  found = refl;
  at_top = refl;
}

set_up_root-IsValid_example :
    (tree' : QuadTree) × (set_up_root tree box ≡ ok tree')
    × IsValid tree'
    × IsReusable tree'
    × (tree'.node_index ≡ 1)
    × (get_elem? tree'.nodes 0 ≡ some (fresh_root box tree-IsReusable.root))
set_up_root-IsValid_example = set_up_root-IsValid tree box tree-IsReusable

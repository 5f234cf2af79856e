-- ===== src/Physics/World/Placement.antt =====
-- `World::SetUpQuadTree` of Physics/src/World.cpp: the positions of colliders and their entries in
-- the tree.
use bark_direct_x.Prelude.{
  ℕ, zero, suc, ◌+◌, ◌≤◌, ◌<◌, ◌≡◌, refl, sym, ap, subst, ◌∙◌, inl, inr, true, some, List, [], ◌∷◌,
  arith, length, get_elem?, get_elem?-some, Bool-cases,
}
use bark_direct_x.Prelude.Outcome.{ok}
use bark_direct_x.Math.{Math}
use bark_direct_x.Shape.Rectangle.{Rectangle}
use bark_direct_x.Shape.Rectangle
use bark_direct_x.Physics.Collider.{Collider}
use bark_direct_x.Physics.QuadTree.{QuadNode, QuadTree, max_depth}
use bark_direct_x.Physics.QuadTree.Valid.{IsValid}
use bark_direct_x.Physics.QuadTree.Filed.{Filed, Keeps, Filed-Keeps, Keeps-refl, Keeps-trans}
use bark_direct_x.Physics.QuadTree.Insert.{insert-Filed}
use bark_direct_x.Physics.QuadTree.Settled.{Settles, Filed-Settles}
use bark_direct_x.Physics.QuadTree.Root.{
  IsReusable, IsReusable-Keeps, fresh_root, set_up_root-IsValid,
}
use bark_direct_x.Physics.World.{World}
use bark_direct_x.Physics.World.Colliders.{HasGens}
use bark_direct_x.Physics.QuadTree.Entries.{Only, set_up_root-Only}
use bark_direct_x.Physics.World.Stored.{entry, IsStored, file_all-Only}
use bark_direct_x.Physics.World.Step.{
  insert_fuel, no_bounds, place_all, file, file_all, set_up_quad_tree,
}
use bark_direct_x.Physics.World.Placed.{HaveBodies, PlacedAll, place_all-PlacedAll}

module _ ⦃m : Math⦄ where
  record IsReady (tree : QuadTree) : Type 0 where
    valid : IsValid tree
    reusable : IsReusable tree
    root_in_use : 0 < tree.node_index

  file-Filed :
      (gens : List ℕ) (i : ℕ) (col : Collider) (tree : QuadTree)
      → IsReady tree
      → i < length gens
      → (tree' : QuadTree) × (file gens i col tree ≡ ok tree')
        × IsReady tree'
        × Keeps tree tree'
        × ((gen : ℕ)
            → get_elem? gens i ≡ some gen
            → col.is_attached ≡ true
            → Filed tree' (entry i gen col) 0)
  unfolding file
  file-Filed gens i col tree r h = elim (Bool-cases col.is_attached) [
    | inr off ↦
        (tree, rw off refl, r, Keeps-refl tree, λ gen _ on. absurd (ground (arith, on, off)))
    | inl on ↦
        let (gen, e) = get_elem?-some gens i h in
        let deep : max_depth < r.reusable.root.depth + insert_fuel =
          omega (arith, r.reusable.at_top) in
        let (tree', eq, v, k, met) =
          insert-Filed insert_fuel tree 0 (entry i gen col) r.valid r.root_in_use r.reusable.found
            deep in
        (
          tree',
          rw (on, e) eq,
          record {
            valid = v;
            reusable = IsReusable-Keeps tree tree' r.reusable r.root_in_use v k;
            root_in_use = omega (arith, r.root_in_use, k.extends.grows);
          },
          k,
          λ gen' e' _. subst (λ g. Filed tree' (entry i g col) 0) (ground (arith, e, e')) met,
        )
  ]

  -- The colliders from `i` on are all filed.
  abbrev FiledFrom : List ℕ → ℕ → List Collider → QuadTree → Type 0
  FiledFrom gens i cols tree =
      (n gen : ℕ) (col : Collider)
      → get_elem? cols n ≡ some col
      → get_elem? gens (i + n) ≡ some gen
      → col.is_attached ≡ true
      → Filed tree (entry (i + n) gen col) 0

  file_all-Filed :
      (gens : List ℕ) (i : ℕ) (cols : List Collider) (tree : QuadTree)
      → IsReady tree
      → i + length cols ≤ length gens
      → (tree' : QuadTree) × (file_all gens i cols tree ≡ ok tree')
        × IsReady tree'
        × Keeps tree tree'
        × FiledFrom gens i cols tree'
  unfolding file_all
  file_all-Filed gens i [] tree r h =
      (tree, refl, r, Keeps-refl tree, λ n gen col e. absurd (ground (arith, e)))
  file_all-Filed gens i (col ∷ cols) tree r h =
      let (t1, e1, r1, k1, f1) = file-Filed gens i col tree r (omega arith) in
      let (t2, e2, r2, k2, f2) = file_all-Filed gens (i + 1) cols t1 r1 (omega arith) in
      (t2, rw e1 e2, r2, Keeps-trans k1 k2, each t1 t2 r1 k2 f1 f2)
    where
      each :
          (t1 t2 : QuadTree)
          → IsReady t1
          → Keeps t1 t2
          → ((gen : ℕ)
              → get_elem? gens i ≡ some gen
              → col.is_attached ≡ true
              → Filed t1 (entry i gen col) 0)
          → FiledFrom gens (i + 1) cols t2
          → FiledFrom gens i (col ∷ cols) t2
      each t1 t2 r1 k2 f1 f2 zero gen x e g on =
          let same : col ≡ x = ground (arith, e) in
          let here : i ≡ i + 0 = omega arith in
          let filed =
            f1 gen (ap (get_elem? gens) here ∙ g)
              (ap (λ (c : Collider). c.is_attached) same ∙ on) in
          subst (λ j. Filed t2 (entry j gen x) 0) here
            (subst (λ c. Filed t2 (entry i gen c) 0) same
              (Filed-Keeps t1 t2 (entry i gen col) 0 k2 r1.root_in_use filed))
      each t1 t2 r1 k2 f1 f2 (suc n) gen x e g on =
          let move : i + 1 + n ≡ i + suc n = omega arith in
          subst (λ j. Filed t2 (entry j gen x) 0) move
            (f2 n gen x e (ap (get_elem? gens) move ∙ g) on)

  -- What `SetUpQuadTree` does to the world.
  pub record SetsUp (w w' : World) : Type 0 where
    pub valid : IsValid w'.quad_tree
    pub reusable : IsReusable w'.quad_tree
    pub root_in_use : 0 < w'.quad_tree.node_index
    pub placed : PlacedAll w w.colliders w'.colliders
    pub filed :
        (n gen : ℕ) (col : Collider)
        → get_elem? w'.colliders n ≡ some col
        → get_elem? w.collider_gen_indices n ≡ some gen
        → col.is_attached ≡ true
        → Filed w'.quad_tree (entry n gen col) 0
    pub settled :
        (n gen : ℕ) (col : Collider)
        → get_elem? w'.colliders n ≡ some col
        → get_elem? w.collider_gen_indices n ≡ some gen
        → col.is_attached ≡ true
        → Settles w'.quad_tree (entry n gen col) 0
    pub bounded :
        (all : Rectangle) × (root : QuadNode) × (place_all w w.colliders no_bounds
          ≡ ok (w'.colliders, all))
        × (get_elem? w'.quad_tree.nodes 0 ≡ some root)
        × (root.bounds ≡ all)
    pub stored : Only (IsStored w'.colliders w.collider_gen_indices) w'.quad_tree.nodes
    pub same : w' ≡ record w { colliders = w'.colliders; quad_tree = w'.quad_tree }

  -- `SetUpQuadTree` returns normally on a world with a tree that can be reused, one generation index
  -- for each collider, and a body for each attached collider. Afterwards the tree is valid and can be
  -- reused; each attached collider has the position of its body, and the others are as before; each
  -- attached collider, with its bounds at that position, stands in every leaf that is reached from
  -- the root through nodes whose bounds its own meet; at least one leaf reached so holds it, or else
  -- there is on the way down a node with four children none of whose bounds its own meet, where it is
  -- dropped; no entry of the tree stands for anything else; and the root has the bounds that the first
  -- loop has collected. Nothing else changes.
  pub set_up_quad_tree-SetsUp :
      (w : World)
      → IsReusable w.quad_tree
      → HasGens w
      → HaveBodies w w.colliders
      → (w' : World) × (set_up_quad_tree w ≡ ok w') × SetsUp w w'
  unfolding set_up_quad_tree
  set_up_quad_tree-SetsUp w r gens good =
      let (cols, all, e1, ps) = place_all-PlacedAll w w.colliders no_bounds good in
      let bounds = Rectangle.make all.min_bound all.max_bound in
      let (tree1, e2, v1, r1, n1, at0) = set_up_root-IsValid w.quad_tree bounds r in
      let (tree2, e3, ready, keeps, filed) =
        file_all-Filed w.collider_gen_indices 0 cols tree1
          (record { valid = v1; reusable = r1; root_in_use = omega (arith, n1) })
          (omega (arith, ps.sized, gens)) in
      let (root, found, _, same_bounds) =
        keeps.extends.keeps 0 (fresh_root bounds r.root) (omega (arith, n1)) at0 in
      let all_filed =
        λ (n gen : ℕ) (col : Collider) (at : get_elem? cols n ≡ some col)
            (g : get_elem? w.collider_gen_indices n ≡ some gen) (on : col.is_attached ≡ true).
          (let here : 0 + n ≡ n = omega arith in
            subst (λ j. Filed tree2 (entry j gen col) 0) here
              (filed n gen col at (ap (get_elem? w.collider_gen_indices) here ∙ g) on)) in
      let w' : World = record w { colliders = cols; quad_tree = tree2 } in
      (
        w',
        rw (e1, e2, e3) refl,
        record {
          valid = ready.valid;
          reusable = ready.reusable;
          root_in_use = ready.root_in_use;
          placed = ps;
          filed = all_filed;
          settled = λ n gen col at g on.
              Filed-Settles tree2 (entry n gen col) 0 (all_filed n gen col at g on);
          bounded = (all, root, e1, found, same_bounds);
          stored =
              file_all-Only (IsStored cols w.collider_gen_indices) w.collider_gen_indices 0 cols
                tree1 tree2 e3
                (λ n gen col at g on.
                  let here : 0 + n ≡ n = omega arith in
                  (
                    n,
                    gen,
                    col,
                    at,
                    ap (get_elem? w.collider_gen_indices) (sym here) ∙ g,
                    on,
                    ap (λ j. entry j gen col) here,
                  ))
                (set_up_root-Only (IsStored cols w.collider_gen_indices) w.quad_tree bounds e2);
          same = refl;
        },
      )

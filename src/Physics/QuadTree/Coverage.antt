-- ===== src/Physics/QuadTree/Coverage.antt =====
-- The four quarters of `SubdivideNode` in Physics/src/QuadTree.cpp where it halves bounds exactly, and
-- the entries that are handed down to them.
use bark_direct_x.Prelude.{
  ℕ, ◌+◌, ◌<◌, ◌≡◌, refl, sym, ap, subst, ◌∙◌, ◌⊎◌, inl, inr, true, false, some, arith, get_elem?,
}
use bark_direct_x.Math.{Math}
use bark_direct_x.Math.Laws.{IsNumber, IsOrdered, IsComponentwise, le-not_lt}
use bark_direct_x.Shape.Rectangle.{Rectangle}
use bark_direct_x.Shape.Intersect.{rectangle_rectangle}
use bark_direct_x.Shape.Points.{IsProper}
use bark_direct_x.Physics.QuadTree.{
  ColliderRefAabb, QuadNode, QuadTree, block, quarter0, quarter1, quarter2, quarter3,
}
use bark_direct_x.Physics.QuadTree.Valid.{IsValid, Children, leaf, inner, Quarters, HasBounds}
use bark_direct_x.Physics.QuadTree.Filed.{Filed}
use bark_direct_x.Physics.QuadTree.Settled.{Stands, Drops, drops_here, drops_below, Filed-Settles}

module _ ⦃m : Math⦄ where
  open m use {Float, le, lt, get_x, get_y}

  -- The middle of the bounds is a point, and the quarters that start there reach the upper bounds:
  -- twice the half is not rounded to less than the whole.
  pub record IsHalved (b : Rectangle) : Type 0 where
    pub middle_x : IsNumber (get_x (quarter2 b).min_bound)
    pub middle_y : IsNumber (get_y (quarter1 b).min_bound)
    pub reaches_x : le (get_x b.max_bound) (get_x (quarter2 b).max_bound) ≡ true
    pub reaches_y : le (get_y b.max_bound) (get_y (quarter1 b).max_bound) ≡ true

  -- All divided nodes of the tree are halved exactly.
  abbrev pub AllHalved : QuadTree → Type 0
  AllHalved tree =
      (i k : ℕ) (node : QuadNode)
      → i < tree.node_index
      → get_elem? tree.nodes i ≡ some node
      → node.children ≡ block k
      → IsHalved node.bounds

  module _ (laws : IsOrdered m) (parts : IsComponentwise m) where
    open laws use {le_trans, le_number, le_total, lt_not_le, not_lt_le}

    -- An interval that meets another one meets its lower part or its upper part, to either of two
    -- upper ends.
    meets_part :
        (lo hi a middle c d : Float)
        → le lo hi ≡ true
        → lt hi a ≡ false
        → lt c lo ≡ false
        → IsNumber middle
        → le c d ≡ true
        → ((lt hi a ≡ false) × (lt middle lo ≡ false))
          ⊎ ((lt hi middle ≡ false) × (lt c lo ≡ false) × (lt d lo ≡ false))
    meets_part lo hi a middle c d ordered above below number reaches =
        elim (le_total lo middle (le_number lo hi ordered).0 number) [
          | inl left ↦ inl (above, le-not_lt laws lo middle left)
          | inr right ↦
              let low =
                not_lt_le c lo (le_number c d reaches).0 (le_number lo hi ordered).0 below in
              inr (
                le-not_lt laws middle hi (le_trans middle lo hi right ordered),
                below,
                le-not_lt laws lo d (le_trans lo c d low reaches),
              )
        ]

    meets_intro :
        (box part : Rectangle) (px py qx qy : Float)
        → get_x part.min_bound ≡ px
        → get_y part.min_bound ≡ py
        → get_x part.max_bound ≡ qx
        → get_y part.max_bound ≡ qy
        → lt (get_x box.max_bound) px ≡ false
        → lt qx (get_x box.min_bound) ≡ false
        → lt (get_y box.max_bound) py ≡ false
        → lt qy (get_y box.min_bound) ≡ false
        → rectangle_rectangle box part ≡ true
    unfolding rectangle_rectangle
    meets_intro box part px py qx qy e1 e2 e3 e4 a b c d =
        ground (arith, e1, e2, e3, e4, a, b, c, d)

    -- The box meets one of the four quarters.
    abbrev MeetsPart : Rectangle → Rectangle → Type 0
    MeetsPart box b =
        (rectangle_rectangle box (quarter0 b) ≡ true)
        ⊎ ((rectangle_rectangle box (quarter1 b) ≡ true)
            ⊎ ((rectangle_rectangle box (quarter2 b) ≡ true)
                ⊎ (rectangle_rectangle box (quarter3 b) ≡ true)))

    meets_quarter :
        (box b : Rectangle)
        → IsProper box
        → IsHalved b
        → rectangle_rectangle box b ≡ true
        → MeetsPart box b
    unfolding rectangle_rectangle quarter0 quarter1 quarter2 quarter3
    meets_quarter box b proper halved hit =
        let mx = get_x (quarter2 b).min_bound in
        let my = get_y (quarter1 b).min_bound in
        let dx = get_x (quarter2 b).max_bound in
        let dy = get_y (quarter1 b).max_bound in
        let on_x =
          meets_part (get_x box.min_bound) (get_x box.max_bound) (get_x b.min_bound) mx
            (get_x b.max_bound) dx proper.x_ordered (ground (arith, hit)) (ground (arith, hit))
            halved.middle_x halved.reaches_x in
        let on_y =
          meets_part (get_y box.min_bound) (get_y box.max_bound) (get_y b.min_bound) my
            (get_y b.max_bound) dy proper.y_ordered (ground (arith, hit)) (ground (arith, hit))
            halved.middle_y halved.reaches_y in
        let bx = parts.get_x_braces in
        let by = parts.get_y_braces in
        elim on_x [
          | inl (x1, x2) ↦ elim on_y [
            | inl (y1, y2) ↦ inl (
                meets_intro box (quarter0 b) (get_x b.min_bound) (get_y b.min_bound) mx my refl refl
                  (parts.get_x_add _ _ ∙ sym (bx _ _)) (parts.get_y_add _ _ ∙ sym (by _ _)) x1 x2 y1
                  y2)
            | inr (y1, y2, y3) ↦ inr (
                inl (
                  meets_intro box (quarter1 b) (get_x b.min_bound) my mx dy (bx _ _) refl
                    (bx _ _ ∙ sym (bx _ _)) refl x1 x2 y1 y3))
          ]
          | inr (x1, x2, x3) ↦ elim on_y [
            | inl (y1, y2) ↦ inr (
                inr (
                  inl (
                    meets_intro box (quarter2 b) mx (get_y b.min_bound) dx my refl (by _ _) refl
                      (by _ _ ∙ sym (by _ _)) x1 x3 y1 y2)))
            | inr (y1, y2, y3) ↦ inr (
                inr (
                  inr (
                    meets_intro box (quarter3 b) mx my (get_x b.max_bound) (get_y b.max_bound)
                      (bx _ _ ∙ sym (bx _ _)) (by _ _ ∙ sym (by _ _)) refl refl x1 x2 y1 y2)))
          ]
        ]

    module _ (tree : QuadTree) (valid : IsValid tree) (halved : AllHalved tree)
        (e : ColliderRefAabb) (proper : IsProper e.aabb) where
      misses_none :
          (node : QuadNode) (k : ℕ) (child : (t : ℕ) → t < 4 → QuadNode)
          → Quarters tree k node.bounds
          → IsHalved node.bounds
          → rectangle_rectangle e.aabb node.bounds ≡ true
          → ((t : ℕ) (l : t < 4)
              → (get_elem? tree.nodes (k + t) ≡ some (child t l))
                × (rectangle_rectangle e.aabb (child t l).bounds ≡ false))
          → ⊥
      misses_none node k child q h hit misses =
          elim (meets_quarter e.aabb node.bounds proper h hit) [
            | inl met ↦ none_at 0 (omega arith) _ k (omega arith) q.first met
            | inr (inl met) ↦ none_at 1 (omega arith) _ (k + 1) refl q.second met
            | inr (inr (inl met)) ↦ none_at 2 (omega arith) _ (k + 2) refl q.third met
            | inr (inr (inr met)) ↦ none_at 3 (omega arith) _ (k + 3) refl q.fourth met
          ]
        where
          none_at :
              (t : ℕ) (l : t < 4) (part : Rectangle) (c : ℕ)
              → k + t ≡ c
              → HasBounds tree c part
              → rectangle_rectangle e.aabb part ≡ true
              → ⊥
          none_at t l part c here (x, at, same) met =
              let (at', miss) = misses t l in
              let child_is : child t l ≡ x = ground (arith, at', at, here) in
              ground (arith, miss, met, ap (λ (n : QuadNode). n.bounds) child_is, same)

      parts_of :
          (i k : ℕ) (node : QuadNode)
          → Children tree i node
          → node.children ≡ block k
          → Quarters tree k node.bounds × (k + 3 < tree.node_index)
      parts_of i k node (leaf c) e' = absurd (ground (arith, c, e'))
      parts_of i k node (inner j c _ a0 a1 a2 a3 q) e' =
          let same : j ≡ k = ground (arith, c, e') in
          subst (λ n. Quarters tree n node.bounds × (n + 3 < tree.node_index)) same (q, a3.in_use)

      -- An entry whose box meets the bounds of a node is not dropped below it.
      Drops-none :
          (i : ℕ) (node : QuadNode)
          → i < tree.node_index
          → get_elem? tree.nodes i ≡ some node
          → rectangle_rectangle e.aabb node.bounds ≡ true
          → Drops tree e i
          → ⊥
      Drops-none i node h found hit (drops_here node' k child found' c misses) =
          let same : node' ≡ node = ground (arith, found, found') in
          let c' : node.children ≡ block k = ap (λ n. n.children) (sym same) ∙ c in
          misses_none node k child (parts_of i k node (valid.linked i node h found) c').0
            (halved i k node h found c') hit misses
      Drops-none i node h found hit (drops_below node' k t child found' c l at met d) =
          let same : node' ≡ node = ground (arith, found, found') in
          let c' : node.children ≡ block k = ap (λ n. n.children) (sym same) ∙ c in
          let (_, room) = parts_of i k node (valid.linked i node h found) c' in
          Drops-none (k + t) child (omega arith) at met d

      pub Filed-Stands :
          (i : ℕ) (node : QuadNode)
          → i < tree.node_index
          → get_elem? tree.nodes i ≡ some node
          → rectangle_rectangle e.aabb node.bounds ≡ true
          → Filed tree e i
          → Stands tree e i
      Filed-Stands i node h found hit filed = elim (Filed-Settles tree e i filed) [
        | inl stands ↦ stands
        | inr drops ↦ absurd (Drops-none i node h found hit drops)
      ]

-- ===== src/Physics/World/Coverage.antt =====
-- `World::SetUpQuadTree` of Physics/src/World.cpp: the bounds of the root, those of the nodes that it
-- has divided, and the entries below.
use bark_direct_x.Prelude.{ℕ, ◌≡◌, sym, subst, true, some, arith, get_elem?}
use bark_direct_x.Prelude.Outcome.{ok}
use bark_direct_x.Math.{Math}
use bark_direct_x.Math.Laws.{IsNumber, IsOrdered, IsComponentwise, IsReflecting, le-not_lt}
use bark_direct_x.Shape.Rectangle.{Rectangle}
use bark_direct_x.Shape.Intersect.{rectangle_rectangle}
use bark_direct_x.Shape.Points.{IsProper}
use bark_direct_x.Physics.Collider.{Collider, get_bounds}
use bark_direct_x.Physics.QuadTree.Settled.{Stands}
use bark_direct_x.Physics.QuadTree.Coverage.{AllHalved, Filed-Stands}
use bark_direct_x.Physics.QuadTree.Root.{IsReusable}
use bark_direct_x.Physics.World.{World}
use bark_direct_x.Physics.World.Colliders.{HasGens}
use bark_direct_x.Physics.World.Placed.{HaveBodies}
use bark_direct_x.Physics.World.Placement.{SetsUp, set_up_quad_tree-SetsUp}
use bark_direct_x.Physics.World.Stored.{entry}
use bark_direct_x.Physics.World.Step.{no_bounds, set_up_quad_tree}
use bark_direct_x.Physics.World.Extent.{IsFinite, IsWithin, AllProper, place_all-Collects}

module _ ⦃m : Math⦄ where
  open m use {Float, le, lt, get_x, get_y, max_f, min_f}

  module _ (laws : IsOrdered m) (parts : IsComponentwise m) (setters : IsReflecting m) where
    open laws use {le_trans, le_number}

    IsWithin-meets :
        (r all : Rectangle) → IsProper r → IsWithin r all → rectangle_rectangle r all ≡ true
    unfolding rectangle_rectangle
    IsWithin-meets r all p (a, b, c, d) =
        let x1 = le-not_lt laws _ _ (le_trans _ _ _ a p.x_ordered) in
        let x2 = le-not_lt laws _ _ (le_trans _ _ _ p.x_ordered c) in
        let y1 = le-not_lt laws _ _ (le_trans _ _ _ b p.y_ordered) in
        let y2 = le-not_lt laws _ _ (le_trans _ _ _ p.y_ordered d) in ground (arith, x1, x2, y1, y2)

    no_bounds-IsFinite : IsNumber max_f → IsNumber min_f → IsFinite no_bounds
    no_bounds-IsFinite high low =
        let x = parts.get_x_set in
        let y = parts.get_y_set in (rw x high, rw y high, rw x low, rw y low)

    -- Where numbers are ordered, vectors are made of their components, a component that is set reads
    -- back and the limits of `float` are numbers: `SetUpQuadTree` on a world with a tree that can be
    -- reused, one generation index for each collider, and a body for each attached collider loses no
    -- attached collider, if the bounds of all attached colliders are in order afterwards and the
    -- bounds of every node that it has divided are halved exactly. Each stands in a leaf that is
    -- reached from the root through nodes whose bounds its own meet.
    pub set_up_quad_tree-Stands :
        (w w' : World)
        → IsNumber max_f
        → IsNumber min_f
        → IsReusable w.quad_tree
        → HasGens w
        → HaveBodies w w.colliders
        → set_up_quad_tree w ≡ ok w'
        → AllProper w'.colliders
        → AllHalved w'.quad_tree
        → (n gen : ℕ) (col : Collider) → get_elem? w'.colliders n ≡ some col
        → get_elem? w.collider_gen_indices n ≡ some gen
        → col.is_attached ≡ true
        → Stands w'.quad_tree (entry n gen col) 0
    set_up_quad_tree-Stands w w' high low r gens good e proper halved n gen col at g on =
        let (w1, e1, x1) = set_up_quad_tree-SetsUp w r gens good in
        let same : w1 ≡ w' = ground (arith, e, e1) in
        let x : SetsUp w w' = subst (λ v. SetsUp w v) same x1 in
        let (all, root, placed, found, bounds) = x.bounded in
        let (_, each) =
          place_all-Collects laws parts setters w w.colliders w'.colliders no_bounds all good placed
            (no_bounds-IsFinite high low) proper in
        let box = proper n col at on in
        let meets = IsWithin-meets (get_bounds col) all box (each n col at on) in
        Filed-Stands laws parts w'.quad_tree x.valid halved (entry n gen col) box 0 root
          x.root_in_use found
          (subst (λ b. rectangle_rectangle (get_bounds col) b ≡ true) (sym bounds) meets)
          (x.filed n gen col at g on)

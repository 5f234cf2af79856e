-- ===== src/Samples/Staged/Drawing.antt =====
-- What the samples of samples/src draw: the data of their objects and the outlines of the quadtree.
use bark_direct_x.Prelude.{
  ℕ, suc, zero, ◌+◌, ◌≤◌, ◌<◌, ◌≡◌, refl, ap, ◌∙◌, Option, none, some, List, [], ◌∷◌, ◌++◌, arith,
  length, set, length-set, get_elem?, get_elem?-some, take, ltb, map, sym, subst, append_assoc,
  if_rule,
}
use bark_direct_x.Prelude.Outcome.{Outcome, Yields}
use bark_direct_x.Math.{Math}
use bark_direct_x.Shape.{Shape, circle_shape, rectangle_shape, polygon_shape}
use bark_direct_x.Shape.Rectangle.{Rectangle}
use bark_direct_x.Physics.World.{World}
use bark_direct_x.Physics.World.Ready.{IsReady}
use bark_direct_x.Physics.QuadTree.{QuadNode, QuadTree, block, max_depth, no_children}
use bark_direct_x.Physics.QuadTree.Valid.{IsValid, IsChild, Children, leaf, inner}
use bark_direct_x.Physics.QuadTree.Loops.{AreChildren}
use bark_direct_x.Samples.{Sample, GraphicsData}
use bark_direct_x.Samples.Objects.{
  redraw, translate_shape, outline, trim, draw_children, draw_quadtree, draw_fuel,
}
use bark_direct_x.Samples.Staged.{IsStaged}

module _ ⦃m : Math⦄ where
  open m use {Vector}

  -- A redrawn vector of data has the size that it had.
  pub redraw-Yields :
      (shape : Shape) (v : Vector) (i : ℕ) (graphics : List GraphicsData)
      → i < length graphics
      → Yields (λ graphics'. length graphics' ≡ length graphics) (redraw shape v i graphics)
  unfolding redraw
  redraw-Yields (circle_shape c) v i graphics h =
      let (old, at) = get_elem?-some graphics i h in
      let new : GraphicsData = record old { shape = translate_shape (circle_shape c) v } in
      (set graphics i new, rw at refl, length-set graphics i new)
  redraw-Yields (rectangle_shape r) v i graphics h =
      let (old, at) = get_elem?-some graphics i h in
      let new : GraphicsData = record old { shape = translate_shape (rectangle_shape r) v } in
      (set graphics i new, rw at refl, length-set graphics i new)
  redraw-Yields (polygon_shape p) v i graphics h = (graphics, refl, refl)

  -- Other data for as many objects.
  pub recolor :
      {Own : Type 0} (k : ℕ) (s : Sample Own) (graphics : List GraphicsData)
      → IsStaged k s
      → length graphics ≡ length s.all_graphics_data
      → IsStaged k (record s { all_graphics_data = graphics })
  recolor k s graphics t e = record {
    ready = t.ready;
    counted = t.counted;
    refers = t.refers;
    good = t.good;
    drawn = omega (arith, t.drawn, e);
  }

  -- The bounds of the leaves at and below a node, in the order of the children.
  pub data LeavesOf (tree : QuadTree) : ℕ → List Rectangle → Type 0 where
    one_leaf :
        (i : ℕ) (node : QuadNode)
        → get_elem? tree.nodes i ≡ some node
        → node.children ≡ no_children
        → LeavesOf tree i (node.bounds ∷ [])
    four_parts :
        (i k : ℕ) (node : QuadNode) (l0 l1 l2 l3 : List Rectangle)
        → get_elem? tree.nodes i ≡ some node
        → node.children ≡ block k
        → LeavesOf tree k l0
        → LeavesOf tree (k + 1) l1
        → LeavesOf tree (k + 2) l2
        → LeavesOf tree (k + 3) l3
        → LeavesOf tree i (l0 ++ (l1 ++ (l2 ++ (l3 ++ []))))

  -- The outlines of some rectangles have been drawn, and the rectangles are as described.
  abbrev pub Outlines : (List Rectangle → Type 0) → List GraphicsData → List GraphicsData → Type 0
  Outlines Described drawn drawn' =
      (leaves : List Rectangle) × Described leaves × (drawn' ≡ drawn ++ map outline leaves)

  -- The rectangles of each child, one after the other.
  abbrev OfEach : (ℕ → List Rectangle → Type 0) → List (Option ℕ) → List Rectangle → Type 0
  OfEach P [] leaves = leaves ≡ []
  OfEach P (none ∷ cs) leaves = 0 < 0
  OfEach P (some c ∷ cs) leaves =
      (xs : List Rectangle) × (ys : List Rectangle) × P c xs × OfEach P cs ys × (leaves ≡ xs ++ ys)

  map-append : (xs ys : List Rectangle) → map outline (xs ++ ys) ≡ map outline xs ++ map outline ys
  map-append [] ys = refl
  map-append (x ∷ xs) ys = ap (λ zs. outline x ∷ zs) (map-append xs ys)

  outlined_twice :
      (a b c : List GraphicsData) (xs ys : List Rectangle)
      → b ≡ a ++ map outline xs
      → c ≡ b ++ map outline ys
      → c ≡ a ++ map outline (xs ++ ys)
  outlined_twice a b c xs ys e e' =
      e'
      ∙ ap (λ zs. zs ++ map outline ys) e
      ∙ append_assoc a (map outline xs) (map outline ys)
      ∙ ap (λ zs. a ++ zs) (sym (map-append xs ys))

  append-nothing : (xs : List GraphicsData) → xs ≡ xs ++ []
  append-nothing [] = refl
  append-nothing (x ∷ xs) = ap (λ zs. x ∷ zs) (append-nothing xs)

  module _ (tree : QuadTree) (valid : IsValid tree) where
    module _ (draw : ℕ → List GraphicsData → Outcome (List GraphicsData)) (depth : ℕ)
        (draws : (c : ℕ) (drawn : List GraphicsData)
          → IsChild tree depth c
          → Yields (Outlines (LeavesOf tree c) drawn) (draw c drawn)) where
      draw_children-Outlines :
          (cs : List (Option ℕ)) (drawn : List GraphicsData)
          → AreChildren depth tree cs
          → Yields (Outlines (OfEach (LeavesOf tree) cs) drawn) (draw_children draw cs drawn)
      unfolding draw_children
      draw_children-Outlines [] drawn kids = (drawn, refl, ([], refl, append-nothing drawn))
      draw_children-Outlines (none ∷ cs) drawn kids = absurd kids
      draw_children-Outlines (some c ∷ cs) drawn (kid, kids) =
          let (one, e, (xs, dx, x)) = draws c drawn kid in
          let (all, e', (ys, dy, y)) = draw_children-Outlines cs one kids in
          (all, rw e e', (xs ++ ys, (xs, ys, dx, dy, refl), outlined_twice drawn one all xs ys x y))

    four :
        (i k : ℕ) (node : QuadNode) (leaves : List Rectangle)
        → get_elem? tree.nodes i ≡ some node
        → node.children ≡ block k
        → OfEach (LeavesOf tree) (block k) leaves
        → LeavesOf tree i leaves
    four i k node leaves found c
          (l0, r0, d0, (l1, r1, d1, (l2, r2, d2, (l3, r3, d3, e3, e2'), e1'), e0'), e) =
        subst (LeavesOf tree i)
          (sym (
            e
            ∙ ap (λ r. l0 ++ r)
                (e0' ∙ ap (λ r. l1 ++ r) (e1' ∙ ap (λ r. l2 ++ r) (e2' ∙ ap (λ r. l3 ++ r) e3)))))
          (four_parts i k node l0 l1 l2 l3 found c d0 d1 d2 d3)

    draw_quadtree-Outlines :
        (fuel i : ℕ) (node : QuadNode) (drawn : List GraphicsData)
        → i < tree.node_index
        → get_elem? tree.nodes i ≡ some node
        → max_depth < node.depth + fuel
        → Yields (Outlines (LeavesOf tree i) drawn) (draw_quadtree fuel tree i drawn)
    unfolding draw_quadtree
    draw_quadtree-Outlines zero i node drawn h found enough =
        absurd (omega (arith, valid.shallow i node h found))
    draw_quadtree-Outlines (suc fuel) i node drawn h found enough =
        cases (valid.linked i node h found) (λ c drawn' kid.
          draw_quadtree-Outlines fuel c kid.node drawn' kid.in_use kid.found
            (omega (arith, kid.one_below)))
      where
        cases :
            Children tree i node
            → ((c : ℕ) (drawn' : List GraphicsData)
                → IsChild tree node.depth c
                → Yields (Outlines (LeavesOf tree c) drawn') (draw_quadtree fuel tree c drawn'))
            → Yields (Outlines (LeavesOf tree i) drawn) (draw_quadtree (suc fuel) tree i drawn)
        cases (leaf c) draws = (
          drawn ++ outline node.bounds ∷ [],
          rw (found, c) refl,
          (node.bounds ∷ [], one_leaf i node found c, refl),
        )
        cases (inner k c _ a0 a1 a2 a3 _) draws =
            let kids : AreChildren node.depth tree (block k) = (a0, (a1, (a2, (a3, tt)))) in
            let (drawn', e, (leaves, d, x)) =
              draw_children-Outlines (draw_quadtree fuel tree) node.depth draws (block k) drawn
                kids in
            (drawn', rw (found, c) e, (leaves, four i k node leaves found c d, x))

  -- In a world that is ready, as it is after each frame and before the first, `DrawQuadtree` from the
  -- root returns with a level of fuel for each depth from 0 to `MAX_DEPTH`: it follows no null pointer
  -- and draws the outline of each leaf of the tree once, in the order of the children, and nothing
  -- else.
  pub draw_root-Outlines :
      (k : ℕ) (w : World)
      → IsReady k w
      → Yields (Outlines (LeavesOf w.quad_tree 0) []) (draw_quadtree draw_fuel w.quad_tree 0 [])
  draw_root-Outlines k w r =
      let top = r.sound.reusable in
      draw_quadtree-Outlines w.quad_tree r.valid draw_fuel 0 top.root [] r.root_in_use top.found
        (omega (arith, top.at_top))

  -- `k` objects' data are left where there were as many.
  pub trim-length :
      (k : ℕ) (graphics : List GraphicsData) → k ≤ length graphics → k ≤ length (trim k graphics)
  unfolding trim
  trim-length k graphics h =
      if_rule (λ gs. k ≤ length gs) (ltb k (length graphics)) (take k graphics) graphics
        (λ _. omega (arith, length-take k graphics h)) (λ _. h)
    where
      length-take : (n : ℕ) (gs : List GraphicsData) → n ≤ length gs → length (take n gs) ≡ n
      length-take zero gs h = refl
      length-take (suc n) [] h = absurd (omega arith)
      length-take (suc n) (x ∷ gs) h = ap suc (length-take n gs (omega arith))

-- ===== src/Physics/World/Step.antt =====
-- `Update`, `UpdateBodies` and `SetUpQuadTree` of Physics/src/World.cpp: one frame.
use bark_direct_x.Prelude.{ℕ, suc, ◌+◌, not, List, [], ◌∷◌, map, if◌then◌else◌}
use bark_direct_x.Prelude.Outcome.{Outcome, ok, ◌>>=◌, noexcept, at}
use bark_direct_x.Math.{Math}
use bark_direct_x.Shape.Rectangle.{Rectangle}
use bark_direct_x.Shape.Rectangle
use bark_direct_x.Physics.Body.{Body, is_static, is_enabled, reset_force}
use bark_direct_x.Physics.Collider.{Collider, std_min, std_max, get_bounds}
use bark_direct_x.Physics.QuadTree.{QuadTree, max_depth, set_up_root, insert}
use bark_direct_x.Physics.World.{World, get_body}
use bark_direct_x.Physics.World.Collisions.{update_quad_tree_collisions}

module _ ⦃m : Math⦄ where
  open m use {
    Float, one_f, zero_f, max_f, min_f, div, xm_set, xm_scale, xm_add, get_x, get_y, set_x, set_y,
  }

  -- The body of the loop in `UpdateBodies`.
  unfoldable pub update_body : Float → Body → Body
  unfolding is_enabled reset_force
  update_body delta_time body =
      if not (is_enabled body)
      then body
      else if is_static body.type
      then body
      else let acceleration = xm_scale body.force (div one_f body.mass) in
        let velocity = xm_add body.velocity (xm_scale acceleration delta_time) in
        let position = xm_add body.position (xm_scale velocity delta_time) in
        reset_force (record body { velocity = velocity; position = position })

  unfoldable pub update_bodies : Float → World → World
  unfolding update_body
  update_bodies delta_time w = record w { bodies = map (update_body delta_time) w.bodies }

  -- `minBounds` and `maxBounds` before the first loop of `SetUpQuadTree`.
  abbrev pub no_bounds : Rectangle
  no_bounds = record {
    min_bound = xm_set max_f max_f zero_f zero_f;
    max_bound = xm_set min_f min_f zero_f zero_f;
  }

  -- Their four updates for a collider's bounds.
  unfoldable pub join : Rectangle → Rectangle → Rectangle
  unfolding std_min std_max
  join all bounds =
      let min0 = set_x all.min_bound (std_min (get_x all.min_bound) (get_x bounds.min_bound)) in
      let min1 = set_y min0 (std_min (get_y min0) (get_y bounds.min_bound)) in
      let max0 = set_x all.max_bound (std_max (get_x all.max_bound) (get_x bounds.max_bound)) in
      let max1 = set_y max0 (std_max (get_y max0) (get_y bounds.max_bound)) in
      record { min_bound = min1; max_bound = max1 }

  -- The body of the first loop.
  unfoldable pub place : World → Collider → Rectangle → Outcome (Collider × Rectangle)
  unfolding get_body get_bounds join
  place w col all = if not col.is_attached then ok (col, all) else do
    body ← get_body w col.body_ref
    let col' = record col { body_position = body.position }
    ok (col', join all (get_bounds col'))

  unfoldable pub place_all : World → List Collider → Rectangle → Outcome (List Collider × Rectangle)
  unfolding place
  place_all w [] all = ok ([], all)
  place_all w (col ∷ cols) all = do
    (col', all1) ← place w col all
    (cols', all2) ← place_all w cols all1
    ok (col' ∷ cols', all2)

  -- One level of `Insert` for each depth from 0 to `MAX_DEPTH`.
  abbrev pub insert_fuel : ℕ
  insert_fuel = suc max_depth

  -- The body of the second loop, at collider `i`.
  unfoldable pub file : List ℕ → ℕ → Collider → QuadTree → Outcome QuadTree
  unfolding insert get_bounds
  file gens i col tree =
      if col.is_attached
      then (do
        gen ← at gens i
        insert insert_fuel tree 0
            (record { aabb = get_bounds col; col_ref = record { index = i; gen_index = gen } }))
      else ok tree

  unfoldable pub file_all : List ℕ → ℕ → List Collider → QuadTree → Outcome QuadTree
  unfolding file
  file_all gens i [] tree = ok tree
  file_all gens i (col ∷ cols) tree = do
    tree' ← file gens i col tree
    file_all gens (i + 1) cols tree'

  unfoldable pub set_up_quad_tree : World → Outcome World
  unfolding place_all set_up_root file_all
  set_up_quad_tree w = noexcept (do
    (cols, all) ← place_all w w.colliders no_bounds
    tree ← set_up_root w.quad_tree (Rectangle.make all.min_bound all.max_bound)
    tree' ← file_all w.collider_gen_indices 0 cols tree
    ok (record w { colliders = cols; quad_tree = tree' }))

  unfoldable pub step : Float → World → Outcome World
  unfolding update_bodies set_up_quad_tree update_quad_tree_collisions
  step delta_time w = noexcept (do
    w' ← set_up_quad_tree (update_bodies delta_time w)
    update_quad_tree_collisions insert_fuel w' 0)

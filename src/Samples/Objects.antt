-- ===== src/Samples/Objects.antt =====
-- What the samples of samples/src have in common: the creation of an object, loops, the walls of the
-- window, the drawing of the quadtree, and the counters of triggers.
use bark_direct_x.Prelude.{
  ℕ, zero, suc, ◌+◌, false, Option, none, some, List, [], ◌∷◌, ◌++◌, length, take, set, ltb,
  if◌then◌else◌,
}
use bark_direct_x.Prelude.Integers.{ℤ, pos, negsuc, ◌+ℤ◌, ◌-ℤ◌, le_ℤ, lt_ℤ}
use bark_direct_x.Prelude.Outcome.{Outcome, ok, undefined, out_of_fuel, ◌>>=◌, at, modify}
use bark_direct_x.Math.{Math}
use bark_direct_x.Common.Utility.{abs}
use bark_direct_x.Common.Random.{Draws, range, int_range}
use bark_direct_x.Shape.{Shape, circle_shape, rectangle_shape, polygon_shape}
use bark_direct_x.Shape.Circle
use bark_direct_x.Shape.Rectangle.{Rectangle}
use bark_direct_x.Shape.Rectangle
use bark_direct_x.Shape.Polygon
use bark_direct_x.Physics.Refs.{BodyRef, ColliderRef}
use bark_direct_x.Physics.Body.{Body}
use bark_direct_x.Physics.Collider.{Collider, get_bounds}
use bark_direct_x.Physics.QuadTree.{QuadTree, has_children, max_depth}
use bark_direct_x.Physics.World.{
  World, Event, on_trigger_enter, on_trigger_exit, on_collision_enter, on_collision_exit,
  create_body, modify_body, get_body, create_collider, modify_collider, get_collider,
}
use bark_direct_x.Samples.{Sample, GraphicsData, Color, rgb}
use bark_direct_x.Samples.Metrics.{width, height}

-- `for (i = first; i < first + rounds; ++i)`.
unfoldable pub for_loop {ℓ} : {A : Type ℓ} → (ℕ → A → Outcome A) → ℕ → ℕ → A → Outcome A
for_loop body first zero s = ok s
for_loop body first (suc rounds) s = do s' ← body first s; for_loop body (suc first) rounds s'

-- `INT_MAX`; a signed overflow is undefined.
abbrev pub int_max : ℕ
int_max = 2147483647

unfoldable pub increment : ℤ → Outcome ℤ
increment n = if le_ℤ (pos int_max) n then undefined else ok (n +ℤ pos 1)

unfoldable pub decrement : ℤ → Outcome ℤ
decrement n = if le_ℤ n (negsuc int_max) then undefined else ok (n -ℤ pos 1)

-- `v[i]++` and `v[i]--`.
unfoldable pub count_at : (ℤ → Outcome ℤ) → List ℤ → ℕ → Outcome (List ℤ)
count_at change counters i = do n ← at counters i; n' ← change n; ok (set counters i n')

-- The counters of two colliders.
unfoldable pub count_pair : (ℤ → Outcome ℤ) → List ℤ → ColliderRef → ColliderRef → Outcome (List ℤ)
unfolding count_at
count_pair change counters col1 col2 = do
  counters' ← count_at change counters col1.index
  count_at change counters' col2.index

-- `OnTriggerEnter` and `OnTriggerExit`; `OnCollisionEnter` and `OnCollisionExit` do nothing.
unfoldable pub count_call : Event → List ℤ → Outcome (List ℤ)
unfolding count_pair increment decrement
count_call (on_trigger_enter col1 col2) counters = count_pair increment counters col1 col2
count_call (on_trigger_exit col1 col2) counters = count_pair decrement counters col1 col2
count_call (on_collision_enter col1 col2) counters = ok counters
count_call (on_collision_exit col1 col2) counters = ok counters

-- The colours of an object that a trigger detects, and of one that none does.
abbrev pub green : Color
green = rgb (pos 0) (pos 255) (pos 0)

abbrev pub blue : Color
blue = rgb (pos 0) (pos 0) (pos 255)

unfoldable pub trigger_color : ℤ → Color
trigger_color n = if lt_ℤ (pos 0) n then green else blue

module _ ⦃m : Math⦄ where
  open m use {
    Float, Vector, zero_f, one_f, literal, neg, sub, le, xm_zero, xm_set, xm_braces, xm_scale,
    get_x, get_y, set_x, set_y,
  }

  -- A body, a collider of it, and the data that draw it: what `change` and `attach` assign to the
  -- fields of the body and of the collider, which sees the body.
  unfoldable pub add_object :
      {Own : Type 0}
      → (Body → Body)
      → (Body → Collider → Collider)
      → (Body → GraphicsData)
      → Sample Own
      → Outcome (Sample Own × BodyRef)
  unfolding create_body modify_body create_collider get_body modify_collider
  add_object change attach draw s = do
    (w1, ref) ← create_body s.world
    w2 ← modify_body w1 ref change
    (w3, col_ref) ← create_collider w2 ref
    body ← get_body w3 ref
    w4 ← modify_collider w3 col_ref (attach body)
    ok (
      record s {
        world = w4;
        body_refs = s.body_refs ++ ref ∷ [];
        col_refs = s.col_refs ++ col_ref ∷ [];
        all_graphics_data = s.all_graphics_data ++ draw body ∷ [];
      },
      ref,
    )

  -- The same where the reference of the body is not used any more.
  unfoldable pub add_unnamed :
      {Own : Type 0}
      → (Body → Body)
      → (Body → Collider → Collider)
      → (Body → GraphicsData)
      → Sample Own
      → Outcome (Sample Own)
  unfolding add_object
  add_unnamed change attach draw s = do (s', _) ← add_object change attach draw s; ok s'

  -- The velocity and position of an object that is thrown somewhere into the window, from the draws
  -- `k` to `k + 3`. The order in which C++ evaluates the first two is not fixed.
  unfoldable pub thrown : Draws → ℕ → Float → Body → Body
  unfolding range
  thrown draws k speed body =
      let vx = range draws k (neg one_f) one_f in
      let vy = range draws (k + 1) (neg one_f) one_f in
      let margin = literal 100 0 in
      let x = range draws (k + 2) margin (sub (literal width 0) margin) in
      let y = range draws (k + 3) margin (sub (literal height 0) margin) in
      record body {
        velocity = xm_scale (xm_set vx vy zero_f zero_f) speed;
        position = xm_braces x y;
      }

  -- A colour from the draws `k` to `k + 2`.
  unfoldable pub random_color : Draws → ℕ → Color
  unfolding int_range
  random_color draws k =
      let part = λ (j : ℕ). int_range draws j (pos 0) (pos 255) in
      rgb (part k) (part (k + 1)) (part (k + 2))

  -- `std::get<...>(shape) + position`.
  unfoldable pub translate_shape : Shape → Vector → Shape
  unfolding Circle.translate Rectangle.translate Polygon.translate
  translate_shape (circle_shape c) v = circle_shape (Circle.translate c v)
  translate_shape (rectangle_shape r) v = rectangle_shape (Rectangle.translate r v)
  translate_shape (polygon_shape p) v = polygon_shape (Polygon.translate p v)

  -- `AllGraphicsData[i].Shape = std::get<...>(shape) + position` in the cases of a circle and of a
  -- rectangle; a `switch` without a case for polygons leaves theirs.
  unfoldable pub redraw : Shape → Vector → ℕ → List GraphicsData → Outcome (List GraphicsData)
  unfolding translate_shape
  redraw (circle_shape c) v i graphics =
      modify graphics i (λ gd. record gd { shape = translate_shape (circle_shape c) v })
  redraw (rectangle_shape r) v i graphics =
      modify graphics i (λ gd. record gd { shape = translate_shape (rectangle_shape r) v })
  redraw (polygon_shape p) v i graphics = ok graphics

  -- A body whose collider has the given bounds turns back at the walls.
  unfoldable pub bounce_x : Rectangle → Body → Body
  unfolding abs
  bounce_x bounds body =
      let v = body.velocity in
      if le (get_x bounds.min_bound) zero_f
      then record body { velocity = set_x v (abs (get_x v)) }
      else if le (literal width 0) (get_x bounds.max_bound)
      then record body { velocity = set_x v (neg (abs (get_x v))) }
      else body

  unfoldable pub bounce_y : Rectangle → Body → Body
  unfolding abs
  bounce_y bounds body =
      let v = body.velocity in
      if le (get_y bounds.min_bound) zero_f
      then record body { velocity = set_y v (abs (get_y v)) }
      else if le (literal height 0) (get_y bounds.max_bound)
      then record body { velocity = set_y v (neg (abs (get_y v))) }
      else body

  unfoldable pub bounce : Rectangle → Body → Body
  unfolding bounce_x bounce_y
  bounce bounds body = bounce_y bounds (bounce_x bounds body)

  -- `GetCollider`, `GetBounds`, `GetBody` and the bounce.
  unfoldable pub bounce_object : World → ColliderRef → Outcome World
  unfolding get_collider modify_body bounce get_bounds
  bounce_object w ref = do
    col ← get_collider w ref
    modify_body w col.body_ref (bounce (get_bounds col))

  -- `if (_nbObjects < AllGraphicsData.size()) erase(...)`.
  unfoldable pub trim : ℕ → List GraphicsData → List GraphicsData
  trim nb_objects graphics =
      if ltb nb_objects (length graphics) then take nb_objects graphics else graphics

  -- The outline of a leaf of the quadtree.
  abbrev pub outline : Rectangle → GraphicsData
  outline bounds = record {
    shape = rectangle_shape bounds;
    filled = false;
    color = rgb (pos 255) (pos 255) (pos 255);
  }

  -- The loop of `DrawQuadtree` over the children, with the recursive call as an argument.
  unfoldable pub draw_children :
      (ℕ → List GraphicsData → Outcome (List GraphicsData))
      → List (Option ℕ)
      → List GraphicsData
      → Outcome (List GraphicsData)
  draw_children draw [] drawn = ok drawn
  draw_children draw (none ∷ cs) drawn = undefined
  draw_children draw (some c ∷ cs) drawn = do drawn' ← draw c drawn; draw_children draw cs drawn'

  -- `DrawQuadtree`, with fuel for its recursion.
  unfoldable pub draw_quadtree : ℕ → QuadTree → ℕ → List GraphicsData → Outcome (List GraphicsData)
  unfolding draw_children
  draw_quadtree zero tree i drawn = out_of_fuel
  draw_quadtree (suc fuel) tree i drawn = do
    node ← at tree.nodes i
    if has_children node.children
        then draw_children (draw_quadtree fuel tree) node.children drawn
        else ok (drawn ++ outline node.bounds ∷ [])

  -- One level for each depth from 0 to `MAX_DEPTH`.
  abbrev pub draw_fuel : ℕ
  draw_fuel = suc max_depth

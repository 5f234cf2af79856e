-- ===== src/Physics/Collider/Bounds.antt =====
-- The bounds that `Collider::GetBounds` of Physics/src/Collider.cpp computes for a polygon.
use bark_direct_x.Prelude.{
  ℕ, ◌≡◌, refl, true, List, [], ◌∷◌, foldl, some, arith, get_elem?, All, All-get,
}
use bark_direct_x.Math.{Math}
use bark_direct_x.Math.Laws.{IsNumber, IsOrdered, IsComponentwise, le-not_lt}
use bark_direct_x.Shape.Rectangle.{Rectangle}
use bark_direct_x.Shape.Rectangle
use bark_direct_x.Physics.Collider.{
  std_min, std_max, Extent, initial_extent, extend, polygon_bounds,
}

module _ ⦃m : Math⦄ where
  open m use {Float, Vector, le, lt, get_x, get_y, max_f, min_f}

  -- The coordinates of the vertex are numbers.
  abbrev pub IsPlaced : Vector → Type 0
  IsPlaced v = IsNumber (get_x v) × IsNumber (get_y v)

  -- The four bounds are numbers.
  abbrev IsFinite : Extent → Type 0
  IsFinite e = IsNumber e.min_x × IsNumber e.min_y × IsNumber e.max_x × IsNumber e.max_y

  abbrev Covers : Extent → Vector → Type 0
  Covers e v =
      (le e.min_x (get_x v) ≡ true)
      × (le e.min_y (get_y v) ≡ true)
      × (le (get_x v) e.max_x ≡ true)
      × (le (get_y v) e.max_y ≡ true)

  abbrev Widens : Extent → Extent → Type 0
  Widens e f =
      (le f.min_x e.min_x ≡ true)
      × (le f.min_y e.min_y ≡ true)
      × (le e.max_x f.max_x ≡ true)
      × (le e.max_y f.max_y ≡ true)

  module _ (laws : IsOrdered m) (parts : IsComponentwise m) where
    open laws use {le_trans, le_number, lt_not_le, not_lt_le}
    open parts use {get_x_braces, get_y_braces}

    pub std_min-le :
        (a b : Float)
        → IsNumber a
        → IsNumber b
        → (le (std_min a b) a ≡ true) × (le (std_min a b) b ≡ true) × IsNumber (std_min a b)
    unfolding std_min
    std_min-le a b ha hb = ground (arith, ha, hb, lt_not_le b a, not_lt_le b a hb ha)

    pub std_max-le :
        (a b : Float)
        → IsNumber a
        → IsNumber b
        → (le a (std_max a b) ≡ true) × (le b (std_max a b) ≡ true) × IsNumber (std_max a b)
    unfolding std_max
    std_max-le a b ha hb = ground (arith, ha, hb, lt_not_le a b, not_lt_le a b ha hb)

    extend-Covers :
        (e : Extent) (v : Vector)
        → IsFinite e
        → IsPlaced v
        → IsFinite (extend e v) × Widens e (extend e v) × Covers (extend e v) v
    unfolding extend
    extend-Covers e v (a, b, c, d) (x, y) =
        let (p0, p1, p2) = std_min-le e.min_x (get_x v) a x in
        let (q0, q1, q2) = std_min-le e.min_y (get_y v) b y in
        let (r0, r1, r2) = std_max-le e.max_x (get_x v) c x in
        let (s0, s1, s2) = std_max-le e.max_y (get_y v) d y in
        ((p2, q2, r2, s2), (p0, q0, r0, s0), (p1, q1, r1, s1))

    Covers-Widens : (e f : Extent) (v : Vector) → Widens e f → Covers e v → Covers f v
    Covers-Widens e f v (a, b, c, d) (p, q, r, s) = (
      le_trans f.min_x e.min_x (get_x v) a p,
      le_trans f.min_y e.min_y (get_y v) b q,
      le_trans (get_x v) e.max_x f.max_x r c,
      le_trans (get_y v) e.max_y f.max_y s d,
    )

    Widens-trans : (e f g : Extent) → Widens e f → Widens f g → Widens e g
    Widens-trans e f g (a, b, c, d) (p, q, r, s) = (
      le_trans g.min_x f.min_x e.min_x p a,
      le_trans g.min_y f.min_y e.min_y q b,
      le_trans e.max_x f.max_x g.max_x c r,
      le_trans e.max_y f.max_y g.max_y d s,
    )

    foldl-extend :
        (e : Extent) (vs : List Vector)
        → IsFinite e
        → All IsPlaced vs
        → Widens e (foldl extend e vs) × All (Covers (foldl extend e vs)) vs
    foldl-extend e [] (a, b, c, d) placed = ((a, b, c, d), tt)
    foldl-extend e (v ∷ vs) finite (here, placed) =
        let (finite', wide, cover) = extend-Covers e v finite here in
        let (wide', covers) = foldl-extend (extend e v) vs finite' placed in
        (
          Widens-trans e (extend e v) (foldl extend (extend e v) vs) wide wide',
          (Covers-Widens (extend e v) (foldl extend (extend e v) vs) v wide' cover, covers),
        )

    -- Where numbers are ordered and the float limits are numbers, the bounds that `GetBounds` computes
    -- for a polygon, before it moves them to the body, contain each of its vertices, if their
    -- coordinates are numbers.
    pub polygon_bounds-contains :
        (vertices : List Vector) (i : ℕ) {v : Vector}
        → IsNumber max_f
        → IsNumber min_f
        → All IsPlaced vertices
        → get_elem? vertices i ≡ some v
        → Rectangle.contains (polygon_bounds vertices) v ≡ true
    unfolding polygon_bounds Rectangle.contains
    polygon_bounds-contains vertices i {v} top low placed at =
        let e : Extent = foldl extend initial_extent vertices in
        let (_, covers) = foldl-extend initial_extent vertices (top, top, low, low) placed in
        let (a, b, c, d) = All-get (Covers e) vertices i covers at in
        rw
          (
            get_x_braces e.min_x e.min_y,
            get_y_braces e.min_x e.min_y,
            get_x_braces e.max_x e.max_y,
            get_y_braces e.max_x e.max_y,
            le-not_lt laws e.min_x (get_x v) a,
            le-not_lt laws e.min_y (get_y v) b,
            le-not_lt laws (get_x v) e.max_x c,
            le-not_lt laws (get_y v) e.max_y d,
          )
          refl

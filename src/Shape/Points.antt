-- ===== src/Shape/Points.antt =====
-- What the `Intersect` overloads of Physics/include/Shape.h say of common points.
use bark_direct_x.Prelude.{◌≡◌, ◌↔◌, true, false, arith}
use bark_direct_x.Math.{Math}
use bark_direct_x.Math.Laws.{IsNumber, IsOrdered, IsComponentwise, le-not_lt}
use bark_direct_x.Common.Utility.{max}
use bark_direct_x.Shape.Rectangle.{Rectangle}
use bark_direct_x.Shape.Rectangle
use bark_direct_x.Shape.Intersect.{rectangle_rectangle}

module _ ⦃m : Math⦄ where
  open m use {Float, Vector, le, lt, get_x, get_y, xm_set, zero_f, dot3}

  -- The corners of a rectangle are numbers, in order.
  pub record IsProper (r : Rectangle) : Type 0 where
    pub x_ordered : le (get_x r.min_bound) (get_x r.max_bound) ≡ true
    pub y_ordered : le (get_y r.min_bound) (get_y r.max_bound) ≡ true

  -- Both rectangles contain a point whose coordinates are numbers.
  abbrev pub CommonPoint : Rectangle → Rectangle → Type 0
  CommonPoint a b =
      (p : Vector) × IsNumber (get_x p)
      × IsNumber (get_y p)
      × (Rectangle.contains a p ≡ true)
      × (Rectangle.contains b p ≡ true)

  contains-le :
      (r : Rectangle) (p : Vector)
      → lt (get_x r.max_bound) (get_x p) ≡ false
      → lt (get_x p) (get_x r.min_bound) ≡ false
      → lt (get_y r.max_bound) (get_y p) ≡ false
      → lt (get_y p) (get_y r.min_bound) ≡ false
      → Rectangle.contains r p ≡ true
  unfolding Rectangle.contains
  contains-le r p a b c d = ground arith

  module _ (laws : IsOrdered m) (parts : IsComponentwise m) where
    open laws use {le_trans, le_number, le_total, lt_not_le, not_lt_le}
    open parts use {get_x_set, get_y_set}

    -- The overlap of two intervals holds the larger of their lower ends.
    max_between :
        (lo1 hi1 lo2 hi2 : Float)
        → le lo1 hi1 ≡ true
        → le lo2 hi2 ≡ true
        → lt hi1 lo2 ≡ false
        → lt hi2 lo1 ≡ false
        → (le lo1 (max lo1 lo2) ≡ true)
          × (le lo2 (max lo1 lo2) ≡ true)
          × (le (max lo1 lo2) hi1 ≡ true)
          × (le (max lo1 lo2) hi2 ≡ true)
    unfolding max
    max_between lo1 hi1 lo2 hi2 h1 h2 s1 s2 =
        let (a1, b1) = le_number lo1 hi1 h1 in
        let (a2, b2) = le_number lo2 hi2 h2 in
        ground (
          arith,
          lt_not_le lo2 lo1,
          not_lt_le lo2 lo1 a2 a1,
          not_lt_le hi1 lo2 b1 a2 s1,
          not_lt_le hi2 lo1 b2 a1 s2,
        )

    interval_apart :
        (lo1 hi1 lo2 hi2 p : Float)
        → IsNumber p
        → IsNumber lo1
        → IsNumber hi1
        → IsNumber lo2
        → IsNumber hi2
        → lt p lo1 ≡ false
        → lt hi1 p ≡ false
        → lt p lo2 ≡ false
        → lt hi2 p ≡ false
        → (lt hi1 lo2 ≡ false) × (lt hi2 lo1 ≡ false)
    interval_apart lo1 hi1 lo2 hi2 p hp n1 m1 n2 m2 a b c d = ground (
      arith,
      not_lt_le p lo1 hp n1 a,
      not_lt_le hi1 p m1 hp b,
      not_lt_le p lo2 hp n2 c,
      not_lt_le hi2 p m2 hp d,
      le_trans lo2 p hi1,
      le_trans lo1 p hi2,
      lt_not_le hi1 lo2,
      lt_not_le hi2 lo1,
    )

    -- Where numbers are ordered and vectors are made of their components, two rectangles whose
    -- corners are numbers in order intersect exactly if they contain a common point whose
    -- coordinates are numbers.
    pub rectangle_rectangle_iff :
        (a b : Rectangle)
        → IsProper a
        → IsProper b
        → (rectangle_rectangle a b ≡ true) ↔ CommonPoint a b
    unfolding rectangle_rectangle Rectangle.contains
    rectangle_rectangle_iff a b pa pb = (to, from)
      where
        x : Float
        x = max (get_x a.min_bound) (get_x b.min_bound)

        y : Float
        y = max (get_y a.min_bound) (get_y b.min_bound)

        point : Vector
        point = xm_set x y zero_f zero_f

        to : rectangle_rectangle a b ≡ true → CommonPoint a b
        to h =
            let (ax, bx, xa, xb) =
              max_between (get_x a.min_bound) (get_x a.max_bound) (get_x b.min_bound)
                (get_x b.max_bound) pa.x_ordered pb.x_ordered (ground arith) (ground arith) in
            let (ay, by, ya, yb) =
              max_between (get_y a.min_bound) (get_y a.max_bound) (get_y b.min_bound)
                (get_y b.max_bound) pa.y_ordered pb.y_ordered (ground arith) (ground arith) in
            let ex = get_x_set x y zero_f zero_f in
            let ey = get_y_set x y zero_f zero_f in
            (
              point,
              rw ex (le_number _ _ ax).1,
              rw ey (le_number _ _ ay).1,
              contains-le a point (rw ex (le-not_lt laws _ _ xa)) (rw ex (le-not_lt laws _ _ ax))
                  (rw ey (le-not_lt laws _ _ ya)) (rw ey (le-not_lt laws _ _ ay)),
              contains-le b point (rw ex (le-not_lt laws _ _ xb)) (rw ex (le-not_lt laws _ _ bx))
                  (rw ey (le-not_lt laws _ _ yb)) (rw ey (le-not_lt laws _ _ by)),
            )

        from : CommonPoint a b → rectangle_rectangle a b ≡ true
        from (p, nx, ny, ca, cb) =
            let (ax, ax') = le_number _ _ pa.x_ordered in
            let (bx, bx') = le_number _ _ pb.x_ordered in
            let (ay, ay') = le_number _ _ pa.y_ordered in
            let (by, by') = le_number _ _ pb.y_ordered in
            let fx =
              interval_apart _ _ _ _ (get_x p) nx ax ax' bx bx' (ground arith) (ground arith)
                (ground arith) (ground arith) in
            let fy =
              interval_apart _ _ _ _ (get_y p) ny ay ay' by by' (ground arith) (ground arith)
                (ground arith) (ground arith) in
            ground (arith, fx, fy)

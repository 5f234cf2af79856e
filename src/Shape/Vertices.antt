-- ===== src/Shape/Vertices.antt =====
-- What the separating axis test of Physics/include/Shape.h says of polygons with a common vertex.
use bark_direct_x.Prelude.{
  ℕ, ◌≡◌, refl, true, false, List, [], ◌∷◌, foldl, some, arith, get_elem?, All, All-get,
}
use bark_direct_x.Prelude.Outcome.{ok}
use bark_direct_x.Math.{Math}
use bark_direct_x.Math.Laws.{IsNumber, IsOrdered, IsComponentwise, le-not_lt}
use bark_direct_x.Common.Utility.{min, max}
use bark_direct_x.Shape.Polygon.{Polygon}
use bark_direct_x.Shape.Polygon
use bark_direct_x.Shape.Intersect.{
  widen, widen_all, separated, has_separating_axis, edges, polygon_polygon, normal_of,
}

module _ ⦃m : Math⦄ (laws : IsOrdered m) (parts : IsComponentwise m) where
  open m use {Float, Vector, le, lt, get_x, get_y, xm_set, zero_f, dot3}
  open laws use {le_trans, le_number, le_total, lt_not_le, not_lt_le}
  open parts use {get_x_set, get_y_set}

  -- A step of the projection loop only widens the interval, and takes in the vertex's value.
  widen_covers :
      (n p v : Vector)
      → IsNumber (get_x p)
      → IsNumber (get_y p)
      → IsNumber (get_x (dot3 v n))
      → let q = widen n p v in
        let value = get_x (dot3 v n) in
        (le (get_x q) (get_x p) ≡ true)
        × (le (get_y p) (get_y q) ≡ true)
        × (le (get_x q) value ≡ true)
        × (le value (get_y q) ≡ true)
  unfolding widen min max
  widen_covers n p v hx hy hv =
      rw (get_x_set, get_y_set)
        (ground (
          arith,
          lt_not_le (get_x p) (get_x (dot3 v n)),
          not_lt_le (get_x p) (get_x (dot3 v n)) hx hv,
          lt_not_le (get_x (dot3 v n)) (get_y p),
          not_lt_le (get_x (dot3 v n)) (get_y p) hv hy,
        ))

  abbrev pub HasValues : Vector → List Vector → Type 0
  HasValues n vs = All (λ v. IsNumber (get_x (dot3 v n))) vs

  -- After the loop the interval covers the one before it and every vertex's value.
  foldl-widen_covers :
      (n p : Vector) (vs : List Vector)
      → IsNumber (get_x p)
      → IsNumber (get_y p)
      → HasValues n vs
      → let q = foldl (widen n) p vs in
        (le (get_x q) (get_x p) ≡ true)
        × (le (get_y p) (get_y q) ≡ true)
        × All
            (λ v.
              (le (get_x q) (get_x (dot3 v n)) ≡ true) × (le (get_x (dot3 v n)) (get_y q) ≡ true))
            vs
  foldl-widen_covers n p [] hx hy hs = (hx, hy, tt)
  foldl-widen_covers n p (v ∷ vs) hx hy (h, hs) =
      let (x1, y1, a1, b1) = widen_covers n p v hx hy h in
      let (x2, y2, rest) =
        foldl-widen_covers n (widen n p v) vs (le_number _ _ x1).0 (le_number _ _ y1).1 hs in
      (
        le_trans _ _ _ x2 x1,
        le_trans _ _ _ y1 y2,
        ((le_trans _ _ _ x2 a1, le_trans _ _ _ b1 y2), rest),
      )

  interval_covers :
      (n w : Vector) (ws : List Vector) (i : ℕ) {v : Vector}
      → HasValues n (w ∷ ws)
      → get_elem? (w ∷ ws) i ≡ some v
      → let q = widen_all n w (w ∷ ws) in
        (le (get_x q) (get_x (dot3 v n)) ≡ true) × (le (get_x (dot3 v n)) (get_y q) ≡ true)
  unfolding widen_all
  interval_covers n w ws i {v} hs e =
      let start : Float = get_x (dot3 w n) in
      let p = xm_set start start zero_f zero_f in
      let ex = get_x_set start start zero_f zero_f in
      let ey = get_y_set start start zero_f zero_f in
      let (_, _, covered) = foldl-widen_covers n p (w ∷ ws) (rw ex hs.0) (rw ey hs.0) hs in
      All-get
        (λ u.
          (le (get_x (foldl (widen n) p (w ∷ ws))) (get_x (dot3 u n)) ≡ true)
          × (le (get_x (dot3 u n)) (get_y (foldl (widen n) p (w ∷ ws))) ≡ true))
        (w ∷ ws) i covered e

  -- No axis separates polygons that share a vertex.
  axis-shared :
      (es : List (Vector × Vector)) (a b : Vector) (us vs : List Vector) (i j : ℕ) {v : Vector}
      → All (λ e. HasValues (normal_of e) (a ∷ us) × HasValues (normal_of e) (b ∷ vs)) es
      → get_elem? (a ∷ us) i ≡ some v
      → get_elem? (b ∷ vs) j ≡ some v
      → has_separating_axis es (a ∷ us) (b ∷ vs) ≡ ok false
  unfolding has_separating_axis separated
  axis-shared [] a b us vs i j hs p q = refl
  axis-shared (e ∷ es) a b us vs i j {v} ((ha, hb), hs) p q =
      let n = normal_of e in
      let (a1, a2) = interval_covers n a us i ha p in
      let (b1, b2) = interval_covers n b vs j hb q in
      let apart1 = le-not_lt laws _ _ (le_trans _ _ _ b1 a2) in
      let apart2 = le-not_lt laws _ _ (le_trans _ _ _ a1 b2) in
      ground (arith, apart1, apart2, axis-shared es a b us vs i j hs p q)

  -- For each edge of either polygon, the projections of all vertices on its normal are numbers.
  abbrev pub HasProjections : List Vector → List Vector → Type 0
  HasProjections us vs =
      All (λ e. HasValues (normal_of e) us × HasValues (normal_of e) vs) (edges us)
      × All (λ e. HasValues (normal_of e) us × HasValues (normal_of e) vs) (edges vs)

  -- Where numbers are ordered and vectors are made of their components, the separating axis test
  -- finds an intersection of any two polygons that share a vertex, if the projections that it
  -- compares are numbers.
  pub polygon_polygon-shared :
      (a b : Polygon) (i j : ℕ) {v : Vector}
      → HasProjections a.vertices b.vertices
      → get_elem? a.vertices i ≡ some v
      → get_elem? b.vertices j ≡ some v
      → polygon_polygon a b ≡ ok true
  unfolding polygon_polygon
  polygon_polygon-shared a b i j {v} = go a.vertices b.vertices
    where
      go :
          (us vs : List Vector)
          → HasProjections us vs
          → get_elem? us i ≡ some v
          → get_elem? vs j ≡ some v
          → polygon_polygon (Polygon.make us) (Polygon.make vs) ≡ ok true
      go [] vs hs p q = cc
      go (u ∷ us) [] hs p q = cc
      go (u ∷ us) (w ∷ ws) (h1, h2) p q =
          let r1 = axis-shared (edges (u ∷ us)) u w us ws i j h1 p q in
          let r2 = axis-shared (edges (w ∷ ws)) u w us ws i j h2 p q in ground (arith, r1, r2)

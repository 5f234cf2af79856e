-- ===== src/Physics/World/Extent.antt =====
-- The first loop of `World::SetUpQuadTree` in Physics/src/World.cpp: the bounds that it collects and
-- those of the attached colliders.
use bark_direct_x.Prelude.{
  ℕ, zero, suc, ◌≡◌, refl, sym, ap, subst, ◌∙◌, inl, inr, true, some, List, [], ◌∷◌, arith,
  get_elem?, Bool-cases,
}
use bark_direct_x.Prelude.Outcome.{ok, ◌>>=◌, >>=-eq-ok}
use bark_direct_x.Math.{Math}
use bark_direct_x.Math.Laws.{IsNumber, IsOrdered, IsComponentwise, IsReflecting}
use bark_direct_x.Shape.Rectangle.{Rectangle}
use bark_direct_x.Shape.Points.{IsProper}
use bark_direct_x.Physics.Collider.{Collider, get_bounds, std_min, std_max}
use bark_direct_x.Physics.Collider.Bounds.{std_min-le, std_max-le}
use bark_direct_x.Physics.World.{World}
use bark_direct_x.Physics.World.Placed.{HasBody, HaveBodies}
use bark_direct_x.Physics.World.Step.{join, place, place_all}

module _ ⦃m : Math⦄ where
  open m use {Float, le, lt, get_x, get_y, max_f, min_f}

  -- The four bounds are numbers.
  abbrev pub IsFinite : Rectangle → Type 0
  IsFinite r =
      IsNumber (get_x r.min_bound)
      × IsNumber (get_y r.min_bound)
      × IsNumber (get_x r.max_bound)
      × IsNumber (get_y r.max_bound)

  -- The first rectangle lies within the second.
  abbrev pub IsWithin : Rectangle → Rectangle → Type 0
  IsWithin r all =
      (le (get_x all.min_bound) (get_x r.min_bound) ≡ true)
      × (le (get_y all.min_bound) (get_y r.min_bound) ≡ true)
      × (le (get_x r.max_bound) (get_x all.max_bound) ≡ true)
      × (le (get_y r.max_bound) (get_y all.max_bound) ≡ true)

  -- The rectangle contains the bounds of the colliders of a list that are attached.
  abbrev pub AllWithin : List Collider → Rectangle → Type 0
  AllWithin cols all =
      (n : ℕ) (col : Collider)
      → get_elem? cols n ≡ some col
      → col.is_attached ≡ true
      → IsWithin (get_bounds col) all

  -- The colliders of a list that are attached have bounds in order.
  abbrev pub AllProper : List Collider → Type 0
  AllProper cols =
      (n : ℕ) (col : Collider)
      → get_elem? cols n ≡ some col
      → col.is_attached ≡ true
      → IsProper (get_bounds col)

  module _ (laws : IsOrdered m) (parts : IsComponentwise m) (setters : IsReflecting m) where
    open laws use {le_trans, le_number}
    open setters use {get_x_set_x, get_y_set_x, get_x_set_y, get_y_set_y}

    IsWithin-trans : (a b c : Rectangle) → IsWithin a b → IsWithin b c → IsWithin a c
    IsWithin-trans a b c (p1, p2, p3, p4) (q1, q2, q3, q4) =
        (le_trans _ _ _ q1 p1, le_trans _ _ _ q2 p2, le_trans _ _ _ p3 q3, le_trans _ _ _ p4 q4)

    IsProper-IsFinite : (r : Rectangle) → IsProper r → IsFinite r
    IsProper-IsFinite r p =
        let (x1, x2) = le_number _ _ p.x_ordered in
        let (y1, y2) = le_number _ _ p.y_ordered in (x1, y1, x2, y2)

    -- The corners of the joined bounds.
    abbrev IsJoin : Rectangle → Rectangle → Rectangle → Type 0
    IsJoin all r joined =
        (get_x joined.min_bound ≡ std_min (get_x all.min_bound) (get_x r.min_bound))
        × (get_y joined.min_bound ≡ std_min (get_y all.min_bound) (get_y r.min_bound))
        × (get_x joined.max_bound ≡ std_max (get_x all.max_bound) (get_x r.max_bound))
        × (get_y joined.max_bound ≡ std_max (get_y all.max_bound) (get_y r.max_bound))

    join-IsJoin : (all r : Rectangle) → IsJoin all r (join all r)
    unfolding join
    join-IsJoin all r = (
      get_x_set_y _ _ ∙ get_x_set_x _ _,
      get_y_set_y _ _ ∙ ap (λ a. std_min a (get_y r.min_bound)) (get_y_set_x _ _),
      get_x_set_y _ _ ∙ get_x_set_x _ _,
      get_y_set_y _ _ ∙ ap (λ a. std_max a (get_y r.max_bound)) (get_y_set_x _ _),
    )

    join-IsWithin :
        (all r : Rectangle)
        → IsFinite all
        → IsFinite r
        → IsFinite (join all r) × IsWithin all (join all r) × IsWithin r (join all r)
    join-IsWithin all r (a1, a2, a3, a4) (b1, b2, b3, b4) =
        let (e1, e2, e3, e4) = join-IsJoin all r in
        let (p, q, x) = std_min-le laws parts (get_x all.min_bound) (get_x r.min_bound) a1 b1 in
        let (p', q', y) = std_min-le laws parts (get_y all.min_bound) (get_y r.min_bound) a2 b2 in
        let (s, t, z) = std_max-le laws parts (get_x all.max_bound) (get_x r.max_bound) a3 b3 in
        let (s', t', w) = std_max-le laws parts (get_y all.max_bound) (get_y r.max_bound) a4 b4 in
        rw (e1, e2, e3, e4) ((x, y, z, w), (p, p', s, s'), (q, q', t, t'))

    -- What one step of the loop leaves of the bounds that it has collected.
    abbrev Collects : Rectangle → Collider → Rectangle → Type 0
    Collects all col' all' =
        IsFinite all'
        × IsWithin all all'
        × (col'.is_attached ≡ true → IsWithin (get_bounds col') all')

    refl-IsWithin : (r : Rectangle) → IsFinite r → IsWithin r r
    refl-IsWithin r (a, b, c, d) = (a, b, c, d)

    place-Collects :
        (w : World) (col col' : Collider) (all all' : Rectangle)
        → (col.is_attached ≡ true → HasBody w col)
        → place w col all ≡ ok (col', all')
        → IsFinite all
        → (col'.is_attached ≡ true → IsProper (get_bounds col'))
        → Collects all col' all'
    unfolding place
    place-Collects w col col' all all' good e finite proper = elim (Bool-cases col.is_attached) [
      | inr off ↦
          let same : col ≡ col' = ground (arith, e, off) in
          let kept : all ≡ all' = ground (arith, e, off) in
          subst (λ r. Collects all col' r) kept
            (
              finite,
              refl-IsWithin all finite,
              λ on. absurd (ground (arith, on, off, ap (λ (c : Collider). c.is_attached) same)),
            )
      | inl on ↦
          let (b, found) = good on in
          let moved : Collider = record col { body_position = b.position } in
          let joined = join all (get_bounds moved) in
          let same : moved ≡ col' = ground (arith, e, on, found) in
          let kept : joined ≡ all' = ground (arith, e, on, found) in
          let box =
            subst (λ (c : Collider). IsProper (get_bounds c)) (sym same)
              (proper (ap (λ (c : Collider). c.is_attached) (sym same) ∙ on)) in
          let (f, wide, within) =
            join-IsWithin all (get_bounds moved) finite
              (IsProper-IsFinite (get_bounds moved) box) in
          subst (λ r. Collects all col' r) kept
            (f, wide, λ _. subst (λ (c : Collider). IsWithin (get_bounds c) joined) same within)
    ]

    AllProper-rest :
        (col : Collider) (cols : List Collider) → AllProper (col ∷ cols) → AllProper cols
    AllProper-rest col cols proper n x at on = proper (suc n) x at on

    AllWithin-cons :
        (col : Collider) (cols : List Collider) (all all' : Rectangle)
        → (col.is_attached ≡ true → IsWithin (get_bounds col) all)
        → IsWithin all all'
        → AllWithin cols all'
        → AllWithin (col ∷ cols) all'
    AllWithin-cons col cols all all' first wide each zero x at on =
        let here : col ≡ x = ground (arith, at) in
        let here_on = ap (λ (c : Collider). c.is_attached) here ∙ on in
        subst (λ (c : Collider). IsWithin (get_bounds c) all') here
          (IsWithin-trans (get_bounds col) all all' (first here_on) wide)
    AllWithin-cons col cols all all' first wide each (suc n) x at on = each n x at on

    -- After the loop the bounds contain those before it and those of every attached collider.
    pub place_all-Collects :
        (w : World) (cols cols' : List Collider) (all all' : Rectangle)
        → HaveBodies w cols
        → place_all w cols all ≡ ok (cols', all')
        → IsFinite all
        → AllProper cols'
        → IsWithin all all' × AllWithin cols' all'
    unfolding place_all
    place_all-Collects w [] cols' all all' good e finite proper =
        let none_left : [] ≡ cols' = ground (arith, e) in
        let kept : all ≡ all' = ground (arith, e) in
        (
          subst (λ r. IsWithin all r) kept (refl-IsWithin all finite),
          λ n col at.
              absurd (ground (arith, at, ap (λ (cs : List Collider). get_elem? cs n) none_left)),
        )
    place_all-Collects w (col ∷ cols) cols' all all' good e finite proper =
        let ((col1, all1), e1, next) =
          >>=-eq-ok (place w col all) (λ (c, r). place_all w cols r >>= λ (cs, r'). ok (c ∷ cs, r'))
            e in
        let ((cols1, all2), e2, last) =
          >>=-eq-ok (place_all w cols all1) (λ (cs, r'). ok (col1 ∷ cs, r')) next in
        let same : col1 ∷ cols1 ≡ cols' = ground (arith, last) in
        let kept : all2 ≡ all' = ground (arith, last) in
        let proper' = subst AllProper (sym same) proper in
        let (f1, wide1, within1) =
          place-Collects w col col1 all all1 (good 0 col refl) e1 finite (proper' 0 col1 refl) in
        let (wide2, each) =
          place_all-Collects w cols cols1 all1 all2 (λ n x h. good (suc n) x h) e2 f1
            (AllProper-rest col1 cols1 proper') in
        subst (λ r. IsWithin all r × AllWithin cols' r) kept
          (
            IsWithin-trans all all1 all2 wide1 wide2,
            subst (λ cs. AllWithin cs all2) same
                (AllWithin-cons col1 cols1 all1 all2 within1 wide2 each),
          )

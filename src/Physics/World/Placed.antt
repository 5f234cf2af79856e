-- ===== src/Physics/World/Placed.antt =====
-- `SetUpQuadTree` of Physics/src/World.cpp: the loop that moves the colliders to their bodies.
use bark_direct_x.Prelude.{
  ℕ, zero, suc, ◌≡◌, refl, ap, subst, inl, inr, true, false, some, List, [], ◌∷◌, arith, length,
  get_elem?, Bool-cases,
}
use bark_direct_x.Prelude.Outcome.{ok}
use bark_direct_x.Math.{Math}
use bark_direct_x.Shape.Rectangle.{Rectangle}
use bark_direct_x.Physics.Body.{Body}
use bark_direct_x.Physics.Collider.{Collider, get_bounds}
use bark_direct_x.Physics.World.{World, get_body}
use bark_direct_x.Physics.World.Step.{join, place, place_all}

module _ ⦃m : Math⦄ where
  -- The body of the collider can be found.
  abbrev pub HasBody : World → Collider → Type 0
  HasBody w col = (b : Body) × (get_body w col.body_ref ≡ ok b)

  -- A collider that is not attached stays; an attached one takes the position of its body.
  pub record Placed (w : World) (col col' : Collider) : Type 0 where
    pub idle : col.is_attached ≡ false → col' ≡ col
    pub follows :
        (b : Body)
        → col.is_attached ≡ true
        → get_body w col.body_ref ≡ ok b
        → col' ≡ record col { body_position = b.position }

  place-Placed :
      (w : World) (col : Collider) (all : Rectangle)
      → (col.is_attached ≡ true → HasBody w col)
      → (col' : Collider) × (all' : Rectangle) × (place w col all ≡ ok (col', all'))
        × Placed w col col'
  unfolding place
  place-Placed w col all good = elim (Bool-cases col.is_attached) [
    | inr off ↦ (
      col,
      all,
      rw off refl,
      record { idle = λ _. refl; follows = λ b on _. absurd (ground (arith, on, off)) },
    )
    | inl on ↦
        let (b, e) = good on in
        let col' : Collider = record col { body_position = b.position } in
        (
          col',
          join all (get_bounds col'),
          rw (on, e) refl,
          record {
            idle = λ off. absurd (ground (arith, on, off));
            follows = λ b' _ e'.
                let same : b ≡ b' = ground (arith, e, e') in
                subst (λ x. col' ≡ record col { body_position = x.position }) same refl;
          },
        )
  ]

  -- The colliders of a list, each placed.
  pub record PlacedAll (w : World) (cols cols' : List Collider) : Type 0 where
    pub sized : length cols' ≡ length cols
    pub each :
        (n : ℕ) (col : Collider)
        → get_elem? cols n ≡ some col
        → (col' : Collider) × (get_elem? cols' n ≡ some col') × Placed w col col'

  abbrev pub HaveBodies : World → List Collider → Type 0
  HaveBodies w cols =
      (n : ℕ) (col : Collider)
      → get_elem? cols n ≡ some col
      → col.is_attached ≡ true
      → HasBody w col

  PlacedAll-cons :
      (w : World) (col col' : Collider) (cols cols' : List Collider)
      → Placed w col col'
      → PlacedAll w cols cols'
      → PlacedAll w (col ∷ cols) (col' ∷ cols')
  PlacedAll-cons w col col' cols cols' p ps = record { sized = ap suc ps.sized; each = each }
    where
      each :
          (n : ℕ) (x : Collider)
          → get_elem? (col ∷ cols) n ≡ some x
          → (x' : Collider) × (get_elem? (col' ∷ cols') n ≡ some x') × Placed w x x'
      each zero x h =
          let same : col ≡ x = ground (arith, h) in
          (col', refl, subst (λ c. Placed w c col') same p)
      each (suc n) x h = ps.each n x h

  pub place_all-PlacedAll :
      (w : World) (cols : List Collider) (all : Rectangle)
      → HaveBodies w cols
      → (cols' : List Collider) × (all' : Rectangle) × (place_all w cols all ≡ ok (cols', all'))
        × PlacedAll w cols cols'
  unfolding place_all
  place_all-PlacedAll w [] all good =
      ([], all, refl, record { sized = refl; each = λ n col h. absurd (ground (arith, h)) })
  place_all-PlacedAll w (col ∷ cols) all good =
      let (col', all1, e1, p) = place-Placed w col all (good 0 col refl) in
      let (cols', all2, e2, ps) = place_all-PlacedAll w cols all1 (λ n x h. good (suc n) x h) in
      (col' ∷ cols', all2, rw (e1, e2) refl, PlacedAll-cons w col col' cols cols' p ps)

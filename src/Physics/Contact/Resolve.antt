-- ===== src/Physics/Contact/Resolve.antt =====
-- `Contact::Resolve` of Physics/src/Contact.cpp for all shapes.
use bark_direct_x.Prelude.{
  ℕ, suc, ◌<◌, ◌≡◌, refl, sym, ap, subst, ◌⊎◌, inl, inr, List, arith, length,
}
use bark_direct_x.Prelude.Outcome.{Outcome, ok, ◌>>=◌, at_rule}
use bark_direct_x.Math.{Math}
use bark_direct_x.Shape.{Shape, circle_shape, rectangle_shape, polygon_shape}
use bark_direct_x.Shape.Circle.{Circle}
use bark_direct_x.Shape.Rectangle.{Rectangle}
use bark_direct_x.Physics.Body.{Body}
use bark_direct_x.Physics.Contact.{
  Contact, respond, resolve_shapes, resolve, swap, circle_circle, circle_rectangle,
  rectangle_rectangle, with_bodies,
}
use bark_direct_x.Physics.Contact.Frame.{
  Moves, Moves-trans, Moves-swap, resolve_velocity-Changes, resolve_interpenetration-Changes,
}

module _ ⦃m : Math⦄ where
  open m use {add, mul, div}

  -- The same for the functions that return the contact too; they keep its two body pointers, perhaps
  -- exchanged.
  abbrev pub Resolves : ℕ → ℕ → List Body → Outcome (List Body × Contact) → Type 0
  Resolves i j bs r =
      (bs' : List Body) × (c' : Contact) × (r ≡ ok (bs', c'))
      × Moves i j bs bs'
      × (((c'.body0.body ≡ i) × (c'.body1.body ≡ j)) ⊎ ((c'.body0.body ≡ j) × (c'.body1.body ≡ i)))

  respond-Resolves :
      (bs : List Body) (c : Contact)
      → c.body0.body < length bs
      → c.body1.body < length bs
      → Resolves c.body0.body c.body1.body bs (respond bs c)
  unfolding respond
  respond-Resolves bs c hi hj =
      let i = c.body0.body in
      let j = c.body1.body in
      at_rule (Resolves i j bs) bs i _ hi λ b0 e0. at_rule (Resolves i j bs) bs j _ hj λ b1 e1.
        let rest =
          div
            (add (mul b0.mass c.body0.collider.restitution)
              (mul b1.mass c.body1.collider.restitution))
            (add b0.mass b1.mass) in
        let c' = record c { restitution = rest } in
        let (bs1, eq1, x1) = resolve_velocity-Changes c' bs hi hj in
        let (bs2, eq2, x2) =
          resolve_interpenetration-Changes c' bs1 (omega (arith, x1.sized))
            (omega (arith, x1.sized)) in
        (bs2, c', rw (eq1, eq2), Moves-trans x1 x2, inl (refl, refl))

  manifold-Resolves :
      (bs : List Body) (c : Contact) (f : Body → Body → Contact → Contact)
      → ((b0 b1 : Body) → ((f b0 b1 c).body0 ≡ c.body0) × ((f b0 b1 c).body1 ≡ c.body1))
      → c.body0.body < length bs
      → c.body1.body < length bs
      → Resolves c.body0.body c.body1.body bs (with_bodies bs c λ b0 b1. respond bs (f b0 b1 c))
  manifold-Resolves bs c f same hi hj =
      let i = c.body0.body in
      let j = c.body1.body in
      at_rule (Resolves i j bs) bs i _ hi λ b0 e0. at_rule (Resolves i j bs) bs j _ hj λ b1 e1.
        let (p, q) = same b0 b1 in
        let r =
          respond-Resolves bs (f b0 b1 c) (subst (λ x. x.body < length bs) (sym p) hi)
            (subst (λ x. x.body < length bs) (sym q) hj) in
        subst (λ x. Resolves x j bs (respond bs (f b0 b1 c))) (ap (λ x. x.body) p)
          (subst (λ x. Resolves (f b0 b1 c).body0.body x bs (respond bs (f b0 b1 c)))
            (ap (λ x. x.body) q) r)

  rectangle_rectangle-same :
      (r0 r1 : Rectangle) (b0 b1 : Body) (c : Contact)
      → ((rectangle_rectangle r0 r1 b0 b1 c).body0 ≡ c.body0)
        × ((rectangle_rectangle r0 r1 b0 b1 c).body1 ≡ c.body1)
  unfolding rectangle_rectangle
  rectangle_rectangle-same r0 r1 b0 b1 c = (ground arith, ground arith)

  abbrev flip :
      {i j : ℕ} {bs : List Body} {r : Outcome (List Body × Contact)}
      → Resolves i j bs r
      → Resolves j i bs r
  flip (bs', c', e, x, ids) = (bs', c', e, Moves-swap x, elim ids [ inl p ↦ inr p | inr p ↦ inl p ])

  respond_named :
      (bs : List Body) (c : Contact) {i j : ℕ}
      → c.body0.body ≡ i
      → c.body1.body ≡ j
      → i < length bs
      → j < length bs
      → Resolves i j bs (respond bs c)
  respond_named bs c {i} {j} p q hi hj =
      subst (λ x. Resolves x j bs (respond bs c)) p
        (subst (λ x. Resolves c.body0.body x bs (respond bs c)) q
          (respond-Resolves bs c (subst (λ x. x < length bs) (sym p) hi)
            (subst (λ x. x < length bs) (sym q) hj)))

  -- A second response to a contact that has been resolved.
  respond_again :
      {i j : ℕ} (bs : List Body) (r : Outcome (List Body × Contact))
      → i < length bs
      → j < length bs
      → Resolves i j bs r
      → Resolves i j bs (r >>= λ s. respond s.0 s.1)
  respond_again {i} {j} bs r hi hj (bs1, c1, e, x, ids) =
      let hi1 : i < length bs1 = omega (arith, x.sized) in
      let hj1 : j < length bs1 = omega (arith, x.sized) in
      let second : Resolves i j bs1 (respond bs1 c1) = elim ids [
        | inl (p, q) ↦ respond_named bs1 c1 p q hi1 hj1
        | inr (p, q) ↦ flip (respond_named bs1 c1 p q hj1 hi1)
      ] in
      let (bs2, c2, e2, x2, ids2) = second in (bs2, c2, rw e e2, Moves-trans x x2, ids2)

  -- Of the shapes only a rectangle before a circle leads to the inner call.
  resolve_shapes-Resolves :
      (call : List Body → Contact → Outcome (List Body × Contact)) (bs : List Body) (c : Contact)
      (s0 s1 : Shape)
      → c.body0.body < length bs
      → c.body1.body < length bs
      → ((a : Rectangle)
          → (b : Circle) → s0 ≡ rectangle_shape a
          → s1 ≡ circle_shape b
          → Resolves c.body1.body c.body0.body bs (call bs (swap c)))
      → Resolves c.body0.body c.body1.body bs (resolve_shapes call bs c s0 s1)
  unfolding resolve_shapes
  resolve_shapes-Resolves call bs c (circle_shape a) (circle_shape b) hi hj inner =
      manifold-Resolves bs c (circle_circle a b) (λ b0 b1. unfold circle_circle in (refl, refl)) hi
        hj
  resolve_shapes-Resolves call bs c (circle_shape a) (rectangle_shape b) hi hj inner =
      manifold-Resolves bs c (circle_rectangle a b)
        (λ b0 b1. unfold circle_rectangle in (refl, refl)) hi hj
  resolve_shapes-Resolves call bs c (circle_shape a) (polygon_shape b) hi hj inner =
      respond-Resolves bs c hi hj
  resolve_shapes-Resolves call bs c (rectangle_shape a) (circle_shape b) hi hj inner =
      respond_again bs (call bs (swap c)) hi hj (flip (inner a b refl refl))
  resolve_shapes-Resolves call bs c (rectangle_shape a) (rectangle_shape b) hi hj inner =
      manifold-Resolves bs c (rectangle_rectangle a b)
        (λ b0 b1. rectangle_rectangle-same a b b0 b1 c) hi hj
  resolve_shapes-Resolves call bs c (rectangle_shape a) (polygon_shape b) hi hj inner =
      respond-Resolves bs c hi hj
  resolve_shapes-Resolves call bs c (polygon_shape a) s1 hi hj inner = respond-Resolves bs c hi hj

  -- `Resolve` returns for two colliders of any shapes on bodies in the vector, its recursion being at
  -- most one call deep. Every body keeps its mass, type and force; a static body keeps its place;
  -- a body that is not one of the two is left alone.
  pub resolve-Resolves :
      (n : ℕ) (bs : List Body) (c : Contact)
      → c.body0.body < length bs
      → c.body1.body < length bs
      → Resolves c.body0.body c.body1.body bs (resolve (suc (suc n)) bs c)
  unfolding resolve
  resolve-Resolves n bs c hi hj =
      resolve_shapes-Resolves (resolve (suc n)) bs c c.body0.collider.shape c.body1.collider.shape
        hi hj
        λ a b p q.
          resolve_shapes-Resolves (resolve n) bs (swap c) c.body1.collider.shape
            c.body0.collider.shape hj hi λ a' b' p' q'. absurd (ground (arith, q, p'))

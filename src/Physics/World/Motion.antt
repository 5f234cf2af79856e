-- ===== src/Physics/World/Motion.antt =====
-- `World::UpdateBodies` of Physics/src/World.cpp: what it keeps of a body.
use bark_direct_x.Prelude.{
  ℕ, zero, suc, ◌≡◌, ◌≢◌, refl, ap, ◌⊎◌, inl, inr, false, some, List, [], ◌∷◌, map, arith, length,
  get_elem?, Bool-cases,
}
use bark_direct_x.Math.{Math}
use bark_direct_x.Physics.Body.{
  Body, BodyType, static, dynamic, none, is_static, is_enabled, reset_force,
}
use bark_direct_x.Physics.World.{World}
use bark_direct_x.Physics.World.Step.{update_body, update_bodies}

module _ ⦃m : Math⦄ where
  open m use {Float, one_f, div, xm_zero, xm_add, xm_scale}

  -- What `UpdateBodies` keeps of a body: its mass and type, and all of a static one.
  pub record Keeps (b b' : Body) : Type 0 where
    pub mass : b'.mass ≡ b.mass
    pub type : b'.type ≡ b.type
    pub held : b.type ≡ static → b' ≡ b

  static-cases : (t : BodyType) → (t ≡ static) ⊎ ((t ≢ static) × (is_static t ≡ false))
  static-cases static = inl refl
  static-cases dynamic = inr (λ p. cc, refl)
  static-cases none = inr (λ p. cc, refl)

  same_body : (b b' : Body) → b' ≡ b → Keeps b b'
  same_body b b' same = record {
    mass = ap (λ x. x.mass) same;
    type = ap (λ x. x.type) same;
    held = λ _. same;
  }

  update_body-Keeps : (dt : Float) (b : Body) → Keeps b (update_body dt b)
  unfolding update_body reset_force
  update_body-Keeps dt b = elim (Bool-cases (is_enabled b)) [
    | inr off ↦ same_body b (update_body dt b) (rw off refl)
    | inl on ↦ elim (static-cases b.type) [
      | inl s ↦ same_body b (update_body dt b) (rw (on, s) refl)
      | inr (free, s) ↦
          rw (on, s) (record { mass = refl; type = refl; held = λ p. absurd (free p) })
    ]
  ]

  map-get_elem? :
      (f : Body → Body) (bs : List Body) (n : ℕ) (b : Body)
      → get_elem? bs n ≡ some b
      → get_elem? (map f bs) n ≡ some (f b)
  map-get_elem? f [] n b h = cc
  map-get_elem? f (x ∷ xs) zero b h = ground (arith, h)
  map-get_elem? f (x ∷ xs) (suc n) b h = map-get_elem? f xs n b h

  pub map-length : (f : Body → Body) (bs : List Body) → length (map f bs) ≡ length bs
  map-length f [] = refl
  map-length f (x ∷ xs) = ap suc (map-length f xs)

  pub update_bodies-Keeps :
      (dt : Float) (w : World) (n : ℕ) (b : Body)
      → get_elem? w.bodies n ≡ some b
      → (b' : Body) × (get_elem? (update_bodies dt w).bodies n ≡ some b') × Keeps b b'
  unfolding update_bodies
  update_bodies-Keeps dt w n b h =
      (update_body dt b, map-get_elem? (update_body dt) w.bodies n b h, update_body-Keeps dt b)

-- ===== src/Physics/World/Operations.antt =====
-- What the clients of Physics/src/World.cpp do to a world between frames, and the invariant of
-- `Update`.
use bark_direct_x.Prelude.{
  ℕ, zero, suc, ◌<◌, ◌≡◌, refl, sym, ap, subst, ◌∙◌, inl, inr, some, [], arith, length, get_elem?,
  get_elem?-lt, replicate, resize, length-set, set, resize_grow, length-replicate, ◌-◌,
  Option-cases, ==_refl, get_elem?-set_cases,
}
use bark_direct_x.Prelude.Outcome.{ok}
use bark_direct_x.Math.{Math}
use bark_direct_x.Math.Laws.{IsSigned}
use bark_direct_x.Physics.Refs.{BodyRef, ColliderRef}
use bark_direct_x.Physics.Body.{Body, disable}
use bark_direct_x.Physics.Body
use bark_direct_x.Physics.Collider.{Collider}
use bark_direct_x.Physics.Collider
use bark_direct_x.Physics.QuadTree.Root.{IsReusable, make-IsReusable}
use bark_direct_x.Physics.World.{
  World, new_world, set_up, get_body, create_body, destroy_body, get_collider, create_collider,
  destroy_collider, detach,
}
use bark_direct_x.Physics.World.Bodies.{Creates, create_body-Creates}
use bark_direct_x.Physics.World.Colliders.{Attaches, create_collider-Attaches}
use bark_direct_x.Physics.World.Overlaps.{HasVertices}
use native.Mathlib.Decide.{ℕ_discrete}
use bark_direct_x.Physics.World.Stale.{get_body-inv, destroy_body-get}
use bark_direct_x.Physics.World.Protocol.{Protocol}
use bark_direct_x.Physics.World.Triggers.{IsGood, IsLive}
use bark_direct_x.Physics.World.Frames.{IsSound, AllLive}

pub replicate-get {ℓ} :
    {A : Type ℓ} (n i : ℕ) (a : A) {x : A} → get_elem? (replicate n a) i ≡ some x → a ≡ x
replicate-get zero i a h = absurd (ground (arith, h))
replicate-get (suc n) zero a h = ground (arith, h)
replicate-get (suc n) (suc i) a h = replicate-get n i a h

pub resize-empty {ℓ} : {A : Type ℓ} (n : ℕ) (a : A) → resize [] n a ≡ replicate n a
resize-empty n a = resize_grow [] n a (omega arith) ∙ ap (λ k. replicate k a) less
  where
    less : n - 0 ≡ n
    less = omega arith

pub resize-length {ℓ} : {A : Type ℓ} (n : ℕ) (a : A) → length (resize [] n a) ≡ n
resize-length n a = ap length (resize-empty n a) ∙ length-replicate n a

module _ ⦃m : Math⦄ where
  -- A new world that is set up with any number of slots is sound.
  pub set_up-IsSound : (slots : ℕ) → IsSound (set_up new_world slots)
  unfolding set_up new_world Collider.default
  set_up-IsSound slots = record {
    sized = resize-length slots 0 ∙ sym (resize-length slots Body.default);
    gens = resize-length slots 0 ∙ sym (resize-length slots Collider.default);
    reusable = make-IsReusable;
    live = λ n col at on.
        let same : Collider.default ≡ col =
          replicate-get slots n Collider.default
            (ap (λ cols. get_elem? cols n) (sym (resize-empty slots Collider.default)) ∙ at) in
        absurd (ground (arith, on, ap (λ (c : Collider). c.is_attached) same));
    protocol = λ log e. absurd (ground (arith, e));
  }

  pub Creates-IsSound : (w w' : World) (ref : BodyRef) → Creates w w' ref → IsSound w → IsSound w'
  Creates-IsSound w w' ref c s =
      let same : w'.colliders ≡ w.colliders = ap (λ v. v.colliders) c.same in
      record {
        sized = c.sized;
        gens = ap (λ v. length v.collider_gen_indices) c.same ∙ s.gens ∙ sym (ap length same);
        reusable = subst (λ v. IsReusable v.quad_tree) (sym c.same) s.reusable;
        live = λ n col at on.
            let ((gen, h), drawn) =
              s.live n col (ap (λ cols. get_elem? cols n) (sym same) ∙ at) on in
            let gen' = c.gens col.body_ref.index col.body_ref.gen_index gen in
            (
              (
                gen',
                omega (arith, c.sized, get_elem?-lt w'.body_gen_indices col.body_ref.index gen'),
              ),
              drawn,
            );
        protocol = subst Protocol (sym c.same) s.protocol;
      }

  -- `CreateBody` on a sound world with room for a body, where 1 is not negative and -1 is, returns normally,
  -- leaves a sound world, and its reference is good there.
  pub create_body-IsSound :
      IsSigned m
      → (w : World) → IsSound w
      → 0 < length w.bodies
      → (w' : World) × (ref : BodyRef) × (create_body w ≡ ok (w', ref)) × IsSound w' × IsGood w' ref
  create_body-IsSound signs w s h =
      let (w', ref, e, c) = create_body-Creates signs w s.sized h in
      let (gen, at) = get_body-inv w' ref c.found in
      (w', ref, e, Creates-IsSound w w' ref c s, (gen, get_elem?-lt w'.bodies ref.index at))

  -- `DestroyBody` of a reference that `GetBody` accepts returns normally and leaves a sound world
  -- sound.
  pub destroy_body-IsSound :
      (w : World) (ref : BodyRef) (b : Body)
      → IsSound w
      → get_body w ref ≡ ok b
      → (w' : World) × (destroy_body w ref ≡ ok w') × IsSound w'
  destroy_body-IsSound w ref b s found =
      let (w', e, _, shape) = destroy_body-get w ref found in
      let kept = length-set w.bodies ref.index (disable b) in
      let after : World = record w { bodies = set w.bodies ref.index (disable b) } in
      let sound : IsSound after = record {
        sized = s.sized ∙ sym kept;
        gens = s.gens;
        reusable = s.reusable;
        live = λ n col at on.
            let ((gen, h), drawn) = s.live n col at on in
            ((gen, subst (λ k. col.body_ref.index < k) (sym kept) h), drawn);
        protocol = s.protocol;
      } in
      (w', e, subst IsSound (sym shape) sound)

  -- Every collider, attached or not, has a shape that can be compared.
  abbrev pub AllDrawn : World → Type 0
  AllDrawn w = (n : ℕ) (col : Collider) → get_elem? w.colliders n ≡ some col → HasVertices col.shape

  pub get_collider-inv :
      (w : World) (ref : ColliderRef) {col : Collider}
      → get_collider w ref ≡ ok col
      → (get_elem? w.collider_gen_indices ref.index ≡ some ref.gen_index)
        × (get_elem? w.colliders ref.index ≡ some col)
  unfolding get_collider
  get_collider-inv w ref h = elim (Option-cases (get_elem? w.collider_gen_indices ref.index)) [
    | inl e ↦ absurd (ground (arith, h, e))
    | inr (gen, e) ↦ elim (Option-cases (get_elem? w.colliders ref.index)) [
      | inl e' ↦ absurd (ground (arith, h, e, e'))
      | inr (col, e') ↦ (ground (arith, h, e, e'), ground (arith, h, e, e'))
    ]
  ]

  pub attached-HasVertices :
      (body_ref : BodyRef) (w w' : World) (ref : ColliderRef) (x : Attaches body_ref w w' ref)
      → AllDrawn w
      → HasVertices x.collider.shape
  unfolding Collider.default
  attached-HasVertices body_ref w w' ref x drawn =
      let (c, e, from) = x.origin in
      let vertices : HasVertices c.shape = elim from [
        | inl old ↦ drawn ref.index c old
        | inr fresh ↦ subst (λ (k : Collider). HasVertices k.shape) (sym fresh) tt
      ] in
      subst (λ (k : Collider). HasVertices k.shape) (sym e) vertices

  module _ (body_ref : BodyRef) (w w' : World) (ref : ColliderRef) (x : Attaches body_ref w w' ref)
      (good : IsGood w body_ref) (drawn : AllDrawn w) where
    attached-IsLive : IsLive w' x.collider
    attached-IsLive =
        let good' : IsGood w' body_ref = subst (λ v. IsGood v body_ref) (sym x.same) good in
        (subst (IsGood w') (sym x.owner) good', attached-HasVertices body_ref w w' ref x drawn)

    Attaches-AllLive : AllLive w → AllLive w'
    unfolding Collider.default
    Attaches-AllLive live n col at on = elim (ℕ_discrete n ref.index) [
      | yes here ↦
          let (_, found) = get_collider-inv w' ref x.found in
          let there = ap (get_elem? w'.colliders) (sym here) ∙ at in
          let same : x.collider ≡ col = ground (arith, there, found) in
          subst (IsLive w') same attached-IsLive
      | no apart ↦ elim (x.slots n col apart at) [
        | inl old ↦ subst (λ v. IsLive v col) (sym x.same) (live n col old on)
        | inr fresh ↦ absurd (ground (arith, on, ap (λ (c : Collider). c.is_attached) fresh))
      ]
    ]

    pub Attaches-IsSound : IsSound w → IsSound w'
    Attaches-IsSound s =
        let bodies : w'.bodies ≡ w.bodies = ap (λ v. v.bodies) x.same in
        record {
          sized = ap (λ v. length v.body_gen_indices) x.same ∙ s.sized ∙ sym (ap length bodies);
          gens = x.sized;
          reusable = subst (λ v. IsReusable v.quad_tree) (sym x.same) s.reusable;
          live = Attaches-AllLive s.live;
          protocol = subst Protocol (sym x.same) s.protocol;
        }

  -- `CreateCollider` for a body that can be found, on a sound world with room for a collider in which
  -- every polygon has a vertex, returns normally and leaves a sound world.
  pub create_collider-IsSound :
      (w : World) (body_ref : BodyRef)
      → IsSound w
      → IsGood w body_ref
      → AllDrawn w
      → 0 < length w.colliders
      → (w' : World) × (ref : ColliderRef) × (create_collider w body_ref ≡ ok (w', ref))
        × IsSound w'
  create_collider-IsSound w body_ref s good drawn h =
      let (w', ref, e, x) = create_collider-Attaches body_ref w s.gens h in
      (w', ref, e, Attaches-IsSound body_ref w w' ref x good drawn s)

  -- `DestroyCollider` of a reference that `GetCollider` accepts returns normally and leaves a sound
  -- world sound.
  pub destroy_collider-IsSound :
      (w : World) (ref : ColliderRef) (col : Collider)
      → IsSound w
      → get_collider w ref ≡ ok col
      → (w' : World) × (destroy_collider w ref ≡ ok w') × IsSound w'
  unfolding destroy_collider
  destroy_collider-IsSound w ref col s found =
      let (gen, at) = get_collider-inv w ref found in
      (
        record w { colliders = set w.colliders ref.index (detach col) },
        rw (gen, ==_refl ref.gen_index, at) refl,
        record {
          sized = s.sized;
          gens = s.gens ∙ sym (length-set w.colliders ref.index (detach col));
          reusable = s.reusable;
          live = λ n c at' on. elim (get_elem?-set_cases w.colliders ref.index n (detach col) at') [
            | inl (_, e) ↦ absurd (ground (arith, on, ap (λ (k : Collider). k.is_attached) e))
            | inr (_, old) ↦ s.live n c old on
          ];
          protocol = s.protocol;
        },
      )

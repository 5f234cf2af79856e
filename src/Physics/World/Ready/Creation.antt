-- ===== src/Physics/World/Ready/Creation.antt =====
-- `CreateBody` and `CreateCollider` of Physics/src/World.cpp in a world that is ready.
use bark_direct_x.Prelude.{
  ℕ, suc, ◌≤◌, ◌<◌, ◌≡◌, sym, ap, subst, ◌∙◌, ◌⊎◌, inl, inr, true, some, arith, length, get_elem?,
  get_elem?-some, get_elem?-lt,
}
use native.Mathlib.Decide.{ℕ_discrete}
use bark_direct_x.Prelude.Outcome.{ok}
use bark_direct_x.Math.{Math}
use bark_direct_x.Math.Laws.{IsSigned}
use bark_direct_x.Physics.Refs.{BodyRef, ColliderRef}
use bark_direct_x.Physics.Collider.{Collider}
use bark_direct_x.Physics.Collider
use bark_direct_x.Physics.QuadTree.Valid.{IsValid}
use bark_direct_x.Physics.World.{World, create_body, create_collider}
use bark_direct_x.Physics.World.Bodies.{create_body-Creates}
use bark_direct_x.Physics.World.Colliders.{Attaches, create_collider-Attaches}
use bark_direct_x.Physics.World.Stale.{get_body-inv}
use bark_direct_x.Physics.World.Operations.{
  AllDrawn, get_collider-inv, Creates-IsSound, Attaches-IsSound, attached-HasVertices,
}
use bark_direct_x.Physics.World.Overlaps.{HasVertices}
use bark_direct_x.Physics.World.Triggers.{IsGood}
use bark_direct_x.Physics.World.Ready.{IsReady, Refers, Extends}

module _ ⦃m : Math⦄ where
  pub create_body-IsReady :
      IsSigned m
      → (k : ℕ) (w : World) → IsReady k w
      → (w' : World) × (ref : BodyRef) × (create_body w ≡ ok (w', ref))
        × IsReady k w'
        × Extends w w'
        × IsGood w' ref
        × (w'.contact_listener ≡ w.contact_listener)
        × (w'.colliders ≡ w.colliders)
  create_body-IsReady signs k w r =
      let (w', ref, e, c) = create_body-Creates signs w r.sound.sized r.body_room in
      let (gen, at) = get_body-inv w' ref c.found in
      let cols : w'.colliders ≡ w.colliders = ap (λ v. v.colliders) c.same in
      (
        w',
        ref,
        e,
        record {
          sound = Creates-IsSound w w' ref c r.sound;
          drawn = λ n col at. r.drawn n col (ap (λ cs. get_elem? cs n) (sym cols) ∙ at);
          body_room = omega (arith, get_elem?-lt w'.bodies ref.index at);
          collider_room = subst (λ cs. 0 < length cs) (sym cols) r.collider_room;
          valid = subst IsValid (ap (λ v. v.quad_tree) (sym c.same)) r.valid;
          root_in_use =
              subst (λ t. 0 < t.node_index) (ap (λ v. v.quad_tree) (sym c.same)) r.root_in_use;
          within = subst (λ cs. k ≤ length cs) (sym cols) r.within;
          taken = λ n col l at. r.taken n col l (ap (λ cs. get_elem? cs n) (sym cols) ∙ at);
          beyond = λ n col at on. r.beyond n col (ap (λ cs. get_elem? cs n) (sym cols) ∙ at) on;
        },
        record {
          good = λ other (g, l).
              let g' = c.gens other.index other.gen_index g in
              (g', omega (arith, c.sized, get_elem?-lt w'.body_gen_indices other.index g'));
          refers = λ n other (i, g).
              (i, ap (λ v. get_elem? v.collider_gen_indices other.index) c.same ∙ g);
        },
        (gen, get_elem?-lt w'.bodies ref.index at),
        ap (λ v. v.contact_listener) c.same,
        cols,
      )

  module _ (body_ref : BodyRef) (k : ℕ) (w w' : World) (ref : ColliderRef)
      (x : Attaches body_ref w w' ref) (r : IsReady k w) where
    -- The slot that is taken is the one after those in use.
    next_slot : ref.index ≡ k
    next_slot = elim (order ref.index k) [
      | inl low ↦
          let (c, at) = get_elem?-some w.colliders ref.index (omega (arith, r.within)) in
          absurd (ground (arith, r.taken ref.index c low at, x.fresh c at))
      | inr (inl same) ↦ same
      | inr (inr high) ↦
          let (c, at) = get_elem?-some w.colliders k (omega (arith, x.within)) in
          absurd (omega (arith, r.beyond k c at (x.first k c high at)))
    ]
      where
        order : (a b : ℕ) → (a < b) ⊎ (a ≡ b) ⊎ (b < a)
        order a b = omega arith

    here : get_elem? w'.colliders ref.index ≡ some x.collider
    here = (get_collider-inv w' ref x.found).1

    attached-drawn : AllDrawn w'
    unfolding Collider.default
    attached-drawn n col at = elim (ℕ_discrete n ref.index) [
      | yes e ↦
          let same : x.collider ≡ col =
            ground (arith, here, ap (get_elem? w'.colliders) (sym e) ∙ at) in
          subst (λ (c : Collider). HasVertices c.shape) same
            (attached-HasVertices body_ref w w' ref x r.drawn)
      | no apart ↦ elim (x.slots n col apart at) [
        | inl old ↦ r.drawn n col old
        | inr fresh ↦ subst (λ (c : Collider). HasVertices c.shape) (sym fresh) tt
      ]
    ]

    attached-taken :
        (n : ℕ) (col : Collider)
        → n < suc k
        → get_elem? w'.colliders n ≡ some col
        → col.is_attached ≡ true
    attached-taken n col l at = elim (ℕ_discrete n ref.index) [
      | yes e ↦
          let same : x.collider ≡ col =
            ground (arith, here, ap (get_elem? w'.colliders) (sym e) ∙ at) in
          subst (λ (c : Collider). c.is_attached ≡ true) same x.on
      | no apart ↦
          let lower : n < k = omega (arith, next_slot, apart) in
          let (c, old) = get_elem?-some w.colliders n (omega (arith, r.within)) in
          let same : c ≡ col = ground (arith, x.others n c apart old, at) in
          subst (λ (c : Collider). c.is_attached ≡ true) same (r.taken n c lower old)
    ]

    attached-beyond :
        (n : ℕ) (col : Collider)
        → get_elem? w'.colliders n ≡ some col
        → col.is_attached ≡ true
        → n < suc k
    unfolding Collider.default
    attached-beyond n col at on = elim (ℕ_discrete n ref.index) [
      | yes e ↦ omega (arith, next_slot, e)
      | no apart ↦ elim (x.slots n col apart at) [
        | inl old ↦ omega (arith, r.beyond n col old on)
        | inr fresh ↦ absurd (ground (arith, on, ap (λ (c : Collider). c.is_attached) fresh))
      ]
    ]

  -- `CreateCollider` takes the slot after those in use.
  pub create_collider-IsReady :
      (body_ref : BodyRef) (k : ℕ) (w : World)
      → IsReady k w
      → IsGood w body_ref
      → (w' : World) × (ref : ColliderRef) × (create_collider w body_ref ≡ ok (w', ref))
        × IsReady (suc k) w'
        × Extends w w'
        × Refers w' k ref
        × (w'.contact_listener ≡ w.contact_listener)
        × ((n : ℕ) (col : Collider)
            → n < k
            → get_elem? w.colliders n ≡ some col
            → get_elem? w'.colliders n ≡ some col)
  create_collider-IsReady body_ref k w r good =
      let (w', ref, e, x) = create_collider-Attaches body_ref w r.sound.gens r.collider_room in
      let slot = next_slot body_ref k w w' ref x r in
      let (gen, at) = get_collider-inv w' ref x.found in
      let bound = get_elem?-lt w'.colliders ref.index at in
      (
        w',
        ref,
        e,
        record {
          sound = Attaches-IsSound body_ref w w' ref x good r.drawn r.sound;
          drawn = attached-drawn body_ref k w w' ref x r;
          body_room = subst (λ v. 0 < length v.bodies) (sym x.same) r.body_room;
          collider_room = omega (arith, bound);
          valid = subst IsValid (ap (λ v. v.quad_tree) (sym x.same)) r.valid;
          root_in_use =
              subst (λ t. 0 < t.node_index) (ap (λ v. v.quad_tree) (sym x.same)) r.root_in_use;
          within = omega (arith, bound, slot);
          taken = attached-taken body_ref k w w' ref x r;
          beyond = attached-beyond body_ref k w w' ref x r;
        },
        record {
          good = λ other g. subst (λ v. IsGood v other) (sym x.same) g;
          refers = λ n other (i, g). (i, x.gens other.index other.gen_index g);
        },
        (slot, gen),
        ap (λ v. v.contact_listener) x.same,
        λ n col l at. x.others n col (λ e. omega (arith, e, slot, l)) at,
      )

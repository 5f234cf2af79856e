-- ===== src/Physics/World/Stale.antt =====
-- What becomes of references to bodies of Physics/src/World.cpp after `DestroyBody` and `TearDown`.
use bark_direct_x.Prelude.{
  ℕ, ◌≡◌, refl, sym, ap, subst, ◌∙◌, inl, inr, Bool, true, not, some, arith, get_elem?, set,
  get_elem?-set_self, get_elem?-set_cases, get_elem?-lt, Option-cases, ==_refl,
}
use bark_direct_x.Prelude.Outcome.{ok, undefined, at}
use bark_direct_x.Math.{Math}
use bark_direct_x.Math.Laws.{IsSigned}
use bark_direct_x.Physics.Refs.{BodyRef}
use bark_direct_x.Physics.Body.{Body, is_enabled, enable, disable}
use bark_direct_x.Physics.World.{
  World, find_if, get_body, claim_body, create_body, destroy_body, tear_down,
}
use bark_direct_x.Physics.World.Slots.{find_if-some, find_if-none}

module _ ⦃m : Math⦄ where
  -- After `TearDown`, `CreateBody` doubles no slots to no slots and then accesses its vectors out of
  -- range.
  pub create_body-tear_down : (w : World) → create_body (tear_down w) ≡ undefined
  unfolding create_body tear_down
  create_body-tear_down w = refl

  -- A reference is good exactly if its index lies in the vector and its generation is the slot's.
  pub get_body-inv :
      (w : World) (ref : BodyRef) {b : Body}
      → get_body w ref ≡ ok b
      → (get_elem? w.body_gen_indices ref.index ≡ some ref.gen_index)
        × (get_elem? w.bodies ref.index ≡ some b)
  unfolding get_body
  get_body-inv w ref h = elim (Option-cases (get_elem? w.body_gen_indices ref.index)) [
    | inl e ↦ absurd (ground (arith, h, e))
    | inr (gen, e) ↦ elim (Option-cases (get_elem? w.bodies ref.index)) [
      | inl e' ↦ absurd (ground (arith, h, e, e'))
      | inr (b, e') ↦ (ground (arith, h, e, e'), ground (arith, h, e, e'))
    ]
  ]

  -- `DestroyBody` of a reference that `GetBody` accepts disables the body, changes nothing else, and
  -- leaves the reference good: `GetBody` still returns the disabled body.
  pub destroy_body-get :
      (w : World) (ref : BodyRef) {b : Body}
      → get_body w ref ≡ ok b
      → (w' : World) × (destroy_body w ref ≡ ok w')
        × (get_body w' ref ≡ ok (disable b))
        × (w' ≡ record w { bodies = set w.bodies ref.index (disable b) })
  unfolding destroy_body get_body
  destroy_body-get w ref {b} h =
      let (gen, at) = get_body-inv w ref h in
      let bodies' = set w.bodies ref.index (disable b) in
      let at' =
        get_elem?-set_self w.bodies ref.index (disable b) (get_elem?-lt w.bodies ref.index at) in
      (
        record w { bodies = bodies' },
        rw (gen, ==_refl ref.gen_index, at),
        rw (gen, ==_refl ref.gen_index, at'),
        refl,
      )

  -- `claim_body` in a slot that a good reference leads to returns that reference.
  claim_body-ref :
      (w : World) (ref : BodyRef) {b : Body}
      → get_elem? w.body_gen_indices ref.index ≡ some ref.gen_index
      → get_elem? w.bodies ref.index ≡ some b
      → claim_body w ref.index ≡ ok (record w { bodies = set w.bodies ref.index (enable b) }, ref)
  unfolding claim_body
  claim_body-ref w ref gen at = rw (gen, ==_refl ref.gen_index, at)

  abbrev is_free : Body → Bool
  is_free body = not (is_enabled body)

  module _ (signs : IsSigned m) (w : World) (ref : BodyRef) (b : Body)
      (gen : get_elem? w.body_gen_indices ref.index ≡ some ref.gen_index)
      (at : get_elem? w.bodies ref.index ≡ some b)
      (full : (n : ℕ) (x : Body) → get_elem? w.bodies n ≡ some x → is_enabled x ≡ true) where
    abbrev destroyed : World
    destroyed = record w { bodies = set w.bodies ref.index (disable b) }

    free : is_free (disable b) ≡ true
    unfolding is_enabled disable
    free = ap not signs.neg_one_negative

    written : get_elem? destroyed.bodies ref.index ≡ some (disable b)
    written = get_elem?-set_self w.bodies ref.index (disable b) (get_elem?-lt w.bodies ref.index at)

    -- The only free slot is the destroyed one.
    found : find_if is_free destroyed.bodies ≡ some ref.index
    found = elim (Option-cases (find_if is_free destroyed.bodies)) [
      | inl e ↦ absurd (
          ground
            (arith, free, find_if-none is_free destroyed.bodies ref.index (disable b) e written))
      | inr (i, e) ↦
          let (x, here, hit, _) = find_if-some is_free destroyed.bodies i e in
          elim (get_elem?-set_cases w.bodies ref.index i (disable b) here) [
            | inl (p, _) ↦ e ∙ ap some (sym p)
            | inr (_, old) ↦ absurd (ground (arith, hit, full i x old))
          ]
    ]

    again : (w'' : World) × (create_body destroyed ≡ ok (w'', ref))
    unfolding create_body
    again = (
      record destroyed { bodies = set destroyed.bodies ref.index (enable (disable b)) },
      rw (found, claim_body-ref destroyed ref gen written),
    )

  -- In a world all of whose bodies are enabled, and where 1 is not negative and -1 is, the reference
  -- of a destroyed body is what the next `CreateBody` returns.
  pub create_body-destroy_body :
      IsSigned m
      → (w : World) (ref : BodyRef) {b : Body} {w' : World}
      → ((n : ℕ) (x : Body) → get_elem? w.bodies n ≡ some x → is_enabled x ≡ true)
      → get_body w ref ≡ ok b
      → destroy_body w ref ≡ ok w'
      → (w'' : World) × (create_body w' ≡ ok (w'', ref))
  create_body-destroy_body signs w ref {b} {w'} full h d =
      let (w1, d1, _, shape) = destroy_body-get w ref h in
      let (gen, at) = get_body-inv w ref h in
      let same : destroyed signs w ref b gen at full ≡ w' = ground (arith, d, d1, shape) in
      subst (λ v. (w'' : World) × (create_body v ≡ ok (w'', ref))) same
        (again signs w ref b gen at full)

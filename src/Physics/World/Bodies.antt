-- ===== src/Physics/World/Bodies.antt =====
-- `CreateBody`, `GetBody` and `DestroyBody` of Physics/src/World.cpp.
use bark_direct_x.Prelude.{
  ℕ, ◌*◌, ◌<◌, ◌≡◌, ◌≢◌, refl, sym, ap, ◌∙◌, inl, inr, Bool, true, false, not, some, List, arith,
  length, get_elem?, set, length-set, get_elem?-set_self, get_elem?-set_ne, get_elem?-lt,
  get_elem?-some, Option-cases, resize, ==_refl,
}
use bark_direct_x.Prelude.Outcome.{ok}
use bark_direct_x.Math.{Math}
use bark_direct_x.Math.Laws.{IsSigned}
use bark_direct_x.Physics.Refs.{BodyRef}
use bark_direct_x.Physics.Body.{Body, is_enabled, enable, disable}
use bark_direct_x.Physics.Body
use bark_direct_x.Physics.World.{World, find_if, get_body, claim_body, grow_bodies, create_body}
use bark_direct_x.Physics.World.Slots.{find_if-some, length-doubled, doubled-old, doubled-new}

module _ ⦃m : Math⦄ where
  abbrev is_free : Body → Bool
  is_free body = not (is_enabled body)

  -- Every body has its generation index.
  abbrev pub IsSized : World → Type 0
  IsSized w = length w.body_gen_indices ≡ length w.bodies

  -- `claim_body` at a place within the vector.
  claimed :
      (w : World) (i : ℕ) (b : Body)
      → IsSized w
      → get_elem? w.bodies i ≡ some b
      → (gen : ℕ) × (get_elem? w.body_gen_indices i ≡ some gen)
        × (claim_body w i
            ≡ ok (
              record w { bodies = set w.bodies i (enable b) },
              record { index = i; gen_index = gen },
            ))
  unfolding claim_body
  claimed w i b s at =
      let h : i < length w.body_gen_indices = omega (arith, s, get_elem?-lt w.bodies i at) in
      let (gen, e) = get_elem?-some w.body_gen_indices i h in (gen, e, rw (e, ==_refl gen, at))

  -- What `CreateBody` does to the world.
  pub record Creates (w w' : World) (ref : BodyRef) : Type 0 where
    pub sized : IsSized w'
    -- The slot was beyond the vector, or held a disabled body.
    pub fresh : (b : Body) → get_elem? w.bodies ref.index ≡ some b → is_enabled b ≡ false
    pub body : Body
    pub found : get_body w' ref ≡ ok body
    pub on : is_enabled body ≡ true
    pub others :
        (n : ℕ) (b : Body)
        → n ≢ ref.index
        → get_elem? w.bodies n ≡ some b
        → get_elem? w'.bodies n ≡ some b
    pub gens :
        (n g : ℕ)
        → get_elem? w.body_gen_indices n ≡ some g
        → get_elem? w'.body_gen_indices n ≡ some g
    pub same : w' ≡ record w { bodies = w'.bodies; body_gen_indices = w'.body_gen_indices }

  module _ (signs : IsSigned m) where
    enable-is_enabled : (b : Body) → is_enabled (enable b) ≡ true
    unfolding is_enabled enable
    enable-is_enabled b = signs.one_nonneg

    found_after :
        (w : World) (bodies : List Body) (i gen : ℕ) (b : Body)
        → get_elem? w.body_gen_indices i ≡ some gen
        → get_elem? bodies i ≡ some b
        → get_body
            (record w { bodies = set bodies i (enable b) })
            (record { index = i; gen_index = gen })
          ≡ ok (enable b)
    unfolding get_body
    found_after w bodies i gen b e at =
        rw (e, ==_refl gen, get_elem?-set_self bodies i (enable b) (get_elem?-lt bodies i at))

    -- A world with a free slot.
    reuse :
        (w : World) (i : ℕ) (b : Body)
        → IsSized w
        → get_elem? w.bodies i ≡ some b
        → is_free b ≡ true
        → (w' : World) × (ref : BodyRef) × (claim_body w i ≡ ok (w', ref)) × Creates w w' ref
    reuse w i b s at free =
        let (gen, e, eq) = claimed w i b s at in
        (
          record w { bodies = set w.bodies i (enable b) },
          record { index = i; gen_index = gen },
          eq,
          record {
            sized = s ∙ sym (length-set w.bodies i (enable b));
            fresh = λ b' at'. ground (arith, at, at', free);
            body = enable b;
            found = found_after w w.bodies i gen b e at;
            on = enable-is_enabled b;
            others = λ n x ne e. get_elem?-set_ne w.bodies i n (enable b) (λ p. ne (sym p)) ∙ e;
            gens = λ n g e. e;
            same = refl;
          },
        )

    -- A full world.
    append :
        (w : World)
        → IsSized w
        → 0 < length w.bodies
        → (w' : World) × (ref : BodyRef) × (claim_body (grow_bodies w) (length w.bodies)
            ≡ ok (w', ref))
          × Creates w w' ref
    unfolding grow_bodies
    append w s h =
        let (gen, e, eq) =
          claimed (grow_bodies w) (length w.bodies) Body.default sized
            (doubled-new w.bodies Body.default h) in
        (
          record w { bodies = after; body_gen_indices = gens },
          record { index = length w.bodies; gen_index = gen },
          eq,
          record {
            sized = sized ∙ sym (length-set bigger (length w.bodies) (enable Body.default));
            fresh = λ b' at'. absurd (omega (arith, get_elem?-lt w.bodies (length w.bodies) at'));
            body = enable Body.default;
            found =
                found_after (grow_bodies w) bigger (length w.bodies) gen Body.default e
                  (doubled-new w.bodies Body.default h);
            on = enable-is_enabled Body.default;
            others = λ n x ne at.
                get_elem?-set_ne bigger (length w.bodies) n (enable Body.default) (λ p. ne (sym p))
                ∙ doubled-old w.bodies Body.default n (get_elem?-lt w.bodies n at)
                ∙ at;
            gens = λ n g at.
                ap (λ k. get_elem? (resize w.body_gen_indices (k * 2) 0) n) (sym s)
                ∙ doubled-old w.body_gen_indices 0 n (get_elem?-lt w.body_gen_indices n at)
                ∙ at;
            same = refl;
          },
        )
      where
        bigger : List Body
        bigger = resize w.bodies (length w.bodies * 2) Body.default

        gens : List ℕ
        gens = resize w.body_gen_indices (length w.bodies * 2) 0

        after : List Body
        after = set bigger (length w.bodies) (enable Body.default)

        sized : length gens ≡ length bigger
        sized =
            ap (λ k. length (resize w.body_gen_indices (k * 2) 0)) (sym s)
            ∙ omega (
              arith,
              length-doubled w.body_gen_indices 0,
              length-doubled w.bodies Body.default,
              s,
            )

    -- In a world that has room for a body and one generation index for each, and where 1 is not
    -- negative and -1 is, `CreateBody` returns normally. The reference that it returns leads to an
    -- enabled body, in a slot that no enabled body had; all other bodies and all generation indices
    -- stay; nothing else changes.
    pub create_body-Creates :
        (w : World)
        → IsSized w
        → 0 < length w.bodies
        → (w' : World) × (ref : BodyRef) × (create_body w ≡ ok (w', ref)) × Creates w w' ref
    unfolding create_body
    create_body-Creates w s h = elim (Option-cases (find_if is_free w.bodies)) [
      | inl full ↦ let (w', ref, e, c) = append w s h in (w', ref, rw (full, e), c)
      | inr (i, found) ↦
          let (b, at, free, _) = find_if-some is_free w.bodies i found in
          let (w', ref, e, c) = reuse w i b s at free in (w', ref, rw (found, e), c)
    ]

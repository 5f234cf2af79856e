-- ===== src/Physics/World/Colliders.antt =====
-- `CreateCollider`, `GetCollider` and `DestroyCollider` of Physics/src/World.cpp.
use bark_direct_x.Prelude.{
  ℕ, ◌*◌, ◌≤◌, ◌<◌, ◌≡◌, ◌≢◌, refl, sym, ap, ◌∙◌, ◌⊎◌, inl, inr, Bool, true, false, not, some, List,
  arith, length, get_elem?, set, length-set, get_elem?-set_self, get_elem?-set_ne, get_elem?-lt,
  get_elem?-some, Option-cases, resize, ==_refl,
}
use bark_direct_x.Prelude.Outcome.{ok}
use bark_direct_x.Math.{Math}
use bark_direct_x.Physics.Refs.{BodyRef, ColliderRef}
use bark_direct_x.Physics.Collider.{Collider}
use bark_direct_x.Physics.Collider
use bark_direct_x.Physics.World.{
  World, find_if, attach, get_collider, claim_collider, grow_colliders, create_collider,
}
use bark_direct_x.Physics.World.Slots.{
  find_if-some, find_if-none, length-doubled, doubled-old, doubled-new, doubled-cases,
}

module _ ⦃m : Math⦄ where
  abbrev is_free : Collider → Bool
  is_free col = not col.is_attached

  -- Every collider has its generation index.
  abbrev pub HasGens : World → Type 0
  HasGens w = length w.collider_gen_indices ≡ length w.colliders

  module _ (body_ref : BodyRef) where
    claimed :
        (w : World) (i : ℕ) (c : Collider)
        → HasGens w
        → get_elem? w.colliders i ≡ some c
        → (gen : ℕ) × (get_elem? w.collider_gen_indices i ≡ some gen)
          × (claim_collider w i body_ref
              ≡ ok (
                record w { colliders = set w.colliders i (attach body_ref c) },
                record { index = i; gen_index = gen },
              ))
    unfolding claim_collider
    claimed w i c s at =
        let h : i < length w.collider_gen_indices =
          omega (arith, s, get_elem?-lt w.colliders i at) in
        let (gen, e) = get_elem?-some w.collider_gen_indices i h in
        (gen, e, rw (e, ==_refl gen, at))

    -- What `CreateCollider` does to the world.
    pub record Attaches (w w' : World) (ref : ColliderRef) : Type 0 where
      pub sized : HasGens w'
      -- The slot was beyond the vector, or held a collider that is not attached.
      pub fresh : (c : Collider) → get_elem? w.colliders ref.index ≡ some c → c.is_attached ≡ false
      -- It was the first such slot.
      pub first :
          (n : ℕ) (c : Collider)
          → n < ref.index
          → get_elem? w.colliders n ≡ some c
          → c.is_attached ≡ true
      pub within : ref.index ≤ length w.colliders
      pub collider : Collider
      pub found : get_collider w' ref ≡ ok collider
      pub on : collider.is_attached ≡ true
      pub owner : collider.body_ref ≡ body_ref
      -- The collider but for its attachment is what the slot held, or a default one.
      pub origin :
          (c : Collider) × (collider ≡ attach body_ref c)
          × ((get_elem? w.colliders ref.index ≡ some c) ⊎ (c ≡ Collider.default))
      pub slots :
          (n : ℕ) (c : Collider)
          → n ≢ ref.index
          → get_elem? w'.colliders n ≡ some c
          → (get_elem? w.colliders n ≡ some c) ⊎ (c ≡ Collider.default)
      pub others :
          (n : ℕ) (c : Collider)
          → n ≢ ref.index
          → get_elem? w.colliders n ≡ some c
          → get_elem? w'.colliders n ≡ some c
      pub gens :
          (n g : ℕ)
          → get_elem? w.collider_gen_indices n ≡ some g
          → get_elem? w'.collider_gen_indices n ≡ some g
      pub same :
          w' ≡ record w { colliders = w'.colliders; collider_gen_indices = w'.collider_gen_indices }

    found_after :
        (w : World) (colliders : List Collider) (i gen : ℕ) (b : Collider)
        → get_elem? w.collider_gen_indices i ≡ some gen
        → get_elem? colliders i ≡ some b
        → get_collider
            (record w { colliders = set colliders i (attach body_ref b) })
            (record { index = i; gen_index = gen })
          ≡ ok (attach body_ref b)
    unfolding get_collider
    found_after w colliders i gen b e at = rw (
      e,
      ==_refl gen,
      get_elem?-set_self colliders i (attach body_ref b) (get_elem?-lt colliders i at),
    )

    -- A world with a free slot.
    reuse :
        (w : World) (i : ℕ) (b : Collider)
        → HasGens w
        → get_elem? w.colliders i ≡ some b
        → is_free b ≡ true
        → ((n : ℕ) (c : Collider) → n < i → get_elem? w.colliders n ≡ some c → is_free c ≡ false)
        → (w' : World) × (ref : ColliderRef) × (claim_collider w i body_ref ≡ ok (w', ref))
          × Attaches w w' ref
    reuse w i b s at free before =
        let (gen, e, eq) = claimed w i b s at in
        (
          record w { colliders = set w.colliders i (attach body_ref b) },
          record { index = i; gen_index = gen },
          eq,
          record {
            sized = s ∙ sym (length-set w.colliders i (attach body_ref b));
            fresh = λ b' at'. ground (arith, at, at', free);
            first = λ n c h at'. ground (arith, before n c h at');
            within = omega (arith, get_elem?-lt w.colliders i at);
            collider = attach body_ref b;
            found = found_after w w.colliders i gen b e at;
            on = refl;
            owner = refl;
            origin = (b, refl, inl at);
            slots = λ n x ne e.
                inl (
                  sym (get_elem?-set_ne w.colliders i n (attach body_ref b) (λ p. ne (sym p))) ∙ e);
            others = λ n x ne e.
                get_elem?-set_ne w.colliders i n (attach body_ref b) (λ p. ne (sym p)) ∙ e;
            gens = λ n g e. e;
            same = refl;
          },
        )

    -- A full world.
    append :
        (w : World)
        → HasGens w
        → 0 < length w.colliders
        → ((n : ℕ) (c : Collider) → get_elem? w.colliders n ≡ some c → is_free c ≡ false)
        → (w' : World) × (ref : ColliderRef) × (claim_collider
              (grow_colliders w)
              (length w.colliders)
              body_ref
            ≡ ok (w', ref))
          × Attaches w w' ref
    unfolding grow_colliders
    append w s h full =
        let (gen, e, eq) =
          claimed (grow_colliders w) (length w.colliders) Collider.default sized
            (doubled-new w.colliders Collider.default h) in
        (
          record w { colliders = after; collider_gen_indices = gens },
          record { index = length w.colliders; gen_index = gen },
          eq,
          record {
            sized =
                sized
                ∙ sym (length-set bigger (length w.colliders) (attach body_ref Collider.default));
            fresh =
                λ b' at'. absurd (omega (arith, get_elem?-lt w.colliders (length w.colliders) at'));
            first = λ n c _ at'. ground (arith, full n c at');
            within = omega arith;
            collider = attach body_ref Collider.default;
            found =
                found_after (grow_colliders w) bigger (length w.colliders) gen Collider.default e
                  (doubled-new w.colliders Collider.default h);
            on = refl;
            owner = refl;
            origin = (Collider.default, refl, inr refl);
            slots = λ n x ne e. doubled-cases w.colliders Collider.default n (
                sym (
                  get_elem?-set_ne bigger (length w.colliders) n (attach body_ref Collider.default)
                    (λ p. ne (sym p)))
                ∙ e);
            others = λ n x ne at.
                get_elem?-set_ne bigger (length w.colliders) n (attach body_ref Collider.default)
                  (λ p. ne (sym p))
                ∙ doubled-old w.colliders Collider.default n (get_elem?-lt w.colliders n at)
                ∙ at;
            gens = λ n g at.
                ap (λ k. get_elem? (resize w.collider_gen_indices (k * 2) 0) n) (sym s)
                ∙ doubled-old w.collider_gen_indices 0 n (get_elem?-lt w.collider_gen_indices n at)
                ∙ at;
            same = refl;
          },
        )
      where
        bigger : List Collider
        bigger = resize w.colliders (length w.colliders * 2) Collider.default

        gens : List ℕ
        gens = resize w.collider_gen_indices (length w.colliders * 2) 0

        after : List Collider
        after = set bigger (length w.colliders) (attach body_ref Collider.default)

        sized : length gens ≡ length bigger
        sized =
            ap (λ k. length (resize w.collider_gen_indices (k * 2) 0)) (sym s)
            ∙ omega (
              arith,
              length-doubled w.collider_gen_indices 0,
              length-doubled w.colliders Collider.default,
              s,
            )

    -- In a world that has room for a collider and one generation index for each, `CreateCollider`
    -- returns normally. The reference that it returns leads to a collider that is attached to the
    -- given body, in the first slot that no attached collider had, and is otherwise what that slot held or a
    -- default collider; all other colliders and all generation indices stay, new slots hold default
    -- colliders; nothing else changes.
    pub create_collider-Attaches :
        (w : World)
        → HasGens w
        → 0 < length w.colliders
        → (w' : World) × (ref : ColliderRef) × (create_collider w body_ref ≡ ok (w', ref))
          × Attaches w w' ref
    unfolding create_collider
    create_collider-Attaches w s h = elim (Option-cases (find_if is_free w.colliders)) [
      | inl full ↦
          let (w', ref, e, c) =
            append w s h (λ n c at. find_if-none is_free w.colliders n c full at) in
          (w', ref, rw (full, e), c)
      | inr (i, found) ↦
          let (b, at, free, before) = find_if-some is_free w.colliders i found in
          let (w', ref, e, c) = reuse w i b s at free before in (w', ref, rw (found, e), c)
    ]

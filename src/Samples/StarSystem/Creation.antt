-- ===== src/Samples/StarSystem/Creation.antt =====
-- `SampleSetUp` of samples/src/StarSystemSample.cpp creates the sun and its planets.
use bark_direct_x.Prelude.{
  ℕ, ◌+◌, ◌*◌, ◌≤◌, ◌≡◌, refl, ap, subst, ◌∙◌, inl, inr, none, arith, length,
}
use bark_direct_x.Prelude.Outcome.{Yields}
use bark_direct_x.Math.{Math}
use bark_direct_x.Math.Laws.{IsSigned}
use bark_direct_x.Common.Random.{Draws}
use bark_direct_x.Common.Timer.{Timer}
use bark_direct_x.Shape.Circle.{Circle}
use bark_direct_x.Physics.Refs.{BodyRef}
use bark_direct_x.Physics.World.{World, new_world, modify_body}
use bark_direct_x.Physics.World
use bark_direct_x.Physics.World.Triggers.{IsGood, IsGood-get}
use bark_direct_x.Physics.World.Ready.{IsReady, Extends, Extends-trans}
use bark_direct_x.Physics.World.Ready.Creation.{create_body-IsReady}
use bark_direct_x.Physics.World.Ready.Changes.{modify_body-IsReady}
use bark_direct_x.Samples.{Sample, GraphicsData}
use bark_direct_x.Samples.Staged.{IsStaged, pushed, length-pushed, for_loop-Yields}
use bark_direct_x.Samples.Laws.{IsDown, prepared}
use bark_direct_x.Samples.Laws.Listening.{IsDeaf, deaf-IsStaged}
use bark_direct_x.Samples.StarSystem.{
  StarSystem, sun_body, sun_circle, sun_data, planet_circle, planet_data, enlist, create_sun,
  launch, planet_place, planet_nbr, create_planet, sample_set_up,
}

module _ ⦃m : Math⦄ where
  open m use {Vector}

  -- Each body has its circle and its data.
  pub record Shows (s : Sample StarSystem) : Type 0 where
    pub deaf : IsDeaf s
    pub circles : length s.body_refs ≤ length s.own.circles
    pub graphics : length s.body_refs ≤ length s.all_graphics_data

  -- And the sun can be found.
  pub record Shines (s : Sample StarSystem) : Type 0 where
    pub shows : Shows s
    pub sun : IsGood s.world s.own.sun_ref

  enlist-IsStaged :
      (k : ℕ) (s : Sample StarSystem) (w : World) (ref : BodyRef) (circle : Circle)
      (gd : GraphicsData)
      → IsStaged k s
      → IsReady k w
      → Extends s.world w
      → IsGood w ref
      → IsStaged k (enlist ref circle gd w s)
  unfolding enlist
  enlist-IsStaged k s w ref circle gd t ready x good = record {
    ready = ready;
    counted = t.counted;
    refers = λ n other at. x.refers n other (t.refers n other at);
    good = λ n other at. elim (pushed s.body_refs ref n at) [
      | inl old ↦ x.good other (t.good n other old)
      | inr (_, same) ↦ subst (IsGood w) same good
    ];
    drawn = omega (arith, t.drawn, length-pushed s.all_graphics_data gd);
  }

  enlist-Shows :
      (s : Sample StarSystem) (w : World) (ref : BodyRef) (circle : Circle) (gd : GraphicsData)
      → Shows s
      → w.contact_listener ≡ none
      → Shows (enlist ref circle gd w s)
  unfolding enlist
  enlist-Shows s w ref circle gd b deaf = record {
    deaf = deaf;
    circles =
        omega (arith, b.circles, length-pushed s.body_refs ref, length-pushed s.own.circles circle);
    graphics =
        omega
          (arith, b.graphics, length-pushed s.body_refs ref, length-pushed s.all_graphics_data gd);
  }

  -- What a step of `SampleSetUp` makes.
  abbrev pub Lit : ℕ → Sample StarSystem → Type 0
  Lit k s = IsStaged k s × Shines s

  sun-IsStaged :
      (k : ℕ) (s : Sample StarSystem) (ref : BodyRef)
      → IsStaged k s
      → IsStaged k (record s { own = record s.own { sun_ref = ref } })
  sun-IsStaged k s ref t = record {
    ready = t.ready;
    counted = t.counted;
    refers = t.refers;
    good = t.good;
    drawn = t.drawn;
  }

  create_sun-Lit :
      IsSigned m
      → (k : ℕ) (s : Sample StarSystem) → IsStaged k s
      → Shows s
      → Yields (Lit k) (create_sun s)
  unfolding create_sun enlist
  create_sun-Lit signs k s t b =
      let (w1, ref, e1, r1, x1, good1, l1, _) = create_body-IsReady signs k s.world t.ready in
      let (w2, e2, r2, x2, f2) = modify_body-IsReady k w1 ref sun_body r1 good1 in
      let named : Sample StarSystem = record s { own = record s.own { sun_ref = ref } } in
      let shown : Shows named = record {
        deaf = b.deaf;
        circles = b.circles;
        graphics = b.graphics;
      } in
      (
        enlist ref sun_circle sun_data w2 named,
        rw (e1, e2) refl,
        (
          enlist-IsStaged k named w2 ref sun_circle sun_data (sun-IsStaged k s ref t) r2
              (Extends-trans s.world w1 w2 x1 x2) (x2.good ref good1),
          record {
            shows =
                enlist-Shows named w2 ref sun_circle sun_data shown
                  (ap (λ v. v.contact_listener) f2 ∙ l1 ∙ b.deaf);
            sun = x2.good ref good1;
          },
        ),
      )

  create_planet-Lit :
      IsSigned m
      → (draws : Draws) (k i : ℕ) (s : Sample StarSystem) → Lit k s
      → Yields (Lit k) (create_planet draws i s)
  unfolding create_planet enlist
  create_planet-Lit signs draws k i s (t, b) =
      let (w1, ref, e1, r1, x1, good1, l1, _) = create_body-IsReady signs k s.world t.ready in
      let (w2, e2, r2, x2, f2) =
        modify_body-IsReady k w1 ref (planet_place draws (i * 6)) r1 good1 in
      let x12 = Extends-trans s.world w1 w2 x1 x2 in
      let (sun, e) = IsGood-get w2 s.own.sun_ref (x12.good s.own.sun_ref b.sun) in
      let (w3, e3, r3, x3, f3) = modify_body-IsReady k w2 ref (launch sun) r2 (x2.good ref good1) in
      let x = Extends-trans s.world w2 w3 x12 x3 in
      (
        enlist ref (planet_circle draws (i * 6 + 2)) (planet_data draws (i * 6 + 3)) w3 s,
        rw (e1, e2, e, e3) refl,
        (
          enlist-IsStaged k s w3 ref (planet_circle draws (i * 6 + 2))
              (planet_data draws (i * 6 + 3)) t r3 x (x3.good ref (x2.good ref good1)),
          record {
            shows =
                enlist-Shows s w3 ref (planet_circle draws (i * 6 + 2))
                  (planet_data draws (i * 6 + 3)) b.shows
                  (ap (λ v. v.contact_listener) f3
                    ∙ ap (λ v. v.contact_listener) f2
                    ∙ l1
                    ∙ b.shows.deaf);
            sun = x.good s.own.sun_ref b.sun;
          },
        ),
      )

  pub sample_set_up-Lit :
      IsSigned m
      → (draws : Draws) (timer : Timer) (s : Sample StarSystem) → IsDown s
      → IsDeaf s
      → Yields (Lit 0) (sample_set_up draws (prepared timer s))
  unfolding sample_set_up World.set_up
  sample_set_up-Lit signs draws timer s down deaf =
      let start : Shows (prepared timer s) = record {
        deaf = deaf;
        circles = omega (arith, ap length down.no_bodies);
        graphics = omega (arith, ap length down.no_bodies);
      } in
      let (s1, e1, lit1) =
        create_sun-Lit signs 0 (prepared timer s) (deaf-IsStaged timer s down deaf) start in
      let (s2, e2, lit2) =
        for_loop-Yields (create_planet draws) (λ _. Lit 0) 0 planet_nbr s1
          (λ i x _ _ lit. create_planet-Lit signs draws 0 i x lit) lit1 in
      (s2, rw e1 e2, lit2)

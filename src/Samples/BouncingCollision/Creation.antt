-- ===== src/Samples/BouncingCollision/Creation.antt =====
-- `SampleSetUp` of samples/src/BouncingCollisionSample.cpp creates its objects.
use bark_direct_x.Prelude.{ℕ, suc, ◌+◌, ◌*◌, ◌≡◌, refl, ap, subst, ◌∙◌, inr, some, List, [], arith}
use bark_direct_x.Prelude.Outcome.{Yields}
use bark_direct_x.Math.{Math}
use bark_direct_x.Math.Laws.{IsSigned}
use bark_direct_x.Common.Random.{Draws}
use bark_direct_x.Common.Timer.{Timer}
use bark_direct_x.Physics.World.{Event}
use bark_direct_x.Samples.{Sample}
use bark_direct_x.Samples.Objects.{thrown}
use bark_direct_x.Samples.Staged.{IsStaged, for_loop-Yields, add_unnamed-Adds}
use bark_direct_x.Samples.Laws.{IsDown, prepared, prepared-IsStaged}
use bark_direct_x.Samples.BouncingCollision.{
  BouncingCollision, object_collider, object_data, the_circle, the_rectangle, circle_nbr,
  rectangle_nbr, listening, create_circle, create_rectangle, sample_set_up, speed,
}

module _ ⦃m : Math⦄ where
  open m use {Vector, one_f}

  -- The sample listens, and has as many objects as it thinks.
  pub record Listens (k : ℕ) (s : Sample BouncingCollision) : Type 0 where
    pub counted : s.own.nb_objects ≡ k
    pub log : List Event
    pub hears : s.world.contact_listener ≡ some log

  -- A sample between two objects of `SampleSetUp`.
  pub record Grows (n k : ℕ) (s : Sample BouncingCollision) : Type 0 where
    pub staged : IsStaged k s
    pub counted : s.own.nb_objects ≡ n
    pub log : List Event
    pub hears : s.world.contact_listener ≡ some log

  module _ (signs : IsSigned m) (draws : Draws) where
    create_circle-Grows :
        (n k i : ℕ) (s : Sample BouncingCollision)
        → Grows n k s
        → Yields (Grows n (suc k)) (create_circle draws i s)
    unfolding create_circle
    create_circle-Grows n k i s g =
        let (s', _, e, x) =
          add_unnamed-Adds signs (λ body. thrown draws (i * 4) speed (record body { mass = one_f }))
            (object_collider the_circle) (object_data the_circle)
            (λ body. record { owner = λ _. refl; attached = λ _. refl; drawn = λ _ _. tt }) k s
            g.staged in
        (
          s',
          e,
          record {
            staged = x.staged;
            counted = ap (λ (v : Sample BouncingCollision). v.own.nb_objects) x.same ∙ g.counted;
            log = g.log;
            hears = x.listener ∙ g.hears;
          },
        )

    create_rectangle-Grows :
        (n k i : ℕ) (s : Sample BouncingCollision)
        → Grows n k s
        → Yields (Grows n (suc k)) (create_rectangle draws i s)
    unfolding create_rectangle
    create_rectangle-Grows n k i s g =
        let (s', _, e, x) =
          add_unnamed-Adds signs (thrown draws ((circle_nbr + i) * 4) speed)
            (object_collider the_rectangle) (object_data the_rectangle)
            (λ body. record { owner = λ _. refl; attached = λ _. refl; drawn = λ _ _. tt }) k s
            g.staged in
        (
          s',
          e,
          record {
            staged = x.staged;
            counted = ap (λ (v : Sample BouncingCollision). v.own.nb_objects) x.same ∙ g.counted;
            log = g.log;
            hears = x.listener ∙ g.hears;
          },
        )

    pub sample_set_up-Grows :
        (timer : Timer) (s : Sample BouncingCollision)
        → IsDown s
        → Yields (Grows 40 40) (sample_set_up draws (prepared timer s))
    unfolding sample_set_up listening
    sample_set_up-Grows timer s down =
        let t = prepared-IsStaged timer s (some []) down (inr refl) in
        let (s1, e1, g1) =
          for_loop-Yields (create_circle draws) (Grows 40) 0 circle_nbr
            (listening (prepared timer s)) (λ i x _ _ g. create_circle-Grows 40 i i x g)
            (record {
              staged = record {
                ready = t.ready;
                counted = t.counted;
                refers = t.refers;
                good = t.good;
                drawn = t.drawn;
              };
              counted = refl;
              log = [];
              hears = refl;
            }) in
        let (s2, e2, g2) =
          for_loop-Yields (create_rectangle draws) (λ i. Grows 40 (20 + i)) 0 rectangle_nbr s1
            (λ i x _ _ g.
              subst (λ j. Yields (Grows 40 j) (create_rectangle draws i x)) (omega arith)
                (create_rectangle-Grows 40 (20 + i) i x g))
            g1 in
        (s2, rw e1 e2, g2)

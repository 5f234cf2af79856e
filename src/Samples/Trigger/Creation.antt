-- ===== src/Samples/Trigger/Creation.antt =====
-- `SampleSetUp` of samples/src/TriggerSample.cpp creates its objects.
use bark_direct_x.Prelude.{
  ℕ, suc, ◌+◌, ◌*◌, ◌≡◌, refl, sym, ap, subst, ◌∙◌, inr, some, [], arith, replicate, resize,
}
use bark_direct_x.Prelude.Integers.{pos}
use bark_direct_x.Prelude.Outcome.{Yields}
use bark_direct_x.Math.{Math}
use bark_direct_x.Math.Laws.{IsSigned}
use bark_direct_x.Common.Random.{Draws}
use bark_direct_x.Common.Timer.{Timer}
use bark_direct_x.Shape.{Shape}
use bark_direct_x.Physics.World.Operations.{resize-empty}
use bark_direct_x.Physics.World.Overlaps.{HasVertices}
use bark_direct_x.Physics.World.Protocol.{open_pairs}
use bark_direct_x.Samples.{Sample, default_data}
use bark_direct_x.Samples.Objects.{for_loop, thrown, translate_shape}
use bark_direct_x.Samples.Staged.{IsStaged, for_loop-Yields, add_unnamed-Adds}
use bark_direct_x.Samples.Counters.{Counts}
use bark_direct_x.Samples.Counters.Handlers.{zeros-Counts}
use bark_direct_x.Samples.Counters.Frames.{Watching}
use bark_direct_x.Samples.Laws.{IsDown, prepared, prepared-IsStaged}
use bark_direct_x.Samples.Trigger.{
  Trigger, listening, object_collider, the_circle, the_rectangle, the_triangle, circle_nbr,
  rectangle_nbr, triangle_nbr, speed, create_object, sample_set_up,
}

module _ ⦃m : Math⦄ where
  open m use {Vector}

  -- The counters are idle before `SetUp`; they watch the world after it.
  abbrev pub IsIdle : Sample Trigger → Type 0
  IsIdle s = s.own.trigger_nbr_per_collider ≡ []

  pub record IsBusy (k : ℕ) (s : Sample Trigger) : Type 0 where
    pub counted : s.own.nb_objects ≡ k
    pub watching : Watching s.own.trigger_nbr_per_collider k s.world

  -- A sample between two objects of `SampleSetUp`.
  pub record Grows (k : ℕ) (s : Sample Trigger) : Type 0 where
    pub staged : IsStaged k s
    pub counted : s.own.nb_objects ≡ 300
    pub counters : s.own.trigger_nbr_per_collider ≡ replicate 300 (pos 0)
    pub hears : s.world.contact_listener ≡ some []

  module _ (signs : IsSigned m) (draws : Draws) where
    create_object-Grows :
        (first k i : ℕ) (shape : Shape) (s : Sample Trigger)
        → HasVertices shape
        → Grows k s
        → Yields (Grows (suc k)) (create_object draws first shape i s)
    unfolding create_object
    create_object-Grows first k i shape s vertices g =
        let (s', _, e, x) =
          add_unnamed-Adds signs (thrown draws ((first + i) * 4) speed) (object_collider shape)
            (λ body. record default_data { shape = translate_shape shape body.position })
            (λ body. record { owner = λ _. refl; attached = λ _. refl; drawn = λ _ _. vertices }) k
            s g.staged in
        (
          s',
          e,
          record {
            staged = x.staged;
            counted = ap (λ (v : Sample Trigger). v.own.nb_objects) x.same ∙ g.counted;
            counters =
                ap (λ (v : Sample Trigger). v.own.trigger_nbr_per_collider) x.same ∙ g.counters;
            hears = x.listener ∙ g.hears;
          },
        )

    -- One of the three loops.
    loop-Grows :
        (first before rounds : ℕ) (shape : Shape) (s : Sample Trigger)
        → HasVertices shape
        → Grows before s
        → Yields (Grows (before + rounds)) (for_loop (create_object draws first shape) 0 rounds s)
    loop-Grows first before rounds shape s vertices g =
        let (s', e, g') =
          for_loop-Yields (create_object draws first shape) (λ i. Grows (before + i)) 0 rounds s
            (λ i x _ _ g'.
              subst (λ k. Yields (Grows k) (create_object draws first shape i x)) (omega arith)
                (create_object-Grows first (before + i) i shape x vertices g'))
            (subst (λ k. Grows k s) (omega arith) g) in
        (s', e, subst (λ k. Grows k s') (omega arith) g')

    listening-Grows :
        (timer : Timer) (s : Sample Trigger)
        → IsDown s
        → IsIdle s
        → Grows 0 (listening (prepared timer s))
    unfolding listening
    listening-Grows timer s down idle =
        let t = prepared-IsStaged timer s (some []) down (inr refl) in
        record {
          staged = record {
            ready = t.ready;
            counted = t.counted;
            refers = t.refers;
            good = t.good;
            drawn = t.drawn;
          };
          counted = refl;
          counters = ap (λ cs. resize cs 300 (pos 0)) idle ∙ resize-empty 300 (pos 0);
          hears = refl;
        }

    pub sample_set_up-Grows :
        (timer : Timer) (s : Sample Trigger)
        → IsDown s
        → IsIdle s
        → Yields (Grows 300) (sample_set_up draws (prepared timer s))
    unfolding sample_set_up
    sample_set_up-Grows timer s down idle =
        let s0 = listening (prepared timer s) in
        let (s1, e1, g1) =
          loop-Grows 0 0 circle_nbr the_circle s0 tt (listening-Grows timer s down idle) in
        let (s2, e2, g2) = loop-Grows circle_nbr 100 rectangle_nbr the_rectangle s1 tt g1 in
        let (s3, e3, g3) =
          loop-Grows (circle_nbr + rectangle_nbr) 200 triangle_nbr the_triangle s2 (omega arith)
            g2 in
        (s3, rw (e1, e2) e3, g3)

  pub Grows-IsBusy : (s : Sample Trigger) → Grows 300 s → IsBusy 300 s
  unfolding open_pairs
  Grows-IsBusy s g = record {
    counted = g.counted;
    watching = record {
      room = omega arith;
      log = [];
      hears = g.hears;
      settled = tt;
      counts = subst (λ cs. Counts cs 300 []) (sym g.counters) (zeros-Counts 300);
    };
  }

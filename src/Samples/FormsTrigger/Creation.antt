-- ===== src/Samples/FormsTrigger/Creation.antt =====
-- `SampleSetUp` of samples/src/FormsTriggerSample.cpp creates its four objects.
use bark_direct_x.Prelude.{
  ℕ, suc, ◌≡◌, refl, sym, ap, subst, ◌∙◌, inr, some, [], arith, get_elem?, replicate, resize,
}
use bark_direct_x.Prelude.Integers.{pos}
use bark_direct_x.Prelude.Outcome.{Yields}
use bark_direct_x.Math.{Math}
use bark_direct_x.Math.Laws.{IsSigned}
use bark_direct_x.Common.Random.{Draws}
use bark_direct_x.Common.Timer.{Timer}
use bark_direct_x.Shape.{Shape, polygon_shape}
use bark_direct_x.Shape.Polygon
use bark_direct_x.Physics.Refs.{BodyRef}
use bark_direct_x.Physics.Body.{Body}
use bark_direct_x.Physics.Collider.{Collider}
use bark_direct_x.Physics.World.{World}
use bark_direct_x.Physics.World.Operations.{resize-empty}
use bark_direct_x.Physics.World.Overlaps.{HasVertices}
use bark_direct_x.Physics.World.Protocol.{open_pairs}
use bark_direct_x.Physics.World.Triggers.{IsGood}
use bark_direct_x.Physics.World.Ready.Changes.{Redraws}
use bark_direct_x.Samples.{Sample}
use bark_direct_x.Samples.Staged.{IsStaged, Adds, add_object-Adds, add_unnamed-Adds}
use bark_direct_x.Samples.Counters.{Counts}
use bark_direct_x.Samples.Counters.Handlers.{zeros-Counts}
use bark_direct_x.Samples.Counters.Frames.{Watching}
use bark_direct_x.Samples.Laws.{IsDown, prepared, prepared-IsStaged}
use bark_direct_x.Samples.FormsTrigger.{
  FormsTrigger, listening, form_collider, form_data, triangle_body, triangle_shape,
  movable_triangle_body, movable_triangle_shape, circle_body, the_circle, rect_body, the_rect,
  create_triangles, create_others, sample_set_up,
}

module _ ⦃m : Math⦄ where
  open m use {Vector}

  -- The collider at index 1 is a polygon.
  abbrev pub HasTriangle : World → Type 0
  HasTriangle w =
      (col : Collider) × (get_elem? w.colliders 1 ≡ some col)
      × ((p : Polygon.Polygon) × (col.shape ≡ polygon_shape p))

  pub record IsBusy (k : ℕ) (s : Sample FormsTrigger) : Type 0 where
    pub four : k ≡ 4
    pub movable : IsGood s.world s.own.movable_triangle_ref
    pub triangle : HasTriangle s.world
    pub watching : Watching s.own.trigger_nbr_per_collider k s.world

  -- A sample in `SampleSetUp`.
  record Grows (k : ℕ) (s : Sample FormsTrigger) : Type 0 where
    pub staged : IsStaged k s
    pub counters : s.own.trigger_nbr_per_collider ≡ replicate 4 (pos 0)
    pub hears : s.world.contact_listener ≡ some []

  grown :
      (shape : Shape) (k : ℕ) (s s' : Sample FormsTrigger) (ref : BodyRef)
      → Adds (form_collider shape) k s s' ref
      → Grows k s
      → Grows (suc k) s'
  grown shape k s s' ref x g = record {
    staged = x.staged;
    counters = ap (λ (v : Sample FormsTrigger). v.own.trigger_nbr_per_collider) x.same ∙ g.counters;
    hears = x.listener ∙ g.hears;
  }

  form-Redraws :
      (shape : Shape) → HasVertices shape → (body : Body) → Redraws (form_collider shape body)
  form-Redraws shape vertices body = record {
    owner = λ _. refl;
    attached = λ _. refl;
    drawn = λ _ _. vertices;
  }

  -- The two triangles have been created.
  record Triangles (s : Sample FormsTrigger) : Type 0 where
    pub grows : Grows 2 s
    pub movable : IsGood s.world s.own.movable_triangle_ref
    pub triangle : HasTriangle s.world

  module _ (signs : IsSigned m) where
    create_triangles-Triangles :
        (s : Sample FormsTrigger) → Grows 0 s → Yields Triangles (create_triangles s)
    unfolding create_triangles
    create_triangles-Triangles s g =
        let (s1, ref1, e1, x1) =
          add_unnamed-Adds signs triangle_body (form_collider triangle_shape)
            (form_data triangle_shape) (form-Redraws triangle_shape (omega arith)) 0 s g.staged in
        let g1 = grown triangle_shape 0 s s1 ref1 x1 g in
        let (s2, ref2, e2, x2) =
          add_object-Adds signs movable_triangle_body (form_collider movable_triangle_shape)
            (form_data movable_triangle_shape) (form-Redraws movable_triangle_shape (omega arith)) 1
            s1 g1.staged in
        let g2 = grown movable_triangle_shape 1 s1 s2 ref2 x2 g1 in
        let (body, col, at) = x2.new in
        let t = g2.staged in
        (
          record s2 { own = record s2.own { movable_triangle_ref = ref2 } },
          rw (e1, e2) refl,
          record {
            grows = record {
              staged = record {
                ready = t.ready;
                counted = t.counted;
                refers = t.refers;
                good = t.good;
                drawn = t.drawn;
              };
              counters = g2.counters;
              hears = g2.hears;
            };
            movable = x2.named;
            triangle = (form_collider movable_triangle_shape body col, at, (_, refl));
          },
        )

    create_others-IsBusy :
        (s : Sample FormsTrigger)
        → Triangles s
        → Yields (λ s'. IsStaged 4 s' × IsBusy 4 s') (create_others s)
    unfolding create_others open_pairs
    create_others-IsBusy s h =
        let (s1, ref1, e1, x1) =
          add_unnamed-Adds signs circle_body (form_collider the_circle) (form_data the_circle)
            (form-Redraws the_circle tt) 2 s h.grows.staged in
        let g1 = grown the_circle 2 s s1 ref1 x1 h.grows in
        let (s2, ref2, e2, x2) =
          add_unnamed-Adds signs rect_body (form_collider the_rect) (form_data the_rect)
            (form-Redraws the_rect tt) 3 s1 g1.staged in
        let g2 = grown the_rect 3 s1 s2 ref2 x2 g1 in
        let (col, at, polygon) = h.triangle in
        let own1 = ap (λ (v : Sample FormsTrigger). v.own) x1.same in
        let own2 = ap (λ (v : Sample FormsTrigger). v.own) x2.same ∙ own1 in
        (
          s2,
          rw e1 e2,
          (
            g2.staged,
            record {
              four = refl;
              movable =
                  subst (λ (o : FormsTrigger). IsGood s2.world o.movable_triangle_ref) (sym own2)
                    (x2.extends.good s.own.movable_triangle_ref
                      (x1.extends.good s.own.movable_triangle_ref h.movable));
              triangle = (col, x2.old 1 col (omega arith) (x1.old 1 col (omega arith) at), polygon);
              watching = record {
                room = omega arith;
                log = [];
                hears = g2.hears;
                settled = tt;
                counts = subst (λ cs. Counts cs 4 []) (sym g2.counters) (zeros-Counts 4);
              };
            },
          ),
        )

    listening-Grows :
        (timer : Timer) (s : Sample FormsTrigger)
        → IsDown s
        → s.own.trigger_nbr_per_collider ≡ []
        → Grows 0 (listening (prepared timer s))
    unfolding listening
    listening-Grows timer s down idle =
        let t = prepared-IsStaged timer s (some []) down (inr refl) in
        record {
          staged = record {
            ready = t.ready;
            counted = t.counted;
            refers = t.refers;
            good = t.good;
            drawn = t.drawn;
          };
          counters = ap (λ cs. resize cs 4 (pos 0)) idle ∙ resize-empty 4 (pos 0);
          hears = refl;
        }

    pub sample_set_up-IsBusy :
        (draws : Draws) (timer : Timer) (s : Sample FormsTrigger)
        → IsDown s
        → s.own.trigger_nbr_per_collider ≡ []
        → Yields (λ s'. IsStaged 4 s' × IsBusy 4 s') (sample_set_up draws (prepared timer s))
    unfolding sample_set_up
    sample_set_up-IsBusy draws timer s down idle =
        let (s1, e1, h1) =
          create_triangles-Triangles (listening (prepared timer s))
            (listening-Grows timer s down idle) in
        let (s2, e2, p2) = create_others-IsBusy s1 h1 in (s2, rw e1 e2, p2)

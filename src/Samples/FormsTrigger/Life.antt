-- ===== src/Samples/FormsTrigger/Life.antt =====
-- The life of the sample of samples/src/FormsTriggerSample.cpp.
use bark_direct_x.Prelude.{
  ℕ, ◌<◌, ◌≡◌, refl, sym, ap, subst, ◌∙◌, List, [], arith, length, get_elem?, get_elem?-some, set,
  length-set,
}
use bark_direct_x.Prelude.Integers.{ℤ, pos}
use bark_direct_x.Prelude.Outcome.{Yields}
use bark_direct_x.Math.{Math}
use bark_direct_x.Math.Laws.{IsSigned}
use bark_direct_x.Common.Random.{Draws}
use bark_direct_x.Shape.{polygon_shape}
use bark_direct_x.Shape.Polygon
use bark_direct_x.Physics.Collider.{Collider}
use bark_direct_x.Physics.World.{World}
use bark_direct_x.Physics.World.Protocol.{open_pairs}
use bark_direct_x.Physics.World.Triggers.{IsGood, IsGood-get}
use bark_direct_x.Physics.World.Frames.{KeepsBodies}
use bark_direct_x.Physics.World.Ready.Changes.{Refers-get, modify_body-IsReady}
use bark_direct_x.Samples.{Sample, new_sample, GraphicsData, tear_down}
use bark_direct_x.Samples.Objects.{trigger_color}
use bark_direct_x.Samples.Staged.{IsStaged, restage, for_loop-Yields}
use bark_direct_x.Samples.Staged.Drawing.{recolor}
use bark_direct_x.Samples.Counters.{count}
use bark_direct_x.Samples.Counters.Frames.{Watching, hear-Watching, moved-Watching}
use bark_direct_x.Samples.Laws.{Laws}
use bark_direct_x.Samples.FormsTrigger.{
  FormsTrigger, hooks, with_counters, receive, polygon_of, paint, sample_update, sample_tear_down,
}
use bark_direct_x.Samples.FormsTrigger.Creation.{HasTriangle, IsBusy, sample_set_up-IsBusy}

module _ ⦃m : Math⦄ where
  open m use {Vector}

  -- One step of painting changes the data only.
  abbrev Painted : ℕ → Sample FormsTrigger → Type 0
  Painted k s = IsStaged k s × IsBusy k s

  paint-Painted :
      (k i : ℕ) (s : Sample FormsTrigger) → i < k → Painted k s → Yields (Painted k) (paint i s)
  unfolding paint
  paint-Painted k i s h (t, b) =
      let n = b.watching.counts.each i h in
      let (old, at) = get_elem?-some s.all_graphics_data i (omega (arith, t.drawn)) in
      let painted : GraphicsData = record old {
        color = trigger_color (pos (count i (open_pairs b.watching.log)));
      } in
      let graphics = set s.all_graphics_data i painted in
      (
        record s { all_graphics_data = graphics },
        rw (n, at) refl,
        (
          recolor k s graphics t (length-set s.all_graphics_data i painted),
          record {
            four = b.four;
            movable = b.movable;
            triangle = b.triangle;
            watching = b.watching;
          },
        ),
      )

  sample_update-Painted :
      (draws : Draws) (k : ℕ) (s : Sample FormsTrigger)
      → IsStaged k s
      → IsBusy k s
      → Yields (Painted k) (sample_update draws s)
  unfolding sample_update polygon_of
  sample_update-Painted draws k s t b =
      let movable = s.own.movable_triangle_ref in
      let (w, e1, r, x, f) =
        modify_body-IsReady k s.world movable (λ body. record body { position = s.mouse_pos })
          t.ready b.movable in
      let (ref, e2) = get_elem?-some s.col_refs 1 (omega (arith, t.counted, b.four)) in
      let (col, e3, at, _) =
        Refers-get k 1 w ref r (omega (arith, b.four)) (x.refers 1 ref (t.refers 1 ref e2)) in
      let (old, before, (polygon, drawn)) = b.triangle in
      let same : old ≡ col =
        ground (arith, at, ap (λ (v : World). get_elem? v.colliders 1) f ∙ before) in
      let shape : col.shape ≡ polygon_shape polygon =
        ap (λ (c : Collider). c.shape) (sym same) ∙ drawn in
      let (body, e4) = IsGood-get w movable (x.good movable b.movable) in
      let (shown, e5) = get_elem?-some s.all_graphics_data 1 (omega (arith, t.drawn, b.four)) in
      let new : GraphicsData = record shown {
        shape = polygon_shape (Polygon.translate polygon body.position);
      } in
      let graphics = set s.all_graphics_data 1 new in
      let stepped : Sample FormsTrigger = record s { world = w } in
      let moved : Sample FormsTrigger = record s { world = w; all_graphics_data = graphics } in
      let start : Painted k moved = (
        recolor k stepped graphics (restage k s w t r x) (length-set s.all_graphics_data 1 new),
        record {
          four = b.four;
          movable = x.good movable b.movable;
          triangle = (col, at, (polygon, shape));
          watching = moved-Watching s.own.trigger_nbr_per_collider k s.world w f b.watching;
        },
      ) in
      let (s', e, p) =
        for_loop-Yields paint (λ _. Painted k) 0 (length s.col_refs) moved
          (λ i v _ l q. paint-Painted k i v (omega (arith, t.counted)) q) start in
      (s', rw (e1, e2, e3, shape, e4, e5) e, p)

  -- The triangle is where it was, moved.
  keeps-HasTriangle : (w w' : World) → KeepsBodies w w' → HasTriangle w → HasTriangle w'
  keeps-HasTriangle w w' x (col, at, (polygon, shape)) =
      let (col', at', moves) = x.each_collider 1 col at in
      (col', at', (polygon, ap (λ (c : Collider). c.shape) moves ∙ shape))

  hear-Painted :
      (k : ℕ) (s s' : Sample FormsTrigger) (cs : List ℤ)
      → k ≡ 4
      → IsGood s.world s.own.movable_triangle_ref
      → HasTriangle s.world
      → IsStaged k s
      → s' ≡ with_counters s cs
      → Watching cs k s.world
      → Painted k s'
  hear-Painted k s s' cs four movable triangle t is x = subst (Painted k) (sym is) (
    record {
      ready = t.ready;
      counted = t.counted;
      refers = t.refers;
      good = t.good;
      drawn = t.drawn;
    },
    record { four = four; movable = movable; triangle = triangle; watching = x },
  )

  pub laws : IsSigned m → Laws hooks
  unfolding hooks receive tear_down sample_tear_down
  laws signs = record {
    IsIdle = λ s. s.own.trigger_nbr_per_collider ≡ [];
    IsBusy = IsBusy;
    start = λ draws timer s down idle.
        let (s', e, (t, b)) = sample_set_up-IsBusy signs draws timer s down idle in
        (s', e, (4, t, b));
    frame = λ draws k s t b.
        let (s', e, (t', b')) = sample_update-Painted draws k s t b in (s', e, (k, t', b'));
    hear = λ draws k timer s w t b t' keeps x.
        let moved : Sample FormsTrigger = record s { timer = timer; world = w } in
        let (s', e, (cs, is, watching)) =
          hear-Watching hooks (λ own. own.trigger_nbr_per_collider)
            (λ own cs. record own { trigger_nbr_per_collider = cs }) (λ own cs. refl)
            (λ own cs ds. refl) (λ own. refl) (λ draws n event v. refl) draws k s moved w b.watching
            t'.ready keeps refl in
        (
          s',
          e,
          hear-Painted k moved s' cs b.four (x.good s.own.movable_triangle_ref b.movable)
              (keeps-HasTriangle s.world w keeps b.triangle) t' is watching,
        );
    stop = λ k s t b. refl;
    same_world = λ s. refl;
    inputs = λ k s v left right b. record {
      four = b.four;
      movable = b.movable;
      triangle = b.triangle;
      watching = b.watching;
    };
  }

  -- A new sample is idle.
  pub new_sample-IsIdle :
      (memory : Vector) (signs : IsSigned m) (own : FormsTrigger)
      → own.trigger_nbr_per_collider ≡ []
      → (laws signs).IsIdle (new_sample memory own)
  unfolding laws new_sample
  new_sample-IsIdle memory signs own idle = idle

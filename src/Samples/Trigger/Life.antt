-- ===== src/Samples/Trigger/Life.antt =====
-- The life of the sample of samples/src/TriggerSample.cpp.
use bark_direct_x.Prelude.{
  ℕ, ◌≤◌, ◌<◌, ◌≡◌, refl, sym, subst, ◌∙◌, List, [], ◌++◌, arith, length, length-append,
  get_elem?-some, set, length-set,
}
use bark_direct_x.Prelude.Integers.{ℤ, pos}
use bark_direct_x.Prelude.Outcome.{Yields}
use bark_direct_x.Math.{Math}
use bark_direct_x.Math.Laws.{IsSigned}
use bark_direct_x.Common.Random.{Draws}
use bark_direct_x.Common.Timer.{Timer}
use bark_direct_x.Common.Timer
use bark_direct_x.Physics.World.Protocol.{open_pairs}
use bark_direct_x.Physics.World.Triggers.{IsGood-get}
use bark_direct_x.Physics.World.Ready.Changes.{Refers-get}
use bark_direct_x.Samples.{Sample, new_sample, GraphicsData, Input, tear_down, set_up, update}
use bark_direct_x.Samples.Objects.{trim, trigger_color, translate_shape}
use bark_direct_x.Samples.Staged.{IsStaged, restage, for_loop-Yields}
use bark_direct_x.Samples.Staged.Drawing.{recolor, draw_root-Outlines, trim-length}
use bark_direct_x.Samples.Staged.Walls.{bounce_object-IsReady}
use bark_direct_x.Samples.Counters.{Counts, count}
use bark_direct_x.Samples.Counters.Frames.{Watching, Watching-Counts, hear-Watching, moved-Watching}
use bark_direct_x.Samples.Laws.{Laws, IsDown, update-IsRunning}
use bark_direct_x.Samples.Trigger.{
  Trigger, hooks, with_counters, receive, update_object, show_quadtree, sample_update,
  sample_tear_down,
}
use bark_direct_x.Samples.Trigger.Creation.{IsIdle, IsBusy, sample_set_up-Grows, Grows-IsBusy}

module _ ⦃m : Math⦄ where
  open m use {Vector}

  update_object-IsBusy :
      (k i : ℕ) (s : Sample Trigger)
      → i < k
      → IsStaged k s × IsBusy k s
      → Yields (λ s'. IsStaged k s' × IsBusy k s') (update_object i s)
  unfolding update_object
  update_object-IsBusy k i s h (t, b) =
      let (ref, at) = get_elem?-some s.col_refs i (omega (arith, t.counted)) in
      let is = t.refers i ref at in
      let (w, e1, (r, x, f)) = bounce_object-IsReady k i s.world ref t.ready h is in
      let (col, e2, _, live) = Refers-get k i w ref r h (x.refers i ref is) in
      let (body, e3) = IsGood-get w col.body_ref live.0 in
      let (old, e4) = get_elem?-some s.all_graphics_data i (omega (arith, t.drawn)) in
      let shown : GraphicsData = record old { shape = translate_shape col.shape body.position } in
      let one = set s.all_graphics_data i shown in
      let size1 = length-set s.all_graphics_data i shown in
      let n = b.watching.counts.each i h in
      let (old', e5) = get_elem?-some one i (omega (arith, size1, t.drawn)) in
      let painted : GraphicsData = record old' {
        color = trigger_color (pos (count i (open_pairs b.watching.log)));
      } in
      let moved : Sample Trigger = record s { world = w } in
      (
        record s { world = w; all_graphics_data = set one i painted },
        rw (at, e1, e2, e3, e4, n, e5) refl,
        (
          recolor k moved (set one i painted) (restage k s w t r x)
              (length-set one i painted ∙ size1),
          record {
            counted = b.counted;
            watching = moved-Watching s.own.trigger_nbr_per_collider k s.world w f b.watching;
          },
        ),
      )

  show_quadtree-IsBusy :
      (k : ℕ) (s : Sample Trigger)
      → IsStaged k s
      → IsBusy k s
      → Yields (λ s'. IsStaged k s' × IsBusy k s') (show_quadtree s)
  unfolding show_quadtree
  show_quadtree-IsBusy k s t b =
      let (drawn, e, _) = draw_root-Outlines k s.world t.ready in
      (
        record s {
          all_graphics_data = s.all_graphics_data ++ drawn;
          own = record s.own { quad_tree_graphics_data = drawn };
        },
        rw e refl,
        (
          record {
            ready = t.ready;
            counted = t.counted;
            refers = t.refers;
            good = t.good;
            drawn = omega (arith, t.drawn, length-append s.all_graphics_data drawn);
          },
          record { counted = b.counted; watching = b.watching },
        ),
      )

  sample_update-IsBusy :
      (draws : Draws) (k : ℕ) (s : Sample Trigger)
      → IsStaged k s
      → IsBusy k s
      → Yields (λ s'. IsStaged k s' × IsBusy k s') (sample_update draws s)
  unfolding sample_update
  sample_update-IsBusy draws k s t b =
      let trimmed : Sample Trigger = record s {
        all_graphics_data = trim s.own.nb_objects s.all_graphics_data;
      } in
      let t0 : IsStaged k trimmed = record {
        ready = t.ready;
        counted = t.counted;
        refers = t.refers;
        good = t.good;
        drawn =
            subst (λ n. k ≤ length (trim n s.all_graphics_data)) (sym b.counted)
              (trim-length k s.all_graphics_data t.drawn);
      } in
      let b0 : IsBusy k trimmed = record { counted = b.counted; watching = b.watching } in
      let (s1, e1, (t1, b1)) =
        for_loop-Yields update_object (λ _ x. IsStaged k x × IsBusy k x) 0 (length s.col_refs)
          trimmed (λ i x _ h p. update_object-IsBusy k i x (omega (arith, t.counted)) p) (t0, b0) in
      let (s2, e2, p2) = show_quadtree-IsBusy k s1 t1 b1 in (s2, rw e1 e2, p2)

  hear-IsBusy :
      (k : ℕ) (s s' : Sample Trigger) (cs : List ℤ)
      → s.own.nb_objects ≡ k
      → IsStaged k s
      → s' ≡ with_counters s cs
      → Watching cs k s.world
      → IsStaged k s' × IsBusy k s'
  hear-IsBusy k s s' cs counted t is x =
      subst (λ v. IsStaged k v × IsBusy k v) (sym is)
        (
          record {
            ready = t.ready;
            counted = t.counted;
            refers = t.refers;
            good = t.good;
            drawn = t.drawn;
          },
          record { counted = counted; watching = x },
        )

  pub laws : IsSigned m → Laws hooks
  unfolding hooks receive tear_down sample_tear_down
  laws signs = record {
    IsIdle = IsIdle;
    IsBusy = IsBusy;
    start = λ draws timer s down idle.
        let (s', e, g) = sample_set_up-Grows signs draws timer s down idle in
        (s', e, (300, g.staged, Grows-IsBusy s' g));
    frame = λ draws k s t b.
        let (s', e, (t', b')) = sample_update-IsBusy draws k s t b in (s', e, (k, t', b'));
    hear = λ draws k timer s w t b t' keeps x.
        let moved : Sample Trigger = record s { timer = timer; world = w } in
        let (s', e, (cs, is, watching)) =
          hear-Watching hooks (λ own. own.trigger_nbr_per_collider)
            (λ own cs. record own { trigger_nbr_per_collider = cs }) (λ own cs. refl)
            (λ own cs ds. refl) (λ own. refl) (λ draws n event v. refl) draws k s moved w b.watching
            t'.ready keeps refl in
        (s', e, hear-IsBusy k moved s' cs b.counted t' is watching);
    stop = λ k s t b. refl;
    same_world = λ s. refl;
    inputs = λ k s v left right b. record { counted = b.counted; watching = b.watching };
  }

  -- The sample is set up with `k` objects: its world is sound and has `k` attached colliders, which
  -- stand first, its references lead to them, and its counters have counted the listener's calls.
  pub record IsSetUp (k : ℕ) (s : Sample Trigger) : Type 0 where
    pub staged : IsStaged k s
    pub busy : IsBusy k s

  -- Where 1 is not negative and -1 is: in a `TriggerSample` that is set up, `Update` returns normally, the
  -- sample is still set up, and the counter of each object is the number of times that the world's
  -- set of pairs holds its collider.
  pub update-Counts :
      (signs : IsSigned m) (input : Input) (k : ℕ) (s : Sample Trigger)
      → IsSetUp k s
      → Yields
          (λ s'.
            (k' : ℕ) × IsSetUp k' s'
            × Counts s'.own.trigger_nbr_per_collider k' s'.world.col_ref_pairs)
          (update hooks input s)
  unfolding laws
  update-Counts signs input k s up =
      let (s', e, (k', t, b)) =
        update-IsRunning hooks (laws signs) input s (k, up.staged, up.busy) in
      (
        s',
        e,
        (
          k',
          record { staged = t; busy = b },
          Watching-Counts s'.own.trigger_nbr_per_collider k' s'.world t.ready b.watching,
        ),
      )

  -- Where 1 is not negative and -1 is: `SetUp` of a `TriggerSample` that is down sets it up with its 300
  -- objects.
  pub set_up-IsSetUp :
      (signs : IsSigned m) (input : Input) (s : Sample Trigger)
      → IsDown s
      → s.own.trigger_nbr_per_collider ≡ []
      → Yields (IsSetUp 300) (set_up hooks input s)
  unfolding set_up hooks
  set_up-IsSetUp signs input s down idle =
      let (s', e, g) =
        sample_set_up-Grows signs input.draws (Timer.set_up input.now s.timer) s down idle in
      (s', rw e refl, record { staged = g.staged; busy = Grows-IsBusy s' g })

  -- A new sample is idle.
  pub new_sample-IsIdle :
      (memory : Vector) (signs : IsSigned m) (own : Trigger)
      → own.trigger_nbr_per_collider ≡ []
      → (laws signs).IsIdle (new_sample memory own)
  unfolding laws new_sample
  new_sample-IsIdle memory signs own idle = idle

-- ===== src/Samples/BouncingCollision/Life.antt =====
-- The life of the sample of samples/src/BouncingCollisionSample.cpp.
use bark_direct_x.Prelude.{
  ℕ, ◌*◌, ◌≤◌, ◌<◌, ◌≡◌, refl, sym, ap, subst, ◌∙◌, List, [], ◌∷◌, ◌++◌, arith, length,
  length-append, get_elem?-some, set, length-set, All,
}
use bark_direct_x.Prelude.Outcome.{Yields}
use bark_direct_x.Math.{Math}
use bark_direct_x.Math.Laws.{IsSigned}
use bark_direct_x.Common.Random.{Draws}
use bark_direct_x.Physics.Refs.{ColliderRef}
use bark_direct_x.Physics.World.{
  World, Event, on_trigger_enter, on_trigger_exit, on_collision_enter, on_collision_exit,
}
use bark_direct_x.Physics.World.Protocol.{IsNamed, Names, slots}
use bark_direct_x.Physics.World.Ready.{IsReady}
use bark_direct_x.Physics.World.Ready.Changes.{Refers-get}
use bark_direct_x.Samples.{Sample, new_sample, tear_down, receive_all}
use bark_direct_x.Samples.Objects.{trim, random_color}
use bark_direct_x.Samples.Staged.{IsStaged, restage, for_loop-Yields}
use bark_direct_x.Samples.Staged.Drawing.{redraw-Yields, recolor, draw_root-Outlines, trim-length}
use bark_direct_x.Samples.Staged.Walls.{bounce_object-IsReady}
use bark_direct_x.Samples.Laws.{Laws}
use bark_direct_x.Samples.Laws.Listening.{heard-calls}
use bark_direct_x.Samples.BouncingCollision.{
  BouncingCollision, hooks, receive, paint, update_object, show_quadtree, sample_update,
  sample_tear_down,
}
use bark_direct_x.Samples.BouncingCollision.Creation.{Listens, sample_set_up-Grows}

module _ ⦃m : Math⦄ where
  open m use {Vector, one_f}

  update_object-Listens :
      (k i : ℕ) (s : Sample BouncingCollision)
      → i < k
      → IsStaged k s × Listens k s
      → Yields (λ s'. IsStaged k s' × Listens k s') (update_object i s)
  unfolding update_object
  update_object-Listens k i s h (t, b) =
      let (ref, at) = get_elem?-some s.col_refs i (omega (arith, t.counted)) in
      let is = t.refers i ref at in
      let (w, e, (r, x, f)) = bounce_object-IsReady k i s.world ref t.ready h is in
      let (col, found, _, live) = Refers-get k i w ref r h (x.refers i ref is) in
      let (graphics, e', size) =
        redraw-Yields col.shape col.body_position i s.all_graphics_data (omega (arith, t.drawn)) in
      let moved : Sample BouncingCollision = record s { world = w } in
      (
        record s { world = w; all_graphics_data = graphics },
        rw (at, e, found, e') refl,
        (
          recolor k moved graphics (restage k s w t r x) size,
          record {
            counted = b.counted;
            log = b.log;
            hears = ap (λ v. v.contact_listener) f ∙ b.hears;
          },
        ),
      )

  show_quadtree-Listens :
      (k : ℕ) (s : Sample BouncingCollision)
      → IsStaged k s
      → Listens k s
      → Yields (λ s'. IsStaged k s' × Listens k s') (show_quadtree s)
  unfolding show_quadtree
  show_quadtree-Listens k s t b =
      let (drawn, e, _) = draw_root-Outlines k s.world t.ready in
      (
        record s {
          all_graphics_data = s.all_graphics_data ++ drawn;
          own = record s.own { quad_tree_graphics_data = drawn };
        },
        rw e refl,
        (
          record {
            ready = t.ready;
            counted = t.counted;
            refers = t.refers;
            good = t.good;
            drawn = omega (arith, t.drawn, length-append s.all_graphics_data drawn);
          },
          record { counted = b.counted; log = b.log; hears = b.hears },
        ),
      )

  sample_update-Listens :
      (draws : Draws) (k : ℕ) (s : Sample BouncingCollision)
      → IsStaged k s
      → Listens k s
      → Yields (λ s'. IsStaged k s' × Listens k s') (sample_update draws s)
  unfolding sample_update
  sample_update-Listens draws k s t b =
      let trimmed : Sample BouncingCollision = record s {
        all_graphics_data = trim s.own.nb_objects s.all_graphics_data;
      } in
      let t0 : IsStaged k trimmed = record {
        ready = t.ready;
        counted = t.counted;
        refers = t.refers;
        good = t.good;
        drawn =
            subst (λ n. k ≤ length (trim n s.all_graphics_data)) (sym b.counted)
              (trim-length k s.all_graphics_data t.drawn);
      } in
      let b0 : Listens k trimmed = record { counted = b.counted; log = b.log; hears = b.hears } in
      let (s1, e1, (t1, b1)) =
        for_loop-Yields update_object (λ _ x. IsStaged k x × Listens k x) 0 (length s.col_refs)
          trimmed (λ i x _ h p. update_object-Listens k i x (omega (arith, t.counted)) p)
          (t0, b0) in
      let (s2, e2, p2) = show_quadtree-Listens k s1 t1 b1 in (s2, rw e1 e2, p2)

  -- A named collider has its data.
  named-lt :
      (k : ℕ) (w : World) (ref : ColliderRef) → IsReady k w → IsNamed (slots w) ref → ref.index < k
  named-lt k w ref r (col, at, on, _) = r.beyond ref.index col at on

  receive-Listens :
      (draws : Draws) (k n : ℕ) (event : Event) (s : Sample BouncingCollision)
      → Names (slots s.world) event
      → IsStaged k s × Listens k s
      → Yields
          (λ s'. (IsStaged k s' × Listens k s') × (s'.world ≡ s.world))
          (receive draws n event s)
  unfolding receive
  receive-Listens draws k n (on_collision_enter a b) s (na, nb) (t, l) =
      let color = random_color draws (n * 3) in
      let (old, at) =
        get_elem?-some s.all_graphics_data a.index
          (omega (arith, named-lt k s.world a t.ready na, t.drawn)) in
      let one = set s.all_graphics_data a.index (paint color old) in
      let size1 = length-set s.all_graphics_data a.index (paint color old) in
      let (old', at') =
        get_elem?-some one b.index
          (omega (arith, named-lt k s.world b t.ready nb, t.drawn, size1)) in
      let two = set one b.index (paint color old') in
      (
        record s { all_graphics_data = two },
        rw (at, at') refl,
        (
          (
            recolor k s two t (length-set one b.index (paint color old') ∙ size1),
            record { counted = l.counted; log = l.log; hears = l.hears },
          ),
          refl,
        ),
      )
  receive-Listens draws k n (on_collision_exit a b) s named p = (s, refl, (p, refl))
  receive-Listens draws k n (on_trigger_enter a b) s named p = (s, refl, (p, refl))
  receive-Listens draws k n (on_trigger_exit a b) s named p = (s, refl, (p, refl))

  hear-Listens :
      (draws : Draws) (k : ℕ) (w : World) (calls : List Event) (s : Sample BouncingCollision)
      → All (Names (slots w)) calls
      → s.world ≡ w
      → IsStaged k s
      → Listens k s
      → Yields
          (λ s'. (IsStaged k s' × Listens k s') × (s'.world ≡ w))
          (receive_all hooks draws calls s)
  unfolding receive_all hooks
  hear-Listens draws k w [] s named same t b = (s, refl, ((t, b), same))
  hear-Listens draws k w (event ∷ calls) s (n, named) same t b =
      let (s1, e1, (p1, same1)) = hear-Listens draws k w calls s named same t b in
      let (s2, e2, (p2, same2)) =
        receive-Listens draws k (length calls) event s1
          (subst (λ v. Names (slots v) event) (sym same1) n) p1 in
      (s2, rw e1 e2, (p2, same2 ∙ same1))

  pub laws : IsSigned m → Laws hooks
  unfolding hooks tear_down sample_tear_down
  laws signs = record {
    IsIdle = λ s. Unit;
    IsBusy = Listens;
    start = λ draws timer s down _.
        let (s', e, g) = sample_set_up-Grows signs draws timer s down in
        (s', e, (40, g.staged, record { counted = g.counted; log = g.log; hears = g.hears }));
    frame = λ draws k s t b.
        let (s', e, (t', b')) = sample_update-Listens draws k s t b in (s', e, (k, t', b'));
    hear = λ draws k timer s w t b t' keeps x.
        let (calls, after, same, named) = heard-calls s w b.log b.hears keeps in
        let moved : Sample BouncingCollision = record s { timer = timer; world = w } in
        let (s', e, (p, _)) =
          hear-Listens draws k w calls moved named refl t'
            (record { counted = b.counted; log = calls ++ b.log; hears = after }) in
        (s', ap (λ cs. receive_all hooks draws cs moved) same ∙ e, p);
    stop = λ k s t b. tt;
    same_world = λ s. refl;
    inputs = λ k s v left right b. record { counted = b.counted; log = b.log; hears = b.hears };
  }

  -- A new sample is idle.
  pub new_sample-IsIdle :
      (memory : Vector) (signs : IsSigned m) (own : BouncingCollision)
      → (laws signs).IsIdle (new_sample memory own)
  unfolding laws
  new_sample-IsIdle memory signs own = tt

-- ===== src/Samples/StarSystem/Life.antt =====
-- The life of the sample of samples/src/StarSystemSample.cpp.
use bark_direct_x.Prelude.{
  ℕ, ◌<◌, ◌≡◌, refl, ap, ◌∙◌, arith, length, get_elem?-some, set, length-set, if_rule,
  if◌then◌else◌,
}
use bark_direct_x.Prelude.Outcome.{ok, Yields}
use bark_direct_x.Math.{Math}
use bark_direct_x.Math.Laws.{IsSigned}
use bark_direct_x.Common.Random.{Draws}
use bark_direct_x.Shape.{circle_shape}
use bark_direct_x.Shape.Circle.{Circle}
use bark_direct_x.Shape.Circle
use bark_direct_x.Physics.Refs.{BodyRef, body_ref_eq}
use bark_direct_x.Physics.Body.{Body}
use bark_direct_x.Physics.World.{World, new_world, modify_body}
use bark_direct_x.Physics.World
use bark_direct_x.Physics.World.Triggers.{IsGood, IsGood-get}
use bark_direct_x.Physics.World.Ready.{IsReady, Extends, Extends-refl}
use bark_direct_x.Physics.World.Ready.Changes.{modify_body-IsReady}
use bark_direct_x.Samples.{Sample, new_sample, GraphicsData, tear_down}
use bark_direct_x.Samples.Staged.{restage, for_loop-Yields}
use bark_direct_x.Samples.Staged.Drawing.{recolor}
use bark_direct_x.Samples.Laws.{Laws}
use bark_direct_x.Samples.Laws.Listening.{IsDeaf, deaf-calls, receive_all-nothing}
use bark_direct_x.Samples.StarSystem.{
  StarSystem, hooks, calculate_gravitational_force, attract, sample_update, sample_tear_down,
}
use bark_direct_x.Samples.StarSystem.Creation.{Shines, Lit, sample_set_up-Lit}

module _ ⦃m : Math⦄ where
  open m use {Vector}

  -- The pull of the sun on a body.
  pull-IsReady :
      (k : ℕ) (w : World) (ref sun_ref : BodyRef) (sun : Body)
      → IsReady k w
      → IsGood w ref
      → Yields
          (λ w'. IsReady k w' × Extends w w' × (w'.contact_listener ≡ w.contact_listener))
          (if body_ref_eq ref sun_ref
            then ok w
            else modify_body w ref (calculate_gravitational_force sun))
  pull-IsReady k w ref sun_ref sun r good =
      if_rule
        (Yields (λ w'. IsReady k w' × Extends w w' × (w'.contact_listener ≡ w.contact_listener)))
        (body_ref_eq ref sun_ref) (ok w) (modify_body w ref (calculate_gravitational_force sun))
        (λ _. (w, refl, (r, Extends-refl w, refl)))
        (λ _.
          let (w', e, r', x, f) =
            modify_body-IsReady k w ref (calculate_gravitational_force sun) r good in
          (w', e, (r', x, ap (λ v. v.contact_listener) f)))

  attract-Lit :
      (k n i : ℕ) (s : Sample StarSystem)
      → i < n
      → Lit k s × (length s.body_refs ≡ n)
      → Yields (λ s'. Lit k s' × (length s'.body_refs ≡ n)) (attract i s)
  unfolding attract
  attract-Lit k n i s h ((t, b), size) =
      let (sun, e1) = IsGood-get s.world s.own.sun_ref b.sun in
      let (ref, e2) = get_elem?-some s.body_refs i (omega (arith, size)) in
      let good = t.good i ref e2 in
      let (body, e3) = IsGood-get s.world ref good in
      let (circle, e4) = get_elem?-some s.own.circles i (omega (arith, size, b.shows.circles)) in
      let (gd, e5) = get_elem?-some s.all_graphics_data i (omega (arith, size, b.shows.graphics)) in
      let (w, e6, (r, x, l)) = pull-IsReady k s.world ref s.own.sun_ref sun t.ready good in
      let new : GraphicsData = record gd {
        shape = circle_shape (Circle.translate circle body.position);
      } in
      let graphics = set s.all_graphics_data i new in
      let kept = length-set s.all_graphics_data i new in
      let moved : Sample StarSystem = record s { world = w } in
      (
        record s { world = w; all_graphics_data = graphics },
        rw (e1, e2, e3, e4, e5, e6) refl,
        (
          (
            recolor k moved graphics (restage k s w t r x) kept,
            record {
              shows = record {
                deaf = l ∙ b.shows.deaf;
                circles = b.shows.circles;
                graphics = omega (arith, kept, b.shows.graphics);
              };
              sun = x.good s.own.sun_ref b.sun;
            },
          ),
          size,
        ),
      )

  sample_update-Lit :
      (draws : Draws) (k : ℕ) (s : Sample StarSystem)
      → Lit k s
      → Yields (Lit k) (sample_update draws s)
  unfolding sample_update
  sample_update-Lit draws k s lit =
      let (sun, e) = IsGood-get s.world s.own.sun_ref lit.1.sun in
      let n = length s.body_refs in
      let (s', e', (lit', _)) =
        for_loop-Yields attract (λ _ x. Lit k x × (length x.body_refs ≡ n)) 0 n s
          (λ i x _ h p. attract-Lit k n i x (omega arith) p) (lit, refl) in
      (s', rw e e', lit')

  pub laws : IsSigned m → Laws hooks
  unfolding hooks tear_down sample_tear_down World.tear_down
  laws signs = record {
    IsIdle = IsDeaf;
    IsBusy = λ k. Shines;
    start = λ draws timer s down deaf.
        let (s', e, (t, b)) = sample_set_up-Lit signs draws timer s down deaf in (s', e, (0, t, b));
    frame = λ draws k s t b.
        let (s', e, (t', b')) = sample_update-Lit draws k s (t, b) in (s', e, (k, t', b'));
    hear = λ draws k timer s w t b t' keeps x.
        let (quiet, silent) = deaf-calls s w b.shows.deaf keeps in
        (
          record s { timer = timer; world = w },
          receive_all-nothing hooks draws _ _ (λ _ _ _. refl),
          (
            t',
            record {
              shows = record {
                deaf = quiet;
                circles = b.shows.circles;
                graphics = b.shows.graphics;
              };
              sun = x.good s.own.sun_ref b.sun;
            },
          ),
        );
    stop = λ k s t b. b.shows.deaf;
    same_world = λ s. refl;
    inputs = λ k s v left right b. record {
      shows = record {
        deaf = b.shows.deaf;
        circles = b.shows.circles;
        graphics = b.shows.graphics;
      };
      sun = b.sun;
    };
  }

  -- A new sample is idle.
  pub new_sample-IsIdle :
      (memory : Vector) (signs : IsSigned m) (own : StarSystem)
      → (laws signs).IsIdle (new_sample memory own)
  unfolding laws new_sample new_world
  new_sample-IsIdle memory signs own = refl

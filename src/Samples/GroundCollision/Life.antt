-- ===== src/Samples/GroundCollision/Life.antt =====
-- The life of the sample of samples/src/GroundCollisionSample.cpp.
use bark_direct_x.Prelude.{
  ℕ, suc, ◌<◌, refl, inl, inr, some, [], arith, length, get_elem?-some, Bool-cases, if_rule,
  if◌then◌else◌,
}
use bark_direct_x.Prelude.Outcome.{Outcome, ok, Yields}
use bark_direct_x.Math.{Math}
use bark_direct_x.Math.Laws.{IsSigned}
use bark_direct_x.Common.Random.{Draws}
use bark_direct_x.Physics.Body.{dynamic, apply_force}
use bark_direct_x.Physics.Collider.{Collider}
use bark_direct_x.Physics.World.{World, modify_body, set_contact_listener}
use bark_direct_x.Physics.World
use bark_direct_x.Physics.World.Triggers.{IsGood}
use bark_direct_x.Physics.World.Ready.{IsReady, Extends, Extends-refl}
use bark_direct_x.Physics.World.Ready.Changes.{Refers-get, modify_body-IsReady}
use bark_direct_x.Common.Timer.{Timer}
use bark_direct_x.Samples.{Sample, new_sample, default_data, init_size}
use bark_direct_x.Samples.Objects.{random_color}
use bark_direct_x.Samples.Staged.{IsStaged, restage, for_loop-Yields, add_unnamed-Adds}
use bark_direct_x.Samples.Laws.{Laws, IsDown, prepared, prepared-IsStaged}
use bark_direct_x.Samples.Staged.Drawing.{redraw-Yields, recolor}
use bark_direct_x.Samples.Laws.Listening.{receive_all-nothing}
use bark_direct_x.Samples.GroundCollision.{
  hooks, sample_set_up, ground_body, ground_collider, ball_collider, rect_collider, create_ball,
  create_rect, click, falls, speed, pull, sample_update,
}

module _ ⦃m : Math⦄ where
  open m use {Vector, zero_f, one_f, xm_braces}

  -- The force on an object that falls.
  force-IsReady :
      (k i : ℕ) (s : Sample Unit) (col : Collider)
      → IsStaged k s
      → IsGood s.world col.body_ref
      → Yields
          (λ w'. IsReady k w' × Extends s.world w')
          (if falls i col.shape
            then modify_body s.world col.body_ref
                (λ body. apply_force body (xm_braces zero_f speed))
            else ok s.world)
  force-IsReady k i s col t good = elim (Bool-cases (falls i col.shape)) [
    | inl down ↦
        let (w', e, r, x, _) =
          modify_body-IsReady k s.world col.body_ref
            (λ body. apply_force body (xm_braces zero_f speed)) t.ready good in
        (w', rw down e, (r, x))
    | inr still ↦ (s.world, rw still refl, (t.ready, Extends-refl s.world))
  ]

  pull-IsStaged :
      (k i : ℕ) (s : Sample Unit) → i < k → IsStaged k s → Yields (IsStaged k) (pull i s)
  unfolding pull
  pull-IsStaged k i s h t =
      let (ref, at) = get_elem?-some s.col_refs i (omega (arith, t.counted)) in
      let (col, found, _, live) = Refers-get k i s.world ref t.ready h (t.refers i ref at) in
      let (w', e, x) = force-IsReady k i s col t live.0 in
      let (graphics, e', size) =
        redraw-Yields col.shape col.body_position i s.all_graphics_data (omega (arith, t.drawn)) in
      let moved : Sample Unit = record s { world = w' } in
      (
        record s { world = w'; all_graphics_data = graphics },
        rw (at, found, e, e') refl,
        recolor k moved graphics (restage k s w' t x.0 x.1) size,
      )

  create_ball-IsStaged :
      (signs : IsSigned m) (k : ℕ) (s : Sample Unit) (draws : Draws) (v : Vector)
      → IsStaged k s
      → Yields (IsStaged (suc k)) (create_ball draws v s)
  unfolding create_ball
  create_ball-IsStaged signs k s draws v t =
      let (s', _, e, x) =
        add_unnamed-Adds signs (λ body. record body { mass = one_f; position = v })
          (ball_collider draws) (λ _. record default_data { color = random_color draws 1 })
          (λ body. record { owner = λ _. refl; attached = λ _. refl; drawn = λ _ _. tt }) k s t in
      (s', e, x.staged)

  create_rect-IsStaged :
      (signs : IsSigned m) (k : ℕ) (s : Sample Unit) (draws : Draws) (v : Vector)
      → IsStaged k s
      → Yields (IsStaged (suc k)) (create_rect draws v s)
  unfolding create_rect
  create_rect-IsStaged signs k s draws v t =
      let (s', _, e, x) =
        add_unnamed-Adds signs (λ body. record body { type = dynamic; position = v })
          (rect_collider draws) (λ _. record default_data { color = random_color draws 4 })
          (λ body. record { owner = λ _. refl; attached = λ _. refl; drawn = λ _ _. tt }) k s t in
      (s', e, x.staged)

  click-IsStaged :
      (signs : IsSigned m) (k : ℕ) (s : Sample Unit) (draws : Draws)
      → IsStaged k s
      → Yields (λ s'. (k' : ℕ) × IsStaged k' s') (click draws s)
  unfolding click
  click-IsStaged signs k s draws t =
      if_rule Result s.mouse_left_released (create_ball draws s.mouse_pos s)
        (if s.mouse_right_released then create_rect draws s.mouse_pos s else ok s)
        (λ _. more (create_ball-IsStaged signs k s draws s.mouse_pos t))
        (λ _.
          if_rule Result s.mouse_right_released (create_rect draws s.mouse_pos s) (ok s)
            (λ _. more (create_rect-IsStaged signs k s draws s.mouse_pos t))
            (λ _. (s, refl, (k, t))))
    where
      Result : Outcome (Sample Unit) → Type 0
      Result r = Yields (λ s'. (k' : ℕ) × IsStaged k' s') r

      more : {r : Outcome (Sample Unit)} → Yields (IsStaged (suc k)) r → Result r
      more (s', e, t') = (s', e, (suc k, t'))

  sample_update-IsStaged :
      (signs : IsSigned m) (k : ℕ) (s : Sample Unit) (draws : Draws)
      → IsStaged k s
      → Yields (λ s'. (k' : ℕ) × IsStaged k' s') (sample_update draws s)
  unfolding sample_update
  sample_update-IsStaged signs k s draws t =
      let (s1, e1, (k1, t1)) = click-IsStaged signs k s draws t in
      let (s2, e2, t2) =
        for_loop-Yields pull (λ _ x. IsStaged k1 x) 0 (length s1.col_refs) s1
          (λ i x _ h t'. pull-IsStaged k1 i x (omega (arith, t1.counted)) t') t1 in
      (s2, rw e1 e2, (k1, t2))

  sample_set_up-IsStaged :
      (signs : IsSigned m) (timer : Timer) (s : Sample Unit) (draws : Draws)
      → IsDown s
      → Yields (IsStaged 1) (sample_set_up draws (prepared timer s))
  unfolding sample_set_up
  sample_set_up-IsStaged signs timer s draws down =
      let listening : Sample Unit = record (prepared timer s) {
        world = set_contact_listener (World.set_up s.world init_size) (some []);
      } in
      let (s', _, e, x) =
        add_unnamed-Adds signs ground_body ground_collider (λ _. default_data)
          (λ body. record { owner = λ _. refl; attached = λ _. refl; drawn = λ _ _. tt }) 0
          listening (prepared-IsStaged timer s (some []) down (inr refl)) in
      (s', e, x.staged)

  pub laws : IsSigned m → Laws hooks
  unfolding hooks
  laws signs = record {
    IsIdle = λ s. Unit;
    IsBusy = λ k s. Unit;
    start = λ draws timer s down _.
        let (s', e, t) = sample_set_up-IsStaged signs timer s draws down in (s', e, (1, t, tt));
    frame = λ draws k s t _.
        let (s', e, (k', t')) = sample_update-IsStaged signs k s draws t in (s', e, (k', t', tt));
    hear = λ draws k timer s w t _ t' keeps x. (
      record s { timer = timer; world = w },
      receive_all-nothing hooks draws _ _ (λ _ _ _. refl),
      (t', tt),
    );
    stop = λ k s t _. tt;
    same_world = λ s. refl;
    inputs = λ k s v left right _. tt;
  }

  -- A new sample is idle.
  pub new_sample-IsIdle :
      (memory : Vector) (signs : IsSigned m) → (laws signs).IsIdle (new_sample memory tt)
  unfolding laws
  new_sample-IsIdle memory signs = tt

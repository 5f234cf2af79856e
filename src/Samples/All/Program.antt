-- ===== src/Samples/All/Program.antt =====
-- The sample manager of samples/src/SampleManager.cpp with its six samples.
use bark_direct_x.Prelude.{refl, All}
use bark_direct_x.Prelude.Outcome.{Outcome, ok, ◌>>=◌, Yields}
use bark_direct_x.Math.{Math}
use bark_direct_x.Math.Laws.{IsSigned}
use bark_direct_x.Samples.{Sample, Input}
use bark_direct_x.Samples.Laws.{functions_of, lifecycle_of, new_sample-IsDown}
use bark_direct_x.Samples.Manager.Lifecycle.{Lifecycle}
use bark_direct_x.Samples.Default.Life as DefaultLife
use bark_direct_x.Samples.StarSystem.Life as StarSystemLife
use bark_direct_x.Samples.FormsTrigger.Life as FormsTriggerLife
use bark_direct_x.Samples.Trigger.Life as TriggerLife
use bark_direct_x.Samples.BouncingCollision.Life as BouncingCollisionLife
use bark_direct_x.Samples.GroundCollision.Life as GroundCollisionLife
use bark_direct_x.Samples.Default
use bark_direct_x.Samples.StarSystem
use bark_direct_x.Samples.FormsTrigger
use bark_direct_x.Samples.Trigger
use bark_direct_x.Samples.BouncingCollision
use bark_direct_x.Samples.GroundCollision
use bark_direct_x.Samples.All.{
  AnySample, default_sample, star_system_sample, forms_trigger_sample, trigger_sample,
  bouncing_collision_sample, ground_collision_sample, dispatch, change, functions, made,
}

module _ ⦃m : Math⦄ (signs : IsSigned m) where
  open m use {Vector}

  abbrev life1 : Lifecycle (functions_of Default.hooks)
  life1 = lifecycle_of Default.hooks DefaultLife.laws

  abbrev life2 : Lifecycle (functions_of StarSystem.hooks)
  life2 = lifecycle_of StarSystem.hooks (StarSystemLife.laws signs)

  abbrev life3 : Lifecycle (functions_of FormsTrigger.hooks)
  life3 = lifecycle_of FormsTrigger.hooks (FormsTriggerLife.laws signs)

  abbrev life4 : Lifecycle (functions_of Trigger.hooks)
  life4 = lifecycle_of Trigger.hooks (TriggerLife.laws signs)

  abbrev life5 : Lifecycle (functions_of BouncingCollision.hooks)
  life5 = lifecycle_of BouncingCollision.hooks (BouncingCollisionLife.laws signs)

  abbrev life6 : Lifecycle (functions_of GroundCollision.hooks)
  life6 = lifecycle_of GroundCollision.hooks (GroundCollisionLife.laws signs)

  AnyDown : AnySample → Type 0
  AnyDown (default_sample s) = life1.IsDown s
  AnyDown (star_system_sample s) = life2.IsDown s
  AnyDown (forms_trigger_sample s) = life3.IsDown s
  AnyDown (trigger_sample s) = life4.IsDown s
  AnyDown (bouncing_collision_sample s) = life5.IsDown s
  AnyDown (ground_collision_sample s) = life6.IsDown s

  AnyUp : AnySample → Type 0
  AnyUp (default_sample s) = life1.IsUp s
  AnyUp (star_system_sample s) = life2.IsUp s
  AnyUp (forms_trigger_sample s) = life3.IsUp s
  AnyUp (trigger_sample s) = life4.IsUp s
  AnyUp (bouncing_collision_sample s) = life5.IsUp s
  AnyUp (ground_collision_sample s) = life6.IsUp s

  -- A call at a class of samples.
  any-Yields :
      {Own : Type 0} (any : Sample Own → AnySample) (P : Sample Own → Type 0)
      (r : Outcome (Sample Own))
      → ((s : Sample Own) → P s → AnyUp (any s))
      → Yields P r
      → Yields AnyUp (r >>= λ s'. ok (any s'))
  any-Yields any P r up (s', e, p) = (any s', rw e refl, up s' p)

  set_up-AnyUp :
      (input : Input) (s : AnySample) → AnyDown s → Yields AnyUp (functions.set_up input s)
  unfolding functions dispatch AnyUp AnyDown
  set_up-AnyUp input (default_sample s) down =
      any-Yields default_sample life1.IsUp _ (λ _ p. p) (life1.set_up input s down)
  set_up-AnyUp input (star_system_sample s) down =
      any-Yields star_system_sample life2.IsUp _ (λ _ p. p) (life2.set_up input s down)
  set_up-AnyUp input (forms_trigger_sample s) down =
      any-Yields forms_trigger_sample life3.IsUp _ (λ _ p. p) (life3.set_up input s down)
  set_up-AnyUp input (trigger_sample s) down =
      any-Yields trigger_sample life4.IsUp _ (λ _ p. p) (life4.set_up input s down)
  set_up-AnyUp input (bouncing_collision_sample s) down =
      any-Yields bouncing_collision_sample life5.IsUp _ (λ _ p. p) (life5.set_up input s down)
  set_up-AnyUp input (ground_collision_sample s) down =
      any-Yields ground_collision_sample life6.IsUp _ (λ _ p. p) (life6.set_up input s down)

  update-AnyUp : (input : Input) (s : AnySample) → AnyUp s → Yields AnyUp (functions.update input s)
  unfolding functions dispatch AnyUp
  update-AnyUp input (default_sample s) up =
      any-Yields default_sample life1.IsUp _ (λ _ p. p) (life1.update input s up)
  update-AnyUp input (star_system_sample s) up =
      any-Yields star_system_sample life2.IsUp _ (λ _ p. p) (life2.update input s up)
  update-AnyUp input (forms_trigger_sample s) up =
      any-Yields forms_trigger_sample life3.IsUp _ (λ _ p. p) (life3.update input s up)
  update-AnyUp input (trigger_sample s) up =
      any-Yields trigger_sample life4.IsUp _ (λ _ p. p) (life4.update input s up)
  update-AnyUp input (bouncing_collision_sample s) up =
      any-Yields bouncing_collision_sample life5.IsUp _ (λ _ p. p) (life5.update input s up)
  update-AnyUp input (ground_collision_sample s) up =
      any-Yields ground_collision_sample life6.IsUp _ (λ _ p. p) (life6.update input s up)

  tear_down-AnyDown : (s : AnySample) → AnyUp s → AnyDown (functions.tear_down s)
  unfolding functions change AnyUp AnyDown
  tear_down-AnyDown (default_sample s) up = life1.tear_down s up
  tear_down-AnyDown (star_system_sample s) up = life2.tear_down s up
  tear_down-AnyDown (forms_trigger_sample s) up = life3.tear_down s up
  tear_down-AnyDown (trigger_sample s) up = life4.tear_down s up
  tear_down-AnyDown (bouncing_collision_sample s) up = life5.tear_down s up
  tear_down-AnyDown (ground_collision_sample s) up = life6.tear_down s up

  mouse-AnyUp : (v : Vector) (s : AnySample) → AnyUp s → AnyUp (functions.get_mouse_pos v s)
  unfolding functions change AnyUp
  mouse-AnyUp v (default_sample s) up = life1.get_mouse_pos v s up
  mouse-AnyUp v (star_system_sample s) up = life2.get_mouse_pos v s up
  mouse-AnyUp v (forms_trigger_sample s) up = life3.get_mouse_pos v s up
  mouse-AnyUp v (trigger_sample s) up = life4.get_mouse_pos v s up
  mouse-AnyUp v (bouncing_collision_sample s) up = life5.get_mouse_pos v s up
  mouse-AnyUp v (ground_collision_sample s) up = life6.get_mouse_pos v s up

  left-AnyUp : (s : AnySample) → AnyUp s → AnyUp (functions.on_left_click s)
  unfolding functions change AnyUp
  left-AnyUp (default_sample s) up = life1.on_left_click s up
  left-AnyUp (star_system_sample s) up = life2.on_left_click s up
  left-AnyUp (forms_trigger_sample s) up = life3.on_left_click s up
  left-AnyUp (trigger_sample s) up = life4.on_left_click s up
  left-AnyUp (bouncing_collision_sample s) up = life5.on_left_click s up
  left-AnyUp (ground_collision_sample s) up = life6.on_left_click s up

  right-AnyUp : (s : AnySample) → AnyUp s → AnyUp (functions.on_right_click s)
  unfolding functions change AnyUp
  right-AnyUp (default_sample s) up = life1.on_right_click s up
  right-AnyUp (star_system_sample s) up = life2.on_right_click s up
  right-AnyUp (forms_trigger_sample s) up = life3.on_right_click s up
  right-AnyUp (trigger_sample s) up = life4.on_right_click s up
  right-AnyUp (bouncing_collision_sample s) up = life5.on_right_click s up
  right-AnyUp (ground_collision_sample s) up = life6.on_right_click s up

  pub life : Lifecycle functions
  life = record {
    IsDown = AnyDown;
    IsUp = AnyUp;
    set_up = set_up-AnyUp;
    update = update-AnyUp;
    tear_down = tear_down-AnyDown;
    get_mouse_pos = mouse-AnyUp;
    on_left_click = left-AnyUp;
    on_right_click = right-AnyUp;
  }

  pub made-AllDown : (memory : Vector) → All life.IsDown (made memory)
  unfolding made AnyDown life
  made-AllDown memory = (
    new_sample-IsDown Default.hooks DefaultLife.laws memory tt
        (DefaultLife.new_sample-IsIdle memory),
    (
      new_sample-IsDown StarSystem.hooks (StarSystemLife.laws signs) memory _
          (StarSystemLife.new_sample-IsIdle memory signs _),
      (
        new_sample-IsDown FormsTrigger.hooks (FormsTriggerLife.laws signs) memory _
            (FormsTriggerLife.new_sample-IsIdle memory signs _ refl),
        (
          new_sample-IsDown Trigger.hooks (TriggerLife.laws signs) memory _
              (TriggerLife.new_sample-IsIdle memory signs _ refl),
          (
            new_sample-IsDown BouncingCollision.hooks (BouncingCollisionLife.laws signs) memory _
                (BouncingCollisionLife.new_sample-IsIdle memory signs _),
            (
              new_sample-IsDown GroundCollision.hooks (GroundCollisionLife.laws signs) memory tt
                  (GroundCollisionLife.new_sample-IsIdle memory signs),
              tt,
            ),
          ),
        ),
      ),
    ),
  )

-- ===== src/Samples/Laws.antt =====
-- `SetUp`, `Update` and `TearDown` of samples/src/Sample.cpp over virtual functions that keep what
-- they are meant to: the life of a sample, as the sample manager relies on it.
pub mod Listening
use bark_direct_x.Prelude.{
  ℕ, ◌≡◌, refl, sym, ap, subst, Bool, true, false, Option, some, List, [], arith, length, get_elem?,
}
use bark_direct_x.Prelude.Outcome.{ok, Yields}
use bark_direct_x.Math.{Math}
use bark_direct_x.Common.Random.{Draws}
use bark_direct_x.Common.Timer.{Timer}
use bark_direct_x.Common.Timer
use bark_direct_x.Physics.World.{World, Event, set_contact_listener, new_world}
use bark_direct_x.Physics.World
use bark_direct_x.Physics.World.Frames.{KeepsBodies}
use bark_direct_x.Physics.World.Ready.{
  IsReady, IsClear, new_world-IsClear, IsSilent, Extends, set_up-IsReady, step-IsReady,
  tear_down-IsClear,
}
use bark_direct_x.Samples.{
  Sample, Hooks, Input, init_size, new_calls, receive_all, set_up, advance, update, tear_down,
  get_mouse_pos, on_left_click, on_right_click, new_sample,
}
use bark_direct_x.Samples.Staged.{IsStaged, restage}
use bark_direct_x.Samples.Manager.{SampleFunctions}
use bark_direct_x.Samples.Manager.Lifecycle.{Lifecycle}

module _ ⦃m : Math⦄ where
  open m use {Vector}

  module _ {Own : Type 0} where
    -- A sample before `SetUp`.
    pub record IsDown (s : Sample Own) : Type 0 where
      pub clear : IsClear s.world
      pub no_bodies : s.body_refs ≡ []
      pub no_cols : s.col_refs ≡ []
      pub no_graphics : s.all_graphics_data ≡ []

    -- The sample that `SampleSetUp` gets.
    abbrev pub prepared : Timer → Sample Own → Sample Own
    prepared timer s = record s { timer = timer; world = World.set_up s.world init_size }

    -- It is staged, when its listener is new or there is none.
    pub prepared-IsStaged :
        (timer : Timer) (s : Sample Own) (listener : Option (List Event))
        → IsDown s
        → IsSilent listener
        → IsStaged 0 (record (prepared timer s) {
          world = set_contact_listener (World.set_up s.world init_size) listener;
        })
    prepared-IsStaged timer s listener d quiet = record {
      ready = set_up-IsReady init_size s.world listener (omega arith) d.clear quiet;
      counted = ap length d.no_cols;
      refers = λ n ref at. absurd (ground (arith, at, ap (λ refs. get_elem? refs n) d.no_cols));
      good = λ n ref at. absurd (ground (arith, at, ap (λ refs. get_elem? refs n) d.no_bodies));
      drawn = omega arith;
    }

    abbrev with_mouse : Vector → Bool → Bool → Sample Own → Sample Own
    with_mouse v left right s = record s {
      mouse_pos = v;
      mouse_left_released = left;
      mouse_right_released = right;
    }

    abbrev with_world : Timer → World → Sample Own → Sample Own
    with_world timer w s = record s { timer = timer; world = w }

  -- What the virtual functions promise of the members of their class.
  pub record Laws {Own : Type 0} (hooks : Hooks Own) : Type 1 where
    pub IsIdle : Sample Own → Type 0
    pub IsBusy : ℕ → Sample Own → Type 0
    pub start :
        (draws : Draws) (timer : Timer) (s : Sample Own)
        → IsDown s
        → IsIdle s
        → Yields
            (λ s'. (k : ℕ) × IsStaged k s' × IsBusy k s')
            (hooks.sample_set_up draws (prepared timer s))
    pub frame :
        (draws : Draws) (k : ℕ) (s : Sample Own)
        → IsStaged k s
        → IsBusy k s
        → Yields (λ s'. (k' : ℕ) × IsStaged k' s' × IsBusy k' s') (hooks.sample_update draws s)
    pub hear :
        (draws : Draws) (k : ℕ) (timer : Timer) (s : Sample Own) (w : World)
        → IsStaged k s
        → IsBusy k s
        → IsStaged k (with_world timer w s)
        → KeepsBodies s.world w
        → Extends s.world w
        → Yields
            (λ s'. IsStaged k s' × IsBusy k s')
            (receive_all hooks draws
              (new_calls s.world.contact_listener w.contact_listener)
              (with_world timer w s))
    pub stop : (k : ℕ) (s : Sample Own) → IsStaged k s → IsBusy k s → IsIdle (tear_down hooks s)
    pub same_world : (s : Sample Own) → (hooks.sample_tear_down s).world ≡ s.world
    pub inputs :
        (k : ℕ) (s : Sample Own) (v : Vector) (left right : Bool)
        → IsBusy k s
        → IsBusy k (with_mouse v left right s)

  -- The public functions of a sample.
  unfoldable pub functions_of : {Own : Type 0} → Hooks Own → SampleFunctions (Sample Own)
  functions_of hooks = record {
    set_up = set_up hooks;
    update = update hooks;
    tear_down = tear_down hooks;
    get_mouse_pos = get_mouse_pos;
    on_left_click = on_left_click;
    on_right_click = on_right_click;
    graphics = λ s. s.all_graphics_data;
  }

  module _ {Own : Type 0} (hooks : Hooks Own) (laws : Laws hooks) where
    open laws use {IsIdle, IsBusy}

    abbrev pub IsRunning : Sample Own → Type 0
    IsRunning s = (k : ℕ) × IsStaged k s × IsBusy k s

    abbrev pub IsResting : Sample Own → Type 0
    IsResting s = IsDown s × IsIdle s

    mouse-IsStaged :
        (k : ℕ) (s : Sample Own) (v : Vector) (left right : Bool)
        → IsStaged k s
        → IsStaged k (with_mouse v left right s)
    mouse-IsStaged k s v left right t = record {
      ready = t.ready;
      counted = t.counted;
      refers = t.refers;
      good = t.good;
      drawn = t.drawn;
    }

    timer-IsStaged :
        (k : ℕ) (s : Sample Own) (timer : Timer) (w : World)
        → IsStaged k (record s { world = w })
        → IsStaged k (with_world timer w s)
    timer-IsStaged k s timer w t = record {
      ready = t.ready;
      counted = t.counted;
      refers = t.refers;
      good = t.good;
      drawn = t.drawn;
    }

    mouse-IsRunning :
        (s : Sample Own) (v : Vector) (left right : Bool)
        → IsRunning s
        → IsRunning (with_mouse v left right s)
    mouse-IsRunning s v left right (k, t, b) =
        (k, mouse-IsStaged k s v left right t, laws.inputs k s v left right b)

    pub set_up-IsRunning :
        (input : Input) (s : Sample Own) → IsResting s → Yields IsRunning (set_up hooks input s)
    unfolding set_up
    set_up-IsRunning input s (down, idle) =
        let (s', e, up) = laws.start input.draws (Timer.set_up input.now s.timer) s down idle in
        (s', rw e refl, up)

    advance-IsRunning :
        (input : Input) (s : Sample Own) → IsRunning s → Yields IsRunning (advance hooks input s)
    unfolding advance
    advance-IsRunning input s (k, t, b) =
        let timer = Timer.tick input.seconds input.now s.timer in
        let (w, e, ready, keeps, x) = step-IsReady timer.delta_time k s.world t.ready in
        let (s', e', (t', b')) =
          laws.hear input.draws k timer s w t b
            (timer-IsStaged k s timer w (restage k s w t ready x)) keeps x in
        (s', rw e e', (k, t', b'))

    pub update-IsRunning :
        (input : Input) (s : Sample Own) → IsRunning s → Yields IsRunning (update hooks input s)
    unfolding update
    update-IsRunning input s (k, t, b) =
        let (s1, e1, up1) = laws.frame input.draws k s t b in
        let (s2, e2, up2) = advance-IsRunning input s1 up1 in
        (
          with_mouse s2.mouse_pos false false s2,
          rw (e1, e2) refl,
          mouse-IsRunning s2 s2.mouse_pos false false up2,
        )

    tear_down-IsResting : (s : Sample Own) → IsRunning s → IsResting (tear_down hooks s)
    unfolding tear_down World.tear_down
    tear_down-IsResting s (k, t, b) = (
      record {
        clear =
            subst (λ w. IsClear (World.tear_down w)) (sym (laws.same_world s))
              (tear_down-IsClear k s.world t.ready);
        no_bodies = refl;
        no_cols = refl;
        no_graphics = refl;
      },
      laws.stop k s t b,
    )

    -- The life of a sample whose virtual functions keep their promises.
    pub lifecycle_of : Lifecycle (functions_of hooks)
    unfolding functions_of get_mouse_pos on_left_click on_right_click
    lifecycle_of = record {
      IsDown = IsResting;
      IsUp = IsRunning;
      set_up = set_up-IsRunning;
      update = update-IsRunning;
      tear_down = tear_down-IsResting;
      get_mouse_pos = λ v s up. mouse-IsRunning s v s.mouse_left_released s.mouse_right_released up;
      on_left_click = λ s up. mouse-IsRunning s s.mouse_pos true s.mouse_right_released up;
      on_right_click = λ s up. mouse-IsRunning s s.mouse_pos s.mouse_left_released true up;
    }

    -- A sample that has not been set up is down.
    pub new_sample-IsDown :
        (memory : Vector) (own : Own)
        → IsIdle (new_sample memory own)
        → lifecycle_of.IsDown (new_sample memory own)
    unfolding lifecycle_of new_sample
    new_sample-IsDown memory own idle = (
      record { clear = new_world-IsClear; no_bodies = refl; no_cols = refl; no_graphics = refl },
      idle,
    )

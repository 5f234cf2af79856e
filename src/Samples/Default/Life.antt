-- ===== src/Samples/Default/Life.antt =====
-- The life of the sample of samples/include/DefaultSample.h.
use bark_direct_x.Prelude.{refl}
use bark_direct_x.Math.{Math}
use bark_direct_x.Physics.World.{new_world}
use bark_direct_x.Samples.{new_sample, tear_down}
use bark_direct_x.Samples.Laws.{Laws}
use bark_direct_x.Samples.Laws.Listening.{IsDeaf, deaf-IsStaged, deaf-calls, receive_all-nothing}
use bark_direct_x.Physics.World
use bark_direct_x.Samples.Default.{hooks}

module _ ⦃m : Math⦄ where
  open m use {Vector}

  pub laws : Laws hooks
  unfolding hooks tear_down World.tear_down World.set_up
  laws = record {
    IsIdle = IsDeaf;
    IsBusy = λ k s. IsDeaf s;
    start = λ draws timer s down deaf. (_, refl, (0, deaf-IsStaged timer s down deaf, deaf));
    frame = λ draws k s t deaf. (s, refl, (k, t, deaf));
    hear = λ draws k timer s w t deaf t' keeps x. (
      record s { timer = timer; world = w },
      receive_all-nothing hooks draws _ _ (λ _ _ _. refl),
      (t', (deaf-calls s w deaf keeps).0),
    );
    stop = λ k s t deaf. deaf;
    same_world = λ s. refl;
    inputs = λ k s v left right deaf. deaf;
  }

  -- A new sample is idle.
  pub new_sample-IsIdle : (memory : Vector) → laws.IsIdle (new_sample memory tt)
  unfolding laws new_sample new_world
  new_sample-IsIdle memory = refl

-- ===== src/Samples/Default.antt =====
-- samples/include/DefaultSample.h.
pub mod Life
use bark_direct_x.Prelude.Outcome.{ok}
use bark_direct_x.Math.{Math}
use bark_direct_x.Samples.{Hooks}

module _ ⦃m : Math⦄ where
  unfoldable pub hooks : Hooks Unit
  hooks = record {
    sample_set_up = λ draws s. ok s;
    sample_update = λ draws s. ok s;
    sample_tear_down = λ s. s;
    receive = λ draws k event s. ok s;
  }

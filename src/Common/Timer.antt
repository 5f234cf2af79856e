-- ===== src/Common/Timer.antt =====
-- Common/include/Timer.h and Common/src/Timer.cpp. The clock is not part of the repository: what
-- `high_resolution_clock::now()` returns is an argument, and the conversion of a difference of time
-- points to seconds is a parameter.
use bark_direct_x.Prelude.Integers.{ℤ, pos, ◌-ℤ◌}
use bark_direct_x.Math.{Math}

module _ ⦃m : Math⦄ where
  open m use {Float, zero_f}

  pub record Timer : Type 0 where
    pub start_time : ℤ
    pub delta_time : Float

  -- `Timer()`.
  abbrev pub new_timer : Timer
  new_timer = record { start_time = pos 0; delta_time = zero_f }

  unfoldable pub set_up : ℤ → Timer → Timer
  set_up now timer = record timer { start_time = now }

  unfoldable pub tick : (ℤ → Float) → ℤ → Timer → Timer
  tick seconds now timer = record {
    start_time = now;
    delta_time = seconds (now -ℤ timer.start_time);
  }

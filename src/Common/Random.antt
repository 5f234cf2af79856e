-- ===== src/Common/Random.antt =====
-- Common/include/Random.h. The random device and the distributions are not part of the repository:
-- `real k min max` and `integer k min max` are what the `k`-th distribution of a call returns.
use bark_direct_x.Prelude.{ℕ, if◌then◌else◌}
use bark_direct_x.Prelude.Integers.{ℤ, lt_ℤ}
use bark_direct_x.Math.{Math}

module _ ⦃m : Math⦄ where
  open m use {Float, lt, le}

  pub record Draws : Type 0 where
    pub real : ℕ → Float → Float → Float
    pub integer : ℕ → ℤ → ℤ → ℤ

  -- `Range(float, float)`.
  unfoldable pub range : Draws → ℕ → Float → Float → Float
  range draws k min max = if lt max min then draws.real k max min else draws.real k min max

  -- `Range(int, int)`.
  unfoldable pub int_range : Draws → ℕ → ℤ → ℤ → ℤ
  int_range draws k min max =
      if lt_ℤ max min then draws.integer k max min else draws.integer k min max

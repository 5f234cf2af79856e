-- ===== src/Common/Utility.antt =====
-- Common/include/Utility.h: the templates at `T = float`, and `Pow` at the integers that the
-- quadtree computes its size with.
use bark_direct_x.Prelude.{ℕ, zero, suc, ◌*◌, ◌≡◌, true, arith, ◌==◌, if◌then◌else◌}
use bark_direct_x.Math.{Math}
use bark_direct_x.Math.Laws.{IsNumber, IsOrdered}

module _ ⦃m : Math⦄ where
  open m use {Float, lt, neg, zero_f, le}

  -- The part of `Clamp` below its exchange of the bounds.
  clamp_between : Float → Float → Float → Float
  clamp_between x min max = if lt x min then min else if lt max x then max else x

  unfoldable pub clamp : Float → Float → Float → Float
  unfolding clamp_between
  clamp x min max = if lt max min then clamp_between x max min else clamp_between x min max

  unfoldable pub abs : Float → Float
  abs nbr = if lt nbr zero_f then neg nbr else nbr

  unfoldable pub min : Float → Float → Float
  min x y = if lt x y then x else y

  unfoldable pub max : Float → Float → Float
  max x y = if lt y x then x else y

  module _ (laws : IsOrdered m) where
    open laws use {le_trans, lt_not_le, not_lt_le}

    clamp_between_range :
        (x lo hi : Float)
        → IsNumber x
        → IsNumber lo
        → IsNumber hi
        → le lo hi ≡ true
        → (le lo (clamp_between x lo hi) ≡ true) × (le (clamp_between x lo hi) hi ≡ true)
    unfolding clamp_between
    clamp_between_range x lo hi hx hlo hhi h =
        ground (arith, lt_not_le x lo, lt_not_le hi x, not_lt_le x lo hx hlo, not_lt_le hi x hhi hx)

    clamp_between-inside :
        (x lo hi : Float) → le lo x ≡ true → le x hi ≡ true → clamp_between x lo hi ≡ x
    unfolding clamp_between
    clamp_between-inside x lo hi h k = ground (arith, lt_not_le x lo, lt_not_le hi x)

    clamp_cases :
        (x a b : Float)
        → IsNumber x
        → IsNumber a
        → IsNumber b
        → (le a b ≡ true → (le a (clamp x a b) ≡ true) × (le (clamp x a b) b ≡ true))
          × (le b a ≡ true → (le b (clamp x a b) ≡ true) × (le (clamp x a b) a ≡ true))
          × ((le a x ≡ true) × (le x b ≡ true) → clamp x a b ≡ x)
    unfolding clamp
    clamp_cases x a b hx ha hb = ground (
      arith,
      clamp_between_range x a b hx ha hb,
      clamp_between_range x b a hx hb ha,
      clamp_between-inside x a b,
      clamp_between-inside x b a,
      lt_not_le b a,
      not_lt_le b a hb ha,
      le_trans a x b,
      le_trans b a x,
      le_trans x b a,
    )

    -- Where numbers are ordered, `Clamp` of numbers returns a value within the two bounds, whichever
    -- of them is given first.
    pub clamp_range :
        (x low high : Float)
        → IsNumber x
        → IsNumber low
        → IsNumber high
        → le low high ≡ true
        → (le low (clamp x low high) ≡ true)
          × (le (clamp x low high) high ≡ true)
          × (le low (clamp x high low) ≡ true)
          × (le (clamp x high low) high ≡ true)
    clamp_range x low high hx hl hh ordered =
        let (direct, _, _) = clamp_cases x low high hx hl hh in
        let (_, exchanged, _) = clamp_cases x high low hx hh hl in
        let (a, b) = direct ordered in let (c, d) = exchanged ordered in (a, b, c, d)

    -- Where numbers are ordered, `Clamp` returns its argument unchanged if that lies within the two
    -- bounds, whichever of them is given first.
    pub clamp-inside :
        (x low high : Float)
        → IsNumber x
        → IsNumber low
        → IsNumber high
        → le low x ≡ true
        → le x high ≡ true
        → (clamp x low high ≡ x) × (clamp x high low ≡ x)
    unfolding clamp
    clamp-inside x low high hx hl hh above below =
        let (_, _, inside) = clamp_cases x low high hx hl hh in
        (
          inside (above, below),
          ground (
            arith,
            above,
            below,
            lt_not_le x low,
            lt_not_le high x,
            lt_not_le x high,
            lt_not_le low x,
            not_lt_le low high hl hh,
            le_trans high low x,
            le_trans x high low,
          ),
        )

-- `for (int i = 1; i <= power; i++) result *= x;` with the rounds that are left.
pow_loop : ℕ → ℕ → ℕ → ℕ
pow_loop x zero result = result
pow_loop x (suc left) result = pow_loop x left (result * x)

unfoldable pub pow : ℕ → ℕ → ℕ
unfolding pow_loop
pow x power = if x == 0 then 0 else pow_loop x power 1

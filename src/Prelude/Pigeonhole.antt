-- ===== src/Prelude/Pigeonhole.antt =====
-- Numbers without repetition below a bound are no more than the bound.
use Prim.Native.Nat.{ℕ, zero, suc, ◌≤◌, ◌<◌}
use mathlib.Core.Path.{sym, subst}
use mathlib.Core.Logic.{◌≢◌}
use mathlib.Core.List.{List, [], ◌∷◌}
use native.Mathlib.Decide.{ℕ_discrete}
use native.Mathlib.Omega.{arith}
use bark_direct_x.Prelude.Vectors.{length, All}

abbrev pub IsAbsent : ℕ → List ℕ → Type 0
IsAbsent x xs = All (λ y. x ≢ y) xs

abbrev pub NoRepeat : List ℕ → Type 0
NoRepeat [] = Unit
NoRepeat (x ∷ xs) = IsAbsent x xs × NoRepeat xs

-- The list without `n`, where that does not repeat.
record Without (n : ℕ) (xs : List ℕ) : Type 0 where
  rest : List ℕ
  distinct : NoRepeat rest
  below : All (λ y. y < n) rest
  keeps : (x : ℕ) → IsAbsent x xs → IsAbsent x rest
  size : length xs ≤ suc (length rest)

lower : (n : ℕ) (xs : List ℕ) → IsAbsent n xs → All (λ y. y < suc n) xs → All (λ y. y < n) xs
lower n [] absent below = tt
lower n (x ∷ xs) (ne, absent) (h, below) = (strict, lower n xs absent below)
  where
    strict : x < n
    strict = omega (arith, ne, h)

without : (n : ℕ) (xs : List ℕ) → NoRepeat xs → All (λ y. y < suc n) xs → Without n xs
without n [] distinct below = record {
  rest = [];
  distinct = tt;
  below = tt;
  keeps = λ x h. tt;
  size = omega arith;
}
without n (x ∷ xs) (absent, distinct) (h, below) = elim (ℕ_discrete n x) [
  | yes e ↦ record {
    rest = xs;
    distinct = distinct;
    below = lower n xs (subst (λ k. IsAbsent k xs) (sym e) absent) below;
    keeps = λ y h. h.1;
    size = omega arith;
  }
  | no ne ↦
      let w = without n xs distinct below in
      record {
        rest = x ∷ w.rest;
        distinct = (w.keeps x absent, w.distinct);
        below = (omega (arith, ne, h), w.below);
        keeps = λ y h. (h.0, w.keeps y h.1);
        size = omega (arith, w.size);
      }
]

pub pigeonhole : (n : ℕ) (xs : List ℕ) → NoRepeat xs → All (λ y. y < n) xs → length xs ≤ n
pigeonhole n [] distinct below = omega arith
pigeonhole zero (x ∷ xs) distinct (h, below) = absurd (omega arith)
pigeonhole (suc n) (x ∷ xs) distinct below =
    let w = without n (x ∷ xs) distinct below in
    omega (arith, w.size, pigeonhole n w.rest w.distinct w.below)

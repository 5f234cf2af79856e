-- ===== src/Samples/Counters.antt =====
-- The counters of TriggerSample and FormsTriggerSample of samples/src: a counter for each collider,
-- the number of triggers that it is in.
pub mod Pairs
pub mod Bound
pub mod Handlers
pub mod Frames
use bark_direct_x.Prelude.{
  ℕ, ◌+◌, ◌<◌, ◌≡◌, List, [], ◌∷◌, some, length, get_elem?, ◌==◌, if◌then◌else◌,
}
use bark_direct_x.Prelude.Integers.{ℤ, pos}
use bark_direct_x.Physics.Refs.{ColliderRef, ColliderRefPair}

-- 1 if `i` is `j`, else 0.
abbrev pub hit : ℕ → ℕ → ℕ
hit i j = if i == j then 1 else 0

-- How often the pairs hold collider `i`.
unfoldable pub count : ℕ → List ColliderRefPair → ℕ
count i [] = 0
count i (p ∷ ps) = hit p.col_ref_b.index i + (hit p.col_ref_a.index i + count i ps)

-- There are `n` counters, and they have the values of `f`.
pub record Holds (counters : List ℤ) (n : ℕ) (f : ℕ → ℕ) : Type 0 where
  pub sized : length counters ≡ n
  pub each : (i : ℕ) → i < n → get_elem? counters i ≡ some (pos (f i))

-- The counters of `n` colliders count the pairs.
abbrev pub Counts : List ℤ → ℕ → List ColliderRefPair → Type 0
Counts counters n pairs = Holds counters n (λ i. count i pairs)

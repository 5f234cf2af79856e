-- ===== src/Samples/Counters/Handlers.antt =====
-- `OnTriggerEnter` and `OnTriggerExit` of samples/src/TriggerSample.cpp and FormsTriggerSample.cpp.
use bark_direct_x.Prelude.{
  ℕ, suc, ◌+◌, ◌*◌, ◌≤◌, ◌<◌, ◌≡◌, ◌≢◌, refl, sym, ap, ◌∙◌, some, List, [], ◌∷◌, arith, All,
  get_elem?, get_elem?-some, set, length-set, get_elem?-set_self, get_elem?-set_ne, replicate,
  length-replicate,
}
use native.Mathlib.Decide.{ℕ_discrete}
use bark_direct_x.Prelude.Integers.{ℤ, pos}
use bark_direct_x.Prelude.Outcome.{Yields}
use bark_direct_x.Physics.Refs.{ColliderRef}
use bark_direct_x.Physics.World.{
  Event, on_trigger_enter, on_trigger_exit, on_collision_enter, on_collision_exit,
}
use bark_direct_x.Physics.World.Collisions.{erase, pair_of}
use bark_direct_x.Physics.World.Protocol.{open_pairs, Alternates}
use bark_direct_x.Physics.World.Operations.{replicate-get}
use bark_direct_x.Samples.Objects.{int_max, increment, decrement, count_at, count_pair, count_call}
use bark_direct_x.Samples.Counters.{hit, count, Holds, Counts}
use bark_direct_x.Samples.Counters.Pairs.{
  EventSettled, open_pairs-AreDistinct, open_pairs-Settled, count-erase,
}
use bark_direct_x.Samples.Counters.Bound.{count-bound}

-- One counter changes.
set-Holds :
    (cs : List ℤ) (n i v : ℕ) (f g : ℕ → ℕ)
    → Holds cs n f
    → i < n
    → g i ≡ v
    → ((j : ℕ) → i ≢ j → g j ≡ f j)
    → Holds (set cs i (pos v)) n g
set-Holds cs n i v f g h low here others = record {
  sized = length-set cs i (pos v) ∙ h.sized;
  each = λ j l. elim (ℕ_discrete i j) [
    | yes e ↦
        ap (get_elem? (set cs i (pos v))) (sym e)
        ∙ get_elem?-set_self cs i (pos v) (omega (arith, h.sized))
        ∙ ap (λ x. some (pos x)) (sym here ∙ ap g e)
    | no ne ↦
        get_elem?-set_ne cs i j (pos v) ne ∙ h.each j l ∙ ap (λ x. some (pos x)) (sym (others j ne))
  ];
}

increment-Holds :
    (cs : List ℤ) (n i : ℕ) (f : ℕ → ℕ)
    → Holds cs n f
    → i < n
    → f i < int_max
    → Yields (λ cs'. Holds cs' n (λ j. hit i j + f j)) (count_at increment cs i)
unfolding count_at increment
increment-Holds cs n i f h low small = (
  set cs i (pos (f i + 1)),
  rw (h.each i low) (ground arith),
  set-Holds cs n i (f i + 1) f (λ j. hit i j + f j) h low (ground arith)
      (λ j ne. ground (arith, ne)),
)

decrement-Holds :
    (cs : List ℤ) (n i : ℕ) (f : ℕ → ℕ)
    → Holds cs n (λ j. hit i j + f j)
    → i < n
    → Yields (λ cs'. Holds cs' n f) (count_at decrement cs i)
unfolding count_at decrement
decrement-Holds cs n i f h low =
    let more : get_elem? cs i ≡ some (pos (suc (f i))) =
      h.each i low ∙ ap (λ x. some (pos x)) (ground arith) in
    (
      set cs i (pos (f i)),
      rw more (ground arith),
      set-Holds cs n i (f i) (λ j. hit i j + f j) f h low refl (λ j ne. ground (arith, ne)),
    )

-- What the counters rely on in a log of the listener's calls.
abbrev pub IsOrderly : ℕ → List ℕ → List Event → Type 0
IsOrderly n gens log = Alternates log × All (EventSettled n gens) log

pub IsOrderly-rest :
    (n : ℕ) (gens : List ℕ) (event : Event) (log : List Event)
    → IsOrderly n gens (event ∷ log)
    → IsOrderly n gens log
unfolding Alternates
IsOrderly-rest n gens (on_trigger_enter a b) log ((_, h), (_, hs)) = (h, hs)
IsOrderly-rest n gens (on_trigger_exit a b) log ((_, h), (_, hs)) = (h, hs)
IsOrderly-rest n gens (on_collision_enter a b) log (h, (_, hs)) = (h, hs)
IsOrderly-rest n gens (on_collision_exit a b) log (h, (_, hs)) = (h, hs)

module _ (n : ℕ) (gens : List ℕ) (room : 2 * n + 1 < int_max) where
  small : (i : ℕ) (log : List Event) → IsOrderly n gens log → count i (open_pairs log) ≤ 2 * n
  small i log (h, hs) =
      count-bound n gens i (open_pairs log) (open_pairs-AreDistinct log h)
        (open_pairs-Settled n gens log hs)

  pub enter-Counts :
      (cs : List ℤ) (a b : ColliderRef) (log : List Event)
      → IsOrderly n gens (on_trigger_enter a b ∷ log)
      → Counts cs n (open_pairs log)
      → Yields
          (λ cs'. Counts cs' n (open_pairs (on_trigger_enter a b ∷ log)))
          (count_pair increment cs a b)
  unfolding count_pair open_pairs count
  enter-Counts cs a b log orderly counts =
      let rest = IsOrderly-rest n gens (on_trigger_enter a b) log orderly in
      let (sa, sb) = orderly.1.0 in
      let (cs1, e1, h1) =
        increment-Holds cs n a.index (λ i. count i (open_pairs log)) counts sa.0
          (omega (arith, small a.index log rest, room)) in
      let (cs2, e2, h2) =
        increment-Holds cs1 n b.index (λ i. hit a.index i + count i (open_pairs log)) h1 sb.0
          (ground (arith, small b.index log rest, room)) in
      (cs2, rw e1 e2, h2)

  pub exit-Counts :
      (cs : List ℤ) (a b : ColliderRef) (log : List Event)
      → IsOrderly n gens (on_trigger_exit a b ∷ log)
      → Counts cs n (open_pairs log)
      → Yields
          (λ cs'. Counts cs' n (open_pairs (on_trigger_exit a b ∷ log)))
          (count_pair decrement cs a b)
  unfolding count_pair open_pairs Alternates
  exit-Counts cs a b log orderly counts =
      let ((inside, alternates), _) = orderly in
      let (sa, sb) = orderly.1.0 in
      let left = erase (pair_of a b) (open_pairs log) in
      let split : (i : ℕ)
          → count i (open_pairs log) ≡ hit a.index i + (hit b.index i + count i left) =
        λ i. omega (
          arith,
          count-erase i (pair_of a b) (open_pairs log) (open_pairs-AreDistinct log alternates)
              inside,
        ) in
      let before : Holds cs n (λ i. hit a.index i + (hit b.index i + count i left)) = record {
        sized = counts.sized;
        each = λ i l. counts.each i l ∙ ap (λ v. some (pos v)) (split i);
      } in
      let (cs1, e1, h1) =
        decrement-Holds cs n a.index (λ i. hit b.index i + count i left) before sa.0 in
      let (cs2, e2, h2) = decrement-Holds cs1 n b.index (λ i. count i left) h1 sb.0 in
      (cs2, rw e1 e2, h2)

-- No pair, and as many counters as there are colliders.
pub zeros-Counts : (n : ℕ) → Counts (replicate n (pos 0)) n []
unfolding count
zeros-Counts n = record { sized = length-replicate n (pos 0); each = λ i h. zero_at n i h }
  where
    zero_at : (n i : ℕ) → i < n → get_elem? (replicate n (pos 0)) i ≡ some (pos 0)
    zero_at n i h =
        let (v, e) =
          get_elem?-some (replicate n (pos 0)) i (omega (arith, length-replicate n (pos 0))) in
        e ∙ ap some (sym (replicate-get n i (pos 0) e))

pub count_call-Counts :
    (n : ℕ) (gens : List ℕ)
    → 2 * n + 1 < int_max
    → (event : Event) (cs : List ℤ) (log : List Event) → IsOrderly n gens (event ∷ log)
    → Counts cs n (open_pairs log)
    → Yields (λ cs'. Counts cs' n (open_pairs (event ∷ log))) (count_call event cs)
unfolding count_call open_pairs
count_call-Counts n gens room (on_trigger_enter a b) cs log orderly counts =
    enter-Counts n gens room cs a b log orderly counts
count_call-Counts n gens room (on_trigger_exit a b) cs log orderly counts =
    exit-Counts n gens room cs a b log orderly counts
count_call-Counts n gens room (on_collision_enter a b) cs log orderly counts = (cs, refl, counts)
count_call-Counts n gens room (on_collision_exit a b) cs log orderly counts = (cs, refl, counts)

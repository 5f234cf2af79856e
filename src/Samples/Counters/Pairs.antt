-- ===== src/Samples/Counters/Pairs.antt =====
-- The set of pairs of Physics/src/World.cpp as the counters of samples/src see it.
use bark_direct_x.Prelude.{
  ℕ, ◌+◌, ◌<◌, ◌≡◌, refl, ap, ◌∙◌, inl, inr, true, false, some, List, [], ◌∷◌, arith, All,
  get_elem?, Bool-cases,
}
use bark_direct_x.Physics.Refs.{ColliderRef, ColliderRefPair, pair_eq}
use bark_direct_x.Physics.Refs.Pairs.{pair_eq_iff, pair_eq_sym, pair_eq_trans}
use bark_direct_x.Physics.World.{
  Event, on_trigger_enter, on_trigger_exit, on_collision_enter, on_collision_exit,
}
use bark_direct_x.Physics.World.Collisions.{contains_pair, erase, pair_of}
use bark_direct_x.Physics.World.Protocol.{open_pairs, Alternates}
use bark_direct_x.Samples.Counters.{hit, count}

-- No two of the pairs are equal.
abbrev pub AreDistinct : List ColliderRefPair → Type 0
AreDistinct [] = Unit
AreDistinct (p ∷ ps) = (contains_pair p ps ≡ false) × AreDistinct ps

pub contains-cons :
    (p q : ColliderRefPair) (qs : List ColliderRefPair)
    → contains_pair p (q ∷ qs) ≡ false
    → (pair_eq p q ≡ false) × (contains_pair p qs ≡ false)
unfolding contains_pair
contains-cons p q qs h = ground (arith, h)

-- An equal pair is absent where this one is.
absent_eq :
    (p q : ColliderRefPair) (qs : List ColliderRefPair)
    → pair_eq p q ≡ true
    → contains_pair q qs ≡ false
    → contains_pair p qs ≡ false
unfolding contains_pair
absent_eq p q [] e h = refl
absent_eq p q (r ∷ qs) e h =
    let (first, rest) = contains-cons q r qs h in
    elim (Bool-cases (pair_eq p r)) [
      | inl same ↦ absurd (ground (arith, first, pair_eq_trans q p r (pair_eq_sym p q e) same))
      | inr apart ↦ rw (apart, absent_eq p q qs e rest) refl
    ]

erase_absent :
    (p : ColliderRefPair) (ps : List ColliderRefPair) → contains_pair p ps ≡ false → erase p ps ≡ ps
unfolding erase
erase_absent p [] h = refl
erase_absent p (q ∷ qs) h =
    let (first, rest) = contains-cons p q qs h in
    rw first (ap (λ rs. q ∷ rs) (erase_absent p qs rest))

-- What is absent stays so.
absent_erase :
    (p r : ColliderRefPair) (ps : List ColliderRefPair)
    → contains_pair r ps ≡ false
    → contains_pair r (erase p ps) ≡ false
unfolding erase contains_pair
absent_erase p r [] h = refl
absent_erase p r (q ∷ qs) h =
    let (first, rest) = contains-cons r q qs h in
    elim (Bool-cases (pair_eq p q)) [
      | inl same ↦ rw same (absent_erase p r qs rest)
      | inr apart ↦ rw (apart, first) (absent_erase p r qs rest)
    ]

erase-AreDistinct :
    (p : ColliderRefPair) (ps : List ColliderRefPair) → AreDistinct ps → AreDistinct (erase p ps)
unfolding erase
erase-AreDistinct p [] d = tt
erase-AreDistinct p (q ∷ qs) (absent, d) = elim (Bool-cases (pair_eq p q)) [
  | inl same ↦ rw same (erase-AreDistinct p qs d)
  | inr apart ↦ rw apart (absent_erase p q qs absent, erase-AreDistinct p qs d)
]

pub open_pairs-AreDistinct : (log : List Event) → Alternates log → AreDistinct (open_pairs log)
unfolding open_pairs Alternates
open_pairs-AreDistinct [] h = tt
open_pairs-AreDistinct (on_trigger_enter a b ∷ log) (absent, h) =
    (absent, open_pairs-AreDistinct log h)
open_pairs-AreDistinct (on_trigger_exit a b ∷ log) (_, h) =
    erase-AreDistinct (pair_of a b) (open_pairs log) (open_pairs-AreDistinct log h)
open_pairs-AreDistinct (on_collision_enter a b ∷ log) h = open_pairs-AreDistinct log h
open_pairs-AreDistinct (on_collision_exit a b ∷ log) h = open_pairs-AreDistinct log h

-- How often a pair holds collider `i`.
abbrev pub hits : ℕ → ColliderRefPair → ℕ
hits i p = hit p.col_ref_b.index i + hit p.col_ref_a.index i

hits_eq : (i : ℕ) (p q : ColliderRefPair) → pair_eq p q ≡ true → hits i p ≡ hits i q
hits_eq i p q h = elim ((pair_eq_iff p q).0 h) [
  | inl e ↦ ap (hits i) e
  | inr e ↦ ap (hits i) e ∙ omega arith
]

-- The pair that leaves takes its share of the count along.
pub count-erase :
    (i : ℕ) (p : ColliderRefPair) (ps : List ColliderRefPair)
    → AreDistinct ps
    → contains_pair p ps ≡ true
    → count i ps ≡ hits i p + count i (erase p ps)
unfolding count erase contains_pair
count-erase i p [] d h = absurd (ground (arith, h))
count-erase i p (q ∷ qs) (absent, d) h = elim (Bool-cases (pair_eq p q)) [
  | inl same ↦
      let gone = erase_absent p qs (absent_eq p q qs same absent) in
      rw (same, gone) (omega (arith, hits_eq i p q same))
  | inr apart ↦
      let inside : contains_pair p qs ≡ true = ground (arith, h, apart) in
      rw apart (omega (arith, count-erase i p qs d inside))
]

-- The reference is that of one of `n` colliders, with the generation that belongs to it.
abbrev pub IsSettled : ℕ → List ℕ → ColliderRef → Type 0
IsSettled n gens ref = (ref.index < n) × (get_elem? gens ref.index ≡ some ref.gen_index)

abbrev pub PairSettled : ℕ → List ℕ → ColliderRefPair → Type 0
PairSettled n gens p = IsSettled n gens p.col_ref_a × IsSettled n gens p.col_ref_b

abbrev pub EventSettled : ℕ → List ℕ → Event → Type 0
EventSettled n gens (on_trigger_enter a b) = IsSettled n gens a × IsSettled n gens b
EventSettled n gens (on_trigger_exit a b) = IsSettled n gens a × IsSettled n gens b
EventSettled n gens (on_collision_enter a b) = IsSettled n gens a × IsSettled n gens b
EventSettled n gens (on_collision_exit a b) = IsSettled n gens a × IsSettled n gens b

erase-All :
    (P : ColliderRefPair → Type 0) (p : ColliderRefPair) (ps : List ColliderRefPair)
    → All P ps
    → All P (erase p ps)
unfolding erase
erase-All P p [] h = tt
erase-All P p (q ∷ qs) (h, hs) = elim (Bool-cases (pair_eq p q)) [
  | inl same ↦ rw same (erase-All P p qs hs)
  | inr apart ↦ rw apart (h, erase-All P p qs hs)
]

pub open_pairs-Settled :
    (n : ℕ) (gens : List ℕ) (log : List Event)
    → All (EventSettled n gens) log
    → All (PairSettled n gens) (open_pairs log)
unfolding open_pairs
open_pairs-Settled n gens [] h = tt
open_pairs-Settled n gens (on_trigger_enter a b ∷ log) (h, hs) =
    (h, open_pairs-Settled n gens log hs)
open_pairs-Settled n gens (on_trigger_exit a b ∷ log) (_, hs) =
    erase-All (PairSettled n gens) (pair_of a b) (open_pairs log) (open_pairs-Settled n gens log hs)
open_pairs-Settled n gens (on_collision_enter a b ∷ log) (_, hs) = open_pairs-Settled n gens log hs
open_pairs-Settled n gens (on_collision_exit a b ∷ log) (_, hs) = open_pairs-Settled n gens log hs

-- ===== src/Samples/Counters/Bound.antt =====
-- How large the counters of samples/src get: a collider is in no more pairs than there are colliders.
use bark_direct_x.Prelude.{
  ℕ, ◌*◌, ◌≤◌, ◌<◌, ◌≡◌, refl, sym, ap, ◌∙◌, ◌⊎◌, inl, inr, true, false, some, List, [], ◌∷◌, arith,
  All, get_elem?, length, Bool-cases, ◌==◌, if◌then◌else◌,
}
use bark_direct_x.Prelude.Pigeonhole.{IsAbsent, NoRepeat, pigeonhole}
use bark_direct_x.Physics.Refs.{ColliderRef, ColliderRefPair, collider_ref_eq, pair_eq}
use bark_direct_x.Physics.World.Collisions.{contains_pair}
use bark_direct_x.Samples.Counters.{count}
use bark_direct_x.Samples.Counters.Pairs.{AreDistinct, IsSettled, PairSettled, contains-cons}

-- The other ends of the pairs that hold collider `i`.
partners : ℕ → List ColliderRefPair → List ℕ
partners i [] = []
partners i (p ∷ ps) =
    if p.col_ref_a.index == i
    then p.col_ref_b.index ∷ partners i ps
    else if p.col_ref_b.index == i
    then p.col_ref_a.index ∷ partners i ps
    else partners i ps

count-partners : (i : ℕ) (ps : List ColliderRefPair) → count i ps ≤ 2 * length (partners i ps)
unfolding count partners
count-partners i [] = omega arith
count-partners i (p ∷ ps) = ground (arith, count-partners i ps)

module _ (n : ℕ) (gens : List ℕ) where
  partners-below :
      (i : ℕ) (ps : List ColliderRefPair)
      → All (PairSettled n gens) ps
      → All (λ j. j < n) (partners i ps)
  unfolding partners
  partners-below i [] h = tt
  partners-below i (p ∷ ps) ((a, b), hs) = elim (Bool-cases (p.col_ref_a.index == i)) [
    | inl first ↦ rw first (b.0, partners-below i ps hs)
    | inr other ↦ elim (Bool-cases (p.col_ref_b.index == i)) [
      | inl second ↦ rw (other, second) (a.0, partners-below i ps hs)
      | inr neither ↦ rw (other, neither) (partners-below i ps hs)
    ]
  ]

  -- A settled reference is known by its index.
  settled_eq :
      (r s : ColliderRef)
      → IsSettled n gens r
      → IsSettled n gens s
      → r.index ≡ s.index
      → r.gen_index ≡ s.gen_index
  settled_eq r s (_, er) (_, es) e =
      let there : get_elem? gens r.index ≡ some s.gen_index = ap (λ j. get_elem? gens j) e ∙ es in
      ground (arith, er, there)

  pair_eq-straight :
      (p q : ColliderRefPair)
      → PairSettled n gens p
      → PairSettled n gens q
      → p.col_ref_a.index ≡ q.col_ref_a.index
      → p.col_ref_b.index ≡ q.col_ref_b.index
      → pair_eq p q ≡ true
  unfolding pair_eq collider_ref_eq
  pair_eq-straight p q (pa, pb) (qa, qb) ea eb = ground (
    arith,
    ea,
    eb,
    settled_eq p.col_ref_a q.col_ref_a pa qa ea,
    settled_eq p.col_ref_b q.col_ref_b pb qb eb,
  )

  pair_eq-crossed :
      (p q : ColliderRefPair)
      → PairSettled n gens p
      → PairSettled n gens q
      → p.col_ref_a.index ≡ q.col_ref_b.index
      → p.col_ref_b.index ≡ q.col_ref_a.index
      → pair_eq p q ≡ true
  unfolding pair_eq collider_ref_eq
  pair_eq-crossed p q (pa, pb) (qa, qb) ea eb = ground (
    arith,
    ea,
    eb,
    settled_eq p.col_ref_a q.col_ref_b pa qb ea,
    settled_eq p.col_ref_b q.col_ref_a pb qa eb,
  )

  -- The pair holds colliders `i` and `j`.
  abbrev Joins : ℕ → ℕ → ColliderRefPair → Type 0
  Joins i j p =
      ((p.col_ref_a.index ≡ i) × (p.col_ref_b.index ≡ j))
      ⊎ ((p.col_ref_a.index ≡ j) × (p.col_ref_b.index ≡ i))

  joined_eq :
      (i j : ℕ) (p q : ColliderRefPair)
      → PairSettled n gens p
      → PairSettled n gens q
      → Joins i j p
      → Joins i j q
      → pair_eq p q ≡ true
  joined_eq i j p q hp hq (inl (a, b)) (inl (c, d)) =
      pair_eq-straight p q hp hq (a ∙ sym c) (b ∙ sym d)
  joined_eq i j p q hp hq (inl (a, b)) (inr (c, d)) =
      pair_eq-crossed p q hp hq (a ∙ sym d) (b ∙ sym c)
  joined_eq i j p q hp hq (inr (a, b)) (inl (c, d)) =
      pair_eq-crossed p q hp hq (a ∙ sym d) (b ∙ sym c)
  joined_eq i j p q hp hq (inr (a, b)) (inr (c, d)) =
      pair_eq-straight p q hp hq (a ∙ sym c) (b ∙ sym d)

  -- Where a pair is absent, so is its other end.
  partner-IsAbsent :
      (i j : ℕ) (p : ColliderRefPair) (ps : List ColliderRefPair)
      → PairSettled n gens p
      → Joins i j p
      → All (PairSettled n gens) ps
      → contains_pair p ps ≡ false
      → IsAbsent j (partners i ps)
  unfolding partners
  partner-IsAbsent i j p [] hp joins hs absent = tt
  partner-IsAbsent i j p (q ∷ qs) hp joins (hq, hs) absent =
      let (apart, rest) = contains-cons p q qs absent in
      let more = partner-IsAbsent i j p qs hp joins hs rest in
      elim (Bool-cases (q.col_ref_a.index == i)) [
        | inl first ↦
            let a : q.col_ref_a.index ≡ i = ground (arith, first) in
            rw first
              (λ e. ground (arith, apart, joined_eq i j p q hp hq joins (inl (a, sym e))), more)
        | inr other ↦ elim (Bool-cases (q.col_ref_b.index == i)) [
          | inl second ↦
              let b : q.col_ref_b.index ≡ i = ground (arith, second) in
              rw (other, second)
                (λ e. ground (arith, apart, joined_eq i j p q hp hq joins (inr (sym e, b))), more)
          | inr neither ↦ rw (other, neither) more
        ]
      ]

  partners-NoRepeat :
      (i : ℕ) (ps : List ColliderRefPair)
      → AreDistinct ps
      → All (PairSettled n gens) ps
      → NoRepeat (partners i ps)
  unfolding partners
  partners-NoRepeat i [] d hs = tt
  partners-NoRepeat i (p ∷ ps) (absent, d) (hp, hs) =
      let more = partners-NoRepeat i ps d hs in
      elim (Bool-cases (p.col_ref_a.index == i)) [
        | inl first ↦
            let a : p.col_ref_a.index ≡ i = ground (arith, first) in
            rw first (partner-IsAbsent i p.col_ref_b.index p ps hp (inl (a, refl)) hs absent, more)
        | inr other ↦ elim (Bool-cases (p.col_ref_b.index == i)) [
          | inl second ↦
              let b : p.col_ref_b.index ≡ i = ground (arith, second) in
              rw (other, second)
                (partner-IsAbsent i p.col_ref_a.index p ps hp (inr (refl, b)) hs absent, more)
          | inr neither ↦ rw (other, neither) more
        ]
      ]

  -- Distinct pairs of `n` colliders hold none of them more than `2 * n` times.
  pub count-bound :
      (i : ℕ) (ps : List ColliderRefPair)
      → AreDistinct ps
      → All (PairSettled n gens) ps
      → count i ps ≤ 2 * n
  count-bound i ps d hs =
      let few =
        pigeonhole n (partners i ps) (partners-NoRepeat i ps d hs) (partners-below i ps hs) in
      omega (arith, count-partners i ps, few)

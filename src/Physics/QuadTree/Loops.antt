-- ===== src/Physics/QuadTree/Loops.antt =====
-- The loops of `QuadTree::Insert` in Physics/src/QuadTree.cpp on a valid tree.
use bark_direct_x.Prelude.{
  ℕ, zero, suc, ◌<◌, ◌≡◌, refl, sym, subst, inl, inr, true, Option, none, some, List, [], ◌∷◌,
  arith, get_elem?, Bool-cases,
}
use bark_direct_x.Prelude.Outcome.{Outcome, ok, at}
use bark_direct_x.Math.{Math}
use bark_direct_x.Shape.Intersect.{rectangle_rectangle}
use bark_direct_x.Physics.QuadTree.{
  ColliderRefAabb, QuadNode, QuadTree, Call, offer, offer_children, offer_entries, distribute,
}
use bark_direct_x.Physics.QuadTree.Valid.{IsChild, IsValid, IsChild-Extends}
use bark_direct_x.Physics.QuadTree.Filed.{Filed, Keeps, Filed-Keeps, Keeps-refl, Keeps-trans}

module _ ⦃m : Math⦄ where
  -- The call returns a valid tree that has lost nothing, of which moreover `P` holds.
  abbrev pub Returns : QuadTree → Outcome QuadTree → (QuadTree → Type 0) → Type 0
  Returns tree r P =
      (tree' : QuadTree) × (r ≡ ok tree') × IsValid tree' × Keeps tree tree' × P tree'

  -- What the recursive call does at a node one level below `depth`.
  abbrev pub Inserts : Call → ℕ → Type 0
  Inserts call depth =
      (tree : QuadTree) (c : ℕ) (e : ColliderRefAabb)
      → IsValid tree
      → IsChild tree depth c
      → Returns tree (call tree c e) (λ tree'. Filed tree' e c)

  -- Children of one node.
  abbrev pub AreChildren : ℕ → QuadTree → List (Option ℕ) → Type 0
  AreChildren depth tree [] = Unit
  AreChildren depth tree (none ∷ cs) = ⊥
  AreChildren depth tree (some c ∷ cs) = IsChild tree depth c × AreChildren depth tree cs

  AreChildren-Keeps :
      (depth : ℕ) (s t : QuadTree) (cs : List (Option ℕ))
      → Keeps s t
      → AreChildren depth s cs
      → AreChildren depth t cs
  AreChildren-Keeps depth s t [] x h = tt
  AreChildren-Keeps depth s t (none ∷ cs) x h = h
  AreChildren-Keeps depth s t (some c ∷ cs) x (h, hs) =
      (IsChild-Extends x.extends h, AreChildren-Keeps depth s t cs x hs)

  -- If the box of `e` met the bounds that node `c` has in `s`, then `e` is filed there in `t`.
  abbrev pub Met : QuadTree → QuadTree → ColliderRefAabb → ℕ → Type 0
  Met s t e c =
      (child : QuadNode)
      → get_elem? s.nodes c ≡ some child
      → rectangle_rectangle e.aabb child.bounds ≡ true
      → Filed t e c

  abbrev pub AllMet : QuadTree → QuadTree → ColliderRefAabb → List (Option ℕ) → Type 0
  AllMet s t e [] = Unit
  AllMet s t e (none ∷ cs) = Unit
  AllMet s t e (some c ∷ cs) = Met s t e c × AllMet s t e cs

  -- Bounds do not change, so an earlier tree will do.
  Met-earlier :
      (s t u : QuadTree) (e : ColliderRefAabb) (c : ℕ)
      → Keeps s t
      → c < s.node_index
      → Met t u e c
      → Met s u e c
  Met-earlier s t u e c x h met child found hit =
      let (child', found', d, b) = x.extends.keeps c child h found in
      met child' found' (subst (λ r. rectangle_rectangle e.aabb r ≡ true) (sym b) hit)

  AllMet-earlier :
      (depth : ℕ) (s t u : QuadTree) (e : ColliderRefAabb) (cs : List (Option ℕ))
      → Keeps s t
      → AreChildren depth s cs
      → AllMet t u e cs
      → AllMet s u e cs
  AllMet-earlier depth s t u e [] x h met = tt
  AllMet-earlier depth s t u e (none ∷ cs) x h met = tt
  AllMet-earlier depth s t u e (some c ∷ cs) x (h, hs) (met, mets) =
      (Met-earlier s t u e c x h.in_use met, AllMet-earlier depth s t u e cs x hs mets)

  Met-later :
      (s t u : QuadTree) (e : ColliderRefAabb) (c : ℕ)
      → Keeps t u
      → c < t.node_index
      → Met s t e c
      → Met s u e c
  Met-later s t u e c x h met child found hit = Filed-Keeps t u e c x h (met child found hit)

  module _ (call : Call) (depth : ℕ) (inserts : Inserts call depth) where
    offer-Returns :
        (tree : QuadTree) (c : ℕ) (e : ColliderRefAabb)
        → IsValid tree
        → IsChild tree depth c
        → Returns tree (offer call (some c) e tree) (λ t. Met tree t e c)
    unfolding offer
    offer-Returns tree c e v h = elim (Bool-cases (rectangle_rectangle e.aabb h.node.bounds)) [
      | inl hit ↦
          let (t, eq, v', x, filed) = inserts tree c e v h in
          (t, ground (arith, h.found, hit, eq), v', x, λ child found hit'. filed)
      | inr miss ↦ (
        tree,
        ground (arith, h.found, miss),
        v,
        Keeps-refl tree,
        λ child found hit. absurd (ground (arith, h.found, found, hit, miss)),
      )
    ]

    pub offer_children-Returns :
        (tree : QuadTree) (cs : List (Option ℕ)) (e : ColliderRefAabb)
        → IsValid tree
        → AreChildren depth tree cs
        → Returns tree (offer_children call cs e tree) (λ t. AllMet tree t e cs)
    unfolding offer_children
    offer_children-Returns tree [] e v h = (tree, refl, v, Keeps-refl tree, tt)
    offer_children-Returns tree (none ∷ cs) e v h = elim h [ ]
    offer_children-Returns tree (some c ∷ cs) e v (h, hs) =
        let (t, eq, w, x, met) = offer-Returns tree c e v h in
        let (u, eq', w', x', mets) =
          offer_children-Returns t cs e w (AreChildren-Keeps depth tree t cs x hs) in
        (
          u,
          rw eq eq',
          w',
          Keeps-trans x x',
          (
            Met-later tree t u e c x' (IsChild-Extends x.extends h).in_use met,
            AllMet-earlier depth tree t u e cs x hs mets,
          ),
        )

    offer_entries-Returns :
        (tree : QuadTree) (c : ℕ) (es : List ColliderRefAabb)
        → IsValid tree
        → IsChild tree depth c
        → Returns tree
            (offer_entries call (some c) es tree)
            (λ t. (n : ℕ) (e : ColliderRefAabb) → get_elem? es n ≡ some e → Met tree t e c)
    unfolding offer_entries
    offer_entries-Returns tree c [] v h =
        (tree, refl, v, Keeps-refl tree, λ n e at. absurd (ground (arith, at)))
    offer_entries-Returns tree c (e ∷ es) v h =
        let (t, eq, w, x, met) = offer-Returns tree c e v h in
        let (u, eq', w', x', mets) = offer_entries-Returns t c es w (IsChild-Extends x.extends h) in
        let first = Met-later tree t u e c x' (IsChild-Extends x.extends h).in_use met in
        (u, rw eq eq', w', Keeps-trans x x', each tree t u c e es x h.in_use first mets)
      where
        each :
            (tree t u : QuadTree) (c : ℕ) (e : ColliderRefAabb) (es : List ColliderRefAabb)
            → Keeps tree t
            → c < tree.node_index
            → Met tree u e c
            → ((n : ℕ) (e : ColliderRefAabb) → get_elem? es n ≡ some e → Met t u e c)
            → (n : ℕ) (e' : ColliderRefAabb) → get_elem? (e ∷ es) n ≡ some e'
            → Met tree u e' c
        each tree t u c e es x h first mets zero e' at =
            let same : e ≡ e' = ground (arith, at) in subst (λ a. Met tree u a c) same first
        each tree t u c e es x h first mets (suc n) e' at =
            Met-earlier tree t u e' c x h (mets n e' at)

    pub distribute-Returns :
        (tree : QuadTree) (cs : List (Option ℕ)) (es : List ColliderRefAabb)
        → IsValid tree
        → AreChildren depth tree cs
        → Returns tree
            (distribute call cs es tree)
            (λ t. (n : ℕ) (e : ColliderRefAabb) → get_elem? es n ≡ some e → AllMet tree t e cs)
    unfolding distribute
    distribute-Returns tree [] es v h = (tree, refl, v, Keeps-refl tree, λ n e at. tt)
    distribute-Returns tree (none ∷ cs) es v h = elim h [ ]
    distribute-Returns tree (some c ∷ cs) es v (h, hs) =
        let (t, eq, w, x, met) = offer_entries-Returns tree c es v h in
        let (u, eq', w', x', mets) =
          distribute-Returns t cs es w (AreChildren-Keeps depth tree t cs x hs) in
        (
          u,
          rw eq eq',
          w',
          Keeps-trans x x',
          λ n e at. (
            Met-later tree t u e c x' (IsChild-Extends x.extends h).in_use (met n e at),
            AllMet-earlier depth tree t u e cs x hs (mets n e at),
          ),
        )

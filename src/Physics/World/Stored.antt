-- ===== src/Physics/World/Stored.antt =====
-- The second loop of `World::SetUpQuadTree` in Physics/src/World.cpp: what it stores in the tree.
use bark_direct_x.Prelude.{
  ℕ, suc, ◌+◌, ◌≡◌, refl, sym, ap, subst, ◌∙◌, inl, inr, true, some, List, [], ◌∷◌, arith,
  get_elem?, Bool-cases,
}
use bark_direct_x.Prelude.Outcome.{ok, ◌>>=◌, >>=-eq-ok, at}
use bark_direct_x.Math.{Math}
use bark_direct_x.Physics.Collider.{Collider, get_bounds}
use bark_direct_x.Physics.QuadTree.{QuadTree, ColliderRefAabb, insert}
use bark_direct_x.Physics.QuadTree.Entries.{Only, insert-Only, at-eq-ok}
use bark_direct_x.Physics.World.Step.{insert_fuel, file, file_all}

module _ ⦃m : Math⦄ where
  -- What `Insert` is given for collider `i`.
  abbrev pub entry : ℕ → ℕ → Collider → ColliderRefAabb
  entry i gen col = record {
    aabb = get_bounds col;
    col_ref = record { index = i; gen_index = gen };
  }

  -- The entry stands for an attached collider of the list, with its generation index.
  abbrev pub IsStored : List Collider → List ℕ → ColliderRefAabb → Type 0
  IsStored cols gens e =
      (n : ℕ) × (gen : ℕ) × (col : Collider) × (get_elem? cols n ≡ some col)
      × (get_elem? gens n ≡ some gen)
      × (col.is_attached ≡ true)
      × (e ≡ entry n gen col)

  module _ (P : ColliderRefAabb → Type 0) (gens : List ℕ) where
    file-Only :
        (i : ℕ) (col : Collider) (tree t : QuadTree)
        → file gens i col tree ≡ ok t
        → ((gen : ℕ) → get_elem? gens i ≡ some gen → col.is_attached ≡ true → P (entry i gen col))
        → Only P tree.nodes
        → Only P t.nodes
    unfolding file
    file-Only i col tree t h p only = elim (Bool-cases col.is_attached) [
      | inr off ↦
          let same : tree ≡ t = ground (arith, h, off) in
          subst (λ (x : QuadTree). Only P x.nodes) same only
      | inl on ↦
          let h' : (at gens i >>= λ gen. insert insert_fuel tree 0 (entry i gen col)) ≡ ok t =
            ground (arith, h, on) in
          let (gen, e, h'') = >>=-eq-ok (at gens i) _ h' in
          insert-Only P insert_fuel tree 0 (entry i gen col) t h'' (p gen (at-eq-ok gens i e) on)
            only
    ]

    -- Each entry of the tree is an old one or stands for a collider of the list.
    pub file_all-Only :
        (i : ℕ) (cols : List Collider) (tree t : QuadTree)
        → file_all gens i cols tree ≡ ok t
        → ((n gen : ℕ) (col : Collider)
            → get_elem? cols n ≡ some col
            → get_elem? gens (i + n) ≡ some gen
            → col.is_attached ≡ true
            → P (entry (i + n) gen col))
        → Only P tree.nodes
        → Only P t.nodes
    unfolding file_all
    file_all-Only i [] tree t h p only =
        let same : tree ≡ t = ground (arith, h) in
        subst (λ (x : QuadTree). Only P x.nodes) same only
    file_all-Only i (col ∷ cols) tree t h p only =
        let (tree', h1, h2) = >>=-eq-ok (file gens i col tree) _ h in
        let here : i ≡ i + 0 = omega arith in
        file_all-Only (i + 1) cols tree' t h2
          (λ n gen c at g on.
            let move : i + suc n ≡ i + 1 + n = omega arith in
            subst (λ j. P (entry j gen c)) move
              (p (suc n) gen c at (ap (get_elem? gens) move ∙ g) on))
          (file-Only i col tree tree' h1
            (λ gen g on.
              subst (λ j. P (entry j gen col)) (sym here)
                (p 0 gen col refl (ap (get_elem? gens) (sym here) ∙ g) on))
            only)

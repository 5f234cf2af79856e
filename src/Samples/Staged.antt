-- ===== src/Samples/Staged.antt =====
-- What holds of a sample of samples/src between its calls: its references lead to bodies and
-- colliders of its world.
pub mod Drawing
pub mod Walls
use bark_direct_x.Prelude.{
  ℕ, zero, suc, ◌+◌, ◌≤◌, ◌<◌, ◌≡◌, refl, sym, ap, subst, ◌∙◌, ◌⊎◌, inl, inr, some, List, [], ◌∷◌,
  ◌++◌, arith, length, length-append, get_elem?, get_elem?-some, get_elem?-lt, get_elem?-set_ne,
  get_elem?-set_self,
}
use bark_direct_x.Prelude.Outcome.{Outcome, ok, Yields}
use bark_direct_x.Math.{Math}
use bark_direct_x.Math.Laws.{IsSigned}
use bark_direct_x.Physics.Refs.{BodyRef, ColliderRef}
use bark_direct_x.Physics.Body.{Body}
use bark_direct_x.Physics.Collider.{Collider}
use bark_direct_x.Physics.World.{World, get_body}
use bark_direct_x.Physics.World.Triggers.{IsGood, IsGood-get}
use bark_direct_x.Physics.World.Ready.{IsReady, Refers, Extends, Extends-trans}
use bark_direct_x.Physics.World.Ready.Creation.{create_body-IsReady, create_collider-IsReady}
use bark_direct_x.Physics.World.Ready.Changes.{
  Redraws, modify_body-IsReady, modify_collider-IsReady,
}
use bark_direct_x.Samples.{Sample, GraphicsData}
use bark_direct_x.Samples.Objects.{for_loop, add_object, add_unnamed}

-- An element of a vector after `push_back`.
pub pushed {ℓ} :
    {A : Type ℓ} (xs : List A) (x : A) (n : ℕ) {y : A}
    → get_elem? (xs ++ x ∷ []) n ≡ some y
    → (get_elem? xs n ≡ some y) ⊎ ((n ≡ length xs) × (x ≡ y))
pushed [] x zero h = inr (refl, ground (arith, h))
pushed [] x (suc n) h = absurd (ground (arith, h))
pushed (z ∷ xs) x zero h = inl h
pushed (z ∷ xs) x (suc n) h = elim (pushed xs x n h) [
  | inl old ↦ inl old
  | inr (e, same) ↦ inr (ap suc e, same)
]

pub length-pushed {ℓ} : {A : Type ℓ} (xs : List A) (x : A) → length (xs ++ x ∷ []) ≡ suc (length xs)
length-pushed xs x = omega (arith, length-append xs (x ∷ []))

-- A loop keeps what its body keeps.
pub for_loop-Yields :
    {A : Type 0} (body : ℕ → A → Outcome A) (P : ℕ → A → Type 0) (first rounds : ℕ) (a : A)
    → ((i : ℕ) (a : A) → first ≤ i → i < first + rounds → P i a → Yields (P (suc i)) (body i a))
    → P first a
    → Yields (P (first + rounds)) (for_loop body first rounds a)
unfolding for_loop
for_loop-Yields body P first zero a step p = (a, refl, subst (λ n. P n a) (omega arith) p)
for_loop-Yields body P first (suc rounds) a step p =
    let (b, e, q) = step first a (omega arith) (omega arith) p in
    let (c, e', r) =
      for_loop-Yields body P (suc first) rounds b
        (λ i x low high. step i x (omega arith) (omega arith)) q in
    (c, rw e e', subst (λ n. P n c) (omega arith) r)

module _ ⦃m : Math⦄ where
  -- `k` objects: a ready world with as many colliders, whose references the sample holds in order,
  -- and data to draw each.
  pub record IsStaged {Own : Type 0} (k : ℕ) (s : Sample Own) : Type 0 where
    pub ready : IsReady k s.world
    pub counted : length s.col_refs ≡ k
    pub refers :
        (n : ℕ) (ref : ColliderRef) → get_elem? s.col_refs n ≡ some ref → Refers s.world n ref
    pub good : (n : ℕ) (ref : BodyRef) → get_elem? s.body_refs n ≡ some ref → IsGood s.world ref
    pub drawn : k ≤ length s.all_graphics_data

  -- The world of a staged sample changes, and its references stay good.
  pub restage :
      {Own : Type 0} (k : ℕ) (s : Sample Own) (w : World)
      → IsStaged k s
      → IsReady k w
      → Extends s.world w
      → IsStaged k (record s { world = w })
  restage k s w t ready x = record {
    ready = ready;
    counted = t.counted;
    refers = λ n ref at. x.refers n ref (t.refers n ref at);
    good = λ n ref at. x.good ref (t.good n ref at);
    drawn = t.drawn;
  }

  -- What `add_object` makes of a sample.
  pub record Adds {Own : Type 0} (attach : Body → Collider → Collider) (k : ℕ) (s s' : Sample Own)
      (ref : BodyRef) : Type 0 where
    pub staged : IsStaged (suc k) s'
    pub named : IsGood s'.world ref
    pub extends : Extends s.world s'.world
    pub bodies : s'.body_refs ≡ s.body_refs ++ ref ∷ []
    pub graphics : length s'.all_graphics_data ≡ suc (length s.all_graphics_data)
    pub listener : s'.world.contact_listener ≡ s.world.contact_listener
    -- The colliders that there were, and the new one.
    pub old :
        (n : ℕ) (col : Collider)
        → n < k
        → get_elem? s.world.colliders n ≡ some col
        → get_elem? s'.world.colliders n ≡ some col
    pub new :
        (body : Body) × (col : Collider) × (get_elem? s'.world.colliders k ≡ some (attach body col))
    pub same : s' ≡ record s {
      world = s'.world;
      body_refs = s'.body_refs;
      col_refs = s'.col_refs;
      all_graphics_data = s'.all_graphics_data;
    }

  module _ (signs : IsSigned m) {Own : Type 0} (change : Body → Body)
      (attach : Body → Collider → Collider) (draw : Body → GraphicsData)
      (redraws : (body : Body) → Redraws (attach body)) where
    pub add_object-Adds :
        (k : ℕ) (s : Sample Own)
        → IsStaged k s
        → (s' : Sample Own) × (ref : BodyRef) × (add_object change attach draw s ≡ ok (s', ref))
          × Adds attach k s s' ref
    unfolding add_object
    add_object-Adds k s t =
        let (w1, ref, e1, r1, x1, good1, l1, c1) = create_body-IsReady signs k s.world t.ready in
        let (w2, e2, r2, x2, f2) = modify_body-IsReady k w1 ref change r1 good1 in
        let (w3, col_ref, e3, r3, x3, is3, l3, c3) =
          create_collider-IsReady ref k w2 r2 (x2.good ref good1) in
        let good3 = x3.good ref (x2.good ref good1) in
        let (body, e) = IsGood-get w3 ref good3 in
        let (w4, e4, r4, x4, f4, (col, c4)) =
          modify_collider-IsReady (suc k) k w3 col_ref (attach body) r3 (omega arith) is3
            (redraws body) in
        let x =
          Extends-trans s.world w1 w4 x1
            (Extends-trans w1 w2 w4 x2 (Extends-trans w2 w3 w4 x3 x4)) in
        let after : Sample Own = record s {
          world = w4;
          body_refs = s.body_refs ++ ref ∷ [];
          col_refs = s.col_refs ++ col_ref ∷ [];
          all_graphics_data = s.all_graphics_data ++ draw body ∷ [];
        } in
        (
          after,
          ref,
          rw (e1, e2, e3, e, e4) refl,
          record {
            staged = record {
              ready = r4;
              counted = length-pushed s.col_refs col_ref ∙ ap suc t.counted;
              refers = λ n other at. elim (pushed s.col_refs col_ref n at) [
                | inl old ↦ x.refers n other (t.refers n other old)
                | inr (e, same) ↦ subst (Refers w4 n) same (
                    subst (λ j. Refers w4 j col_ref) (sym (e ∙ t.counted))
                      (x4.refers k col_ref is3))
              ];
              good = λ n other at. elim (pushed s.body_refs ref n at) [
                | inl old ↦ x.good other (t.good n other old)
                | inr (_, same) ↦ subst (IsGood w4) same (x4.good ref good3)
              ];
              drawn = omega (arith, length-pushed s.all_graphics_data (draw body), t.drawn);
            };
            named = x4.good ref good3;
            extends = x;
            bodies = refl;
            graphics = length-pushed s.all_graphics_data (draw body);
            listener = ap (λ v. v.contact_listener) f4 ∙ l3 ∙ ap (λ v. v.contact_listener) f2 ∙ l1;
            old = λ n c l at.
                let at3 = c3 n c l (
                  ap (λ (v : World). get_elem? v.colliders n) f2
                  ∙ ap (λ cs. get_elem? cs n) c1
                  ∙ at) in
                ap (λ cs. get_elem? cs n) c4
                ∙ get_elem?-set_ne w3.colliders col_ref.index n (attach body col)
                    (λ e. omega (arith, e, is3.0, l))
                ∙ at3;
            new = (
              body,
              col,
              ap (get_elem? w4.colliders) (sym is3.0)
                  ∙ ap (λ cs. get_elem? cs col_ref.index) c4
                  ∙ get_elem?-set_self w3.colliders col_ref.index (attach body col)
                      (omega (arith, r3.within, is3.0)),
            );
            same = refl;
          },
        )

    pub add_unnamed-Adds :
        (k : ℕ) (s : Sample Own)
        → IsStaged k s
        → (s' : Sample Own) × (ref : BodyRef) × (add_unnamed change attach draw s ≡ ok s')
          × Adds attach k s s' ref
    unfolding add_unnamed
    add_unnamed-Adds k s t = let (s', ref, e, x) = add_object-Adds k s t in (s', ref, rw e refl, x)

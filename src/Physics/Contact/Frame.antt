-- ===== src/Physics/Contact/Frame.antt =====
-- What the steps of `Contact::Resolve` in Physics/src/Contact.cpp change.
use bark_direct_x.Prelude.{
  ℕ, ◌<◌, ◌≡◌, ◌≢◌, refl, subst, ◌∙◌, ◌⊎◌, Bool, true, false, List, arith, some, inl, inr, length,
  get_elem?, set, length-set, get_elem?-set_self, get_elem?-set_ne, get_elem?-lt, get_elem?-some,
  if◌then◌else◌,
}
use bark_direct_x.Prelude.Outcome.{Outcome, ok, ◌>>=◌, at_rule}
use native.Mathlib.Decide.{ℕ_discrete}
use bark_direct_x.Math.{Math}
use bark_direct_x.Physics.Body.{Body, static}
use bark_direct_x.Physics.Contact.{
  Contact, modify_if, is_dynamic, is_static, apply_impulse, resolve_velocity,
  calculate_separate_velocity, apply_move, resolve_interpenetration,
}

module _ ⦃m : Math⦄ where
  open m use {Float, Vector, zero_f, one_f, le, lt, add, sub, mul, div, neg, xm_scale}

  -- A body keeps its mass, type and force, and its place if it is static; a body that is not one of
  -- `i` and `j` is left alone.
  pub record SameBody (i j n : ℕ) (b b' : Body) : Type 0 where
    pub mass : b'.mass ≡ b.mass
    pub type : b'.type ≡ b.type
    pub force : b'.force ≡ b.force
    pub held : b.type ≡ static → b'.position ≡ b.position
    pub apart : i ≢ n → j ≢ n → b' ≡ b

  pub record Moves (i j : ℕ) (bs bs' : List Body) : Type 0 where
    pub sized : length bs' ≡ length bs
    pub each :
        (n : ℕ) (b : Body)
        → get_elem? bs n ≡ some b
        → (b' : Body) × (get_elem? bs' n ≡ some b') × SameBody i j n b b'

  SameBody-refl : (i j n : ℕ) (b : Body) → SameBody i j n b b
  SameBody-refl i j n b = record {
    mass = refl;
    type = refl;
    force = refl;
    held = λ _. refl;
    apart = λ _ _. refl;
  }

  SameBody-trans :
      {i j n : ℕ} {a b c : Body} → SameBody i j n a b → SameBody i j n b c → SameBody i j n a c
  SameBody-trans p q = record {
    mass = q.mass ∙ p.mass;
    type = q.type ∙ p.type;
    force = q.force ∙ p.force;
    held = λ h. q.held (p.type ∙ h) ∙ p.held h;
    apart = λ h k. q.apart h k ∙ p.apart h k;
  }

  pub Moves-refl : (i j : ℕ) (bs : List Body) → Moves i j bs bs
  Moves-refl i j bs = record { sized = refl; each = λ n b e. (b, e, SameBody-refl i j n b) }

  pub Moves-trans :
      {i j : ℕ} {xs ys zs : List Body} → Moves i j xs ys → Moves i j ys zs → Moves i j xs zs
  Moves-trans {i} {j} p q = record {
    sized = q.sized ∙ p.sized;
    each = λ n b e.
        let (b', e', s) = p.each n b e in
        let (b'', e'', s') = q.each n b' e' in
        (b'', e'', SameBody-trans {i = i} {j = j} {n = n} s s');
  }

  -- The call returns, having changed no more than `Moves` says.
  abbrev pub Changes : ℕ → ℕ → List Body → Outcome (List Body) → Type 0
  Changes i j bs r = (bs' : List Body) × (r ≡ ok bs') × Moves i j bs bs'

  Changes-bind :
      {i j : ℕ} {bs : List Body} (r : Outcome (List Body)) (f : List Body → Outcome (List Body))
      → Changes i j bs r
      → ((bs' : List Body) → Moves i j bs bs' → Changes i j bs' (f bs'))
      → Changes i j bs (r >>= f)
  Changes-bind r f (bs', e, x) next =
      let (bs'', e', x') = next bs' x in (bs'', rw e e', Moves-trans x x')

  -- A write at one of the two bodies.
  write-Moves :
      (i j n : ℕ) (bs : List Body) (b : Body) (f : Body → Body)
      → get_elem? bs n ≡ some b
      → SameBody i j n b (f b)
      → Moves i j bs (set bs n (f b))
  write-Moves i j n bs b f e same = record {
    sized = length-set bs n (f b);
    each = λ k x at. elim (ℕ_discrete n k) [
      | yes p ↦
          let here : b ≡ x = ground (arith, e, at, p) in
          (
            f b,
            subst (λ l. get_elem? (set bs n (f b)) l ≡ some (f b)) p
                (get_elem?-set_self bs n (f b) (get_elem?-lt bs n e)),
            subst (λ y. SameBody i j k y (f b)) here (subst (λ l. SameBody i j l b (f b)) p same),
          )
      | no q ↦ (x, get_elem?-set_ne bs n k (f b) q ∙ at, SameBody-refl i j k x)
    ];
  }

  -- `test` guards a write at a body that `f` treats as `Moves` allows.
  modify_if-Changes :
      (i j n : ℕ) (test : Bool) (bs : List Body) (f : Body → Body)
      → n < length bs
      → ((b : Body) → test ≡ true → get_elem? bs n ≡ some b → SameBody i j n b (f b))
      → Changes i j bs (modify_if test bs n f)
  modify_if-Changes i j n false bs f h same = (bs, refl, Moves-refl i j bs)
  modify_if-Changes i j n true bs f h same =
      let (b, e) = get_elem?-some bs n h in
      (set bs n (f b), rw e, write-Moves i j n bs b f e (same b refl e))

  -- A change of the velocity alone.
  velocity_only :
      (i j n : ℕ) (b : Body) (v : Vector)
      → (i ≡ n) ⊎ (j ≡ n)
      → SameBody i j n b (record b { velocity = v })
  velocity_only i j n b v touched = record {
    mass = refl;
    type = refl;
    force = refl;
    held = λ _. refl;
    apart = λ h k. absurd (elim touched [ inl e ↦ h e | inr e ↦ k e ]);
  }

  -- A change of the position of a dynamic body.
  position_only :
      (i j n : ℕ) (b : Body) (p : Vector)
      → (i ≡ n) ⊎ (j ≡ n)
      → is_dynamic b.type ≡ true
      → SameBody i j n b (record b { position = p })
  position_only i j n b p touched d = record {
    mass = refl;
    type = refl;
    force = refl;
    held = λ h. absurd (ground (arith, d, h));
    apart = λ h k. absurd (elim touched [ inl e ↦ h e | inr e ↦ k e ]);
  }

  -- An early return leaves the bodies as they are.
  skip_or :
      {i j : ℕ} {bs : List Body} (test : Bool) (r : Outcome (List Body))
      → Changes i j bs r
      → Changes i j bs (if test then ok bs else r)
  skip_or {i} {j} {bs} true r h = (bs, refl, Moves-refl i j bs)
  skip_or false r h = h

  module _ (c : Contact) (bs : List Body) where
    abbrev pub i : ℕ
    i = c.body0.body

    abbrev pub j : ℕ
    j = c.body1.body

    apply_impulse-Changes :
        (v : Vector) (a b : Float)
        → i < length bs
        → j < length bs
        → Changes i j bs (apply_impulse c v a b bs)
    unfolding apply_impulse
    apply_impulse-Changes v a b hi hj = at_rule (Changes i j bs) bs i _ hi λ b0 e0.
        at_rule (Changes i j bs) bs j _ hj λ b1 e1.
          Changes-bind (modify_if (is_dynamic b0.type) bs i _) _
            (modify_if-Changes i j i (is_dynamic b0.type) bs _ hi
              (λ x _ _. velocity_only i j i x _ (inl refl)))
            λ bs1 x1.
              Changes-bind (modify_if (is_dynamic b1.type) bs1 j _) _
                (modify_if-Changes i j j (is_dynamic b1.type) bs1 _ (omega (arith, x1.sized))
                  (λ x _ _. velocity_only i j j x _ (inr refl)))
                λ bs2 x2.
                  Changes-bind (modify_if (is_static b0.type) bs2 j _) _
                    (modify_if-Changes i j j (is_static b0.type) bs2 _
                      (omega (arith, x1.sized, x2.sized))
                      (λ x _ _. velocity_only i j j x _ (inr refl)))
                    λ bs3 x3.
                      modify_if-Changes i j i (is_static b1.type) bs3 _
                        (omega (arith, x1.sized, x2.sized, x3.sized))
                        (λ x _ _. velocity_only i j i x _ (inl refl))

    pub resolve_velocity-Changes :
        i < length bs → j < length bs → Changes i j bs (resolve_velocity c bs)
    unfolding resolve_velocity
    resolve_velocity-Changes hi hj = at_rule (Changes i j bs) bs i _ hi λ b0 e0.
        at_rule (Changes i j bs) bs j _ hj λ b1 e1.
          let separating = calculate_separate_velocity c b0 b1 in
          let delta = sub (mul (neg separating) c.restitution) separating in
          let total = add (div one_f b0.mass) (div one_f b1.mass) in
          let v = xm_scale c.normal (div delta total) in
          let rest = apply_impulse c v (div one_f b0.mass) (div one_f b1.mass) bs in
          skip_or (lt zero_f separating) (if le total zero_f then ok bs else rest)
            (skip_or (le total zero_f) rest (apply_impulse-Changes v _ _ hi hj))

    apply_move-Changes :
        (v : Vector) (a b : Float)
        → i < length bs
        → j < length bs
        → Changes i j bs (apply_move c v a b bs)
    unfolding apply_move
    apply_move-Changes v a b hi hj = at_rule (Changes i j bs) bs i _ hi λ b0 e0.
        at_rule (Changes i j bs) bs j _ hj λ b1 e1.
          Changes-bind (modify_if (is_dynamic b0.type) bs i _) _
            (modify_if-Changes i j i (is_dynamic b0.type) bs _ hi
              (λ x d e. position_only i j i x _ (inl refl) (ground (arith, d, e, e0))))
            λ bs1 x1.
              let (b1', e1', same) = x1.each j b1 e1 in
              modify_if-Changes i j j (is_dynamic b1.type) bs1 _ (omega (arith, x1.sized))
                (λ x d e. position_only i j j x _ (inr refl) (ground (arith, d, e, e1', same.type)))

    pub resolve_interpenetration-Changes :
        i < length bs → j < length bs → Changes i j bs (resolve_interpenetration c bs)
    unfolding resolve_interpenetration
    resolve_interpenetration-Changes hi hj = skip_or (le c.penetration zero_f) _ (
        at_rule (Changes i j bs) bs i _ hi λ b0 e0. at_rule (Changes i j bs) bs j _ hj λ b1 e1.
          let total = add (div one_f b0.mass) (div one_f b1.mass) in
          let v = xm_scale c.normal (div c.penetration total) in
          let rest = apply_move c v (div one_f b0.mass) (div one_f b1.mass) bs in
          skip_or (le total zero_f) rest (apply_move-Changes v _ _ hi hj))

  pub Moves-swap : {i j : ℕ} {bs bs' : List Body} → Moves i j bs bs' → Moves j i bs bs'
  Moves-swap {i} {j} x = record {
    sized = x.sized;
    each = λ n b e.
        let (b', e', s) = x.each n b e in
        (
          b',
          e',
          record {
            mass = s.mass;
            type = s.type;
            force = s.force;
            held = s.held;
            apart = λ h k. s.apart k h;
          },
        );
  }

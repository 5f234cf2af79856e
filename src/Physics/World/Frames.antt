-- ===== src/Physics/World/Frames.antt =====
-- `World::Update` of Physics/src/World.cpp: what holds of a world from frame to frame.
use bark_direct_x.Prelude.{
  ℕ, ◌<◌, ◌≡◌, refl, sym, ap, subst, ◌∙◌, inl, inr, true, some, List, arith, length, get_elem?,
  get_elem?-some, get_elem?-lt, Bool-cases, ==_refl, All, none,
}
use bark_direct_x.Prelude.Outcome.{ok}
use bark_direct_x.Math.{Math}
use bark_direct_x.Physics.Body.{Body, static}
use bark_direct_x.Physics.Collider.{Collider}
use bark_direct_x.Physics.QuadTree.Root.{IsReusable}
use bark_direct_x.Physics.QuadTree.Valid.{IsValid}
use bark_direct_x.Physics.World.{World, Event, get_collider}
use bark_direct_x.Physics.World.Bodies.{IsSized}
use bark_direct_x.Physics.World.Colliders.{HasGens}
use bark_direct_x.Physics.World.Protocol.{Protocol, Watches, Names, Hears, slots, Watches-slots}
use bark_direct_x.Physics.World.Triggers.{IsLive, IsGood-get}
use bark_direct_x.Physics.World.Traversal.{IsKnown, IsStocked, update_quad_tree_collisions-Returns}
use bark_direct_x.Physics.World.Motion.{map-length, update_bodies-Keeps}
use bark_direct_x.Physics.World.Placed.{Placed, PlacedAll}
use bark_direct_x.Physics.World.Placement.{SetsUp, set_up_quad_tree-SetsUp}
use bark_direct_x.Physics.World.Step.{insert_fuel, update_body, update_bodies, step}

module _ ⦃m : Math⦄ where
  open m use {Float}

  -- Every attached collider has a body, and a polygon among them a vertex.
  abbrev pub AllLive : World → Type 0
  AllLive w =
      (n : ℕ) (col : Collider)
      → get_elem? w.colliders n ≡ some col
      → col.is_attached ≡ true
      → IsLive w col

  -- The invariant of a world between frames.
  pub record IsSound (w : World) : Type 0 where
    pub sized : IsSized w
    pub gens : HasGens w
    pub reusable : IsReusable w.quad_tree
    pub live : AllLive w
    pub protocol : Protocol w

  update_bodies-IsSound : (dt : Float) (w : World) → IsSound w → IsSound (update_bodies dt w)
  unfolding update_bodies
  update_bodies-IsSound dt w s =
      let same = map-length (update_body dt) w.bodies in
      record {
        sized = s.sized ∙ sym same;
        gens = s.gens;
        reusable = s.reusable;
        live = λ n col at on.
            let ((gen, h), drawn) = s.live n col at on in
            ((gen, subst (λ k. col.body_ref.index < k) (sym same) h), drawn);
        protocol = s.protocol;
      }

  -- Where a placed collider comes from.
  origin :
      (w : World) (cols cols' : List Collider) (n : ℕ) (col' : Collider)
      → PlacedAll w cols cols'
      → get_elem? cols' n ≡ some col'
      → (col : Collider) × (get_elem? cols n ≡ some col) × Placed w col col'
  origin w cols cols' n col' ps at =
      let h : n < length cols = omega (arith, ps.sized, get_elem?-lt cols' n at) in
      let (col, e) = get_elem?-some cols n h in
      let (col'', at', p) = ps.each n col e in
      let same : col'' ≡ col' = ground (arith, at, at') in (col, e, subst (Placed w col) same p)

  Placed-IsLive :
      (w : World) (col col' : Collider)
      → Placed w col col'
      → (col.is_attached ≡ true → IsLive w col)
      → col'.is_attached ≡ true
      → IsLive w col'
  Placed-IsLive w col col' p live on = elim (Bool-cases col.is_attached) [
    | inr off ↦ absurd (ground (arith, off, on, ap (λ (c : Collider). c.is_attached) (p.idle off)))
    | inl before ↦
        let good = live before in
        let (b, e) = IsGood-get w col.body_ref good.0 in
        subst (IsLive w) (sym (p.follows b before e)) good
  ]

  SetsUp-AllLive : (w w' : World) → SetsUp w w' → AllLive w → AllLive w'
  SetsUp-AllLive w w' x live n col' at on =
      let (col, e, p) = origin w w.colliders w'.colliders n col' x.placed at in
      let good = Placed-IsLive w col col' p (live n col e) on in
      subst (λ v. IsLive v col') (sym x.same) good

  SetsUp-IsStocked : (w w' : World) → SetsUp w w' → AllLive w' → IsStocked w'
  unfolding get_collider
  SetsUp-IsStocked w w' x live i node _ at k e here =
      let (n, gen, col, found, g, on, shape) = x.stored i node at k e here in
      let gens : w'.collider_gen_indices ≡ w.collider_gen_indices =
        ap (λ v. v.collider_gen_indices) x.same in
      subst (IsKnown w') (sym shape) (
        col,
        rw (gens, g, ==_refl gen, found) refl,
        live n col found on,
        (col, found, on, ap (λ gens. get_elem? gens n) gens ∙ g),
      )

  SetsUp-IsSound : (w w' : World) → SetsUp w w' → IsSound w → IsSound w'
  SetsUp-IsSound w w' x s = record {
    sized = subst IsSized (sym x.same) s.sized;
    gens = subst HasGens (sym x.same) (s.gens ∙ sym x.placed.sized);
    reusable = x.reusable;
    live = SetsUp-AllLive w w' x s.live;
    protocol = subst Protocol (sym x.same) s.protocol;
  }

  Watches-IsSound : (w w' : World) → Watches w w' → IsSound w → IsSound w'
  Watches-IsSound w w' x s = record {
    sized = ap length x.body_gens ∙ s.sized ∙ sym x.sized;
    gens = ap length x.collider_gens ∙ s.gens ∙ sym (ap length x.colliders);
    reusable = subst IsReusable (sym x.tree) s.reusable;
    live = λ n col at on.
        let ((gen, h), drawn) =
          s.live n col (subst (λ cols. get_elem? cols n ≡ some col) x.colliders at) on in
        (
          (
            ap (λ gens. get_elem? gens col.body_ref.index) x.body_gens ∙ gen,
            subst (λ k. col.body_ref.index < k) (sym x.sized) h,
          ),
          drawn,
        );
    protocol = x.protocol s.protocol;
  }

  -- The collider has been moved to its body or left as it was.
  abbrev pub Relocates : Collider → Collider → Type 0
  Relocates col col' = col' ≡ record col { body_position = col'.body_position }

  Placed-Relocates :
      (w : World) (col col' : Collider)
      → Placed w col col'
      → (col.is_attached ≡ true → IsLive w col)
      → Relocates col col'
  Placed-Relocates w col col' p live = elim (Bool-cases col.is_attached) [
    | inr off ↦
        subst (λ (c : Collider). c ≡ record col { body_position = c.body_position })
          (sym (p.idle off)) refl
    | inl on ↦
        let (b, e) = IsGood-get w col.body_ref (live on).0 in
        subst (λ (c : Collider). c ≡ record col { body_position = c.body_position })
          (sym (p.follows b on e)) refl
  ]

  -- What a frame leaves of the bodies and colliders, and the calls that the listener receives.
  pub record KeepsBodies (w w' : World) : Type 0 where
    pub sized : length w'.bodies ≡ length w.bodies
    pub each :
        (n : ℕ) (b : Body)
        → get_elem? w.bodies n ≡ some b
        → (b' : Body) × (get_elem? w'.bodies n ≡ some b')
          × (b'.mass ≡ b.mass)
          × (b'.type ≡ b.type)
          × (b.type ≡ static → b'.position ≡ b.position)
    pub body_gens : w'.body_gen_indices ≡ w.body_gen_indices
    pub collider_gens : w'.collider_gen_indices ≡ w.collider_gen_indices
    pub colliders_sized : length w'.colliders ≡ length w.colliders
    pub each_collider :
        (n : ℕ) (col : Collider)
        → get_elem? w.colliders n ≡ some col
        → (col' : Collider) × (get_elem? w'.colliders n ≡ some col') × Relocates col col'
    pub unheard : w.contact_listener ≡ none → w'.contact_listener ≡ none
    pub heard :
        (log : List Event)
        → w.contact_listener ≡ some log
        → Hears (slots w') log w'.contact_listener
    pub valid : IsValid w'.quad_tree
    pub root_in_use : 0 < w'.quad_tree.node_index

  KeepsBodies-frame :
      (dt : Float) (w w1 w2 w3 : World)
      → w1 ≡ update_bodies dt w
      → AllLive w1
      → SetsUp w1 w2
      → Watches w2 w3
      → KeepsBodies w w3
  unfolding update_bodies
  KeepsBodies-frame dt w w1 w2 w3 moved live x y =
      let placed : w2.bodies ≡ w1.bodies = ap (λ v. v.bodies) x.same in
      let cols : w1.colliders ≡ w.colliders = ap (λ v. v.colliders) moved in
      let gens : w1.collider_gen_indices ≡ w.collider_gen_indices =
        ap (λ v. v.collider_gen_indices) moved in
      let listener : w2.contact_listener ≡ w.contact_listener =
        ap (λ v. v.contact_listener) x.same ∙ ap (λ v. v.contact_listener) moved in
      let stepped : w1.bodies ≡ (update_bodies dt w).bodies = ap (λ v. v.bodies) moved in
      record {
        sized =
            y.sized ∙ ap length placed ∙ ap length stepped ∙ map-length (update_body dt) w.bodies;
        each = λ n b at.
            let (b1, e1, k1) = update_bodies-Keeps dt w n b at in
            let at2 : get_elem? w2.bodies n ≡ some b1 =
              ap (λ bs. get_elem? bs n) (placed ∙ stepped) ∙ e1 in
            let (b3, e3, k3) = y.each n b1 at2 in
            (
              b3,
              e3,
              k3.mass ∙ k1.mass,
              k3.type ∙ k1.type,
              λ p. k3.held (k1.type ∙ p) ∙ ap (λ (c : Body). c.position) (k1.held p),
            );
        body_gens =
            y.body_gens ∙ ap (λ v. v.body_gen_indices) x.same ∙ ap (λ v. v.body_gen_indices) moved;
        collider_gens = y.collider_gens ∙ ap (λ v. v.collider_gen_indices) x.same ∙ gens;
        colliders_sized = ap length y.colliders ∙ x.placed.sized ∙ ap length cols;
        each_collider = λ n col at.
            let (col', at', p) = x.placed.each n col (ap (λ cs. get_elem? cs n) cols ∙ at) in
            (
              col',
              ap (λ cs. get_elem? cs n) y.colliders ∙ at',
              Placed-Relocates w1 col col' p (live n col (ap (λ cs. get_elem? cs n) cols ∙ at)),
            );
        unheard = λ e. (y.silent (listener ∙ e)).0;
        heard = λ log e.
            let (calls, e', named) = y.heard log (listener ∙ e) in
            (calls, e', subst (λ s. All (Names s) calls) (sym (Watches-slots w2 w3 y)) named);
        valid = subst IsValid (sym y.tree) x.valid;
        root_in_use = subst (λ t. 0 < t.node_index) (sym y.tree) x.root_in_use;
      }

  -- From a sound world `Update` returns normally: no exception, no access beyond a vector or through
  -- a null pointer, no endless recursion. The world it leaves is sound again. The number of bodies,
  -- their masses and types, and the positions of static bodies stay, so do all references and the
  -- colliders but for the positions of attached ones. The calls that the listener receives are about
  -- attached colliders. The tree is valid. A world is sound if it has one
  -- generation index for each body and collider and a tree that can be reused, if attached colliders
  -- have bodies that can be found and polygons among them vertices, and if the listener has been
  -- called as `_colRefPairs` says.
  pub step-IsSound :
      (dt : Float) (w : World)
      → IsSound w
      → (w' : World) × (step dt w ≡ ok w') × IsSound w' × KeepsBodies w w'
  unfolding step
  step-IsSound dt w s =
      let w1 = update_bodies dt w in
      let s1 = update_bodies-IsSound dt w s in
      let (w2, e2, x2) =
        set_up_quad_tree-SetsUp w1 s1.reusable s1.gens
          (λ n col at on. IsGood-get w1 col.body_ref (s1.live n col at on).0) in
      let s2 = SetsUp-IsSound w1 w2 x2 s1 in
      let (w3, e3, x3) =
        update_quad_tree_collisions-Returns insert_fuel w2 0 x2.reusable.root x2.valid
          (SetsUp-IsStocked w1 w2 x2 s2.live) x2.root_in_use x2.reusable.found
          (omega (arith, x2.reusable.at_top)) in
      (
        w3,
        rw (e2, e3) refl,
        Watches-IsSound w2 w3 x3 s2,
        KeepsBodies-frame dt w w1 w2 w3 refl s1.live x2 x3,
      )

-- ===== src/Physics/World/Ready.antt =====
-- Worlds of Physics/src/World.cpp whose clients create bodies and colliders and never destroy one,
-- as the samples do: the colliders that are attached stand first.
pub mod Creation
pub mod Changes
use bark_direct_x.Prelude.{
  ℕ, ◌≤◌, ◌<◌, ◌≡◌, refl, sym, ap, subst, ◌∙◌, ◌⊎◌, inl, inr, Option, true, none, some, List, [],
  arith, length, get_elem?, get_elem?-some, get_elem?-lt, suc, replicate, length-replicate, resize,
}
use bark_direct_x.Prelude.Outcome.{ok}
use bark_direct_x.Math.{Math}
use bark_direct_x.Physics.Refs.{BodyRef, ColliderRef}
use bark_direct_x.Physics.Body
use bark_direct_x.Physics.Collider.{Collider}
use bark_direct_x.Physics.Collider
use bark_direct_x.Physics.QuadTree.{new_node, nodes_count}
use bark_direct_x.Physics.QuadTree
use bark_direct_x.Physics.QuadTree.Root.{IsReusable, make-IsReusable, fresh-IsValid, unused_leaves}
use bark_direct_x.Physics.QuadTree.Valid.{IsValid}
use bark_direct_x.Physics.World.{World, Event, new_world, set_up, set_contact_listener, tear_down}
use bark_direct_x.Physics.World.Operations.{AllDrawn, replicate-get, resize-empty, resize-length}
use bark_direct_x.Physics.World.Overlaps.{HasVertices}
use bark_direct_x.Physics.World.Protocol.{Alternates, open_pairs, Protocol, Follows}
use bark_direct_x.Physics.World.Triggers.{IsGood}
use bark_direct_x.Physics.World.Step.{step}
use bark_direct_x.Physics.World.Frames.{IsSound, KeepsBodies, Relocates, step-IsSound}

module _ ⦃m : Math⦄ where
  open m use {Float}

  -- A sound world with `k` attached colliders, which stand first.
  pub record IsReady (k : ℕ) (w : World) : Type 0 where
    pub sound : IsSound w
    pub drawn : AllDrawn w
    pub body_room : 0 < length w.bodies
    pub collider_room : 0 < length w.colliders
    pub valid : IsValid w.quad_tree
    pub root_in_use : 0 < w.quad_tree.node_index
    pub within : k ≤ length w.colliders
    pub taken :
        (n : ℕ) (col : Collider)
        → n < k
        → get_elem? w.colliders n ≡ some col
        → col.is_attached ≡ true
    pub beyond :
        (n : ℕ) (col : Collider)
        → get_elem? w.colliders n ≡ some col
        → col.is_attached ≡ true
        → n < k

  -- The reference is that of collider `n`.
  abbrev pub Refers : World → ℕ → ColliderRef → Type 0
  Refers w n ref =
      (ref.index ≡ n) × (get_elem? w.collider_gen_indices ref.index ≡ some ref.gen_index)

  -- References stay good.
  pub record Extends (w w' : World) : Type 0 where
    pub good : (ref : BodyRef) → IsGood w ref → IsGood w' ref
    pub refers : (n : ℕ) (ref : ColliderRef) → Refers w n ref → Refers w' n ref

  pub Extends-refl : (w : World) → Extends w w
  Extends-refl w = record { good = λ ref h. h; refers = λ n ref h. h }

  pub Extends-trans : (u v w : World) → Extends u v → Extends v w → Extends u w
  Extends-trans u v w p q = record {
    good = λ ref h. q.good ref (p.good ref h);
    refers = λ n ref h. q.refers n ref (p.refers n ref h);
  }

  -- A world before `SetUp`: a new one, or one that has been torn down.
  pub record IsClear (w : World) : Type 0 where
    pub reusable : IsReusable w.quad_tree
    pub valid : IsValid w.quad_tree
    pub root_in_use : 0 < w.quad_tree.node_index
    pub empty :
        (w.bodies ≡ [])
        × (w.colliders ≡ [])
        × (w.body_gen_indices ≡ [])
        × (w.collider_gen_indices ≡ [])
        × (w.col_ref_pairs ≡ [])

  pub new_world-IsClear : IsClear new_world
  unfolding new_world QuadTree.make nodes_count
  new_world-IsClear = record {
    reusable = make-IsReusable;
    valid =
        fresh-IsValid new_node (replicate 1364 new_node) (ap suc (length-replicate 1364 new_node))
          refl refl (unused_leaves 1364);
    root_in_use = omega arith;
    empty = (refl, refl, refl, refl, refl);
  }

  pub tear_down-IsClear : (k : ℕ) (w : World) → IsReady k w → IsClear (tear_down w)
  unfolding tear_down
  tear_down-IsClear k w r = record {
    reusable = r.sound.reusable;
    valid = r.valid;
    root_in_use = r.root_in_use;
    empty = (refl, refl, refl, refl, refl);
  }

  -- The listener has not been called, or there is none.
  abbrev pub IsSilent : Option (List Event) → Type 0
  IsSilent listener = (listener ≡ none) ⊎ (listener ≡ some [])

  silent-Protocol : (w : World) → IsSilent w.contact_listener → w.col_ref_pairs ≡ [] → Protocol w
  unfolding Alternates open_pairs
  silent-Protocol w (inl deaf) e log at = absurd (ground (arith, deaf, at))
  silent-Protocol w (inr fresh) e log at =
      let same : [] ≡ log = ground (arith, fresh, at) in subst (Follows w) same (tt, sym e)

  -- The slots of a vector that has been resized.
  slots-default :
      (cols : List Collider) (slots n : ℕ) (col : Collider)
      → cols ≡ []
      → get_elem? (resize cols slots Collider.default) n ≡ some col
      → Collider.default ≡ col
  slots-default cols slots n col e at = replicate-get slots n Collider.default (
      ap (λ cs. get_elem? cs n)
        (sym (ap (λ cs. resize cs slots Collider.default) e ∙ resize-empty slots Collider.default))
      ∙ at)

  resized {ℓ} : {A : Type ℓ} (xs : List A) (n : ℕ) (a : A) → xs ≡ [] → length (resize xs n a) ≡ n
  resized xs n a e = ap (λ ys. length (resize ys n a)) e ∙ resize-length n a

  -- `SetUp` of a clear world with some slots makes it ready, when its listener is new or there is
  -- none.
  pub set_up-IsReady :
      (slots : ℕ) (w : World) (listener : Option (List Event))
      → 0 < slots
      → IsClear w
      → IsSilent listener
      → IsReady 0 (set_contact_listener (set_up w slots) listener)
  unfolding set_up set_contact_listener Collider.default
  set_up-IsReady slots w listener h c quiet =
      let (no_bodies, no_cols, no_body_gens, no_col_gens, no_pairs) = c.empty in
      record {
        sound = record {
          sized =
              resized w.body_gen_indices slots 0 no_body_gens
              ∙ sym (resized w.bodies slots Body.default no_bodies);
          gens =
              resized w.collider_gen_indices slots 0 no_col_gens
              ∙ sym (resized w.colliders slots Collider.default no_cols);
          reusable = c.reusable;
          live = λ n col at on. absurd (idle n col at on);
          protocol =
              silent-Protocol (set_contact_listener (set_up w slots) listener) quiet no_pairs;
        };
        drawn = λ n col at.
            subst (λ (k : Collider). HasVertices k.shape)
              (slots-default w.colliders slots n col no_cols at) tt;
        body_room = omega (arith, resized w.bodies slots Body.default no_bodies);
        collider_room = omega (arith, resized w.colliders slots Collider.default no_cols);
        valid = c.valid;
        root_in_use = c.root_in_use;
        within = omega arith;
        taken = λ n col l at. absurd (omega arith);
        beyond = λ n col at on. absurd (idle n col at on);
      }
    where
      idle :
          (n : ℕ) (col : Collider)
          → get_elem? (resize w.colliders slots Collider.default) n ≡ some col
          → col.is_attached ≡ true
          → ⊥
      idle n col at on =
          let same = slots-default w.colliders slots n col c.empty.1 at in
          ground (arith, on, ap (λ (k : Collider). k.is_attached) same)

  -- Where a collider of the next frame comes from.
  before :
      (w w' : World) (n : ℕ) (col' : Collider)
      → KeepsBodies w w'
      → get_elem? w'.colliders n ≡ some col'
      → (col : Collider) × (get_elem? w.colliders n ≡ some col) × Relocates col col'
  before w w' n col' x at =
      let h : n < length w.colliders =
        omega (arith, x.colliders_sized, get_elem?-lt w'.colliders n at) in
      let (col, e) = get_elem?-some w.colliders n h in
      let (col'', at', p) = x.each_collider n col e in
      let same : col'' ≡ col' = ground (arith, at, at') in (col, e, subst (Relocates col) same p)

  -- `Update` keeps a world ready.
  pub step-IsReady :
      (dt : Float) (k : ℕ) (w : World)
      → IsReady k w
      → (w' : World) × (step dt w ≡ ok w') × IsReady k w' × KeepsBodies w w' × Extends w w'
  step-IsReady dt k w r =
      let (w', e, sound, x) = step-IsSound dt w r.sound in
      (
        w',
        e,
        record {
          sound = sound;
          drawn = λ n col' at.
              let (col, old, p) = before w w' n col' x at in
              subst HasVertices (sym (ap (λ (c : Collider). c.shape) p)) (r.drawn n col old);
          body_room = omega (arith, x.sized, r.body_room);
          collider_room = omega (arith, x.colliders_sized, r.collider_room);
          valid = x.valid;
          root_in_use = x.root_in_use;
          within = omega (arith, x.colliders_sized, r.within);
          taken = λ n col' l at.
              let (col, old, p) = before w w' n col' x at in
              ap (λ (c : Collider). c.is_attached) p ∙ r.taken n col l old;
          beyond = λ n col' at on.
              let (col, old, p) = before w w' n col' x at in
              r.beyond n col old (sym (ap (λ (c : Collider). c.is_attached) p) ∙ on);
        },
        x,
        record {
          good = λ ref (gen, l).
              (ap (λ gens. get_elem? gens ref.index) x.body_gens ∙ gen, omega (arith, x.sized, l));
          refers =
              λ n ref (i, gen). (i, ap (λ gens. get_elem? gens ref.index) x.collider_gens ∙ gen);
        },
      )

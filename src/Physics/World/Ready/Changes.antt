-- ===== src/Physics/World/Ready/Changes.antt =====
-- What the clients of Physics/src/World.cpp do through `GetBody` and `GetCollider` to a world that is
-- ready.
use bark_direct_x.Prelude.{
  ℕ, ◌<◌, ◌≡◌, refl, sym, ap, subst, ◌∙◌, inl, inr, true, some, arith, get_elem?, set,
  get_elem?-some, get_elem?-set_cases, length-set, ==_refl,
}
use bark_direct_x.Prelude.Outcome.{ok}
use bark_direct_x.Math.{Math}
use bark_direct_x.Physics.Refs.{BodyRef, ColliderRef}
use bark_direct_x.Physics.Body.{Body}
use bark_direct_x.Physics.Collider.{Collider}
use bark_direct_x.Physics.World.{World, modify_body, get_collider, modify_collider}
use bark_direct_x.Physics.World.Overlaps.{HasVertices}
use bark_direct_x.Physics.World.Triggers.{IsGood, IsLive}
use bark_direct_x.Physics.World.Ready.{IsReady, Refers, Extends}

module _ ⦃m : Math⦄ where
  -- Any change of a body that can be found.
  pub modify_body-IsReady :
      (k : ℕ) (w : World) (ref : BodyRef) (f : Body → Body)
      → IsReady k w
      → IsGood w ref
      → (w' : World) × (modify_body w ref f ≡ ok w')
        × IsReady k w'
        × Extends w w'
        × (w' ≡ record w { bodies = w'.bodies })
  unfolding modify_body
  modify_body-IsReady k w ref f r (gen, h) =
      let (b, at) = get_elem?-some w.bodies ref.index h in
      let kept = length-set w.bodies ref.index (f b) in
      (
        record w { bodies = set w.bodies ref.index (f b) },
        rw (gen, ==_refl ref.gen_index, at) refl,
        record {
          sound = record {
            sized = r.sound.sized ∙ sym kept;
            gens = r.sound.gens;
            reusable = r.sound.reusable;
            live = λ n col at on.
                let ((g, l), drawn) = r.sound.live n col at on in
                ((g, subst (λ size. col.body_ref.index < size) (sym kept) l), drawn);
            protocol = r.sound.protocol;
          };
          drawn = r.drawn;
          body_room = omega (arith, kept, r.body_room);
          collider_room = r.collider_room;
          valid = r.valid;
          root_in_use = r.root_in_use;
          within = r.within;
          taken = r.taken;
          beyond = r.beyond;
        },
        record { good = λ other (g, l). (g, omega (arith, kept, l)); refers = λ n other h. h },
        refl,
      )

  -- A change of a collider that leaves its attachment alone and draws it with vertices.
  pub record Redraws (f : Collider → Collider) : Type 0 where
    pub owner : (col : Collider) → (f col).body_ref ≡ col.body_ref
    pub attached : (col : Collider) → (f col).is_attached ≡ col.is_attached
    pub drawn : (col : Collider) → HasVertices col.shape → HasVertices (f col).shape

  -- The collider that a reference leads to.
  pub Refers-get :
      (k n : ℕ) (w : World) (ref : ColliderRef)
      → IsReady k w
      → n < k
      → Refers w n ref
      → (col : Collider) × (get_collider w ref ≡ ok col)
        × (get_elem? w.colliders n ≡ some col)
        × IsLive w col
  unfolding get_collider
  Refers-get k n w ref r h (i, gen) =
      let (col, at) = get_elem?-some w.colliders n (omega (arith, r.within)) in
      (
        col,
        rw (gen, ==_refl ref.gen_index, ap (get_elem? w.colliders) i ∙ at) refl,
        at,
        r.sound.live n col at (r.taken n col h at),
      )

  pub modify_collider-IsReady :
      (k n : ℕ) (w : World) (ref : ColliderRef) (f : Collider → Collider)
      → IsReady k w
      → n < k
      → Refers w n ref
      → Redraws f
      → (w' : World) × (modify_collider w ref f ≡ ok w')
        × IsReady k w'
        × Extends w w'
        × (w' ≡ record w { colliders = w'.colliders })
        × ((col : Collider) × (w'.colliders ≡ set w.colliders ref.index (f col)))
  unfolding modify_collider
  modify_collider-IsReady k n w ref f r h (i, gen) re =
      let (col, at) = get_elem?-some w.colliders ref.index (omega (arith, r.within, i)) in
      let kept = length-set w.colliders ref.index (f col) in
      let on : col.is_attached ≡ true = r.taken ref.index col (omega (arith, i)) at in
      (
        record w { colliders = set w.colliders ref.index (f col) },
        rw (gen, ==_refl ref.gen_index, at) refl,
        record {
          sound = record {
            sized = r.sound.sized;
            gens = r.sound.gens ∙ sym kept;
            reusable = r.sound.reusable;
            live = λ j c at' on'. elim (get_elem?-set_cases w.colliders ref.index j (f col) at') [
              | inl (_, e) ↦
                  let (g, drawn) = r.sound.live ref.index col at on in
                  subst (IsLive w) (sym e)
                    (subst (IsGood w) (sym (re.owner col)) g, re.drawn col drawn)
              | inr (_, old) ↦ r.sound.live j c old on'
            ];
            protocol = r.sound.protocol;
          };
          drawn = λ j c at'. elim (get_elem?-set_cases w.colliders ref.index j (f col) at') [
            | inl (_, e) ↦
                subst (λ (x : Collider). HasVertices x.shape) (sym e)
                  (re.drawn col (r.drawn ref.index col at))
            | inr (_, old) ↦ r.drawn j c old
          ];
          body_room = r.body_room;
          collider_room = omega (arith, kept, r.collider_room);
          valid = r.valid;
          root_in_use = r.root_in_use;
          within = omega (arith, kept, r.within);
          taken = λ j c l at'. elim (get_elem?-set_cases w.colliders ref.index j (f col) at') [
            | inl (_, e) ↦ ap (λ (x : Collider). x.is_attached) e ∙ re.attached col ∙ on
            | inr (_, old) ↦ r.taken j c l old
          ];
          beyond = λ j c at' on'. elim (get_elem?-set_cases w.colliders ref.index j (f col) at') [
            | inl (same, _) ↦ omega (arith, same, i)
            | inr (_, old) ↦ r.beyond j c old on'
          ];
        },
        record { good = λ other g. g; refers = λ j other g. g },
        refl,
        (col, refl),
      )

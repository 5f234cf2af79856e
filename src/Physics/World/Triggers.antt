-- ===== src/Physics/World/Triggers.antt =====
-- The body of the loops of `UpdateQuadTreeCollisions` in Physics/src/World.cpp: one pair of
-- colliders.
use bark_direct_x.Prelude.{
  ◌<◌, ◌≡◌, refl, sym, subst, ap, ◌∙◌, inl, inr, Bool, true, false, not, ◌&&◌, none, some, List,
  ◌∷◌, arith, length, get_elem?, get_elem?-some, Option-cases, Bool-cases, ==_refl,
}
use bark_direct_x.Prelude.Outcome.{Outcome, ok}
use bark_direct_x.Math.{Math}
use bark_direct_x.Physics.Refs.{BodyRef, ColliderRef, ColliderRefPair}
use bark_direct_x.Physics.Body.{Body}
use bark_direct_x.Physics.Collider.{Collider}
use bark_direct_x.Physics.Contact
use bark_direct_x.Physics.Contact.Resolve.{resolve-Resolves}
use bark_direct_x.Physics.World.{
  World, Event, on_trigger_enter, on_trigger_exit, on_collision_enter, on_collision_exit, get_body,
}
use bark_direct_x.Physics.World.Collisions.{
  pair_of, contains_pair, emplace, erase, overlap, notify, collide, watch, meet,
}
use bark_direct_x.Physics.World.Overlaps.{HasVertices, intersect-answers}
use bark_direct_x.Physics.World.Protocol.{
  IsNamed, Names, slots, Watches-slots, open_pairs, Alternates, Follows, Watches, Watches-refl,
  Watches-trans, Moves-Watches, notify-Watches,
}

module _ ⦃m : Math⦄ where
  -- The reference is good: `GetBody` finds its body.
  abbrev pub IsGood : World → BodyRef → Type 0
  IsGood w ref =
      (get_elem? w.body_gen_indices ref.index ≡ some ref.gen_index) × (ref.index < length w.bodies)

  -- The collider can be compared with others.
  abbrev pub IsLive : World → Collider → Type 0
  IsLive w col = IsGood w col.body_ref × HasVertices col.shape

  pub IsGood-get : (w : World) (ref : BodyRef) → IsGood w ref → (b : Body) × (get_body w ref ≡ ok b)
  unfolding get_body
  IsGood-get w ref (gen, h) =
      let (b, e) = get_elem?-some w.bodies ref.index h in
      (b, rw (gen, ==_refl ref.gen_index, e) refl)

  overlap-answers :
      (w : World) (a b : Collider)
      → IsLive w a
      → IsLive w b
      → (hit : Bool) × (overlap w a b ≡ ok hit)
  unfolding overlap
  overlap-answers w a b (good_a, drawn_a) (good_b, drawn_b) =
      let (x, ex) = IsGood-get w a.body_ref good_a in
      let (y, ey) = IsGood-get w b.body_ref good_b in
      let (hit, e) = intersect-answers a.shape x.position b.shape y.position drawn_a drawn_b in
      (hit, rw (ex, ey, e) refl)

  -- The call returns, having changed no more than `Watches` says.
  abbrev pub Returns : World → Outcome World → Type 0
  Returns w r = (w' : World) × (r ≡ ok w') × Watches w w'

  module _ (w : World) (ref1 ref2 : ColliderRef) (col1 col2 : Collider) (live1 : IsLive w col1)
      (live2 : IsLive w col2) (named1 : IsNamed (slots w) ref1)
      (named2 : IsNamed (slots w) ref2) where
    -- A collision event, after the bodies have moved or not.
    collision :
        (v : World) (event : Event)
        → Watches w v
        → Names (slots w) event
        → ((log : List Event)
            → v.contact_listener ≡ some log
            → Follows v log
            → Alternates (event ∷ log) × (open_pairs (event ∷ log) ≡ v.col_ref_pairs))
        → Watches w (notify event v)
    unfolding notify
    collision v event x named step = Watches-trans w v (notify event v) x (
        notify-Watches v event v.col_ref_pairs
          (subst (λ named. Names named event) (sym (Watches-slots w v x)) named) (λ _. refl) step)

    collide-Returns : Returns w (collide w ref1 ref2 col1 col2)
    unfolding collide open_pairs Alternates
    collide-Returns =
        let (hit, e) = overlap-answers w col1 col2 live1 live2 in
        elim (Bool-cases hit) [
          | inr miss ↦ (
            notify (on_collision_exit ref1 ref2) w,
            rw (e, miss) refl,
            collision w (on_collision_exit ref1 ref2) (Watches-refl w) (named1, named2)
                (λ log _ f. f),
          )
          | inl met ↦
              let (x, ex) = IsGood-get w col1.body_ref live1.0 in
              let (y, ey) = IsGood-get w col2.body_ref live2.0 in
              let contact : Contact.Contact =
                Contact.make (record { body = col1.body_ref.index; collider = col1 })
                  (record { body = col2.body_ref.index; collider = col2 }) in
              let (bodies, c', er, moves, _) =
                resolve-Resolves 0 w.bodies contact live1.0.1 live2.0.1 in
              let v : World = record w { bodies = bodies } in
              (
                notify (on_collision_enter ref1 ref2) v,
                rw (e, met, ex, ey, er) refl,
                collision v (on_collision_enter ref1 ref2)
                    (Moves-Watches w col1.body_ref.index col2.body_ref.index bodies moves)
                    (named1, named2) (λ log _ f. f),
              )
        ]

    watch-Returns :
        {log : List Event} → w.contact_listener ≡ some log → Returns w (watch w ref1 ref2 col1 col2)
    unfolding watch open_pairs Alternates emplace
    watch-Returns {log} listens =
        let (hit, e) = overlap-answers w col1 col2 live1 live2 in
        elim (Bool-cases (contains_pair pair w.col_ref_pairs)) [
          | inl inside ↦ elim (Bool-cases hit) [
            | inl met ↦ (w, rw (e, inside, met) refl, Watches-refl w)
            | inr miss ↦ (
              record (notify exit w) { col_ref_pairs = erase pair w.col_ref_pairs },
              rw (e, inside, miss) refl,
              notify-Watches w exit (erase pair w.col_ref_pairs) (named1, named2) heard
                  (leaves inside),
            )
          ]
          | inr outside ↦ elim (Bool-cases hit) [
            | inl met ↦ (
              record (notify enter w) { col_ref_pairs = emplace pair w.col_ref_pairs },
              rw (e, outside, met) refl,
              notify-Watches w enter (emplace pair w.col_ref_pairs) (named1, named2) heard
                  (enters outside),
            )
            | inr miss ↦ (w, rw (e, outside, miss) refl, Watches-refl w)
          ]
        ]
      where
        pair : ColliderRefPair
        pair = pair_of ref1 ref2

        enter : Event
        enter = on_trigger_enter ref1 ref2

        exit : Event
        exit = on_trigger_exit ref1 ref2

        heard : {pairs : List ColliderRefPair} → w.contact_listener ≡ none → pairs ≡ w.col_ref_pairs
        heard deaf = absurd (ground (arith, listens, deaf))

        leaves :
            contains_pair pair w.col_ref_pairs ≡ true
            → (log : List Event) → w.contact_listener ≡ some log
            → Follows w log
            → Alternates (exit ∷ log) × (open_pairs (exit ∷ log) ≡ erase pair w.col_ref_pairs)
        leaves inside log _ (f, same) =
            ((ap (contains_pair pair) same ∙ inside, f), ap (erase pair) same)

        enters :
            contains_pair pair w.col_ref_pairs ≡ false
            → (log : List Event) → w.contact_listener ≡ some log
            → Follows w log
            → Alternates (enter ∷ log) × (open_pairs (enter ∷ log) ≡ emplace pair w.col_ref_pairs)
        enters outside log _ (f, same) = (
          (ap (contains_pair pair) same ∙ outside, f),
          ap (λ ps. pair ∷ ps) same ∙ rw outside refl,
        )

    pub meet-Returns : Returns w (meet w ref1 ref2 col1 col2)
    unfolding meet
    meet-Returns = elim (Bool-cases (not col2.is_trigger && not col1.is_trigger)) [
      | inl solid ↦ let (w', e, x) = collide-Returns in (w', rw solid e, x)
      | inr trigger ↦ elim (Option-cases w.contact_listener) [
        | inl deaf ↦ (w, ground (arith, trigger, deaf), Watches-refl w)
        | inr (log, listens) ↦
            let (w', e, x) = watch-Returns listens in (w', ground (arith, trigger, listens, e), x)
      ]
    ]

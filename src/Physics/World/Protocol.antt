-- ===== src/Physics/World/Protocol.antt =====
-- What `UpdateQuadTreeCollisions` of Physics/src/World.cpp leaves of a world and of the calls of its
-- contact listener.
use bark_direct_x.Prelude.{
  ℕ, ◌≡◌, refl, ap, ap₂, subst, ◌∙◌, inl, inr, true, false, Option, none, some, List, [], ◌∷◌, ◌++◌,
  arith, length, get_elem?, Option-cases, sym, All, All-append, append_assoc,
}
use mathlib.Core.Option
use bark_direct_x.Math.{Math}
use bark_direct_x.Physics.Refs.{ColliderRef, ColliderRefPair}
use bark_direct_x.Physics.Body.{Body, static}
use bark_direct_x.Physics.Collider.{Collider}
use bark_direct_x.Physics.Contact.Frame.{Moves}
use bark_direct_x.Physics.World.{
  World, Event, on_trigger_enter, on_trigger_exit, on_collision_enter, on_collision_exit,
}
use bark_direct_x.Physics.World.Collisions.{pair_of, contains_pair, erase, notify}

-- The pairs that have entered and not left, read off the log of the listener's calls.
unfoldable pub open_pairs : List Event → List ColliderRefPair
unfolding erase
open_pairs [] = []
open_pairs (on_trigger_enter a b ∷ log) = pair_of a b ∷ open_pairs log
open_pairs (on_trigger_exit a b ∷ log) = erase (pair_of a b) (open_pairs log)
open_pairs (on_collision_enter a b ∷ log) = open_pairs log
open_pairs (on_collision_exit a b ∷ log) = open_pairs log

-- A pair enters only while it is out, and leaves only while it is in.
unfoldable pub Alternates : List Event → Type 0
unfolding open_pairs contains_pair
Alternates [] = Unit
Alternates (on_trigger_enter a b ∷ log) =
    (contains_pair (pair_of a b) (open_pairs log) ≡ false) × Alternates log
Alternates (on_trigger_exit a b ∷ log) =
    (contains_pair (pair_of a b) (open_pairs log) ≡ true) × Alternates log
Alternates (on_collision_enter a b ∷ log) = Alternates log
Alternates (on_collision_exit a b ∷ log) = Alternates log

module _ ⦃m : Math⦄ where
  -- The log alternates, and `_colRefPairs` holds the pairs that are in.
  abbrev pub Follows : World → List Event → Type 0
  Follows w log = Alternates log × (open_pairs log ≡ w.col_ref_pairs)

  abbrev pub Protocol : World → Type 0
  Protocol w = (log : List Event) → w.contact_listener ≡ some log → Follows w log

  -- The colliders and their generations.
  abbrev pub Slots : Type 0
  Slots = List Collider × List ℕ

  abbrev pub slots : World → Slots
  slots w = (w.colliders, w.collider_gen_indices)

  -- The reference is that of an attached collider.
  abbrev pub IsNamed : Slots → ColliderRef → Type 0
  IsNamed (cols, gens) ref =
      (col : Collider) × (get_elem? cols ref.index ≡ some col)
      × (col.is_attached ≡ true)
      × (get_elem? gens ref.index ≡ some ref.gen_index)

  -- The event is about attached colliders.
  abbrev pub Names : Slots → Event → Type 0
  Names named (on_trigger_enter a b) = IsNamed named a × IsNamed named b
  Names named (on_trigger_exit a b) = IsNamed named a × IsNamed named b
  Names named (on_collision_enter a b) = IsNamed named a × IsNamed named b
  Names named (on_collision_exit a b) = IsNamed named a × IsNamed named b

  -- The calls that a listener receives between two states of its log.
  abbrev pub Hears : Slots → List Event → Option (List Event) → Type 0
  Hears named log after =
      (calls : List Event) × (after ≡ some (calls ++ log)) × All (Names named) calls

  -- A body after some contacts.
  pub record Kept (b b' : Body) : Type 0 where
    pub mass : b'.mass ≡ b.mass
    pub type : b'.type ≡ b.type
    pub force : b'.force ≡ b.force
    pub held : b.type ≡ static → b'.position ≡ b.position

  pub record Watches (w w' : World) : Type 0 where
    pub colliders : w'.colliders ≡ w.colliders
    pub collider_gens : w'.collider_gen_indices ≡ w.collider_gen_indices
    pub body_gens : w'.body_gen_indices ≡ w.body_gen_indices
    pub tree : w'.quad_tree ≡ w.quad_tree
    pub sized : length w'.bodies ≡ length w.bodies
    pub each :
        (n : ℕ) (b : Body)
        → get_elem? w.bodies n ≡ some b
        → (b' : Body) × (get_elem? w'.bodies n ≡ some b') × Kept b b'
    pub silent :
        w.contact_listener ≡ none
        → (w'.contact_listener ≡ none) × (w'.col_ref_pairs ≡ w.col_ref_pairs)
    pub protocol : Protocol w → Protocol w'
    pub heard :
        (log : List Event) → w.contact_listener ≡ some log → Hears (slots w) log w'.contact_listener

  pub Watches-slots : (w w' : World) → Watches w w' → slots w' ≡ slots w
  Watches-slots w w' x = ap₂ (λ cols gens. (cols, gens)) x.colliders x.collider_gens

  pub Watches-refl : (w : World) → Watches w w
  Watches-refl w = record {
    colliders = refl;
    collider_gens = refl;
    body_gens = refl;
    tree = refl;
    sized = refl;
    each = λ n b e. (b, e, record { mass = refl; type = refl; force = refl; held = λ _. refl });
    silent = λ e. (e, refl);
    protocol = λ p. p;
    heard = λ log e. ([], e, tt);
  }

  Kept-trans : (a b c : Body) → Kept a b → Kept b c → Kept a c
  Kept-trans a b c p q = record {
    mass = q.mass ∙ p.mass;
    type = q.type ∙ p.type;
    force = q.force ∙ p.force;
    held = λ h. q.held (p.type ∙ h) ∙ p.held h;
  }

  pub Watches-trans : (u v w : World) → Watches u v → Watches v w → Watches u w
  Watches-trans u v w p q = record {
    colliders = q.colliders ∙ p.colliders;
    collider_gens = q.collider_gens ∙ p.collider_gens;
    body_gens = q.body_gens ∙ p.body_gens;
    tree = q.tree ∙ p.tree;
    sized = q.sized ∙ p.sized;
    each = λ n b e.
        let (b', e', s) = p.each n b e in
        let (b'', e'', s') = q.each n b' e' in (b'', e'', Kept-trans b b' b'' s s');
    silent = λ e. let (e', s) = p.silent e in let (e'', s') = q.silent e' in (e'', s' ∙ s);
    protocol = λ h. q.protocol (p.protocol h);
    heard = λ log e.
        let (calls, after, named) = p.heard log e in
        let (later, after', named') = q.heard (calls ++ log) after in
        (
          later ++ calls,
          after' ∙ ap some (sym (append_assoc later calls log)),
          All-append (Names (slots u)) later calls
              (subst (λ named. All (Names named) later) (Watches-slots u v p) named') named,
        );
  }

  -- The bodies after a contact.
  pub Moves-Watches :
      (w : World) (i j : ℕ) (bodies : List Body)
      → Moves i j w.bodies bodies
      → Watches w (record w { bodies = bodies })
  Moves-Watches w i j bodies moves = record {
    colliders = refl;
    collider_gens = refl;
    body_gens = refl;
    tree = refl;
    sized = moves.sized;
    each = λ n b e.
        let (b', e', s) = moves.each n b e in
        (b', e', record { mass = s.mass; type = s.type; force = s.force; held = s.held });
    silent = λ e. (e, refl);
    protocol = λ h. h;
    heard = λ log e. ([], e, tt);
  }

  -- An event goes to the log, and the set of pairs changes with it.
  pub notify-Watches :
      (w : World) (event : Event) (pairs : List ColliderRefPair)
      → Names (slots w) event
      → (w.contact_listener ≡ none → pairs ≡ w.col_ref_pairs)
      → ((log : List Event)
          → w.contact_listener ≡ some log
          → Follows w log
          → Alternates (event ∷ log) × (open_pairs (event ∷ log) ≡ pairs))
      → Watches w (record (notify event w) { col_ref_pairs = pairs })
  unfolding notify
  notify-Watches w event pairs named still step = record {
    colliders = refl;
    collider_gens = refl;
    body_gens = refl;
    tree = refl;
    sized = refl;
    each = λ n b e. (b, e, record { mass = refl; type = refl; force = refl; held = λ _. refl });
    silent = λ e. (ap (Option.map (λ log. event ∷ log)) e, still e);
    protocol = λ h. elim (Option-cases w.contact_listener) [
      | inl e ↦ λ log e'. absurd (ground (arith, e, e'))
      | inr (old, e) ↦ λ log e'.
          let same : event ∷ old ≡ log = ground (arith, e, e') in
          subst (λ l. Alternates l × (open_pairs l ≡ pairs)) same (step old e (h old e))
    ];
    heard = λ log e. (event ∷ [], ap (Option.map (λ l. event ∷ l)) e, (named, tt));
  }

-- ===== src/Physics/World/Traversal.antt =====
-- `UpdateQuadTreeCollisions` of Physics/src/World.cpp: the walk over the tree and the pairs of a
-- leaf.
use bark_direct_x.Prelude.{
  ℕ, zero, suc, ◌+◌, ◌<◌, ◌≡◌, refl, sym, ap, subst, ◌∙◌, Option, none, some, List, [], ◌∷◌, arith,
  get_elem?,
}
use bark_direct_x.Prelude.Outcome.{Outcome, ok, ◌>>=◌, at}
use bark_direct_x.Math.{Math}
use bark_direct_x.Physics.Refs.{ColliderRef}
use bark_direct_x.Physics.Collider.{Collider}
use bark_direct_x.Physics.QuadTree.{QuadNode, QuadTree, ColliderRefAabb, block, max_depth}
use bark_direct_x.Physics.QuadTree.Valid.{IsValid, IsChild, Children, leaf, inner}
use bark_direct_x.Physics.QuadTree.Loops.{AreChildren}
use bark_direct_x.Physics.World.{World, get_collider}
use bark_direct_x.Physics.World.Collisions.{
  meet, meet_all, meet_pairs, visit_children, update_quad_tree_collisions,
}
use bark_direct_x.Physics.World.Protocol.{
  IsNamed, slots, Watches-slots, Watches, Watches-refl, Watches-trans,
}
use bark_direct_x.Physics.World.Triggers.{IsLive, Returns, meet-Returns}

module _ ⦃m : Math⦄ where
  -- The entry leads to a collider that can be compared with others.
  abbrev pub IsKnown : World → ColliderRefAabb → Type 0
  IsKnown w e =
      (col : Collider) × (get_collider w e.col_ref ≡ ok col)
      × IsLive w col
      × IsNamed (slots w) e.col_ref

  IsLive-Watches : (w w' : World) (col : Collider) → Watches w w' → IsLive w col → IsLive w' col
  IsLive-Watches w w' col x ((gen, h), drawn) = (
    (
      ap (λ gens. get_elem? gens col.body_ref.index) x.body_gens ∙ gen,
      subst (λ n. col.body_ref.index < n) (sym x.sized) h,
    ),
    drawn,
  )

  IsKnown-Watches : (w w' : World) (e : ColliderRefAabb) → Watches w w' → IsKnown w e → IsKnown w' e
  unfolding get_collider
  IsKnown-Watches w w' e x (col, found, live, named) = (
    col,
    rw (x.collider_gens, x.colliders) found,
    IsLive-Watches w w' col x live,
    subst (λ s. IsNamed s e.col_ref) (sym (Watches-slots w w' x)) named,
  )

  abbrev pub AllKnown : World → List ColliderRefAabb → Type 0
  AllKnown w es = (n : ℕ) (e : ColliderRefAabb) → get_elem? es n ≡ some e → IsKnown w e

  AllKnown-Watches :
      (w w' : World) (es : List ColliderRefAabb) → Watches w w' → AllKnown w es → AllKnown w' es
  AllKnown-Watches w w' es x known n e h = IsKnown-Watches w w' e x (known n e h)

  -- One call after another.
  Returns-bind :
      (w : World) (r : Outcome World) (f : World → Outcome World)
      → Returns w r
      → ((w' : World) → Watches w w' → Returns w' (f w'))
      → Returns w (r >>= f)
  Returns-bind w r f (w', e, x) next =
      let (w'', e', x') = next w' x in (w'', rw e e', Watches-trans w w' w'' x x')

  meet_all-Returns :
      (ref1 : ColliderRef) (col1 : Collider) (es : List ColliderRefAabb) (w : World)
      → IsLive w col1
      → IsNamed (slots w) ref1
      → AllKnown w es
      → Returns w (meet_all ref1 col1 es w)
  unfolding meet_all
  meet_all-Returns ref1 col1 [] w live named known = (w, refl, Watches-refl w)
  meet_all-Returns ref1 col1 (e ∷ es) w live named known =
      let (col2, found, live2, named2) = known 0 e refl in
      let (w', eq, x) =
        (Returns-bind w (meet w ref1 e.col_ref col1 col2) (meet_all ref1 col1 es)
          (meet-Returns w ref1 e.col_ref col1 col2 live live2 named named2)
          (λ w' x.
            meet_all-Returns ref1 col1 es w' (IsLive-Watches w w' col1 x live)
              (subst (λ s. IsNamed s ref1) (sym (Watches-slots w w' x)) named)
              (AllKnown-Watches w w' es x (λ n e' h. known (suc n) e' h)))) in
      (w', rw found eq, x)

  meet_pairs-Returns :
      (es : List ColliderRefAabb) (w : World) → AllKnown w es → Returns w (meet_pairs es w)
  unfolding meet_pairs
  meet_pairs-Returns [] w known = (w, refl, Watches-refl w)
  meet_pairs-Returns (e ∷ []) w known = (w, refl, Watches-refl w)
  meet_pairs-Returns (e ∷ e' ∷ es) w known =
      let (col1, found, live1, named1) = known 0 e refl in
      let rest : AllKnown w (e' ∷ es) = λ n x h. known (suc n) x h in
      let (w', eq, x) =
        (Returns-bind w (meet_all e.col_ref col1 (e' ∷ es) w) (meet_pairs (e' ∷ es))
          (meet_all-Returns e.col_ref col1 (e' ∷ es) w live1 named1 rest)
          (λ w' x. meet_pairs-Returns (e' ∷ es) w' (AllKnown-Watches w w' (e' ∷ es) x rest))) in
      (w', rw found eq, x)

  -- All entries of the nodes in use lead to colliders that can be compared.
  abbrev pub IsStocked : World → Type 0
  IsStocked w =
      (i : ℕ) (node : QuadNode)
      → i < w.quad_tree.node_index
      → get_elem? w.quad_tree.nodes i ≡ some node
      → AllKnown w node.collider_ref_aabbs

  IsStocked-Watches : (w w' : World) → Watches w w' → IsStocked w → IsStocked w'
  IsStocked-Watches w w' x stocked i node h at = AllKnown-Watches w w' node.collider_ref_aabbs x (
      stocked i node (subst (λ t. i < t.node_index) x.tree h)
        (subst (λ (t : QuadTree). get_elem? t.nodes i ≡ some node) x.tree at))

  module _ (visit : World → ℕ → Outcome World) (tree : QuadTree) (depth : ℕ)
      (visits : (w : World) (c : ℕ)
        → w.quad_tree ≡ tree
        → IsStocked w
        → IsChild tree depth c
        → Returns w (visit w c)) where
    visit_children-Returns :
        (cs : List (Option ℕ)) (w : World)
        → w.quad_tree ≡ tree
        → IsStocked w
        → AreChildren depth tree cs
        → Returns w (visit_children visit cs w)
    unfolding visit_children
    visit_children-Returns [] w same stocked kids = (w, refl, Watches-refl w)
    visit_children-Returns (none ∷ cs) w same stocked kids = absurd kids
    visit_children-Returns (some c ∷ cs) w same stocked (kid, kids) =
        Returns-bind w (visit w c) (visit_children visit cs) (visits w c same stocked kid) (λ w' x.
          visit_children-Returns cs w' (x.tree ∙ same) (IsStocked-Watches w w' x stocked) kids)

  -- On a world with a valid tree whose entries all lead to colliders with shapes that have vertices
  -- and bodies that can be found, `UpdateQuadTreeCollisions` at a node in use returns normally if the
  -- fuel exceeds the levels that are left. It changes bodies, the set of pairs and the log only. A
  -- body keeps its mass, type and force, a static one its position. Without a listener the set of
  -- pairs stays. If in the listener's log a pair of triggers enters only while it is out and leaves
  -- only while it is in, and the set holds the pairs that are in, then this is so afterwards.
  pub update_quad_tree_collisions-Returns :
      (fuel : ℕ) (w : World) (i : ℕ) (node : QuadNode)
      → IsValid w.quad_tree
      → IsStocked w
      → i < w.quad_tree.node_index
      → get_elem? w.quad_tree.nodes i ≡ some node
      → max_depth < node.depth + fuel
      → Returns w (update_quad_tree_collisions fuel w i)
  unfolding update_quad_tree_collisions
  update_quad_tree_collisions-Returns zero w i node v stocked h found enough =
      absurd (omega (arith, v.shallow i node h found))
  update_quad_tree_collisions-Returns (suc fuel) w i node v stocked h found enough =
      cases (v.linked i node h found) (λ w' c same stocked' kid.
        update_quad_tree_collisions-Returns fuel w' c kid.node (subst IsValid (sym same) v) stocked'
          (subst (λ t. c < t.node_index) (sym same) kid.in_use)
          (subst (λ (t : QuadTree). get_elem? t.nodes c ≡ some kid.node) (sym same) kid.found)
          (omega (arith, kid.one_below)))
    where
      cases :
          Children w.quad_tree i node
          → ((w' : World) (c : ℕ)
              → w'.quad_tree ≡ w.quad_tree
              → IsStocked w'
              → IsChild w.quad_tree node.depth c
              → Returns w' (update_quad_tree_collisions fuel w' c))
          → Returns w (update_quad_tree_collisions (suc fuel) w i)
      cases (leaf c) visits =
          let (w', e, x) = meet_pairs-Returns node.collider_ref_aabbs w (stocked i node h found) in
          (w', rw (found, c, e) refl, x)
      cases (inner k c _ a0 a1 a2 a3 _) visits =
          let kids : AreChildren node.depth w.quad_tree (block k) = (a0, (a1, (a2, (a3, tt)))) in
          let (w', e, x) =
            visit_children-Returns (update_quad_tree_collisions fuel) w.quad_tree node.depth visits
              (block k) w refl stocked kids in
          (w', rw (found, c, e) refl, x)

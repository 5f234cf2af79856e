-- ===== src/Common/UniquePtr/Ownership.antt =====
-- Who owns the objects of Common/include/UniquePtr.h.
use bark_direct_x.Prelude.{
  ℕ, zero, suc, ◌+◌, ◌≤◌, ◌<◌, ◌≡◌, refl, subst, ◌∙◌, inl, inr, true, Option, none, some, List, [],
  ◌∷◌, ◌++◌, arith, set, get_elem?, get_elem?-set_ne, Bool-cases, ◌==◌, if◌then◌else◌,
}
use bark_direct_x.Prelude.Outcome.{Outcome, ok, Yields}
use bark_direct_x.Common.UniquePtr.{
  is_live, remove, delete, UniquePtr, make, move, make_unique, Store, empty_store, pointer_at,
  declare_new, declare_moved, assign_moved, destroy,
}

-- How often an address stands in a list, and in a pointer.
abbrev is_at : ℕ → ℕ → ℕ
is_at a b = if a == b then 1 else 0

unfoldable pub lives : ℕ → List ℕ → ℕ
lives a [] = 0
lives a (b ∷ bs) = is_at a b + lives a bs

abbrev pub holds : ℕ → Option UniquePtr → ℕ
holds a none = 0
holds a (some u) = elim u.ptr [ none ↦ 0 | some b ↦ is_at a b ]

unfoldable pub owners : ℕ → List (Option UniquePtr) → ℕ
owners a [] = 0
owners a (u ∷ us) = holds a u + owners a us

-- Every object that lives has exactly one owner, and no other address has an owner; addresses to come
-- are new.
pub record IsOwned (s : Store) : Type 0 where
  pub once : (a : ℕ) → lives a s.heap.live ≤ 1
  pub owned : (a : ℕ) → owners a s.pointers ≡ lives a s.heap.live
  pub fresh : (a : ℕ) → s.heap.next ≤ a → lives a s.heap.live ≡ 0

is_live-lives : (a : ℕ) (live : List ℕ) → 0 < lives a live → is_live a live ≡ true
unfolding lives is_live
is_live-lives a [] h = absurd (omega arith)
is_live-lives a (b ∷ bs) h = ground (arith, is_live-lives a bs)

lives-remove :
    (a b : ℕ) (live : List ℕ)
    → 0 < lives b live
    → lives a live ≡ is_at a b + lives a (remove b live)
unfolding lives remove
lives-remove a b [] h = absurd (omega arith)
lives-remove a b (c ∷ cs) h = ground (arith, lives-remove a b cs)

owners-append :
    (a : ℕ) (us : List (Option UniquePtr)) (u : Option UniquePtr)
    → owners a (us ++ u ∷ []) ≡ owners a us + holds a u
unfolding owners
owners-append a [] u = omega arith
owners-append a (v ∷ us) u = omega (arith, owners-append a us u)

-- A pointer is replaced.
owners-set :
    (a : ℕ) (us : List (Option UniquePtr)) (i : ℕ) (u v : Option UniquePtr)
    → get_elem? us i ≡ some u
    → owners a (set us i v) + holds a u ≡ owners a us + holds a v
unfolding owners
owners-set a [] i u v h = absurd (ground (arith, h))
owners-set a (w ∷ us) zero u v h =
    let same : w ≡ u = ground (arith, h) in
    subst (λ x. holds a v + owners a us + holds a x ≡ holds a w + owners a us + holds a v) same
      (omega arith)
owners-set a (w ∷ us) (suc i) u v h = omega (arith, owners-set a us i u v h)

owners-at :
    (a : ℕ) (us : List (Option UniquePtr)) (i : ℕ) (u : Option UniquePtr)
    → get_elem? us i ≡ some u
    → holds a u ≤ owners a us
unfolding owners
owners-at a [] i u h = absurd (ground (arith, h))
owners-at a (w ∷ us) zero u h =
    let same : w ≡ u = ground (arith, h) in
    subst (λ x. holds a x ≤ holds a w + owners a us) same (omega arith)
owners-at a (w ∷ us) (suc i) u h = omega (arith, owners-at a us i u h)

-- What a pointer holds lives, and is deleted.
delete-owned :
    (s : Store) (i : ℕ) (p : Option ℕ)
    → IsOwned s
    → get_elem? s.pointers i ≡ some (some (make p))
    → Yields
        (λ heap.
          (heap.next ≡ s.heap.next)
          × ((a : ℕ) → lives a s.heap.live ≡ holds a (some (make p)) + lives a heap.live))
        (delete p s.heap)
unfolding delete
delete-owned s i none o at = (s.heap, refl, (refl, λ a. omega arith))
delete-owned s i (some b) o at =
    let here : 0 < lives b s.heap.live =
      ground (arith, owners-at b s.pointers i (some (make (some b))) at, o.owned b) in
    (
      record s.heap { live = remove b s.heap.live },
      rw (is_live-lives b s.heap.live here) refl,
      (refl, λ a. lives-remove a b s.heap.live here),
    )

-- The pointer at `i` has not been destroyed.
abbrev pub IsAlive : Store → ℕ → Type 0
IsAlive s i = (u : UniquePtr) × (get_elem? s.pointers i ≡ some (some u))

declare_new-IsOwned : (s : Store) → IsOwned s → IsOwned (declare_new s)
unfolding declare_new make_unique lives
declare_new-IsOwned s o = record {
  once = λ a. ground (arith, o.once a, o.fresh a);
  owned =
      λ a. ground (arith, owners-append a s.pointers (some (make (some s.heap.next))), o.owned a);
  fresh = λ a h. ground (arith, o.fresh a, h);
}

declare_moved-IsOwned :
    (i : ℕ) (s : Store) → IsOwned s → IsAlive s i → Yields IsOwned (declare_moved i s)
unfolding declare_moved pointer_at move
declare_moved-IsOwned i s o (u, at) =
    let left = set s.pointers i (some (make none)) in
    (
      record s { pointers = left ++ some (make u.ptr) ∷ [] },
      rw at refl,
      record {
        once = o.once;
        owned = λ a. omega (
          arith,
          owners-append a left (some (make u.ptr)),
          owners-set a s.pointers i (some u) (some (make none)) at,
          o.owned a,
        );
        fresh = o.fresh;
      },
    )

destroy-IsOwned : (i : ℕ) (s : Store) → IsOwned s → IsAlive s i → Yields IsOwned (destroy i s)
unfolding destroy pointer_at
destroy-IsOwned i s o (u, at) =
    let (heap, e, (next, gone)) = delete-owned s i u.ptr o at in
    (
      record { heap = heap; pointers = set s.pointers i none },
      rw (at, e) refl,
      record {
        once = λ a. omega (arith, gone a, o.once a);
        owned = λ a. omega (arith, owners-set a s.pointers i (some u) none at, o.owned a, gone a);
        fresh = λ a h. omega (arith, gone a, o.fresh a (omega (arith, next, h)));
      },
    )

assign_moved-IsOwned :
    (i j : ℕ) (s : Store)
    → IsOwned s
    → IsAlive s i
    → IsAlive s j
    → Yields IsOwned (assign_moved i j s)
unfolding assign_moved pointer_at
assign_moved-IsOwned i j s o (u, ati) (v, atj) = elim (Bool-cases (i == j)) [
  | inl same ↦ (s, rw (ati, atj, same) refl, o)
  | inr apart ↦
      let (heap, e, (next, gone)) = delete-owned s i u.ptr o ati in
      let one = set s.pointers i (some (make v.ptr)) in
      let still : get_elem? one j ≡ some (some v) =
        get_elem?-set_ne s.pointers i j (some (make v.ptr)) (λ p. ground (arith, apart, p)) ∙ atj in
      (
        record { heap = heap; pointers = set one j (some (make none)) },
        rw (ati, atj, apart, e) refl,
        record {
          once = λ a. omega (arith, gone a, o.once a);
          owned = λ a. omega (
            arith,
            owners-set a s.pointers i (some u) (some (make v.ptr)) ati,
            owners-set a one j (some v) (some (make none)) still,
            o.owned a,
            gone a,
          );
          fresh = λ a h. omega (arith, gone a, o.fresh a (omega (arith, next, h)));
        },
      )
]

-- One statement at pointers that have not been destroyed.
pub data Steps : Store → Store → Type 0 where
  ran_new : (s : Store) → Steps s (declare_new s)
  ran_move : (i : ℕ) (s s' : Store) → IsAlive s i → declare_moved i s ≡ ok s' → Steps s s'
  ran_assign :
      (i j : ℕ) (s s' : Store) → IsAlive s i → IsAlive s j → assign_moved i j s ≡ ok s' → Steps s s'
  ran_destroy : (i : ℕ) (s s' : Store) → IsAlive s i → destroy i s ≡ ok s' → Steps s s'

-- The stores that a program reaches.
pub data Reachable : Store → Type 0 where
  start : Reachable empty_store
  next : (s s' : Store) → Reachable s → Steps s s' → Reachable s'

-- A result that is known keeps what every such call keeps.
same-result : {P : Store → Type 0} {r : Outcome Store} (s' : Store) → r ≡ ok s' → Yields P r → P s'
same-result {P} {r} s' e (s, e', p) = let same : s ≡ s' = ground (arith, e, e') in subst P same p

Steps-IsOwned : (s s' : Store) → Steps s s' → IsOwned s → IsOwned s'
Steps-IsOwned s _ (ran_new _) o = declare_new-IsOwned s o
Steps-IsOwned s s' (ran_move i _ _ alive e) o = same-result s' e (declare_moved-IsOwned i s o alive)
Steps-IsOwned s s' (ran_assign i j _ _ one two e) o =
    same-result s' e (assign_moved-IsOwned i j s o one two)
Steps-IsOwned s s' (ran_destroy i _ _ alive e) o = same-result s' e (destroy-IsOwned i s o alive)

IsOwned-inv : (s : Store) → Reachable s → IsOwned s
unfolding lives owners
IsOwned-inv _ start = record { once = λ a. omega arith; owned = λ a. refl; fresh = λ a h. refl }
IsOwned-inv s' (next s _ r step) = Steps-IsOwned s s' step (IsOwned-inv s r)

-- In every store that statements at pointers which have not been destroyed lead to: each object that
-- lives has exactly one owner and no other object has an owner, so that none is lost; and to move
-- from such a pointer, to assign one to another or to itself, and to destroy one returns, and leads
-- to such a store again: no object is deleted twice.
pub Reachable-IsOwned :
    (s : Store) (i j : ℕ)
    → Reachable s
    → IsAlive s i
    → IsAlive s j
    → IsOwned s
      × Yields Reachable (declare_moved i s)
      × Yields Reachable (assign_moved i j s)
      × Yields Reachable (destroy i s)
Reachable-IsOwned s i j r one two =
    let o = IsOwned-inv s r in
    let (a, ea, _) = declare_moved-IsOwned i s o one in
    let (b, eb, _) = assign_moved-IsOwned i j s o one two in
    let (c, ec, _) = destroy-IsOwned i s o one in
    (
      o,
      (a, ea, next s a r (ran_move i s a one ea)),
      (b, eb, next s b r (ran_assign i j s b one two eb)),
      (c, ec, next s c r (ran_destroy i s c one ec)),
    )

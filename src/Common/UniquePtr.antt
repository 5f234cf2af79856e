-- ===== src/Common/UniquePtr.antt =====
-- Common/include/UniquePtr.h. Objects are known by their addresses; what they hold does not matter.
-- A null pointer is `none`. The pointers of a program stand in one vector, an entry `none` there is a
-- `UniquePtr` whose destructor has run.
pub mod Ownership
use bark_direct_x.Prelude.{
  ℕ, suc, ◌+◌, Bool, true, false, Option, none, some, List, [], ◌∷◌, ◌++◌, set, ◌==◌, if◌then◌else◌,
}
use bark_direct_x.Prelude.Outcome.{Outcome, ok, undefined, ◌>>=◌, at}

-- The objects that live, and the address that `new` gives next.
pub record Heap : Type 0 where
  pub live : List ℕ
  pub next : ℕ

abbrev pub new_object : Heap → Heap × ℕ
new_object heap = (record { live = heap.next ∷ heap.live; next = suc heap.next }, heap.next)

unfoldable pub is_live : ℕ → List ℕ → Bool
is_live a [] = false
is_live a (b ∷ bs) = if a == b then true else is_live a bs

unfoldable pub remove : ℕ → List ℕ → List ℕ
remove a [] = []
remove a (b ∷ bs) = let rest = remove a bs in if a == b then bs else b ∷ rest

-- `delete ptr`: undefined for an object that does not live.
unfoldable pub delete : Option ℕ → Heap → Outcome Heap
unfolding is_live remove
delete none heap = ok heap
delete (some a) heap =
    if is_live a heap.live then ok (record heap { live = remove a heap.live }) else undefined

pub record UniquePtr : Type 0 where
  pub ptr : Option ℕ

-- `UniquePtr(T *)`.
abbrev pub make : Option ℕ → UniquePtr
make ptr = record { ptr = ptr }

-- The move constructor: the new pointer, and what is left of `other`. The conversion to a
-- `UniquePtr<U>` does the same.
unfoldable pub move : UniquePtr → UniquePtr × UniquePtr
move other = (make other.ptr, make none)

unfoldable pub is_null : UniquePtr → Bool
is_null u = elim u.ptr [ none ↦ true | some a ↦ false ]

-- `Get`, and `operator->`.
unfoldable pub get : UniquePtr → Option ℕ
get u = u.ptr

-- `MakeUnique`.
unfoldable pub make_unique : Heap → Heap × UniquePtr
make_unique heap = let (heap', a) = new_object heap in (heap', make (some a))

-- A program's pointers.
pub record Store : Type 0 where
  pub heap : Heap
  pub pointers : List (Option UniquePtr)

abbrev pub empty_store : Store
empty_store = record { heap = record { live = []; next = 0 }; pointers = [] }

-- The pointer at `i`; undefined where there is none or it has been destroyed.
unfoldable pub pointer_at : Store → ℕ → Outcome UniquePtr
pointer_at s i = at s.pointers i >>= λ entry. elim entry [ none ↦ undefined | some u ↦ ok u ]

-- `UniquePtr p = MakeUnique(value);`
unfoldable pub declare_new : Store → Store
unfolding make_unique
declare_new s =
    let (heap, u) = make_unique s.heap in
    record { heap = heap; pointers = s.pointers ++ some u ∷ [] }

-- `UniquePtr p = std::move(pointers[i]);`
unfoldable pub declare_moved : ℕ → Store → Outcome Store
unfolding pointer_at move
declare_moved i s = do
  u ← pointer_at s i
  let (mine, left) = move u
  ok (record s { pointers = set s.pointers i (some left) ++ some mine ∷ [] })

-- `pointers[i] = std::move(pointers[j]);`
unfoldable pub assign_moved : ℕ → ℕ → Store → Outcome Store
unfolding pointer_at delete
assign_moved i j s = do
  u ← pointer_at s i
  v ← pointer_at s j
  if i == j then ok s else (do
    heap ← delete u.ptr s.heap
    ok (record {
      heap = heap;
      pointers = set (set s.pointers i (some (make v.ptr))) j (some (make none));
    }))

-- The destructor of `pointers[i]`.
unfoldable pub destroy : ℕ → Store → Outcome Store
unfolding pointer_at delete
destroy i s = do
  u ← pointer_at s i
  heap ← delete u.ptr s.heap
  ok (record { heap = heap; pointers = set s.pointers i none })

-- ===== src/Tests/Pointers.antt =====
-- Runs of Common/include/UniquePtr.h and of the free list of Common/include/Allocators.h.
use bark_direct_x.Prelude.{◌≡◌, refl, none, some, [], ◌∷◌}
use bark_direct_x.Prelude.Outcome.{ok, undefined, ◌>>=◌, Yields}
use bark_direct_x.Common.UniquePtr.{
  Store, make, empty_store, declare_new, declare_moved, assign_moved, destroy,
}
use bark_direct_x.Common.UniquePtr.Ownership.{
  ran_new, ran_move, Reachable, start, next, IsOwned, Reachable-IsOwned,
}
use bark_direct_x.Common.Allocators.FreeList.{FreeListAllocator, allocate, deallocate}
use bark_direct_x.Common.Allocators.FreeList

-- Two objects, the first of which has moved from the first pointer to the third.
abbrev three : Store
three = record {
  heap = record { live = 1 ∷ 0 ∷ []; next = 2 };
  pointers = some (make none) ∷ some (make (some 1)) ∷ some (make (some 0)) ∷ [];
}

three-Reachable : Reachable three
unfolding declare_new declare_moved
three-Reachable =
    let one = declare_new empty_store in
    let two = declare_new one in
    next two three (next one two (next empty_store one start (ran_new empty_store)) (ran_new one))
      (ran_move 0 two three (make (some 0), refl) refl)

Reachable-IsOwned_example :
    IsOwned three
    × Yields Reachable (declare_moved 1 three)
    × Yields Reachable (assign_moved 1 2 three)
    × Yields Reachable (destroy 1 three)
Reachable-IsOwned_example =
    Reachable-IsOwned three 1 2 three-Reachable (make (some 1), refl) (make (some 0), refl)

-- A block of 32 bytes is taken from 64, given back, and taken again: its size still is that of the
-- whole buffer, so the rest of that is in the list twice.
again :
    (FreeList.make 64 >>= λ a0. allocate 3 a0 32 1 >>= λ (a1, p).
    deallocate a1 (some p) >>= λ a2. allocate 3 a2 48 1 >>= λ (a3, q). ok q)
    ≡ ok 16
unfolding FreeList.make allocate deallocate
again = refl

-- A request of 8 bytes writes the size of the rest over `next` of the block before that is read.
clobbered : (FreeList.make 64 >>= λ a0. allocate 3 a0 8 1 >>= λ (a1, p). ok p) ≡ undefined
unfolding FreeList.make allocate
clobbered = refl

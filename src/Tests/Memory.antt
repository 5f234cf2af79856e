-- ===== src/Tests/Memory.antt =====
-- Runs of the allocators of Common/include/Allocators.h.
use bark_direct_x.Prelude.{ℕ, ◌+◌, ◌<◌, ◌≤◌, ◌≡◌, refl, ◌⊎◌, inr, some, none, List, [], ◌∷◌, arith}
use bark_direct_x.Prelude.Outcome.{ok, throws, undefined, linear_out_of_memory, Yields}
use bark_direct_x.Common.Allocators.{read, load}
use bark_direct_x.Common.Allocators.Linear.{LinearAllocator}
use bark_direct_x.Common.Allocators.Linear
use bark_direct_x.Common.Allocators.Linear.Blocks.{
  Block, allocate_all, Consecutive, allocate_all-Consecutive,
}
use bark_direct_x.Common.Allocators.Linear.Blocks
use bark_direct_x.Common.Allocators.Stack.{StackAllocator}
use bark_direct_x.Common.Allocators.Stack
use bark_direct_x.Common.Allocators.Stack.Order.{nest, nest-top}
use bark_direct_x.Common.Allocators.Pool.{PoolAllocator}
use bark_direct_x.Common.Allocators.Pool
use bark_direct_x.Common.Allocators.Pool.Chain.{
  HasFree, Frees, Serves, block_addresses, allocate-Serves, deallocate-HasFree, make-HasFree,
}

abbrev linear : LinearAllocator
linear = record { size = 100; offset = 10 }

abbrev requests : List (ℕ × ℕ)
requests = (4, 8) ∷ (3, 4) ∷ []

allocate_all-Consecutive_example :
    ((a' : LinearAllocator) × (blocks : List Block) × (allocate_all linear requests
        ≡ ok (a', blocks))
      × Consecutive 10 blocks a'.offset
      × (a'.offset ≤ 100)
      × (a'.size ≡ 100))
    ⊎ ((allocate_all linear requests ≡ throws linear_out_of_memory)
        × (100 < 10 + Blocks.total requests))
allocate_all-Consecutive_example =
    allocate_all-Consecutive linear requests (omega arith) (omega arith, (omega arith, tt))

-- The product of count and size wraps to 0: the request succeeds.
wrapped : Linear.allocate linear 4294967296 4294967296 ≡ ok (linear, 10)
unfolding Linear.allocate
wrapped = refl

abbrev stack : StackAllocator
stack = record { size = 100; top = 10; headers = [] }

nest-top_example :
    (a' : StackAllocator) × (nest stack requests ≡ ok a')
    × (a'.top ≡ 10)
    × (a'.size ≡ 100)
    × ((address : ℕ) → address < 10 → read a'.headers address ≡ read stack.headers address)
nest-top_example = nest-top stack requests (omega arith) (omega arith)

-- The test of the stack leaves the header out: this block ends 8 bytes beyond the buffer.
beyond :
    Stack.allocate (Stack.make 16) 16 1
    ≡ ok (record { size = 16; top = 24; headers = (0, 24) ∷ [] }, 8)
unfolding Stack.allocate Stack.make
beyond = refl

abbrev pool : PoolAllocator
pool = record {
  block_size = 16;
  block_count = 2;
  pool_list = some 16;
  links = (16, some 0) ∷ (0, none) ∷ [];
}

pool_made : Pool.make 2 16 ≡ ok pool
unfolding Pool.make
pool_made = refl

-- The pointer of the second block of 4 bytes ends beyond the buffer.
pool_overrun : Pool.make 2 4 ≡ undefined
unfolding Pool.make
pool_overrun = refl

pool-HasFree : HasFree pool (16 ∷ 0 ∷ [])
unfolding load
pool-HasFree = (refl, some 0, refl, (refl, none, refl, refl))

allocate-Serves_example : Serves pool 2 8 (16 ∷ 0 ∷ [])
unfolding bark_direct_x.Common.Allocators.mul_size
allocate-Serves_example = allocate-Serves pool (16 ∷ 0 ∷ []) 2 8 refl pool-HasFree

abbrev used : PoolAllocator
used = record pool { pool_list = some 0 }

used-HasFree : HasFree used (0 ∷ [])
unfolding load
used-HasFree = (refl, none, refl, refl)

deallocate-HasFree_example : Yields (Frees used (16 ∷ 0 ∷ [])) (Pool.deallocate used (some 16))
unfolding bark_direct_x.Common.Allocators.mul_size
deallocate-HasFree_example =
    deallocate-HasFree used 16 (0 ∷ []) (omega arith) (inr (omega arith), tt) used-HasFree

make-HasFree_example : Yields (λ a. HasFree a (block_addresses 16 2)) (Pool.make 2 16)
make-HasFree_example = make-HasFree 2 16 (omega arith) (omega arith)

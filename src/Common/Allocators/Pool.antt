-- ===== src/Common/Allocators/Pool.antt =====
-- `PoolAllocator` of Common/include/Allocators.h. `links` is the memory of the `next` pointers that have
-- been written, the latest first; a pointer has 8 bytes, which may start at any address.
pub mod Chain
use bark_direct_x.Prelude.{
  ℕ, zero, suc, ◌+◌, Option, none, some, List, [], ◌∷◌, ◌==◌, leb, if◌then◌else◌,
}
use bark_direct_x.Prelude.Outcome.{
  Outcome, ok, throws, undefined, ◌>>=◌, pool_invalid_size, pool_out_of_memory,
}
use bark_direct_x.Common.Allocators.{mul_size, field_size, load}

pub record PoolAllocator : Type 0 where
  pub block_size : ℕ
  pub block_count : ℕ
  pub pool_list : Option ℕ
  pub links : List (ℕ × Option ℕ)

-- The bytes of `_pool`.
abbrev pub pool_bytes : PoolAllocator → ℕ
pool_bytes a = mul_size a.block_size a.block_count

-- A block becomes the head of the free list; a write of its `next` beyond the buffer is undefined.
unfoldable pub link : PoolAllocator → ℕ → Outcome PoolAllocator
unfolding mul_size
link a block =
    if leb (block + field_size) (pool_bytes a)
    then ok (record a { pool_list = some block; links = (block, a.pool_list) ∷ a.links })
    else undefined

-- The first rounds of the loop of `InitializePoolList`.
unfoldable pub link_blocks : PoolAllocator → ℕ → Outcome PoolAllocator
unfolding link mul_size
link_blocks a zero = ok a
link_blocks a (suc i) = do a' ← link_blocks a i; link a' (mul_size i a.block_size)

unfoldable pub initialize_pool_list : PoolAllocator → Outcome PoolAllocator
unfolding link_blocks
initialize_pool_list a = link_blocks (record a { pool_list = none }) a.block_count

unfoldable pub make : ℕ → ℕ → Outcome PoolAllocator
unfolding initialize_pool_list
make block_count block_size =
    initialize_pool_list
      (record { block_size = block_size; block_count = block_count; pool_list = none; links = [] })

unfoldable pub allocate : PoolAllocator → ℕ → ℕ → Outcome (PoolAllocator × ℕ)
unfolding mul_size load
allocate a count type_size =
    if mul_size count type_size == a.block_size
    then elim a.pool_list [
      | none ↦ throws pool_out_of_memory
      | some block ↦ load a.links block >>= λ next. ok (record a { pool_list = next }, block)
    ]
    else throws pool_invalid_size

-- `Deallocate`; `none` is a null pointer.
unfoldable pub deallocate : PoolAllocator → Option ℕ → Outcome PoolAllocator
unfolding link
deallocate a none = ok a
deallocate a (some block) = link a block

unfoldable pub reset : PoolAllocator → Outcome PoolAllocator
unfolding initialize_pool_list
reset a = initialize_pool_list a

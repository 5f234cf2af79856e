-- ===== src/Common/Allocators/Linear.antt =====
-- `LinearAllocator` of Common/include/Allocators.h.
pub mod Blocks
use bark_direct_x.Prelude.{ℕ, ltb, if◌then◌else◌}
use bark_direct_x.Prelude.Outcome.{Outcome, ok, throws, linear_out_of_memory}
use bark_direct_x.Common.Allocators.{add_size, mul_size}

pub record LinearAllocator : Type 0 where
  pub size : ℕ
  pub offset : ℕ

unfoldable pub make : ℕ → LinearAllocator
make size = record { size = size; offset = 0 }

unfoldable pub allocate : LinearAllocator → ℕ → ℕ → Outcome (LinearAllocator × ℕ)
unfolding add_size mul_size
allocate a size type_size =
    let end = add_size a.offset (mul_size size type_size) in
    if ltb a.size end then throws linear_out_of_memory else ok (record a { offset = end }, a.offset)

-- `Deallocate` does nothing.
unfoldable pub deallocate : LinearAllocator → ℕ → LinearAllocator
deallocate a pointer = a

unfoldable pub reset : LinearAllocator → LinearAllocator
reset a = record a { offset = 0 }

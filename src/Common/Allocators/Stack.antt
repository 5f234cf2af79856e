-- ===== src/Common/Allocators/Stack.antt =====
-- `StackAllocator` of Common/include/Allocators.h. `headers` is the memory of the `AllocationHeader`s
-- by their addresses; what clients write into their blocks is not modelled.
pub mod Order
use bark_direct_x.Prelude.{ℕ, ◌+◌, ◌-◌, Option, none, some, List, [], ◌∷◌, ltb, if◌then◌else◌}
use bark_direct_x.Prelude.Outcome.{Outcome, ok, throws, undefined, stack_out_of_memory}
use bark_direct_x.Common.Allocators.{add_size, mul_size, sub_size, read}

pub record StackAllocator : Type 0 where
  pub size : ℕ
  pub top : ℕ
  pub headers : List (ℕ × ℕ)

-- `sizeof(AllocationHeader)`.
abbrev pub header_size : ℕ
header_size = 8

unfoldable pub make : ℕ → StackAllocator
make size = record { size = size; top = 0; headers = [] }

-- The test leaves the header out: its write can go beyond the buffer.
unfoldable pub allocate : StackAllocator → ℕ → ℕ → Outcome (StackAllocator × ℕ)
unfolding add_size mul_size
allocate a size type_size =
    let bytes = mul_size size type_size in
    if ltb a.size (add_size a.top bytes)
    then throws stack_out_of_memory
    else let total_size = add_size bytes header_size in
      if ltb a.size (a.top + header_size)
      then undefined
      else ok (
        record a { top = add_size a.top total_size; headers = (a.top, total_size) ∷ a.headers },
        a.top + header_size,
      )

unfoldable pub deallocate : StackAllocator → ℕ → Outcome StackAllocator
unfolding sub_size read
deallocate a pointer = elim (read a.headers (pointer - header_size)) [
  | none ↦ undefined
  | some size ↦ ok (record a { top = sub_size a.top size })
]

unfoldable pub reset : StackAllocator → StackAllocator
reset a = record a { top = 0 }

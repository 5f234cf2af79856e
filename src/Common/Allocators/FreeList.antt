-- ===== src/Common/Allocators/FreeList.antt =====
-- `FreeListAllocator` of Common/include/Allocators.h. The memory is the list of the headers' fields that
-- have been written, the latest first. What a client writes into its blocks is not modelled.
use bark_direct_x.Prelude.{
  ℕ, zero, suc, ◌+◌, ◌-◌, Option, none, some, List, [], ◌∷◌, leb, ltb, if◌then◌else◌,
}
use bark_direct_x.Prelude.Outcome.{
  Outcome, ok, throws, undefined, out_of_fuel, ◌>>=◌, free_list_out_of_memory,
}
use bark_direct_x.Common.Allocators.{mul_size, field_size, load}

-- A field of a `FreeBlock`: its size, or the pointer to the next.
pub data Field : Type 0 where
  size_field : ℕ → Field
  next_field : Option ℕ → Field

-- `sizeof(FreeBlock)`.
abbrev pub header_size : ℕ
header_size = 16

pub record FreeListAllocator : Type 0 where
  pub size : ℕ
  pub free_list : ℕ
  pub memory : List (ℕ × Field)

-- A write beyond the buffer is undefined.
unfoldable pub store : FreeListAllocator → ℕ → Field → Outcome FreeListAllocator
store a address field =
    if leb (address + field_size) a.size
    then ok (record a { memory = (address, field) ∷ a.memory })
    else undefined

-- `block->size`, and `block->next`.
unfoldable pub size_of : FreeListAllocator → ℕ → Outcome ℕ
unfolding load
size_of a block =
    load a.memory block >>= λ field. elim field [ size_field n ↦ ok n | next_field p ↦ undefined ]

unfoldable pub next_of : FreeListAllocator → ℕ → Outcome (Option ℕ)
unfolding load
next_of a block = load a.memory (block + field_size) >>= λ field. elim field [
  | size_field n ↦ undefined
  | next_field p ↦ ok p
]

unfoldable pub write_block : FreeListAllocator → ℕ → ℕ → Option ℕ → Outcome FreeListAllocator
unfolding store
write_block a block size next = do
  a' ← store a block (size_field size)
  store a' (block + field_size) (next_field next)

unfoldable pub make : ℕ → Outcome FreeListAllocator
unfolding write_block
make size = write_block (record { size = size; free_list = 0; memory = [] }) 0 size none

-- The rest of a block that is larger than the request becomes a block; its size is written before
-- `next` of the block is read.
unfoldable pub cut : FreeListAllocator → ℕ → ℕ → ℕ → Outcome FreeListAllocator
unfolding next_of store
cut a current size bytes =
    if ltb bytes size
    then (do
      a1 ← store a (current + bytes) (size_field (size - bytes))
      next ← next_of a1 current
      store a1 (current + bytes + field_size) (next_field next))
    else ok a

-- The block leaves the list.
unfoldable pub unlink : FreeListAllocator → Option ℕ → ℕ → ℕ → Outcome FreeListAllocator
unfolding next_of store
unlink a none current bytes = ok (record a { free_list = current + bytes })
unlink a (some prev) current bytes = do
  next ← next_of a current
  store a (prev + field_size) (next_field next)

-- The loop of `Allocate`, with fuel: a list that leads back to itself has no end.
unfoldable pub find_block :
    ℕ → FreeListAllocator → ℕ → Option ℕ → Option ℕ → Outcome (FreeListAllocator × ℕ)
unfolding size_of next_of cut unlink
find_block zero a bytes prev current = out_of_fuel
find_block (suc fuel) a bytes prev none = throws free_list_out_of_memory
find_block (suc fuel) a bytes prev (some current) = do
  size ← size_of a current
  if leb bytes size
      then (do
        a1 ← cut a current size bytes
        a2 ← unlink a1 prev current bytes
        ok (a2, current + header_size))
      else (do next ← next_of a current; find_block fuel a bytes (some current) next)

unfoldable pub allocate : ℕ → FreeListAllocator → ℕ → ℕ → Outcome (FreeListAllocator × ℕ)
unfolding find_block mul_size
allocate fuel a count type_size =
    find_block fuel a (mul_size count type_size) none (some a.free_list)

-- `Deallocate`; `none` is a null pointer.
unfoldable pub deallocate : FreeListAllocator → Option ℕ → Outcome FreeListAllocator
unfolding store
deallocate a none = ok a
deallocate a (some ptr) =
    if leb header_size ptr
    then (do
      let block = ptr - header_size
      a' ← store a (block + field_size) (next_field (some a.free_list))
      ok (record a' { free_list = block }))
    else undefined

unfoldable pub reset : FreeListAllocator → Outcome FreeListAllocator
unfolding write_block
reset a = write_block a a.free_list a.size none

-- ===== src/Common/Allocators/Adapters.antt =====
-- `ProxyAllocator` and `StandardAllocator` of Common/include/Allocators.h, over the functions of the
-- allocator that they refer to.
use bark_direct_x.Prelude.{ℕ, Option}
use bark_direct_x.Prelude.Outcome.{Outcome}
use bark_direct_x.Common.Allocators.{mul_size}

-- The virtual functions of `Allocator`, over the state of the allocator that implements them.
pub record Allocator (A : Type 0) : Type 0 where
  pub allocate : A → ℕ → ℕ → Outcome (A × ℕ)
  pub deallocate : A → Option ℕ → Outcome A

-- `ProxyAllocator`: the calls go on to its target.
unfoldable pub proxy : {A : Type 0} → Allocator A → Allocator A
proxy target = record {
  allocate = λ a count type_size. target.allocate a count type_size;
  deallocate = λ a ptr. target.deallocate a ptr;
}

-- `StandardAllocator<T>::allocate`, for the size and the alignment of `T`.
unfoldable pub standard_allocate : {A : Type 0} → Allocator A → ℕ → ℕ → A → ℕ → Outcome (A × ℕ)
unfolding mul_size
standard_allocate target size_of_type align_of_type a n =
    target.allocate a (mul_size n size_of_type) align_of_type

unfoldable pub standard_deallocate : {A : Type 0} → Allocator A → A → Option ℕ → ℕ → Outcome A
standard_deallocate target a ptr n = target.deallocate a ptr

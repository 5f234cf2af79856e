-- ===== src/Common/Allocators/Pool/Chain.antt =====
-- The free list of a `PoolAllocator` of Common/include/Allocators.h as a list of blocks.
use bark_direct_x.Prelude.{
  ℕ, zero, suc, ◌+◌, ◌*◌, ◌≤◌, ◌<◌, ◌≡◌, refl, ap, subst, ◌∙◌, inr, Option, none, some, List, [],
  ◌∷◌, arith,
}
use native.Mathlib.Nat.{mul-le-mul_right, mul_comm}
use bark_direct_x.Prelude.Outcome.{ok, throws, ◌>>=◌, pool_out_of_memory, Yields}
use bark_direct_x.Common.Allocators.{
  word, mul_size, mul_size-small, field_size, AreApart, load, load-here, load-elsewhere,
}
use bark_direct_x.Common.Allocators.Pool.{
  PoolAllocator, pool_bytes, link, link_blocks, initialize_pool_list, make, allocate, deallocate,
}

-- From `head` the links lead through these blocks to the null pointer.
abbrev pub Chain : List (ℕ × Option ℕ) → Option ℕ → List ℕ → Type 0
Chain links head [] = head ≡ none
Chain links head (block ∷ blocks) =
    (head ≡ some block) × (next : Option ℕ) × (load links block ≡ ok next) × Chain links next blocks

-- The field of a block overlaps none of the others.
abbrev pub AllApart : ℕ → List ℕ → Type 0
AllApart block [] = Unit
AllApart block (b ∷ bs) = AreApart block b × AllApart block bs

-- The free blocks of the allocator, the next one to be given out first.
abbrev pub HasFree : PoolAllocator → List ℕ → Type 0
HasFree a blocks = Chain a.links a.pool_list blocks

-- A write elsewhere does not break a chain.
Chain-write :
    (links : List (ℕ × Option ℕ)) (at : ℕ) (value head : Option ℕ) (blocks : List ℕ)
    → AllApart at blocks
    → Chain links head blocks
    → Chain ((at, value) ∷ links) head blocks
Chain-write links at value head [] d c = c
Chain-write links at value head (block ∷ blocks) (d, ds) (e, next, found, c) = (
  e,
  next,
  load-elsewhere links at block value d ∙ found,
  Chain-write links at value next blocks ds c,
)

-- The pool after a block has been linked.
abbrev linked : PoolAllocator → ℕ → PoolAllocator
linked a block = record a { pool_list = some block; links = (block, a.pool_list) ∷ a.links }

linked-HasFree :
    (a : PoolAllocator) (block : ℕ) (blocks : List ℕ)
    → AllApart block blocks
    → HasFree a blocks
    → HasFree (linked a block) (block ∷ blocks)
linked-HasFree a block blocks d c = (
  refl,
  a.pool_list,
  load-here a.links block a.pool_list,
  Chain-write a.links block a.pool_list a.pool_list blocks d c,
)

-- The same pool, with these blocks free.
abbrev pub Frees : PoolAllocator → List ℕ → PoolAllocator → Type 0
Frees a blocks a' =
    (a'.block_size ≡ a.block_size) × (a'.block_count ≡ a.block_count) × HasFree a' blocks

link-Frees :
    (a : PoolAllocator) (block : ℕ) (blocks : List ℕ)
    → block + field_size ≤ pool_bytes a
    → AllApart block blocks
    → HasFree a blocks
    → Yields (Frees a (block ∷ blocks)) (link a block)
unfolding link
link-Frees a block blocks room d c =
    (linked a block, ground (arith, room), (refl, refl, linked-HasFree a block blocks d c))

-- What `Allocate` does with a free list: it throws if the list is empty, and else gives out the first
-- block and keeps the rest.
abbrev pub Serves : PoolAllocator → ℕ → ℕ → List ℕ → Type 0
Serves a count type_size [] = allocate a count type_size ≡ throws pool_out_of_memory
Serves a count type_size (block ∷ rest) =
    (a' : PoolAllocator) × (allocate a count type_size ≡ ok (a', block)) × HasFree a' rest

-- For a request of the block's size, `Allocate` throws if no block is free, and else gives out the
-- first free block and leaves the others free.
pub allocate-Serves :
    (a : PoolAllocator) (blocks : List ℕ) (count type_size : ℕ)
    → mul_size count type_size ≡ a.block_size
    → HasFree a blocks
    → Serves a count type_size blocks
unfolding allocate mul_size
allocate-Serves a [] count type_size fits list = ground (arith, fits, list)
allocate-Serves a (block ∷ rest) count type_size fits (list, next, found, c) =
    (record a { pool_list = next }, ground (arith, fits, list, found), c)

-- `Deallocate` of a block in the buffer, whose pointer overlaps that of no free block, returns normally
-- and makes it the first free block, before the others. Size and number of the blocks stay.
pub deallocate-HasFree :
    (a : PoolAllocator) (block : ℕ) (blocks : List ℕ)
    → block + field_size ≤ pool_bytes a
    → AllApart block blocks
    → HasFree a blocks
    → Yields (Frees a (block ∷ blocks)) (deallocate a (some block))
unfolding deallocate
deallocate-HasFree a block blocks room d c = link-Frees a block blocks room d c

-- The blocks that `InitializePoolList` links, the last one first.
abbrev pub block_addresses : ℕ → ℕ → List ℕ
block_addresses block_size zero = []
block_addresses block_size (suc i) = i * block_size ∷ block_addresses block_size i

addresses-AllApart :
    (block_size n i : ℕ)
    → field_size ≤ block_size
    → i ≤ n
    → AllApart (n * block_size) (block_addresses block_size i)
addresses-AllApart block_size n zero h l = tt
addresses-AllApart block_size n (suc i) h l =
    let below : suc i * block_size ≤ n * block_size = mul-le-mul_right block_size l in
    (inr (omega (arith, below, h)), addresses-AllApart block_size n i h (omega (arith, l)))

link_blocks-zero : (a : PoolAllocator) → link_blocks a 0 ≡ ok a
unfolding link_blocks
link_blocks-zero a = refl

link_blocks-suc :
    (a a1 : PoolAllocator) (i : ℕ)
    → link_blocks a i ≡ ok a1
    → link_blocks a (suc i) ≡ link a1 (mul_size i a.block_size)
unfolding link_blocks
link_blocks-suc a a1 i e = ap (λ r. r >>= λ x. link x (mul_size i a.block_size)) e

link_blocks-Frees :
    (a : PoolAllocator) (i : ℕ)
    → field_size ≤ a.block_size
    → a.block_count * a.block_size < word
    → a.pool_list ≡ none
    → i ≤ a.block_count
    → Yields (Frees a (block_addresses a.block_size i)) (link_blocks a i)
link_blocks-Frees a zero h small e l = (a, link_blocks-zero a, (refl, refl, e))
link_blocks-Frees a (suc i) h small e l =
    let (a1, e1, (size, count, free)) = link_blocks-Frees a i h small e (omega (arith, l)) in
    let inside : suc i * a.block_size ≤ a.block_count * a.block_size =
      mul-le-mul_right a.block_size l in
    let here : mul_size i a.block_size ≡ i * a.block_size =
      mul_size-small i a.block_size (omega (arith, inside, small)) in
    let bytes : pool_bytes a ≡ a.block_count * a.block_size =
      mul_size-small a.block_size a.block_count
        (subst (λ n. n < word) (mul_comm a.block_count a.block_size) small)
      ∙ mul_comm a.block_size a.block_count in
    let same : pool_bytes a1 ≡ pool_bytes a =
      ap (λ n. mul_size n a1.block_count) size ∙ ap (λ n. mul_size a.block_size n) count in
    let (a2, e2, (size', count', free')) =
      link-Frees a1 (i * a.block_size) (block_addresses a.block_size i)
        (omega (arith, same, bytes, inside, h))
        (addresses-AllApart a.block_size i i h (omega arith)) free in
    (a2, link_blocks-suc a a1 i e1 ∙ ap (link a1) here ∙ e2, (size' ∙ size, count' ∙ count, free'))

-- The constructor returns normally where a block can hold a pointer and the sizes do not wrap: the new
-- pool has as many free blocks as it was made for, the multiples of the block's size, the last one
-- first.
pub make-HasFree :
    (block_count block_size : ℕ)
    → field_size ≤ block_size
    → block_count * block_size < word
    → Yields (λ a. HasFree a (block_addresses block_size block_count)) (make block_count block_size)
unfolding make initialize_pool_list
make-HasFree block_count block_size h small =
    let (a, e, (_, _, free)) = link_blocks-Frees _ block_count h small refl (omega arith) in
    (a, e, free)

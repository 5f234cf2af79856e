-- ===== src/Common/Allocators/Linear/Blocks.antt =====
-- The blocks that a `LinearAllocator` of Common/include/Allocators.h gives out.
use bark_direct_x.Prelude.{
  ℕ, ◌+◌, ◌*◌, ◌≤◌, ◌<◌, ◌≡◌, refl, ◌⊎◌, inl, inr, List, [], ◌∷◌, arith, ltb, ltb→lt, Bool-cases,
}
use bark_direct_x.Prelude.Outcome.{Outcome, ok, throws, linear_out_of_memory, ◌>>=◌}
use bark_direct_x.Common.Allocators.{word, add_size, mul_size, add_size-small, mul_size-small}
use bark_direct_x.Common.Allocators.Linear.{LinearAllocator, allocate}

-- A block: its address and its bytes.
abbrev pub Block : Type 0
Block = ℕ × ℕ

-- One call of `Allocate` after another, with the blocks that they return.
unfoldable pub allocate_all :
    LinearAllocator → List (ℕ × ℕ) → Outcome (LinearAllocator × List Block)
unfolding allocate
allocate_all a [] = ok (a, [])
allocate_all a ((size, type_size) ∷ requests) = do
  (a', pointer) ← allocate a size type_size
  (a'', blocks) ← allocate_all a' requests
  ok (a'', (pointer, size * type_size) ∷ blocks)

-- Blocks that follow one another without gap or overlap from `start` to `end`.
abbrev pub Consecutive : ℕ → List Block → ℕ → Type 0
Consecutive start [] end = start ≡ end
Consecutive start ((pointer, bytes) ∷ blocks) end =
    (pointer ≡ start) × Consecutive (start + bytes) blocks end

abbrev pub total : List (ℕ × ℕ) → ℕ
total [] = 0
total ((size, type_size) ∷ requests) = size * type_size + total requests

-- No request is so large that the sizes wrap.
abbrev pub Fits : LinearAllocator → List (ℕ × ℕ) → Type 0
Fits a [] = Unit
Fits a ((size, type_size) ∷ requests) = (a.size + size * type_size < word) × Fits a requests

-- Where no size wraps, a sequence of allocations either returns blocks that follow one another from
-- the old offset to the new one, within the buffer, or throws, and then the buffer is too small for
-- all of them.
pub allocate_all-Consecutive :
    (a : LinearAllocator) (requests : List (ℕ × ℕ))
    → a.offset ≤ a.size
    → Fits a requests
    → ((a' : LinearAllocator) × (blocks : List Block) × (allocate_all a requests ≡ ok (a', blocks))
        × Consecutive a.offset blocks a'.offset
        × (a'.offset ≤ a.size)
        × (a'.size ≡ a.size))
      ⊎ ((allocate_all a requests ≡ throws linear_out_of_memory)
          × (a.size < a.offset + total requests))
unfolding allocate_all
allocate_all-Consecutive a [] h fits = inl (a, [], refl, refl, h, refl)
allocate_all-Consecutive a ((size, type_size) ∷ requests) h (fit, fits) =
    let bytes = size * type_size in
    let m : mul_size size type_size ≡ bytes = mul_size-small size type_size (omega (arith, fit)) in
    let s : add_size a.offset bytes ≡ a.offset + bytes =
      add_size-small a.offset bytes (omega (arith, fit, h)) in
    elim (Bool-cases (ltb a.size (a.offset + bytes))) [
      | inl over ↦ inr (rw (m, s, over) refl, omega (arith, ltb→lt _ _ over))
      | inr room ↦
          let a' : LinearAllocator = record a { offset = a.offset + bytes } in
          elim (allocate_all-Consecutive a' requests (ground (arith, room)) fits) [
            | inl (a'', blocks, e, c, k, z) ↦
                inl (a'', (a.offset, bytes) ∷ blocks, rw (m, s, room, e) refl, (refl, c), k, z)
            | inr (e, k) ↦ inr (rw (m, s, room, e) refl, omega (arith, k))
          ]
    ]

-- ===== src/Common/Allocators/Stack/Order.antt =====
-- Allocations of a `StackAllocator` of Common/include/Allocators.h that are freed in reverse order.
use bark_direct_x.Prelude.{
  ℕ, ◌+◌, ◌-◌, ◌*◌, ◌≤◌, ◌<◌, ◌≡◌, refl, ap, ◌∙◌, some, List, [], ◌∷◌, arith, ltb, false,
}
use bark_direct_x.Prelude.Outcome.{Outcome, ok, ◌>>=◌}
use bark_direct_x.Common.Allocators.{
  word, add_size, mul_size, sub_size, read, add_size-small, mul_size-small, sub_size-add, read-here,
  read-elsewhere,
}
use bark_direct_x.Common.Allocators.Stack.{StackAllocator, header_size, allocate, deallocate}

-- Allocates for the first request, serves the others, and frees: as nested scopes do.
unfoldable pub nest : StackAllocator → List (ℕ × ℕ) → Outcome StackAllocator
unfolding allocate deallocate
nest a [] = ok a
nest a ((size, type_size) ∷ requests) = do
  (a', pointer) ← allocate a size type_size
  a'' ← nest a' requests
  deallocate a'' pointer

-- What the requests take, headers included.
abbrev pub total : List (ℕ × ℕ) → ℕ
total [] = 0
total ((size, type_size) ∷ requests) = size * type_size + header_size + total requests

allocate-fits :
    (a : StackAllocator) (size type_size : ℕ)
    → a.size < word
    → a.top + (size * type_size + header_size) ≤ a.size
    → let bytes = size * type_size + header_size in
      allocate a size type_size
      ≡ ok (
        record a { top = a.top + bytes; headers = (a.top, bytes) ∷ a.headers },
        a.top + header_size,
      )
unfolding allocate
allocate-fits a size type_size small h =
    let bytes = size * type_size in
    let m : mul_size size type_size ≡ bytes =
      mul_size-small size type_size (omega (arith, small, h)) in
    let s : add_size a.top bytes ≡ a.top + bytes =
      add_size-small a.top bytes (omega (arith, small, h)) in
    let t : add_size bytes header_size ≡ bytes + header_size =
      add_size-small bytes header_size (omega (arith, small, h)) in
    let u : add_size a.top (bytes + header_size) ≡ a.top + (bytes + header_size) =
      add_size-small a.top (bytes + header_size) (omega (arith, small, h)) in
    let c : ltb a.size (a.top + bytes) ≡ false = ground (arith, h) in
    let d : ltb a.size (a.top + header_size) ≡ false = ground (arith, h) in
    rw (m, s, t, u, c, d) refl

deallocate-top :
    (a : StackAllocator) (top bytes : ℕ)
    → top + bytes < word
    → a.top ≡ top + bytes
    → read a.headers top ≡ some bytes
    → deallocate a (top + header_size) ≡ ok (record a { top = top })
unfolding deallocate
deallocate-top a top bytes h at found =
    let back : top + header_size - header_size ≡ top = omega arith in
    let here : read a.headers (top + header_size - header_size) ≡ some bytes =
      ap (read a.headers) back ∙ found in
    let less : sub_size a.top bytes ≡ top =
      ap (λ t. sub_size t bytes) at ∙ sub_size-add top bytes h in
    ground (arith, here, less)

-- Where the buffer has room for the requests and their headers, nested allocations and deallocations
-- all succeed, and the top of the stack is where it was, with all headers below it intact.
pub nest-top :
    (a : StackAllocator) (requests : List (ℕ × ℕ))
    → a.size < word
    → a.top + total requests ≤ a.size
    → (a' : StackAllocator) × (nest a requests ≡ ok a')
      × (a'.top ≡ a.top)
      × (a'.size ≡ a.size)
      × ((address : ℕ) → address < a.top → read a'.headers address ≡ read a.headers address)
unfolding nest
nest-top a [] small h = (a, refl, refl, refl, λ _ _. refl)
nest-top a ((size, type_size) ∷ requests) small h =
    let bytes = size * type_size + header_size in
    let a1 : StackAllocator = record a {
      top = a.top + bytes;
      headers = (a.top, bytes) ∷ a.headers;
    } in
    let (a2, e, top, sized, below) = nest-top a1 requests small (omega (arith, h)) in
    let here : read a2.headers a.top ≡ some bytes =
      below a.top (omega arith) ∙ read-here a.headers a.top bytes in
    (
      record a2 { top = a.top },
      rw (allocate-fits a size type_size small (omega (arith, h)), e)
          (deallocate-top a2 a.top bytes (omega (arith, h, small)) top here),
      refl,
      sized,
      λ address l.
          below address (omega (arith, l))
          ∙ read-elsewhere a.headers a.top address bytes (λ p. ground (arith, p, l)),
    )

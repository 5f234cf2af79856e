-- ===== src/Common/Allocators.antt =====
-- The allocators of Common/include/Allocators.h. Addresses count from the start of an allocator's own
-- buffer; `std::size_t` has 64 bits.
pub mod Linear
pub mod Stack
pub mod Pool
pub mod FreeList
pub mod Adapters
use bark_direct_x.Prelude.{
  Bool, Option, none, some, List, [], ◌∷◌, ◌==◌, if◌then◌else◌, ◌-◌, ◌≢◌, ==_refl, ==_iff, ℕ, ◌+◌,
  ◌*◌, ◌%◌, ◌<◌, ◌≤◌, ◌≡◌, ◌⊎◌, ◌&&◌, ltb, refl, arith,
}
use bark_direct_x.Prelude.Outcome.{Outcome, ok, undefined}

abbrev pub word : ℕ
word = 18446744073709551616

-- Arithmetic on `std::size_t` wraps.
unfoldable pub add_size : ℕ → ℕ → ℕ
add_size a b = (a + b) % word

unfoldable pub mul_size : ℕ → ℕ → ℕ
mul_size a b = a * b % word

unfoldable pub sub_size : ℕ → ℕ → ℕ
sub_size a b = (a + (word - b)) % word

-- What was last written at an address, for a memory as the list of its writes, the latest first.
unfoldable pub read {ℓ} : {A : Type ℓ} → List (ℕ × A) → ℕ → Option A
read [] address = none
read ((at, value) ∷ writes) address = if at == address then some value else read writes address

-- The bytes of a pointer and of a `std::size_t`.
abbrev pub field_size : ℕ
field_size = 8

-- The field of 8 bytes at an address, if its bytes have last been written as one: undefined where a
-- write has covered some of them only, or none has covered any.
unfoldable pub load {ℓ} : {A : Type ℓ} → List (ℕ × A) → ℕ → Outcome A
load [] address = undefined
load ((at, field) ∷ writes) address =
    if at == address
    then ok field
    else if ltb at (address + field_size) && ltb address (at + field_size)
    then undefined
    else load writes address

pub load-here {ℓ} :
    {A : Type ℓ} (writes : List (ℕ × A)) (at : ℕ) (value : A)
    → load ((at, value) ∷ writes) at ≡ ok value
unfolding load
load-here writes at value = rw (==_refl at) refl

-- Two fields that do not overlap.
abbrev pub AreApart : ℕ → ℕ → Type 0
AreApart a b = (a + field_size ≤ b) ⊎ (b + field_size ≤ a)

pub load-elsewhere {ℓ} :
    {A : Type ℓ} (writes : List (ℕ × A)) (at address : ℕ) (value : A)
    → AreApart at address
    → load ((at, value) ∷ writes) address ≡ load writes address
unfolding load
load-elsewhere writes at address value h = ground (arith, h)

small : (a : ℕ) → a < word → a % word ≡ a
small a h = omega arith

pub add_size-small : (a b : ℕ) → a + b < word → add_size a b ≡ a + b
unfolding add_size
add_size-small a b h = small (a + b) h

pub mul_size-small : (a b : ℕ) → a * b < word → mul_size a b ≡ a * b
unfolding mul_size
mul_size-small a b h = small (a * b) h

-- Taking away what was added.
pub sub_size-add : (a b : ℕ) → a + b < word → sub_size (a + b) b ≡ a
unfolding sub_size
sub_size-add a b h = omega (arith, h)

pub read-here {ℓ} :
    {A : Type ℓ} (writes : List (ℕ × A)) (at : ℕ) (value : A)
    → read ((at, value) ∷ writes) at ≡ some value
unfolding read
read-here writes at value = rw (==_refl at) refl

pub read-elsewhere {ℓ} :
    {A : Type ℓ} (writes : List (ℕ × A)) (at address : ℕ) (value : A)
    → at ≢ address
    → read ((at, value) ∷ writes) address ≡ read writes address
unfolding read
read-elsewhere writes at address value h = ground (arith, h)

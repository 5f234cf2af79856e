-- ===== src/Prelude/Outcome.antt =====
-- How a C++ call ends. Undefined behaviour (a read or write outside a vector or through a null
-- pointer) is a value of its own, so that a theorem about a result also excludes it.
use mathlib.Core.Path.{◌≡◌, refl}
use mathlib.Core.List.{List}
use mathlib.Core.Option.{Option, none, some}
use Prim.Native.Nat.{ℕ, ◌<◌}
use bark_direct_x.Prelude.Vectors.{length, get_elem?, set, get_elem?-some}

-- The `std::runtime_error`s that the program throws, by their messages.
pub data Exception : Type 0 where
  no_body_found no_collider_found : Exception
  linear_out_of_memory stack_out_of_memory : Exception
  free_list_out_of_memory pool_out_of_memory pool_invalid_size : Exception

pub data Outcome {ℓ} (A : Type ℓ) : Type ℓ where
  ok : A → Outcome A
  throws : Exception → Outcome A
  terminates : Outcome A
  undefined : Outcome A
  out_of_fuel : Outcome A

-- A call that goes on only when the one before it returned.
infixl 5 ◌>>=◌
abbrev pub ◌>>=◌ {κ μ} :
    {Found : Type κ} {Result : Type μ} → Outcome Found → (Found → Outcome Result) → Outcome Result
terminates >>= next = terminates
undefined >>= next = undefined
out_of_fuel >>= next = out_of_fuel
throws exception >>= next = throws exception
ok found >>= next = next found

-- An exception that leaves a `noexcept` function calls `std::terminate`.
abbrev pub noexcept {ℓ} : {A : Type ℓ} → Outcome A → Outcome A
noexcept (ok a) = ok a
noexcept (throws e) = terminates
noexcept terminates = terminates
noexcept undefined = undefined
noexcept out_of_fuel = out_of_fuel

abbrev pub or_undefined {ℓ} : {A : Type ℓ} → Option A → Outcome A
or_undefined none = undefined
or_undefined (some a) = ok a

-- `v[i]`, read.
abbrev pub at {ℓ} : {A : Type ℓ} → List A → ℕ → Outcome A
at xs i = or_undefined (get_elem? xs i)

-- `f(v[i])`, an update of an element through a reference.
abbrev pub modify {ℓ} : {A : Type ℓ} → List A → ℕ → (A → A) → Outcome (List A)
modify xs i f = or_undefined (get_elem? xs i) >>= λ a. ok (set xs i (f a))

-- The call returns, and what it returns has the property.
abbrev pub Yields : {A : Type 0} → (A → Type 0) → Outcome A → Type 0
Yields {A} P r = (a : A) × (r ≡ ok a) × P a

pub >>=-eq-ok {κ μ} :
    {Found : Type κ} {Result : Type μ} (first : Outcome Found) (next : Found → Outcome Result)
    {result : Result}
    → (first >>= next) ≡ ok result
    → (found : Found) × (first ≡ ok found) × (next found ≡ ok result)
>>=-eq-ok (ok found) next h = (found, refl, h)
>>=-eq-ok (throws exception) next h = cc
>>=-eq-ok terminates next h = cc
>>=-eq-ok undefined next h = cc
>>=-eq-ok out_of_fuel next h = cc

-- A read within a vector yields an element.
pub at_rule {ℓ κ μ} :
    {A : Type ℓ} {B : Type κ} (P : Outcome B → Type μ) (xs : List A) (i : ℕ) (f : A → Outcome B)
    → i < length xs
    → ((a : A) → get_elem? xs i ≡ some a → P (f a))
    → P (at xs i >>= f)
at_rule P xs i f h step = let (a, e) = get_elem?-some xs i h in rw e (step a e)

-- ===== src/Prelude/Xor.antt =====
-- The exclusive or of two numbers, exchanged.
use Prim.Native.Nat.{
  ℕ, zero, suc, ◌+◌, ◌*◌, ◌/◌, ◌%◌, ◌≤◌, bit_xor, bit_xor-bitwise, digits, differ,
}
use mathlib.Core.Path.{◌≡◌, refl}
use native.Mathlib.Omega.{arith}

abbrev xor_digits : ℕ → ℕ → ℕ → ℕ
xor_digits n a b = digits (λ c. c) differ n a b

-- Enough rounds are enough.
xor_digits-rounds : (n k a b : ℕ) → a ≤ n → a ≤ k → xor_digits n a b ≡ xor_digits k a b
xor_digits-rounds zero zero a b p q = refl
xor_digits-rounds zero (suc k) zero b p q = refl
xor_digits-rounds zero (suc k) (suc a) b p q = absurd (omega arith)
xor_digits-rounds (suc n) zero zero b p q = refl
xor_digits-rounds (suc n) zero (suc a) b p q = absurd (omega arith)
xor_digits-rounds (suc n) (suc k) zero b p q = refl
xor_digits-rounds (suc n) (suc k) (suc a) b p q =
    omega (arith, xor_digits-rounds n k (suc a / 2) (b / 2) (omega arith) (omega arith))

zero-xor : (b : ℕ) → bit_xor 0 b ≡ b
zero-xor b = bit_xor-bitwise 0 b

differ_comm : (a b : ℕ) → differ a b ≡ differ b a
differ_comm zero zero = refl
differ_comm zero (suc b) = refl
differ_comm (suc a) zero = refl
differ_comm (suc a) (suc b) = differ_comm a b

xor_step :
    (a b : ℕ) → bit_xor (suc a) b ≡ bit_xor (suc a / 2) (b / 2) * 2 + differ (suc a % 2) (b % 2)
xor_step a b = omega (
  arith,
  bit_xor-bitwise (suc a) b,
  bit_xor-bitwise (suc a / 2) (b / 2),
  xor_digits-rounds a (suc a / 2) (suc a / 2) (b / 2) (omega arith) (omega arith),
)

differ-zero : (a : ℕ) → differ a 0 ≡ a
differ-zero zero = refl
differ-zero (suc a) = refl

xor-zero_rounds : (n a : ℕ) → a ≤ n → bit_xor a 0 ≡ a
xor-zero_rounds n zero h = refl
xor-zero_rounds zero (suc a) h = absurd (omega arith)
xor-zero_rounds (suc n) (suc a) h =
    omega
      (arith, xor_step a 0, xor-zero_rounds n (suc a / 2) (omega arith), differ-zero (suc a % 2))

xor_comm_rounds : (n a b : ℕ) → a ≤ n → bit_xor a b ≡ bit_xor b a
xor_comm_rounds n zero b h = omega (arith, zero-xor b, xor-zero_rounds b b (omega arith))
xor_comm_rounds n (suc a) zero h =
    omega (arith, zero-xor (suc a), xor-zero_rounds (suc a) (suc a) (omega arith))
xor_comm_rounds zero (suc a) (suc b) h = absurd (omega arith)
xor_comm_rounds (suc n) (suc a) (suc b) h = omega (
  arith,
  xor_step a (suc b),
  xor_step b (suc a),
  xor_comm_rounds n (suc a / 2) (suc b / 2) (omega arith),
  differ_comm (suc a % 2) (suc b % 2),
)

pub xor_comm : (a b : ℕ) → bit_xor a b ≡ bit_xor b a
xor_comm a b = xor_comm_rounds a a b (omega arith)

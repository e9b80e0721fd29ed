-- ===== src/Common/Xor.antt =====
-- `^` on words of any width, from its binary digits.
use Prim.Native.Nat.{
  ℕ, zero, suc, ◌+◌, ◌*◌, ◌/◌, ◌%◌, ◌^◌, ◌≤◌, ◌<◌, bit_xor, digits, differ, bit_xor-bitwise,
}
use mathlib.Core.Path.{◌≡◌, refl}
use native.Mathlib.Omega.{arith}
use native.Mathlib.Nat.{pow-suc}

abbrev differing : ℕ → ℕ → ℕ → ℕ
differing = digits (λ b. b) differ

differing_fuel : (n m a b : ℕ) → a ≤ n → a ≤ m → differing n a b ≡ differing m a b
differing_fuel zero zero a b p q = refl
differing_fuel zero (suc m) zero b p q = refl
differing_fuel zero (suc m) (suc a) b p q = absurd (omega arith)
differing_fuel (suc n) zero zero b p q = refl
differing_fuel (suc n) zero (suc a) b p q = absurd (omega arith)
differing_fuel (suc n) (suc m) zero b p q = refl
differing_fuel (suc n) (suc m) (suc a) b p q =
    omega (arith, differing_fuel n m (suc a / 2) (b / 2) (omega arith) (omega arith))

differ_bits : (p q : ℕ) → p < 2 → q < 2 → differ p q ≡ (p + q) % 2
differ_bits zero q h k = omega arith
differ_bits (suc zero) zero h k = refl
differ_bits (suc zero) (suc zero) h k = refl
differ_bits (suc zero) (suc (suc q)) h k = absurd (omega arith)
differ_bits (suc (suc p)) q h k = absurd (omega arith)

pub bit_xor_step : (a b : ℕ) → bit_xor a b ≡ bit_xor (a / 2) (b / 2) * 2 + (a % 2 + b % 2) % 2
bit_xor_step zero b =
    omega (arith, bit_xor-bitwise 0 b, bit_xor-bitwise 0 (b / 2), bit_xor-bitwise (0 / 2) (b / 2))
bit_xor_step (suc a) b = omega (
  arith,
  bit_xor-bitwise (suc a) b,
  bit_xor-bitwise (suc a / 2) (b / 2),
  differing_fuel a (suc a / 2) (suc a / 2) (b / 2) (omega arith) (omega arith),
  differ_bits (suc a % 2) (b % 2) (omega arith) (omega arith),
)

bit_xor-half : (a b : ℕ) → bit_xor a b / 2 ≡ bit_xor (a / 2) (b / 2)
bit_xor-half a b = omega (arith, bit_xor_step a b)

half_lt : (n a : ℕ) → a < 2 ^ suc n → a / 2 < 2 ^ n
half_lt n a h = omega (arith, pow-suc 2 n)

-- `a ^ b ^ b` is `a`.
pub bit_xor_twice : (n a b : ℕ) → a < 2 ^ n → b < 2 ^ n → bit_xor (bit_xor a b) b ≡ a
bit_xor_twice zero zero zero h k = refl
bit_xor_twice zero zero (suc b) h k = absurd (omega arith)
bit_xor_twice zero (suc a) b h k = absurd (omega arith)
bit_xor_twice (suc n) a b h k = omega (
  arith,
  bit_xor_step a b,
  bit_xor_step (bit_xor a b) b,
  rw (← bit_xor-half a b) at (bit_xor_twice n (a / 2) (b / 2) (half_lt n a h) (half_lt n b k)),
)

-- The result of `^` is no wider than its arguments.
pub bit_xor-lt : (n a b : ℕ) → a < 2 ^ n → b < 2 ^ n → bit_xor a b < 2 ^ n
bit_xor-lt zero zero zero h k = omega arith
bit_xor-lt zero zero (suc b) h k = absurd (omega arith)
bit_xor-lt zero (suc a) b h k = absurd (omega arith)
bit_xor-lt (suc n) a b h k = omega (
  arith,
  pow-suc 2 n,
  bit_xor_step a b,
  bit_xor-lt n (a / 2) (b / 2) (half_lt n a h) (half_lt n b k),
)

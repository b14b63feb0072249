-- ===== src/Base/Bits.antt =====
-- `x ^ 0xffffffff` on a 32-bit word, as arithmetic.
use Prim.Native.Nat.{
  ℕ, zero, suc, ◌+◌, ◌-◌, ◌*◌, ◌/◌, ◌%◌, ◌^◌, ◌≤◌, ◌<◌, bit_xor, digits, differ, bit_xor-bitwise,
}
use mathlib.Core.Path.{◌≡◌, refl}
use native.Mathlib.Nat.{pow-suc}
use native.Mathlib.Omega.{arith}

-- The digit recursion behind `bit_xor`, with its bound on the digits explicit.
abbrev xor_digits : ℕ → ℕ → ℕ → ℕ
xor_digits n a b = digits (λ d. d) differ n a b

-- Any bound that covers the first word gives the same digits.
xor_digits_fuel : (n m a b : ℕ) → a ≤ n → a ≤ m → xor_digits n a b ≡ xor_digits m a b
xor_digits_fuel zero zero a b p q = refl
xor_digits_fuel zero (suc m) zero b p q = refl
xor_digits_fuel zero (suc m) (suc a) b p q = absurd (omega arith)
xor_digits_fuel (suc n) zero zero b p q = refl
xor_digits_fuel (suc n) zero (suc a) b p q = absurd (omega arith)
xor_digits_fuel (suc n) (suc m) zero b p q = refl
xor_digits_fuel (suc n) (suc m) (suc a) b p q =
    omega (arith, xor_digits_fuel n m (suc a / 2) (b / 2) (omega arith) (omega arith))

zero-bit_xor : (b : ℕ) → bit_xor 0 b ≡ b
zero-bit_xor b = bit_xor-bitwise 0 b

bit_xor_step : (a b : ℕ) → bit_xor a b ≡ bit_xor (a / 2) (b / 2) * 2 + differ (a % 2) (b % 2)
bit_xor_step zero b = omega (arith, zero-bit_xor b, zero-bit_xor (b / 2))
bit_xor_step (suc a) b = omega (
  arith,
  bit_xor-bitwise (suc a) b,
  bit_xor-bitwise (suc a / 2) (b / 2),
  xor_digits_fuel a (suc a / 2) (suc a / 2) (b / 2) (omega arith) (omega arith),
)

one-le-two-pow : (k : ℕ) → 1 ≤ 2 ^ k
one-le-two-pow zero = omega arith
one-le-two-pow (suc k) = omega (arith, pow-suc 2 k, one-le-two-pow k)

-- k + 1 ones are k ones and a one.
half_ones : (k : ℕ) → (2 ^ suc k - 1) / 2 ≡ 2 ^ k - 1
half_ones k = omega (arith, pow-suc 2 k, one-le-two-pow k)

low_digit : (k : ℕ) → (2 ^ suc k - 1) % 2 ≡ 1
low_digit k = omega (arith, pow-suc 2 k, one-le-two-pow k)

flip : (d : ℕ) → d < 2 → differ d 1 ≡ 1 - d
flip zero h = refl
flip (suc zero) h = refl
flip (suc (suc d)) h = absurd (omega arith)

-- Against k ones, every digit is turned over.
pub bit_xor_ones : (k x : ℕ) → x < 2 ^ k → bit_xor x (2 ^ k - 1) ≡ 2 ^ k - 1 - x
bit_xor_ones zero zero h = refl
bit_xor_ones zero (suc x) h = absurd (omega arith)
bit_xor_ones (suc k) x h =
    rw (bit_xor_step x (2 ^ suc k - 1), half_ones k, low_digit k, flip (x % 2) (omega arith))
      (omega
        (arith, pow-suc 2 k, one-le-two-pow k, bit_xor_ones k (x / 2) (omega (arith, pow-suc 2 k))))

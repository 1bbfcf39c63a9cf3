-- ===== src/Base/Or.antt =====
-- `bit_or` at variables, where its operands have few bits in common.
use Prim.Native.Nat.{
  ℕ, zero, suc, ◌+◌, ◌*◌, ◌/◌, ◌%◌, ◌≤◌, ◌<◌, max, bit_or, digits, bit_or-bitwise,
}
use mathlib.Core.Path.{◌≡◌, refl, ap, sym, subst}
use native.Mathlib.Omega.{arith}

abbrev or_digits : ℕ → ℕ → ℕ → ℕ
or_digits n a b = digits (λ b. b) max n a b

or_digits_fuel : (n m a b : ℕ) → a ≤ n → a ≤ m → or_digits n a b ≡ or_digits m a b
or_digits_fuel zero zero a b p q = refl
or_digits_fuel zero (suc m) zero b p q = refl
or_digits_fuel zero (suc m) (suc a) b p q = absurd (omega arith)
or_digits_fuel (suc n) zero zero b p q = refl
or_digits_fuel (suc n) zero (suc a) b p q = absurd (omega arith)
or_digits_fuel (suc n) (suc m) zero b p q = refl
or_digits_fuel (suc n) (suc m) (suc a) b p q =
    omega (arith, or_digits_fuel n m (suc a / 2) (b / 2) (omega arith) (omega arith))

zero-bit_or : (b : ℕ) → bit_or 0 b ≡ b
zero-bit_or b = bit_or-bitwise 0 b

bit_or_step : (a b : ℕ) → bit_or a b ≡ bit_or (a / 2) (b / 2) * 2 + max (a % 2) (b % 2)
bit_or_step zero b = omega (arith, zero-bit_or b, zero-bit_or (b / 2))
bit_or_step (suc a) b = omega (
  arith,
  bit_or-bitwise (suc a) b,
  bit_or-bitwise (suc a / 2) (b / 2),
  or_digits_fuel a (suc a / 2) (suc a / 2) (b / 2) (omega arith) (omega arith),
)

bit_or-zero_fuel : (n a : ℕ) → a ≤ n → bit_or a 0 ≡ a
bit_or-zero_fuel n zero h = zero-bit_or 0
bit_or-zero_fuel zero (suc a) h = absurd (omega arith)
bit_or-zero_fuel (suc n) (suc a) h =
    omega (arith, bit_or_step (suc a) 0, bit_or-zero_fuel n (suc a / 2) (omega arith))

pub bit_or-zero : (a : ℕ) → bit_or a 0 ≡ a
bit_or-zero a = bit_or-zero_fuel a a (omega arith)

pub bit_or-one : (a : ℕ) → bit_or a 1 ≡ a / 2 * 2 + 1
bit_or-one a = omega (arith, bit_or_step a 1, bit_or-zero (a / 2))

double : (c a b : ℕ) → c ≡ a * 2 → bit_or c b ≡ bit_or a (b / 2) * 2 + b % 2
double c a b h =
    let half : c / 2 ≡ a = omega arith in
    let lower : bit_or (c / 2) (b / 2) ≡ bit_or a (b / 2) = ap (λ x. bit_or x (b / 2)) half in
    omega (arith, bit_or_step c b)

-- `a` has no bit below `k`.
abbrev Apart : ℕ → ℕ → Type 0
Apart a k = (b : ℕ) → b < k → bit_or a b ≡ a + b

Apart-step : (a k : ℕ) → Apart a k → Apart (a * 2) (k * 2)
Apart-step a k h b below = omega (arith, double (a * 2) a b refl, h (b / 2) (omega arith))

Apart-one : (a : ℕ) → Apart a 1
Apart-one a b h =
    let nothing : bit_or a b ≡ bit_or a 0 = ap (bit_or a) (omega arith) in
    omega (arith, nothing, bit_or-zero a)

Apart-32 : (a : ℕ) → Apart (a * 2 * 2 * 2 * 2 * 2) 32
Apart-32 a =
    Apart-step _ 16
      (Apart-step _ 8 (Apart-step _ 4 (Apart-step _ 2 (Apart-step a 1 (Apart-one a)))))

pub bit_or_shifted : (a b : ℕ) → b < 1024 → bit_or (a * 1024) b ≡ a * 1024 + b
bit_or_shifted a b h =
    let c : ℕ = a * 2 * 2 * 2 * 2 * 2 in
    let wide : Apart (c * 2 * 2 * 2 * 2 * 2) 1024 =
      Apart-step _ 512
        (Apart-step _ 256 (Apart-step _ 128 (Apart-step _ 64 (Apart-step c 32 (Apart-32 a))))) in
    let shape : a * 1024 ≡ c * 2 * 2 * 2 * 2 * 2 = omega arith in
    subst (λ x. bit_or x b ≡ x + b) (sym shape) (wide b h)

-- ===== src/Base/Bytes.antt =====
-- Bytes, and the bits of a byte: the source's `b & (1u << k)`, `b | (1u << k)` and `b & ~(1u << k)`.
use Prim.Native.Nat.{ℕ, zero, suc, ◌-◌, ◌^◌, ◌<◌, bit_and, bit_or}
use mathlib.Core.Path.{◌≡◌, refl}
use mathlib.Core.Logic.{inl, inr}
use mathlib.Core.Bool.{Bool, true, false, not, ◌&&◌, ◌||◌}
use native.Mathlib.Omega.{arith}
use cute_core.Base.Tests.{ltb, ◌==◌, Bool-cases}

unfoldable pub bit_test : ℕ → ℕ → Bool
bit_test b k = not (bit_and b (2 ^ k) == 0)

unfoldable pub bit_set : ℕ → ℕ → ℕ
bit_set b k = bit_or b (2 ^ k)

unfoldable pub bit_clear : ℕ → ℕ → ℕ
bit_clear b k = bit_and b (255 - 2 ^ k)

-- A test of the numbers below a bound, from 0 on.
unfoldable pub every_upto : (ℕ → Bool) → ℕ → Bool
every_upto test zero = true
every_upto test (suc bound) = every_upto test bound && test bound

pub every_upto-at :
    (test : ℕ → Bool) (bound value : ℕ)
    → value < bound
    → every_upto test bound ≡ true
    → test value ≡ true
unfolding every_upto
every_upto-at test zero value below passes = absurd (omega arith)
every_upto-at test (suc bound) value below passes = elim (Bool-cases (value == bound)) [
  | inl last ↦ ground arith
  | inr earlier ↦ every_upto-at test bound value (ground arith) (ground arith)
]

abbrev same : Bool → Bool → Bool
same true b = b
same false b = not b

same→eq : (a b : Bool) → same a b ≡ true → a ≡ b
same→eq a b h = ground arith

abbrev set_test : ℕ → ℕ → ℕ → Bool
set_test b k j = same (bit_test (bit_set b k) j) ((k == j) || bit_test b j)

abbrev clear_test : ℕ → ℕ → ℕ → Bool
clear_test b k j = same (bit_test (bit_clear b k) j) (not (k == j) && bit_test b j)

abbrev every_bit : (ℕ → Bool) → Bool
every_bit test = every_upto test 8

abbrev every_byte : (ℕ → Bool) → Bool
every_byte test = every_upto test 256

set_table : every_byte (λ b. every_bit (λ k. every_bit (set_test b k))) ≡ true
unfolding every_upto bit_test bit_set
set_table = refl

clear_table : every_byte (λ b. every_bit (λ k. every_bit (clear_test b k))) ≡ true
unfolding every_upto bit_test bit_clear
clear_table = refl

byte_table :
    every_byte (λ b. every_bit (λ k. ltb (bit_set b k) 256 && ltb (bit_clear b k) 256)) ≡ true
unfolding every_upto bit_set bit_clear
byte_table = refl

module _ (b k : ℕ) (hb : b < 256) (hk : k < 8) where
  pub bit_test-bit_set : (j : ℕ) → j < 8 → bit_test (bit_set b k) j ≡ ((k == j) || bit_test b j)
  bit_test-bit_set j hj =
      same→eq _ _
        (every_upto-at _ _ j hj (every_upto-at _ _ k hk (every_upto-at _ _ b hb set_table)))

  pub bit_test-bit_clear :
      (j : ℕ) → j < 8 → bit_test (bit_clear b k) j ≡ (not (k == j) && bit_test b j)
  bit_test-bit_clear j hj =
      same→eq _ _
        (every_upto-at _ _ j hj (every_upto-at _ _ k hk (every_upto-at _ _ b hb clear_table)))

  bounds : (ltb (bit_set b k) 256 && ltb (bit_clear b k) 256) ≡ true
  bounds = every_upto-at _ _ k hk (every_upto-at _ _ b hb byte_table)

  pub bit_set-lt : bit_set b k < 256
  bit_set-lt = ground (arith, bounds)

  pub bit_clear-lt : bit_clear b k < 256
  bit_clear-lt = ground (arith, bounds)

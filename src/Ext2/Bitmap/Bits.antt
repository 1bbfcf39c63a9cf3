-- ===== src/Ext2/Bitmap/Bits.antt =====
-- A bit set or cleared in a bitmap, and every other bit as it was.
use cute_core.Base.{
  ℕ, ◌/◌, ◌%◌, ◌<◌, ◌≡◌, ◌≢◌, sym, inl, inr, not, ◌&&◌, ◌||◌, arith, ◌==◌, Bool-cases,
}
use cute_core.Base.Words.{Bytes}
use cute_core.Base.Bytes.{bit_test-bit_set, bit_test-bit_clear, bit_set-lt, bit_clear-lt}
use cute_core.Ext2.Bitmap.{bit_at, set_bit, clear_bit}

-- Two bits of one byte are the same if they are the same within it.
same_place : (i j : ℕ) → i / 8 ≡ j / 8 → (i % 8 == j % 8) ≡ (i == j)
same_place i j e = elim (Bool-cases (i == j)) [
  | inl same ↦ ground arith
  | inr ne ↦ (let apart : i % 8 ≢ j % 8 = (λ h. absurd (ground arith)) in ground arith)
]

module _ (bit : ℕ) (b : Bytes) (is_byte : b (bit / 8) < 256) where
  -- In a map of bytes, after a bit is set it is set, and every other is as before.
  pub bit_at-set_bit : (i : ℕ) → bit_at (set_bit bit b) i ≡ ((bit == i) || bit_at b i)
  unfolding bit_at set_bit
  bit_at-set_bit i = elim (Bool-cases (bit / 8 == i / 8)) [
    | inl e ↦
        (let q : i / 8 ≡ bit / 8 = ground arith in
          rw (
            e,
            q,
            bit_test-bit_set (b (bit / 8)) (bit % 8) is_byte (omega arith) (i % 8) (omega arith),
            same_place bit i (sym q),
          ))
    | inr e ↦ ground arith
  ]

  -- In a map of bytes, after a bit is cleared it is clear, and every other is as before.
  pub bit_at-clear_bit : (i : ℕ) → bit_at (clear_bit bit b) i ≡ (not (bit == i) && bit_at b i)
  unfolding bit_at clear_bit
  bit_at-clear_bit i = elim (Bool-cases (bit / 8 == i / 8)) [
    | inl e ↦
        (let q : i / 8 ≡ bit / 8 = ground arith in
          rw (
            e,
            q,
            bit_test-bit_clear (b (bit / 8)) (bit % 8) is_byte (omega arith) (i % 8) (omega arith),
            same_place bit i (sym q),
          ))
    | inr e ↦ ground arith
  ]

  pub set_bit-lt : (i : ℕ) → b i < 256 → set_bit bit b i < 256
  unfolding set_bit
  set_bit-lt i h = ground (arith, bit_set-lt (b (bit / 8)) (bit % 8) is_byte (omega arith))

  pub clear_bit-lt : (i : ℕ) → b i < 256 → clear_bit bit b i < 256
  unfolding clear_bit
  clear_bit-lt i h = ground (arith, bit_clear-lt (b (bit / 8)) (bit % 8) is_byte (omega arith))

-- ===== src/Ext2/Bitmap.antt =====
-- fs/ext2/balloc.c and ialloc.c: the search of a bitmap for its first clear bit, and a bit set or
-- cleared in it.
pub mod Search
pub mod Bits
use cute_core.Base.{
  ℕ, zero, suc, ◌+◌, ◌*◌, ◌/◌, ◌%◌, Bool, Option, none, some, leb, ◌==◌, if◌then◌else◌,
}
use cute_core.Base.Words.{Bytes}
use cute_core.Base.Bytes.{bit_test, bit_set, bit_clear}

-- bit `i` of the map
unfoldable pub bit_at : Bytes → ℕ → Bool
bit_at b i = bit_test (b (i / 8)) (i % 8)

-- The loop over the bits `k` of one byte, with the rounds left; it stops at the limit.
unfoldable pub scan_bits : ℕ → ℕ → ℕ → ℕ → ℕ → Option ℕ
scan_bits zero k byte b limit = none
scan_bits (suc n) k byte b limit =
    let rest = scan_bits n (k + 1) byte b limit in
    if bit_test b k then rest else if leb limit (byte * 8 + k) then none else some (byte * 8 + k)

-- The loop over the bytes, with the rounds left; a full byte is skipped.
unfoldable pub scan_bytes : ℕ → ℕ → Bytes → ℕ → Option ℕ
scan_bytes zero byte b limit = none
scan_bytes (suc n) byte b limit =
    let rest = scan_bytes n (byte + 1) b limit in
    if b byte == 255
    then rest
    else elim (scan_bits 8 0 byte (b byte) limit) [ none ↦ rest | some bit ↦ some bit ]

-- `limit + 7` is taken without wrap-around, so this is the source's search for a limit below 2^32 - 7.
-- A limit beyond the bits of a block makes the source read behind its data; here the bytes go on.
unfoldable pub find_clear : Bytes → ℕ → Option ℕ
find_clear b limit = scan_bytes ((limit + 7) / 8) 0 b limit

-- `data[bit / 8] |= 1 << bit % 8`, and `&= ~(...)`
unfoldable pub set_bit : ℕ → Bytes → Bytes
set_bit bit b i = if bit / 8 == i then bit_set (b i) (bit % 8) else b i

unfoldable pub clear_bit : ℕ → Bytes → Bytes
clear_bit bit b i = if bit / 8 == i then bit_clear (b i) (bit % 8) else b i

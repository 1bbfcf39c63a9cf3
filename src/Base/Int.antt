-- ===== src/Base/Int.antt =====
-- Signed results: `negsuc n` is -(n + 1).
use Prim.Native.Nat.{ℕ, ◌-◌, ◌%◌, ◌^◌}
use cute_core.Base.Tests.{ltb, leb, if◌then◌else◌}

pub data ℤ : Type 0 where
  pos : ℕ → ℤ
  negsuc : ℕ → ℤ

-- a - b
abbrev pub sub_ℕ : ℕ → ℕ → ℤ
sub_ℕ a b = if leb b a then pos (a - b) else negsuc (b - a - 1)

-- a word as a signed number
abbrev pub as_i32 : ℕ → ℤ
as_i32 a = if ltb (a % 2 ^ 32) (2 ^ 31) then pos (a % 2 ^ 32) else negsuc (2 ^ 32 - 1 - a % 2 ^ 32)

abbrev pub as_i64 : ℕ → ℤ
as_i64 a = if ltb (a % 2 ^ 64) (2 ^ 63) then pos (a % 2 ^ 64) else negsuc (2 ^ 64 - 1 - a % 2 ^ 64)

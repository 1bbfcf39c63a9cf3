-- ===== src/Str/Tests.antt =====
-- The routines of lib/string.c on small memories, and the theorems at them.
use cute_core.Base.{
  ℕ, ◌-◌, ◌≡◌, refl, some, List, [], ◌∷◌, arith, ◌==◌, leb, if◌then◌else◌, get_elem?,
}
use mathlib.Core.Option
use cute_core.Base.Int.{negsuc}
use cute_core.Str.{Memory, copy_up, copy_down, memcpy, memmove, strcmp}
use cute_core.Str.Nul.{IsString}

-- "abcd" at 10, and "ab" at 20, in a memory of zeros
abbrev bytes : List ℕ
bytes = 97 ∷ 98 ∷ 99 ∷ 100 ∷ []

abbrev mem : Memory
mem a =
    if leb 10 a
    then if leb 14 a
      then (if a == 20 then 97 else if a == 21 then 98 else 0)
      else Option.get_or (get_elem? bytes (a - 10)) 0
    else 0

overlap_up : (memmove 11 10 3 mem).0 13 ≡ 99
unfolding memmove copy_down copy_up
overlap_up = refl

overlap_down : (memmove 9 10 4 mem).0 9 ≡ 97
unfolding memmove copy_up copy_down
overlap_down = refl

-- the copy upwards into its own source repeats the first byte
memcpy_overlap : (memcpy 11 10 3 mem).0 13 ≡ 97
unfolding memcpy copy_up
memcpy_overlap = refl

prefix_compares_less : strcmp 9 20 10 mem ≡ some (negsuc 98)
unfolding strcmp
prefix_compares_less = refl

long_at : IsString mem 10 bytes
long_at = ground arith

short_at : IsString mem 20 (97 ∷ 98 ∷ [])
short_at = ground arith

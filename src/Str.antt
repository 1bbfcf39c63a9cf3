-- ===== src/Str.antt =====
-- lib/string.c: the memory and string routines, over a memory of bytes by address.
-- A loop that counts recurs on the rounds left; one that looks for a NUL takes fuel, and `none`
-- means that the fuel ran out. Addresses do not wrap, since no C object does.
pub mod Compare
pub mod Copy
pub mod Nul
mod Tests
use cute_core.Base.{
  ℕ, zero, suc, ◌+◌, ◌-◌, ◌%◌, Bool, true, false, not, ◌&&◌, Option, none, some, ltb, ◌==◌,
  if◌then◌else◌,
}
use cute_core.Base.Int.{ℤ, pos, sub_ℕ}

abbrev pub Memory : Type 0
Memory = ℕ → ℕ

-- `*p = v`
abbrev pub store : Memory → ℕ → ℕ → Memory
store m p v a = if p == a then v else m a

-- `for (; i < n; i++) d[i] = s[i]`, with the rounds that are left
unfoldable pub copy_up : ℕ → ℕ → ℕ → ℕ → Memory → Memory
copy_up zero i d s m = m
copy_up (suc n) i d s m = copy_up n (i + 1) d s (store m (d + i) (m (s + i)))

-- `for (; i > 0; i--) d[i - 1] = s[i - 1]`
unfoldable pub copy_down : ℕ → ℕ → ℕ → Memory → Memory
copy_down zero d s m = m
copy_down (suc i) d s m = copy_down i d s (store m (d + i) (m (s + i)))

-- The new memory, and the pointer returned.
unfoldable pub memcpy : ℕ → ℕ → ℕ → Memory → Memory × ℕ
memcpy s1 s2 n m = (copy_up n 0 s1 s2 m, s1)

unfoldable pub memmove : ℕ → ℕ → ℕ → Memory → Memory × ℕ
memmove dest src n m =
    if dest == src
    then (m, dest)
    else if ltb dest src
    then (copy_up n 0 dest src m, dest)
    else (copy_down n dest src m, dest)

unfoldable pub fill : ℕ → ℕ → ℕ → ℕ → Memory → Memory
fill zero i p c m = m
fill (suc n) i p c m = fill n (i + 1) p c (store m (p + i) (c % 256))

-- `memset` returns 0 and not the pointer.
unfoldable pub memset : ℕ → ℕ → ℕ → Memory → Memory × ℕ
memset s c n m = (fill n 0 s c m, 0)

unfoldable pub memcmp_from : ℕ → ℕ → ℕ → ℕ → Memory → ℤ
memcmp_from zero i p1 p2 m = pos 0
memcmp_from (suc n) i p1 p2 m =
    let rest = memcmp_from n (i + 1) p1 p2 m in
    if m (p1 + i) == m (p2 + i) then rest else sub_ℕ (m (p1 + i)) (m (p2 + i))

unfoldable pub memcmp : ℕ → ℕ → ℕ → Memory → ℤ
memcmp s1 s2 n m = memcmp_from n 0 s1 s2 m

unfoldable pub strcmp : ℕ → ℕ → ℕ → Memory → Option ℤ
strcmp zero s1 s2 m = none
strcmp (suc fuel) s1 s2 m =
    let rest = strcmp fuel (s1 + 1) (s2 + 1) m in
    if not (m s1 == 0) && (m s1 == m s2) then rest else some (sub_ℕ (m s1) (m s2))

-- `while ((*dest++ = *src++) != 0)`
unfoldable pub copy_string : ℕ → ℕ → ℕ → Memory → Option Memory
copy_string zero dest src m = none
copy_string (suc fuel) dest src m =
    let m' : Memory = store m dest (m src) in
    let rest = copy_string fuel (dest + 1) (src + 1) m' in if m src == 0 then some m' else rest

unfoldable pub strcpy : ℕ → ℕ → ℕ → Memory → Option Memory
strcpy fuel dest src m = copy_string fuel dest src m

-- where `while (*p) p++` stops
unfoldable pub find_nul : ℕ → ℕ → Memory → Option ℕ
find_nul zero p m = none
find_nul (suc fuel) p m = let rest = find_nul fuel (p + 1) m in if m p == 0 then some p else rest

unfoldable pub strlen : ℕ → ℕ → Memory → Option ℕ
strlen fuel s m = elim (find_nul fuel s m) [ none ↦ none | some p ↦ some (p - s) ]

unfoldable pub strcat : ℕ → ℕ → ℕ → Memory → Option Memory
strcat fuel s1 s2 m = elim (find_nul fuel s1 m) [ none ↦ none | some p ↦ copy_string fuel p s2 m ]

-- ===== src/Str/Copy.antt =====
-- `memcpy`, `memmove` and `memset`: what every byte of the memory is afterwards.
use cute_core.Base.{
  ℕ, zero, suc, ◌+◌, ◌-◌, ◌%◌, ◌≤◌, ◌≡◌, refl, ◌⊎◌, Bool, ◌&&◌, arith, ltb, leb, if◌then◌else◌,
}
use cute_core.Str.{Memory, store, copy_up, copy_down, memcpy, memmove, fill, memset}

-- `a` is one of the `n` addresses from `p` on.
abbrev pub within : ℕ → ℕ → ℕ → Bool
within p n a = leb p a && ltb a (p + n)

-- The copy upwards is right unless it overwrites what it has yet to read.
pub copy_up_lem :
    (n i d s : ℕ) (m : Memory) (a : ℕ)
    → (d ≤ s) ⊎ (s + n ≤ d)
    → copy_up n i d s m a ≡ (if within (d + i) n a then m (s + (a - d)) else m a)
unfolding copy_up
copy_up_lem zero i d s m a h = ground arith
copy_up_lem (suc n) i d s m a h =
    ground (arith, copy_up_lem n (i + 1) d s (store m (d + i) (m (s + i))) a)

pub copy_down_lem :
    (n d s : ℕ) (m : Memory) (a : ℕ)
    → s ≤ d
    → copy_down n d s m a ≡ (if within d n a then m (s + (a - d)) else m a)
unfolding copy_down
copy_down_lem zero d s m a h = ground arith
copy_down_lem (suc n) d s m a h =
    ground (arith, copy_down_lem n d s (store m (d + n) (m (s + n))) a h)

pub fill_lem :
    (n i p c : ℕ) (m : Memory) (a : ℕ)
    → fill n i p c m a ≡ (if within (p + i) n a then c % 256 else m a)
unfolding fill
fill_lem zero i p c m a = ground arith
fill_lem (suc n) i p c m a = ground (arith, fill_lem n (i + 1) p c (store m (p + i) (c % 256)) a)

-- `memmove` copies the `n` bytes as they were, however the two ranges overlap, and changes no
-- other byte.
pub memmove_lem :
    (dest src n : ℕ) (m : Memory) (a : ℕ)
    → (memmove dest src n m).0 a ≡ (if within dest n a then m (src + (a - dest)) else m a)
unfolding memmove
memmove_lem dest src n m a =
    ground (arith, copy_up_lem n 0 dest src m a, copy_down_lem n dest src m a)

-- `memcpy` copies the `n` bytes as they were and changes no other byte, if the destination does not
-- begin inside the source.
pub memcpy_lem :
    (s1 s2 n : ℕ) (m : Memory) (a : ℕ)
    → (s1 ≤ s2) ⊎ (s2 + n ≤ s1)
    → (memcpy s1 s2 n m).0 a ≡ (if within s1 n a then m (s2 + (a - s1)) else m a)
unfolding memcpy
memcpy_lem s1 s2 n m a h = ground (arith, copy_up_lem n 0 s1 s2 m a h)

-- `memset` sets the `n` bytes to the low byte of `c` and no other, and returns a null pointer.
pub memset_lem :
    (s c n : ℕ) (m : Memory)
    → ((memset s c n m).1 ≡ 0)
      × ((a : ℕ) → (memset s c n m).0 a ≡ (if within s n a then c % 256 else m a))
unfolding memset
memset_lem s c n m = (refl, λ a. ground (arith, fill_lem n 0 s c m a))

-- ===== src/Slab/Tests.antt =====
-- The theorems of the slabs: objects of 8 bytes in a page, and an object of 100.
use cute_core.Base.{ok, ◌+◌, ◌-◌, ◌/◌, ◌≡◌, ◌≤◌, refl, [], ◌∷◌, arith, ◌==◌, if◌then◌else◌}
use cute_core.Base.Words.{Bytes, get_u32, get_u64}
use cute_core.Pages.{Kmem, page_size}
use cute_core.Slab.{slab_size, slab_header, slabinit, sizes, kmalloc, cache_alloc, cache_free}
use cute_core.Slab.Init.{obj_at, Linked, IsFresh, slabinit_lem}
use cute_core.Slab.Reuse.{IsBytes, cache_alloc-cache_free}
use cute_core.Slab.Classes.{AllocatedBy, kmalloc_lem}

-- A cache at 64 for objects of 8 bytes.
abbrev memory : Bytes
memory a = if a == 64 then 8 else 0

eight : get_u32 64 memory ≡ 8
unfolding get_u32
eight = refl

slabinit_lem_example :
    IsFresh 64 8192 ((page_size - slab_size) / get_u32 64 memory) (slabinit 64 8192 memory)
    × Linked
        (get_u32 64 memory)
        (8192 + slab_size)
        ((page_size - slab_size) / get_u32 64 memory)
        (slab_header 64 8192 ((page_size - slab_size) / get_u32 64 memory) memory)
        (slabinit 64 8192 memory)
    × (obj_at (get_u32 64 memory) (8192 + slab_size) ((page_size - slab_size) / get_u32 64 memory)
        ≤ 8192 + page_size)
slabinit_lem_example =
    slabinit_lem 64 8192 memory (omega arith) (omega arith) (rw eight (omega arith))

-- With objects of 8 bytes the null pointer lies in the next page.
behind : obj_at 8 (8192 + slab_size) ((page_size - slab_size) / 8) ≡ 8192 + page_size
behind = refl

kmalloc_lem_example :
    AllocatedBy
      (kmalloc (1 ∷ 2 ∷ 3 ∷ 4 ∷ 5 ∷ 6 ∷ 7 ∷ 8 ∷ 9 ∷ []) 100)
      100
      sizes
      (1 ∷ 2 ∷ 3 ∷ 4 ∷ 5 ∷ 6 ∷ 7 ∷ 8 ∷ 9 ∷ [])
kmalloc_lem_example =
    kmalloc_lem 100 (1 ∷ 2 ∷ 3 ∷ 4 ∷ 5 ∷ 6 ∷ 7 ∷ 8 ∷ 9 ∷ []) (omega arith) (omega arith) refl

-- The cache at 64 has the slab at 4096, whose first object is at 4136; 2 of its 3 objects are free.
abbrev slab : Bytes
slab a =
    if a == 81
    then 0x10
    else if a == 4112
    then 0x28
    else if a == 4113
    then 0x10
    else if a == 4120
    then 2
    else if a == 4124
    then 3
    else 0

abbrev machine : Kmem
machine = record { memlist = 0; memory = slab }

slab-IsBytes : IsBytes slab
slab-IsBytes a = ground arith

slab_words :
    (get_u64 80 slab ≡ 4096)
    × (get_u64 4112 slab ≡ 4136)
    × (get_u32 4120 slab ≡ 2)
    × (get_u32 4124 slab ≡ 3)
unfolding get_u64 get_u32
slab_words = (refl, refl, refl, refl)

cache_alloc-cache_free_example :
    (k' : Kmem) × (cache_alloc 64 machine ≡ ok (get_u64 4112 slab, k'))
    × (cache_free 0 64 (get_u64 4112 slab) k' ≡ ok (tt, machine))
cache_alloc-cache_free_example =
    cache_alloc-cache_free 0 64 4096 machine slab-IsBytes (slab_words.0) (λ e. omega (arith, e))
      (omega (arith, slab_words.1)) (omega (arith, slab_words.1)) refl (omega (arith, slab_words.2))
      (omega (arith, slab_words.2, slab_words.3))

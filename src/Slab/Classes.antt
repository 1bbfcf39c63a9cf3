-- ===== src/Slab/Classes.antt =====
-- `kmalloc`: which cache an object comes from.
use cute_core.Base.{
  ℕ, suc, ◌*◌, ◌<◌, ◌≤◌, ◌≡◌, ◌⊎◌, inl, inr, refl, false, List, [], ◌∷◌, some, length, get_elem?,
  arith, ltb, leb, ◌==◌, Cmd, Bool-cases,
}
use cute_core.Pages.{Kmem}
use cute_core.Slab.{cache_alloc, sizes, max_cache_size, alloc_class, kmalloc}

-- Every class is twice the one before it, the first twice `lo`.
abbrev Doubling : ℕ → List ℕ → Type 0
Doubling lo [] = Unit
Doubling lo (c ∷ cs) = (c ≡ 2 * lo) × Doubling c cs

abbrev top : ℕ → List ℕ → ℕ
top lo [] = lo
top lo (c ∷ cs) = top c cs

-- The object comes from the cache of a class that holds it.
abbrev pub AllocatedBy : Cmd Kmem ℕ → ℕ → List ℕ → List ℕ → Type 0
AllocatedBy run size classes caches =
    (i c cache : ℕ) × (get_elem? classes i ≡ some c)
    × (get_elem? caches i ≡ some cache)
    × (run ≡ cache_alloc cache)
    × (size ≤ c)
    × ((c ≡ 8) ⊎ (c < 2 * size))

alloc_class_lem :
    (lo size : ℕ) (classes caches : List ℕ)
    → Doubling lo classes
    → lo < size
    → size ≤ top lo classes
    → length caches ≡ length classes
    → AllocatedBy (alloc_class size classes caches) size classes caches
unfolding alloc_class
alloc_class_lem lo size [] caches doubling above within same = absurd (omega arith)
alloc_class_lem lo size (c ∷ cs) [] doubling above within same = absurd (omega arith)
alloc_class_lem lo size (c ∷ cs) (cache ∷ caches) (twice, doubling) above within same =
    elim (Bool-cases (leb size c)) [
      | inl fits ↦ (0, c, cache, refl, refl, rw fits refl, ground arith, inr (omega (arith, twice)))
      | inr large ↦
          (let (i, c', cache', at, at', run, le, tight) =
              alloc_class_lem c size cs caches doubling (ground arith) within (omega arith) in
            (suc i, c', cache', at, at', rw large run, le, tight))
    ]

-- `kmalloc` of up to 2048 bytes takes an object from the cache of a size class that holds them and is
-- less than twice as large, or the smallest one.
pub kmalloc_lem :
    (size : ℕ) (caches : List ℕ)
    → 0 < size
    → size ≤ max_cache_size
    → length caches ≡ length sizes
    → AllocatedBy (kmalloc caches size) size sizes caches
unfolding kmalloc alloc_class
kmalloc_lem size [] pos_size small same = absurd (omega arith)
kmalloc_lem size (cache ∷ caches) pos_size small same =
    let some_bytes : (size == 0) ≡ false = ground arith in
    let no_page : ltb max_cache_size size ≡ false = ground arith in
    elim (Bool-cases (leb size 8)) [
      | inl fits ↦
          (0, 8, cache, refl, refl, rw (some_bytes, no_page, fits) refl, ground arith, inl refl)
      | inr large ↦
          (let (i, c, cache', at, at', run, le, tight) =
              alloc_class_lem 8 size (16 ∷ 32 ∷ 64 ∷ 128 ∷ 256 ∷ 512 ∷ 1024 ∷ 2048 ∷ []) caches
                (refl, (refl, (refl, (refl, (refl, (refl, (refl, (refl, tt)))))))) (ground arith)
                small (omega arith) in
            (suc i, c, cache', at, at', rw (some_bytes, no_page, large) run, le, tight))
    ]

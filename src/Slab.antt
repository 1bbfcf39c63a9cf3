-- ===== src/Slab.antt =====
-- mm/slab.c and mm/kmalloc.c: objects of one size in slabs of a page each, and the size classes on
-- top of them. Caches, slabs and objects lie in the memory of the pages; a null pointer is 0.
pub mod Classes
pub mod Init
pub mod Reuse
mod Tests
use cute_core.Base.{
  ℕ, zero, suc, ◌+◌, ◌-◌, ◌*◌, ◌/◌, ◌%◌, ◌^◌, Bool, true, false, not, ◌&&◌, List, [], ◌∷◌, ltb, leb,
  ◌==◌, if◌then◌else◌, Cmd, pure, ok, ◌>>=◌, ◌>>◌,
}
use cute_core.Base.Words.{Bytes, get_u32, put_u32, get_u64, put_u64}
use cute_core.Pages.{Kmem, page_size, kfree, kalloc}

-- where the fields of `struct slab` lie
abbrev pub s_next : ℕ
s_next = 0

abbrev pub s_prev : ℕ
s_prev = 8

abbrev pub s_list : ℕ
s_list = 16

abbrev pub s_freenum : ℕ
s_freenum = 24

abbrev pub s_objectsnum : ℕ
s_objectsnum = 28

abbrev pub s_cache : ℕ
s_cache = 32

abbrev pub slab_size : ℕ
slab_size = 40

-- where those of `struct cache` lie
abbrev pub c_full : ℕ
c_full = 8

abbrev pub c_partial : ℕ
c_partial = 16

abbrev pub c_empty : ℕ
c_empty = 24

abbrev pub c_empty_slabs : ℕ
c_empty_slabs = 32

abbrev pub max_empty_slabs : ℕ
max_empty_slabs = 2

abbrev pub align_up : ℕ → ℕ → ℕ
align_up size align = (size + align - 1) / align * align

abbrev pub page_of : ℕ → ℕ
page_of p = p / page_size * page_size

-- A change of the memory alone.
abbrev pub on_memory : (Bytes → Bytes) → Cmd Kmem (Unit {0})
on_memory f s = ok (tt, record s { memory = f s.memory })

unfoldable pub list_remove : ℕ → ℕ → Bytes → Bytes
list_remove head s m =
    let prev = get_u64 (s + s_prev) m in
    let m1 : Bytes =
      if prev == 0
      then put_u64 head (get_u64 (s + s_next) m) m
      else put_u64 (prev + s_next) (get_u64 (s + s_next) m) m in
    let next = get_u64 (s + s_next) m1 in
    if next == 0 then m1 else put_u64 (next + s_prev) (get_u64 (s + s_prev) m1) m1

unfoldable pub list_insert : ℕ → ℕ → Bytes → Bytes
list_insert head s m =
    let m1 : Bytes = put_u64 (s + s_next) (get_u64 head m) m in
    let m2 : Bytes = put_u64 (s + s_prev) 0 m1 in
    let m3 : Bytes = if get_u64 head m2 == 0 then m2 else put_u64 (get_u64 head m2 + s_prev) s m2 in
    put_u64 head s m3

unfoldable pub cache_create : ℕ → Cmd Kmem ℕ
cache_create size = kalloc >>= λ cache.
    if cache == 0
    then pure 0
    else on_memory (λ m. put_u32 (cache + c_empty_slabs) 0 (
        put_u64 (cache + c_empty) 0 (
          put_u64 (cache + c_partial) 0
            (put_u64 (cache + c_full) 0 (put_u32 cache (align_up size 8 % 2 ^ 32) m)))))
      >> pure cache

-- The loop of `slabinit` with the rounds left, and the null pointer behind it.
unfoldable pub link_objects : ℕ → ℕ → ℕ → Bytes → Bytes
link_objects zero objsz p m = put_u64 p 0 m
link_objects (suc n) objsz p m = link_objects n objsz (p + objsz) (put_u64 p (p + objsz) m)

-- the fields that `slabinit` sets before its loop
unfoldable pub slab_header : ℕ → ℕ → ℕ → Bytes → Bytes
slab_header cache s objectsnum m = put_u64 (s + s_cache) cache (
    put_u64 (s + s_prev) 0 (
      put_u64 (s + s_next) 0 (
        put_u32 (s + s_freenum) objectsnum
          (put_u32 (s + s_objectsnum) objectsnum (put_u64 (s + s_list) (s + slab_size) m)))))

unfoldable pub slabinit : ℕ → ℕ → Bytes → Bytes
slabinit cache s m =
    let objsz = get_u32 cache m in
    let objectsnum = (page_size - slab_size) / objsz in
    link_objects objectsnum objsz (s + slab_size) (slab_header cache s objectsnum m)

abbrev pub add_u32 : ℕ → ℕ → Bytes → Bytes
add_u32 at n m = put_u32 at ((get_u32 at m + n) % 2 ^ 32) m

-- -1 in 32 bits
abbrev pub minus_one : ℕ
minus_one = 2 ^ 32 - 1

-- The last part of `cache_alloc`: an object of the slab `s`, which is in the list of partial ones.
unfoldable pub take_object : ℕ → ℕ → Cmd Kmem ℕ
take_object cache s k =
    let obj = get_u64 (s + s_list) k.memory in
    let m1 : Bytes = put_u64 (s + s_list) (get_u64 obj k.memory) k.memory in
    let m2 : Bytes = add_u32 (s + s_freenum) minus_one m1 in
    let m3 : Bytes =
      if get_u32 (s + s_freenum) m2 == 0
      then list_insert (cache + c_full) s (list_remove (cache + c_partial) s m2)
      else m2 in
    ok (obj, record k { memory = m3 })

unfoldable pub cache_alloc : ℕ → Cmd Kmem ℕ
cache_alloc cache k =
    let partial = get_u64 (cache + c_partial) k.memory in
    let empty = get_u64 (cache + c_empty) k.memory in
    if not (partial == 0)
    then take_object cache partial k
    else if not (empty == 0)
    then (on_memory (λ m.
            list_insert (cache + c_partial) empty
              (add_u32 (cache + c_empty_slabs) minus_one (list_remove (cache + c_empty) empty m)))
          >> take_object cache empty)
        k
    else (kalloc >>= λ s.
          if s == 0
          then pure 0
          else on_memory (λ m. list_insert (cache + c_partial) s (slabinit cache s m))
            >> take_object cache s)
        k

-- an `int` that is greater than MAX_EMPTY_SLABS
abbrev pub too_many : ℕ → Bool
too_many n = ltb max_empty_slabs n && ltb n (2 ^ 31)

-- The loop of `cache_shrink`, with fuel: every round takes one off the count of empty slabs.
unfoldable pub shrink_from : ℕ → ℕ → ℕ → ℕ → Cmd Kmem (Unit {0})
shrink_from zero ekernel cache s k = ok (tt, k)
shrink_from (suc fuel) ekernel cache s k =
    let next = get_u64 (s + s_next) k.memory in
    let rest : Cmd Kmem (Unit {0}) = shrink_from fuel ekernel cache next in
    if not (s == 0) && too_many (get_u32 (cache + c_empty_slabs) k.memory)
    then (on_memory
            (λ m. add_u32 (cache + c_empty_slabs) minus_one (list_remove (cache + c_empty) s m))
          >> kfree ekernel s
          >> rest)
        k
    else ok (tt, k)

unfoldable pub cache_shrink : ℕ → ℕ → Cmd Kmem (Unit {0})
cache_shrink ekernel cache k =
    shrink_from (get_u32 (cache + c_empty_slabs) k.memory) ekernel cache
      (get_u64 (cache + c_empty) k.memory) k

unfoldable pub cache_free : ℕ → ℕ → ℕ → Cmd Kmem (Unit {0})
cache_free ekernel cache obj k =
    let s = page_of obj in
    let m1 : Bytes = put_u64 obj (get_u64 (s + s_list) k.memory) k.memory in
    let m2 : Bytes = put_u64 (s + s_list) obj m1 in
    let m3 : Bytes = add_u32 (s + s_freenum) 1 m2 in
    let freenum = get_u32 (s + s_freenum) m3 in
    if freenum == 1
    then ok (
      tt,
      record k { memory = list_insert (cache + c_partial) s (list_remove (cache + c_full) s m3) },
    )
    else if freenum == get_u32 (s + s_objectsnum) m3
    then (let m4 : Bytes =
          add_u32 (cache + c_empty_slabs) 1
            (list_insert (cache + c_empty) s (list_remove (cache + c_partial) s m3)) in
        if too_many (get_u32 (cache + c_empty_slabs) m4)
        then cache_shrink ekernel cache (record k { memory = m4 })
        else ok (tt, record k { memory = m4 }))
    else ok (tt, record k { memory = m3 })

abbrev pub max_cache_size : ℕ
max_cache_size = 2048

abbrev pub large_alloc_magic : ℕ
large_alloc_magic = 0xDEADBEEFCAFEBABE

abbrev pub sizes : List ℕ
sizes = 8 ∷ 16 ∷ 32 ∷ 64 ∷ 128 ∷ 256 ∷ 512 ∷ 1024 ∷ 2048 ∷ []

-- The loop of `kmallocinit`: the caches that it makes.
unfoldable pub create_caches : List ℕ → Cmd Kmem (List ℕ)
create_caches [] = pure []
create_caches (size ∷ rest) =
    cache_create size >>= λ cache. create_caches rest >>= λ caches. pure (cache ∷ caches)

unfoldable pub kmallocinit : Cmd Kmem (List ℕ)
kmallocinit = create_caches sizes

-- The loop of `kmalloc` over the sizes and the caches.
unfoldable pub alloc_class : ℕ → List ℕ → List ℕ → Cmd Kmem ℕ
alloc_class size [] caches = pure 0
alloc_class size (_ ∷ _) [] = pure 0
alloc_class size (c ∷ classes) (cache ∷ caches) =
    if leb size c then cache_alloc cache else alloc_class size classes caches

unfoldable pub kmalloc : List ℕ → ℕ → Cmd Kmem ℕ
kmalloc caches size =
    if size == 0
    then pure 0
    else if ltb max_cache_size size
    then (kalloc >>= λ page.
        if page == 0 then pure 0 else on_memory (put_u64 page large_alloc_magic) >> pure (page + 8))
    else alloc_class size sizes caches

unfoldable pub kmfree : ℕ → ℕ → Cmd Kmem (Unit {0})
kmfree ekernel ptr k =
    let page = page_of ptr in
    if ptr == 0
    then ok (tt, k)
    else if get_u64 page k.memory == large_alloc_magic
    then kfree ekernel page k
    else cache_free ekernel (get_u64 (page + s_cache) k.memory) ptr k

unfoldable pub cache_shrink_all : ℕ → List ℕ → Cmd Kmem (Unit {0})
cache_shrink_all ekernel [] = pure tt
cache_shrink_all ekernel (cache ∷ caches) =
    (if cache == 0 then pure tt else cache_shrink ekernel cache) >> cache_shrink_all ekernel caches

-- ===== src/Slab/Init.antt =====
-- `slabinit`: the objects of a new slab are linked, and where the null pointer behind them goes.
use cute_core.Base.{ℕ, zero, suc, ◌+◌, ◌-◌, ◌*◌, ◌/◌, ◌^◌, ◌<◌, ◌≤◌, ◌≡◌, ◌⊎◌, inl, ◌∙◌, arith}
use cute_core.Base.Words.{
  Bytes, get_u32, get_u64, put_u64, get_u64-put_u64, get_u32-put_u32, get_u32-put_u32_ne,
  put_u64_ne, get_u64_ext, get_u32_ext, get_u64-put_u64_ne, get_u64-put_u32_ne, get_u32-put_u64_ne,
}
use cute_core.Pages.{page_size}
use cute_core.Slab.{
  s_next, s_prev, s_list, s_freenum, s_objectsnum, s_cache, slab_size, link_objects, slab_header,
  slabinit,
}

-- where object `i` lies when the first is at `p`
abbrev pub obj_at : ℕ → ℕ → ℕ → ℕ
obj_at objsz p zero = p
obj_at objsz p (suc i) = obj_at objsz (p + objsz) i

obj_at_le : (objsz i p : ℕ) → p ≤ obj_at objsz p i
obj_at_le objsz zero p = omega arith
obj_at_le objsz (suc i) p = omega (arith, obj_at_le objsz i (p + objsz))

-- The `n` objects from `p` on are linked, and a null pointer is behind them.
pub record Linked (objsz p n : ℕ) (m m' : Bytes) : Type 0 where
  pub next : (i : ℕ) → i < n → get_u64 (obj_at objsz p i) m' ≡ obj_at objsz p (suc i)
  pub last : get_u64 (obj_at objsz p n) m' ≡ 0
  pub elsewhere : (a : ℕ) → (a < p) ⊎ (obj_at objsz p n + 8 ≤ a) → m' a ≡ m a

link_objects_lem :
    (n objsz p : ℕ) (m : Bytes)
    → 8 ≤ objsz
    → obj_at objsz p n < 2 ^ 64
    → Linked objsz p n m (link_objects n objsz p m)
unfolding link_objects
link_objects_lem zero objsz p m wide small = record {
  next = λ i lt. absurd (omega arith);
  last = get_u64-put_u64 p 0 m (omega arith);
  elsewhere = λ a out. put_u64_ne p 0 m a (omega arith);
}
link_objects_lem (suc n) objsz p m wide small =
    let m1 : Bytes = put_u64 p (p + objsz) m in
    let rest = link_objects_lem n objsz (p + objsz) m1 wide small in
    let in_word : p + objsz < 2 ^ 64 = omega (arith, obj_at_le objsz n (p + objsz)) in
    let first : get_u64 p (link_objects n objsz (p + objsz) m1) ≡ p + objsz =
      get_u64_ext p (link_objects n objsz (p + objsz) m1) m1
        (λ a lo hi. rest.elsewhere a (inl (omega arith)))
      ∙ get_u64-put_u64 p (p + objsz) m in_word in
    record {
      next = at first rest;
      last = rest.last;
      elsewhere = λ a out.
          rest.elsewhere a (omega (arith, out))
          ∙ put_u64_ne p (p + objsz) m a (omega (arith, out, obj_at_le objsz n (p + objsz)));
    }
  where
    at :
        get_u64 p (link_objects n objsz (p + objsz) (put_u64 p (p + objsz) m)) ≡ p + objsz
        → Linked objsz
            (p + objsz)
            n
            (put_u64 p (p + objsz) m)
            (link_objects n objsz (p + objsz) (put_u64 p (p + objsz) m))
        → (i : ℕ) → i < suc n
        → get_u64 (obj_at objsz p i) (link_objects n objsz (p + objsz) (put_u64 p (p + objsz) m))
          ≡ obj_at objsz p (suc i)
    at first rest zero lt = first
    at first rest (suc i) lt = rest.next i (omega arith)

obj_at-times : (objsz i p : ℕ) → obj_at objsz p i ≡ p + i * objsz
obj_at-times objsz zero p = omega arith
obj_at-times objsz (suc i) p = grind (arith, obj_at-times objsz i (p + objsz))

div_times : (a d : ℕ) → a / d * d ≤ a
div_times a d = grind arith

-- The fields of the slab `s` of a cache, with `n` objects that are all free.
pub record IsFresh (cache s n : ℕ) (m : Bytes) : Type 0 where
  pub list : get_u64 (s + s_list) m ≡ s + slab_size
  pub freenum : get_u32 (s + s_freenum) m ≡ n
  pub objectsnum : get_u32 (s + s_objectsnum) m ≡ n
  pub next : get_u64 (s + s_next) m ≡ 0
  pub prev : get_u64 (s + s_prev) m ≡ 0
  pub owner : get_u64 (s + s_cache) m ≡ cache

slab_header-IsFresh :
    (cache s n : ℕ) (m : Bytes)
    → s + slab_size < 2 ^ 64
    → n < 2 ^ 32
    → cache < 2 ^ 64
    → IsFresh cache s n (slab_header cache s n m)
unfolding slab_header
slab_header-IsFresh cache s n m in_s in_n in_cache = record {
  list =
      get_u64-put_u64_ne _ (s + s_cache) cache _ (omega arith)
      ∙ get_u64-put_u64_ne _ (s + s_prev) 0 _ (omega arith)
      ∙ get_u64-put_u64_ne _ (s + s_next) 0 _ (omega arith)
      ∙ get_u64-put_u32_ne _ (s + s_freenum) n _ (omega arith)
      ∙ get_u64-put_u32_ne _ (s + s_objectsnum) n _ (omega arith)
      ∙ get_u64-put_u64 (s + s_list) (s + slab_size) m in_s;
  freenum =
      get_u32-put_u64_ne _ (s + s_cache) cache _ (omega arith)
      ∙ get_u32-put_u64_ne _ (s + s_prev) 0 _ (omega arith)
      ∙ get_u32-put_u64_ne _ (s + s_next) 0 _ (omega arith)
      ∙ get_u32-put_u32 (s + s_freenum) n _ in_n;
  objectsnum =
      get_u32-put_u64_ne _ (s + s_cache) cache _ (omega arith)
      ∙ get_u32-put_u64_ne _ (s + s_prev) 0 _ (omega arith)
      ∙ get_u32-put_u64_ne _ (s + s_next) 0 _ (omega arith)
      ∙ get_u32-put_u32_ne _ (s + s_freenum) n _ (omega arith)
      ∙ get_u32-put_u32 (s + s_objectsnum) n _ in_n;
  next =
      get_u64-put_u64_ne _ (s + s_cache) cache _ (omega arith)
      ∙ get_u64-put_u64_ne _ (s + s_prev) 0 _ (omega arith)
      ∙ get_u64-put_u64 (s + s_next) 0 _ (omega arith);
  prev =
      get_u64-put_u64_ne _ (s + s_cache) cache _ (omega arith)
      ∙ get_u64-put_u64 (s + s_prev) 0 _ (omega arith);
  owner = get_u64-put_u64 (s + s_cache) cache _ in_cache;
}

IsFresh-ext :
    (cache s n : ℕ) (m m' : Bytes)
    → ((a : ℕ) → a < s + slab_size → m' a ≡ m a)
    → IsFresh cache s n m
    → IsFresh cache s n m'
IsFresh-ext cache s n m m' same h = record {
  list = get_u64_ext _ m' m (λ a lo hi. same a (omega arith)) ∙ h.list;
  freenum = get_u32_ext _ m' m (λ a lo hi. same a (omega arith)) ∙ h.freenum;
  objectsnum = get_u32_ext _ m' m (λ a lo hi. same a (omega arith)) ∙ h.objectsnum;
  next = get_u64_ext _ m' m (λ a lo hi. same a (omega arith)) ∙ h.next;
  prev = get_u64_ext _ m' m (λ a lo hi. same a (omega arith)) ∙ h.prev;
  owner = get_u64_ext _ m' m (λ a lo hi. same a (omega arith)) ∙ h.owner;
}

-- `slabinit` of a page for objects of `objsz` bytes, 8 at least: the fields of the slab are set, and
-- as many objects as fit are linked, each to the address behind it, which for the last of them is no
-- object: the null pointer goes there, at most at the end of the page, and the rest of the memory is
-- as the fields left it.
pub slabinit_lem :
    (cache s : ℕ) (m : Bytes)
    → s + page_size + 8 < 2 ^ 64
    → cache < 2 ^ 64
    → 8 ≤ get_u32 cache m
    → IsFresh cache s ((page_size - slab_size) / get_u32 cache m) (slabinit cache s m)
      × Linked
          (get_u32 cache m)
          (s + slab_size)
          ((page_size - slab_size) / get_u32 cache m)
          (slab_header cache s ((page_size - slab_size) / get_u32 cache m) m)
          (slabinit cache s m)
      × (obj_at (get_u32 cache m) (s + slab_size) ((page_size - slab_size) / get_u32 cache m)
          ≤ s + page_size)
unfolding slabinit
slabinit_lem cache s m in_s in_cache wide =
    let objsz : ℕ = get_u32 cache m in
    let n : ℕ = (page_size - slab_size) / objsz in
    let fits : n * objsz ≤ page_size - slab_size = div_times (page_size - slab_size) objsz in
    let end : obj_at objsz (s + slab_size) n ≤ s + page_size =
      omega (arith, obj_at-times objsz n (s + slab_size)) in
    let few : n ≤ page_size - slab_size = grind (arith, fits, wide) in
    let linked =
      link_objects_lem n objsz (s + slab_size) (slab_header cache s n m) wide (omega arith) in
    (
      IsFresh-ext cache s n (slab_header cache s n m) _ (λ a lt. linked.elsewhere a (inl lt))
          (slab_header-IsFresh cache s n m (omega arith) (omega arith) in_cache),
      linked,
      end,
    )

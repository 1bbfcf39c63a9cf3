-- ===== src/Slab/Reuse.antt =====
-- An object that is taken from a slab and given back.
use cute_core.Base.{
  ℕ, ◌+◌, ◌-◌, ◌/◌, ◌%◌, ◌^◌, ◌<◌, ◌≤◌, ◌≡◌, ◌≢◌, ◌⊎◌, inl, inr, refl, ◌∙◌, ap, false, arith, ltb,
  ◌==◌, ok, fun_ext, Bool-cases,
}
use cute_core.Base.Words.{
  Bytes, get_u32, put_u32, get_u64, put_u64, get_u64-put_u64, get_u32-put_u32, get_u32-put_u32_ne,
  put_u64_ne, put_u32_ne, get_u64-put_u32_ne, get_u32-put_u64_ne,
}
use cute_core.Str.Copy.{within}
use cute_core.Pages.{Kmem, page_size}
use cute_core.Slab.{
  s_list, s_freenum, s_objectsnum, c_partial, slab_size, page_of, minus_one, take_object,
  cache_alloc, cache_free,
}

-- The memory holds bytes.
abbrev pub IsBytes : Bytes → Type 0
IsBytes m = (a : ℕ) → m a < 256

-- A word that is written as it was leaves its bytes.
put_u32_byte :
    (o : ℕ) (m b : Bytes) (a : ℕ)
    → IsBytes m
    → o ≤ a
    → a < o + 4
    → put_u32 o (get_u32 o m) b a ≡ m a
unfolding put_u32 get_u32
put_u32_byte o m b a bytes lo hi =
    ground (arith, bytes o, bytes (o + 1), bytes (o + 2), bytes (o + 3), four)
  where
    four : (a ≡ o) ⊎ (a ≡ o + 1) ⊎ (a ≡ o + 2) ⊎ (a ≡ o + 3)
    four = omega arith

get_u32_lt : (o : ℕ) (m : Bytes) → IsBytes m → get_u32 o m < 2 ^ 32
unfolding get_u32
get_u32_lt o m bytes = omega (arith, bytes o, bytes (o + 1), bytes (o + 2), bytes (o + 3))

get_u64_lt : (o : ℕ) (m : Bytes) → IsBytes m → get_u64 o m < 2 ^ 64
unfolding get_u64
get_u64_lt o m bytes = omega (arith, get_u32_lt o m bytes, get_u32_lt (o + 4) m bytes)

put_u64_byte :
    (o : ℕ) (m b : Bytes) (a : ℕ)
    → IsBytes m
    → o ≤ a
    → a < o + 8
    → put_u64 o (get_u64 o m) b a ≡ m a
unfolding put_u64 get_u64
put_u64_byte o m b a bytes lo hi =
    let in_low = get_u32_lt o m bytes in
    let high : get_u64 o m / 2 ^ 32 ≡ get_u32 (o + 4) m = omega arith in
    let low : get_u64 o m % 2 ^ 32 ≡ get_u32 o m = omega arith in
    rw (high, low)
      (elim (Bool-cases (ltb a (o + 4))) [
        | inl before ↦
            put_u32_ne (o + 4) (get_u32 (o + 4) m) (put_u32 o (get_u32 o m) b) a (ground arith)
            ∙ put_u32_byte o m b a bytes lo (ground arith)
        | inr after ↦
            put_u32_byte (o + 4) m (put_u32 o (get_u32 o m) b) a bytes (ground arith) (omega arith)
      ])

-- A slab of which an object is free, and two at least, so that it stays in its list.
module _ (ekernel cache s : ℕ) (k : Kmem) (bytes : IsBytes k.memory)
    (partial : get_u64 (cache + c_partial) k.memory ≡ s) (there : s ≢ 0)
    (inside : s + slab_size ≤ get_u64 (s + s_list) k.memory)
    (fits : get_u64 (s + s_list) k.memory + 8 ≤ s + page_size) (aligned : s % page_size ≡ 0)
    (two : 2 ≤ get_u32 (s + s_freenum) k.memory)
    (used : get_u32 (s + s_freenum) k.memory < get_u32 (s + s_objectsnum) k.memory) where
  abbrev obj : ℕ
  obj = get_u64 (s + s_list) k.memory

  -- the memory without the object, and with it again
  abbrev taken : Bytes
  taken =
      put_u32 (s + s_freenum) (get_u32 (s + s_freenum) k.memory - 1)
        (put_u64 (s + s_list) (get_u64 obj k.memory) k.memory)

  abbrev given : Bytes
  given =
      put_u32 (s + s_freenum) (get_u32 (s + s_freenum) k.memory)
        (put_u64 (s + s_list) obj (put_u64 obj (get_u64 obj k.memory) taken))

  -- The three words are those of before, and nothing else was written.
  given-at : (a : ℕ) → given a ≡ k.memory a
  given-at a = elim (Bool-cases (within (s + s_freenum) 4 a)) [
    | inl count ↦ put_u32_byte (s + s_freenum) k.memory _ a bytes (ground arith) (ground arith)
    | inr no_count ↦
        put_u32_ne (s + s_freenum) _ _ a (ground arith)
        ∙ elim (Bool-cases (within (s + s_list) 8 a)) [
          | inl list ↦ put_u64_byte (s + s_list) k.memory _ a bytes (ground arith) (ground arith)
          | inr no_list ↦
              put_u64_ne (s + s_list) obj _ a (ground arith) ∙ elim (Bool-cases (within obj 8 a)) [
                | inl link ↦ put_u64_byte obj k.memory _ a bytes (ground arith) (ground arith)
                | inr no_link ↦
                    put_u64_ne obj _ taken a (ground arith)
                    ∙ put_u32_ne (s + s_freenum) _ _ a (ground arith)
                    ∙ put_u64_ne (s + s_list) _ k.memory a (ground arith)
              ]
        ]
  ]

  alloc_part : cache_alloc cache k ≡ ok (obj, record k { memory = taken })
  unfolding cache_alloc take_object
  alloc_part =
      let f : ℕ = get_u32 (s + s_freenum) k.memory in
      let f_lt : f < 2 ^ 32 = get_u32_lt (s + s_freenum) k.memory bytes in
      let null : (s == 0) ≡ false = ground (arith, there) in
      let count : get_u32 (s + s_freenum) (put_u64 (s + s_list) (get_u64 obj k.memory) k.memory)
          ≡ f =
        get_u32-put_u64_ne (s + s_freenum) (s + s_list) (get_u64 obj k.memory) k.memory
          (omega arith) in
      let minus : (f + minus_one) % 2 ^ 32 ≡ f - 1 = omega (arith, two) in
      let now : get_u32 (s + s_freenum) taken ≡ f - 1 =
        get_u32-put_u32 (s + s_freenum) (f - 1)
          (put_u64 (s + s_list) (get_u64 obj k.memory) k.memory) (omega (arith, f_lt)) in
      let left : (get_u32 (s + s_freenum) taken == 0) ≡ false = ground (arith, now, two) in
      rw (partial, null, count, minus, left) refl

  free_part :
      cache_free ekernel cache obj (record k { memory = taken })
      ≡ ok (tt, record k { memory = given })
  unfolding cache_free
  free_part =
      let f : ℕ = get_u32 (s + s_freenum) k.memory in
      let f_lt : f < 2 ^ 32 = get_u32_lt (s + s_freenum) k.memory bytes in
      let slab : page_of obj ≡ s = omega (arith, inside, fits, aligned) in
      let link : get_u64 (s + s_list) taken ≡ get_u64 obj k.memory =
        get_u64-put_u32_ne (s + s_list) (s + s_freenum) (f - 1) _ (omega arith)
        ∙ get_u64-put_u64 (s + s_list) (get_u64 obj k.memory) k.memory
            (get_u64_lt obj k.memory bytes) in
      let back : Bytes = put_u64 (s + s_list) obj (put_u64 obj (get_u64 obj k.memory) taken) in
      let count : get_u32 (s + s_freenum) back ≡ f - 1 =
        get_u32-put_u64_ne (s + s_freenum) (s + s_list) obj _ (omega arith)
        ∙ get_u32-put_u64_ne (s + s_freenum) obj (get_u64 obj k.memory) taken
            (omega (arith, inside))
        ∙ get_u32-put_u32 (s + s_freenum) (f - 1) _ (omega (arith, f_lt)) in
      let plus : (f - 1 + 1) % 2 ^ 32 ≡ f = omega (arith, two, f_lt) in
      let now : get_u32 (s + s_freenum) given ≡ f = get_u32-put_u32 (s + s_freenum) f back f_lt in
      let all : get_u32 (s + s_objectsnum) given ≡ get_u32 (s + s_objectsnum) k.memory =
        get_u32-put_u32_ne (s + s_objectsnum) (s + s_freenum) f back (omega arith)
        ∙ get_u32-put_u64_ne (s + s_objectsnum) (s + s_list) obj _ (omega arith)
        ∙ get_u32-put_u64_ne (s + s_objectsnum) obj (get_u64 obj k.memory) taken
            (omega (arith, inside))
        ∙ get_u32-put_u32_ne (s + s_objectsnum) (s + s_freenum) (f - 1) _ (omega arith)
        ∙ get_u32-put_u64_ne (s + s_objectsnum) (s + s_list) (get_u64 obj k.memory) k.memory
            (omega arith) in
      let not_one : (get_u32 (s + s_freenum) given == 1) ≡ false = ground (arith, now, two) in
      let not_all : (get_u32 (s + s_freenum) given == get_u32 (s + s_objectsnum) given) ≡ false =
        ground (arith, now, all, used) in
      rw (slab, link, count, plus, not_one, not_all) refl

  -- `cache_alloc` from a slab with two free objects at least, and in use otherwise, gives the object at
  -- the head of its list; when the object is freed again, its first word unchanged, the memory is as
  -- it was.
  pub cache_alloc-cache_free :
      (k' : Kmem) × (cache_alloc cache k ≡ ok (obj, k'))
      × (cache_free ekernel cache obj k' ≡ ok (tt, k))
  cache_alloc-cache_free = (
    record k { memory = taken },
    alloc_part,
    free_part ∙ ap (λ m. ok (tt, record k { memory = m })) (fun_ext given-at),
  )

-- ===== src/Pages/FreeList.antt =====
-- The list of free pages, and what `kfree`, `kalloc` and `freerange` do to it.
use cute_core.Base.{
  ℕ, ◌+◌, ◌%◌, ◌^◌, ◌<◌, ◌≤◌, ◌≡◌, ◌≢◌, ◌⊎◌, refl, ◌∙◌, true, false, not, ◌||◌, List, [], ◌∷◌, Bool,
  arith, ltb, leb, ◌==◌, if◌then◌else◌, ok, panic,
}
use cute_core.Base.Words.{Bytes, get_u64, put_u64, get_u64-put_u64, put_u64_ne, get_u64_ext}
use cute_core.Str.{memset}
use cute_core.Str.Copy.{within, memset_lem}
use cute_core.Pages.{Kmem, page_size, phy_end, kfree, kalloc}

-- a page that may be free
abbrev pub IsPage : ℕ → Type 0
IsPage x = (0 < x) × (x % page_size ≡ 0) × (x < phy_end)

abbrev pub Fresh : ℕ → List ℕ → Type 0
Fresh x [] = Unit
Fresh x (y ∷ ys) = (x ≢ y) × Fresh x ys

-- The pages `xs`, all different, are linked in this order from `p` on.
abbrev pub IsFree : Bytes → ℕ → List ℕ → Type 0
IsFree m p [] = p ≡ 0
IsFree m p (x ∷ xs) = (p ≡ x) × IsPage x × Fresh x xs × IsFree m (get_u64 x m) xs

-- A byte outside the page at `x`.
abbrev pub Outside : ℕ → ℕ → Type 0
Outside x i = (i < x) ⊎ (x + page_size ≤ i)

-- A change within a page that is not in the list leaves the list.
pub IsFree-frame :
    (m m' : Bytes) (y p : ℕ) (xs : List ℕ)
    → IsPage y
    → Fresh y xs
    → ((i : ℕ) → Outside y i → m' i ≡ m i)
    → IsFree m p xs
    → IsFree m' p xs
IsFree-frame m m' y p [] page fresh same h = h
IsFree-frame m m' y p (x ∷ xs) page fresh same (at_p, is_page, fresh', rest) = (
  at_p,
  is_page,
  fresh',
  rw (get_u64_ext x m' m (λ i lo hi. same i (omega arith)))
      (IsFree-frame m m' y (get_u64 x m) xs page fresh.1 same rest),
)

head_lt : (m : Bytes) (p : ℕ) (xs : List ℕ) → IsFree m p xs → p < 2 ^ 64
head_lt m p [] h = omega arith
head_lt m p (x ∷ xs) h = omega (arith, h.0, h.1.2)

module _ (ekernel : ℕ) (s : Kmem) (xs : List ℕ) (list : IsFree s.memory s.memlist xs) where
  -- `kfree` of a page of the memory that is not free puts it in front of the list, and changes no
  -- byte outside the page.
  pub kfree_lem :
      (pa : ℕ)
      → IsPage pa
      → ekernel ≤ pa
      → Fresh pa xs
      → (s' : Kmem) × (kfree ekernel pa s ≡ ok (tt, s'))
        × IsFree s'.memory s'.memlist (pa ∷ xs)
        × ((i : ℕ) → Outside pa i → s'.memory i ≡ s.memory i)
  unfolding kfree
  kfree_lem pa page above fresh =
      let good : (not (pa % page_size == 0) || ltb pa ekernel || leb phy_end pa) ≡ false =
        ground arith in
      let link = get_u64-put_u64 pa s.memlist s.memory (head_lt s.memory s.memlist xs list) in
      let same : (i : ℕ) → Outside pa i → put_u64 pa s.memlist s.memory i ≡ s.memory i =
        λ i out. put_u64_ne pa s.memlist s.memory i (omega arith) in
      (
        record { memlist = pa; memory = put_u64 pa s.memlist s.memory },
        rw good refl,
        (refl, page, fresh, rw link (IsFree-frame s.memory _ pa s.memlist xs page fresh same list)),
        same,
      )

-- `kalloc` takes the first page of the list: every byte of the page is 0 then, no byte outside it is
-- changed, and the others are the list.
pub kalloc_lem :
    (s : Kmem) (x : ℕ) (xs : List ℕ)
    → IsFree s.memory s.memlist (x ∷ xs)
    → (s' : Kmem) × (kalloc s ≡ ok (x, s'))
      × IsFree s'.memory s'.memlist xs
      × ((i : ℕ) → s'.memory i ≡ (if within x page_size i then 0 else s.memory i))
unfolding kalloc
kalloc_lem s x xs (at_p, page, fresh, rest) =
    let there : (s.memlist == 0) ≡ false = ground arith in
    let bytes : (i : ℕ)
        → (memset x 0 page_size s.memory).0 i ≡ (if within x page_size i then 0 else s.memory i) =
      (memset_lem x 0 page_size s.memory).1 in
    let same : (i : ℕ) → Outside x i → (memset x 0 page_size s.memory).0 i ≡ s.memory i =
      λ i out. ground (arith, bytes i) in
    (
      record { memlist = get_u64 x s.memory; memory = (memset x 0 page_size s.memory).0 },
      rw (there, at_p) refl,
      IsFree-frame s.memory _ x (get_u64 x s.memory) xs page fresh same rest,
      bytes,
    )

-- A page that is freed is the next to be allocated: then the list of free pages is that of before,
-- the page is all zeros, and no byte outside it has changed.
pub kfree-kalloc :
    (ekernel : ℕ) (s : Kmem) (xs : List ℕ) (pa : ℕ)
    → IsFree s.memory s.memlist xs
    → IsPage pa
    → ekernel ≤ pa
    → Fresh pa xs
    → (s₁ s₂ : Kmem) × (kfree ekernel pa s ≡ ok (tt, s₁))
      × (kalloc s₁ ≡ ok (pa, s₂))
      × IsFree s₂.memory s₂.memlist xs
      × ((i : ℕ) → s₂.memory i ≡ (if within pa page_size i then 0 else s.memory i))
kfree-kalloc ekernel s xs pa list page above fresh =
    let (s₁, run, list₁, same) = kfree_lem ekernel s xs list pa page above fresh in
    let (s₂, run', list₂, bytes) = kalloc_lem s₁ pa xs list₁ in
    (
      s₁,
      s₂,
      run,
      run',
      list₂,
      λ i.
          bytes i
          ∙ elsewhere (s₁.memory i) (s.memory i) (within pa page_size i)
              (λ e. same i (ground arith)),
    )
  where
    elsewhere :
        (a b : ℕ) (c : Bool) → (c ≡ false → a ≡ b) → (if c then 0 else a) ≡ (if c then 0 else b)
    elsewhere a b true h = refl
    elsewhere a b false h = h refl

-- `kfree` panics for an address that is not aligned, or lies outside the memory behind the kernel.
pub kfree-panic :
    (ekernel pa : ℕ) (s : Kmem)
    → (pa % page_size ≢ 0) ⊎ (pa < ekernel) ⊎ (phy_end ≤ pa)
    → kfree ekernel pa s ≡ panic
unfolding kfree
kfree-panic ekernel pa s h =
    let bad : (not (pa % page_size == 0) || ltb pa ekernel || leb phy_end pa) ≡ true =
      ground arith in
    rw bad refl

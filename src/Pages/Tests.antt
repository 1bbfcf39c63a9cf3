-- ===== src/Pages/Tests.antt =====
-- The theorems of the pages at an empty memory.
use cute_core.Base.{ℕ, ◌≡◌, refl, [], ◌∷◌, arith, if◌then◌else◌, ok}
use cute_core.Base.Words.{get_u64}
use cute_core.Str.Copy.{within}
use cute_core.Pages.{Kmem, page_size, kfree, kalloc, freerange}
use cute_core.Pages.Range.{freerange_lem}
use cute_core.Pages.FreeList.{IsPage, IsFree, kalloc_lem, kfree-kalloc}

abbrev full : Kmem
full = record { memlist = 0; memory = λ _. 7 }

-- a memory of zeros with one free page
abbrev one : Kmem
one = record { memlist = 0x80300000; memory = λ _. 0 }

a-IsPage : IsPage 0x80300000
a-IsPage = (omega arith, refl, omega arith)

one-IsFree : IsFree (λ _. 0) 0x80300000 (0x80300000 ∷ [])
unfolding get_u64
one-IsFree = (refl, a-IsPage, tt, refl)

kalloc_lem_example :
    (s' : Kmem) × (kalloc one ≡ ok (0x80300000, s'))
    × IsFree s'.memory s'.memlist []
    × ((i : ℕ) → s'.memory i ≡ (if within 0x80300000 page_size i then 0 else 0))
kalloc_lem_example = kalloc_lem one 0x80300000 [] one-IsFree

kfree-kalloc_example :
    (s₁ s₂ : Kmem) × (kfree 0x80200000 0x80300000 full ≡ ok (tt, s₁))
    × (kalloc s₁ ≡ ok (0x80300000, s₂))
    × IsFree s₂.memory s₂.memlist []
    × ((i : ℕ) → s₂.memory i ≡ (if within 0x80300000 page_size i then 0 else 7))
kfree-kalloc_example = kfree-kalloc 0x80200000 full [] 0x80300000 refl a-IsPage (omega arith) tt

freerange_lem_example :
    (s' : Kmem) × (freerange 0x80300001 0x80300001 0x80303000 full ≡ ok (tt, s'))
    × IsFree s'.memory s'.memlist (0x80302000 ∷ 0x80301000 ∷ [])
freerange_lem_example =
    freerange_lem 0x80300001 0x80300001 0x80303000 full refl (omega arith) (omega arith)
      (omega arith)

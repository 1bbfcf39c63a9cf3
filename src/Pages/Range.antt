-- ===== src/Pages/Range.antt =====
-- `freerange`: after it every page of the range is free.
use cute_core.Base.{
  ℕ, zero, suc, ◌+◌, ◌-◌, ◌*◌, ◌/◌, ◌%◌, ◌<◌, ◌≤◌, ◌≡◌, refl, subst, List, [], ◌∷◌, arith, leb,
  Bool-cases, inl, inr, ok,
}
use cute_core.Pages.{Kmem, page_size, phy_end, free_from, freerange}
use cute_core.Pages.FreeList.{Fresh, IsFree, kfree_lem}

-- `k` pages from `p` on, each in front of the one before it, and then `xs`
abbrev pub pages_from : ℕ → ℕ → List ℕ → List ℕ
pages_from zero p xs = xs
pages_from (suc k) p xs = pages_from k (p + page_size) (p ∷ xs)

-- all of the list lies below `p`
abbrev pub Below : ℕ → List ℕ → Type 0
Below p [] = Unit
Below p (x ∷ xs) = (x < p) × Below p xs

Below-Fresh : (p : ℕ) (xs : List ℕ) → Below p xs → Fresh p xs
Below-Fresh p [] h = tt
Below-Fresh p (x ∷ xs) h = (omega (arith, h.0), Below-Fresh p xs h.1)

Below-mono : (p q : ℕ) (xs : List ℕ) → p ≤ q → Below p xs → Below q xs
Below-mono p q [] le h = tt
Below-mono p q (x ∷ xs) le h = (omega (arith, h.0), Below-mono p q xs le h.1)

free_from_lem :
    (ekernel n p pa_end : ℕ) (s : Kmem) (xs : List ℕ)
    → IsFree s.memory s.memlist xs
    → Below p xs
    → 0 < p
    → p % page_size ≡ 0
    → ekernel ≤ p
    → pa_end ≤ phy_end
    → pa_end < p + page_size * suc n
    → (s' : Kmem) × (free_from n ekernel p pa_end s ≡ ok (tt, s'))
      × IsFree s'.memory s'.memlist (pages_from ((pa_end - p) / page_size) p xs)
unfolding free_from
free_from_lem ekernel zero p pa_end s xs list below pos_p aligned above within fuel =
    let none_left : 0 ≡ (pa_end - p) / page_size = omega arith in
    (s, refl, subst (λ k. IsFree s.memory s.memlist (pages_from k p xs)) none_left list)
free_from_lem ekernel (suc n) p pa_end s xs list below pos_p aligned above within fuel =
    elim (Bool-cases (leb (p + page_size) pa_end)) [
      | inl more ↦
          (let (s₁, run, list₁, same) =
              kfree_lem ekernel s xs list p (pos_p, aligned, ground arith) above
                (Below-Fresh p xs below) in
            let (s₂, run', list₂) =
              free_from_lem ekernel n (p + page_size) pa_end s₁ (p ∷ xs) list₁
                (omega arith, Below-mono p (p + page_size) xs (omega arith) below) (omega arith)
                (omega arith) (omega arith) within (omega arith) in
            let count : suc ((pa_end - (p + page_size)) / page_size) ≡ (pa_end - p) / page_size =
              ground arith in
            (
              s₂,
              rw (more, run) run',
              subst (λ k. IsFree s₂.memory s₂.memlist (pages_from k p xs)) count list₂,
            ))
      | inr done ↦
          (let none_left : 0 ≡ (pa_end - p) / page_size = ground arith in
            (
              s,
              rw done refl,
              subst (λ k. IsFree s.memory s.memlist (pages_from k p xs)) none_left list,
            ))
    ]

-- `freerange` of a range behind the kernel and within the memory, on an empty list, returns, and
-- the free pages are then exactly the whole pages of the range, the last one first.
pub freerange_lem :
    (ekernel pa_start pa_end : ℕ) (s : Kmem)
    → IsFree s.memory s.memlist []
    → 0 < pa_start
    → ekernel ≤ pa_start
    → pa_end ≤ phy_end
    → (s' : Kmem) × (freerange ekernel pa_start pa_end s ≡ ok (tt, s'))
      × IsFree s'.memory s'.memlist (
          pages_from
            ((pa_end - (pa_start + page_size - 1) / page_size * page_size) / page_size)
            ((pa_start + page_size - 1) / page_size * page_size)
            [])
unfolding freerange
freerange_lem ekernel pa_start pa_end s list pos_start above within =
    free_from_lem ekernel pa_end ((pa_start + page_size - 1) / page_size * page_size) pa_end s []
      list tt (omega arith) (omega arith) (omega arith) within (omega arith)

-- ===== src/Vm/UnmapRange.antt =====
-- `uvmunmap` over a whole range.
use cute_core.Base.{
  ℕ, zero, suc, ◌+◌, ◌*◌, ◌/◌, ◌%◌, ◌^◌, ◌<◌, ◌≤◌, ◌≡◌, ◌≢◌, inl, inr, refl, ◌∙◌, sym, true, false,
  ◌&&◌, List, ◌∷◌, ap, arith, ltb, ◌==◌, if◌then◌else◌, ok, Bool-cases, eq-cases, subst,
}
use cute_core.Pages.{Kmem, page_size}
use cute_core.Vm.{valid, pte2pa}
use cute_core.Vm.User.{unmap_page, unmap_from, uvmunmap}
use cute_core.Vm.Tree.{Tags, entry}
use cute_core.Vm.Leaf.{entry-page}
use cute_core.Vm.Map.{IsVm, in_pages}
use cute_core.Vm.Unmap.{IsOwned, unmap_page-valid, unmap_page-invalid}

-- The free pages after those are freed that the first `n` entries of `b` lead to.
abbrev pub released : ℕ → (ℕ → ℕ) → List ℕ → List ℕ
released zero b free = free
released (suc n) b free =
    released n (λ j. b (suc j)) (if valid (b 0) then pte2pa (b 0) ∷ free else free)

-- These pages may be freed, and are all different.
pub record AllOwned (ekernel n : ℕ) (b : ℕ → ℕ) (free : List ℕ) (tag : Tags) : Type 0 where
  pub owned : (j : ℕ) → j < n → valid (b j) ≡ true → IsOwned ekernel (pte2pa (b j)) free tag
  pub distinct :
      (i j : ℕ)
      → i < n
      → j < n
      → valid (b i) ≡ true
      → valid (b j) ≡ true
      → pte2pa (b i) ≡ pte2pa (b j)
      → i ≡ j

-- the list that `unmap_page` leaves
abbrev after_page : ℕ → List ℕ → List ℕ
after_page pte free = if valid pte then pte2pa pte ∷ free else free

module _ (ekernel n : ℕ) (b : ℕ → ℕ) (free : List ℕ) (tag : Tags)
    (all : AllOwned ekernel (suc n) b free tag) where
  IsOwned-tail :
      (j : ℕ)
      → j < n
      → valid (b (suc j)) ≡ true
      → IsOwned ekernel (pte2pa (b (suc j))) (after_page (b 0) free) tag
  IsOwned-tail j lt v =
      let own = all.owned (suc j) (omega arith) v in
      elim (Bool-cases (valid (b 0))) [
        | inl v0 ↦
            (let differ : pte2pa (b (suc j)) ≢ pte2pa (b 0) = λ e.
                absurd (omega (arith, all.distinct (suc j) 0 (omega arith) (omega arith) v v0 e)) in
              rw v0 (record {
                page = own.page;
                above = own.above;
                fresh = (differ, own.fresh);
                no_table = own.no_table;
              }))
        | inr v0 ↦ rw v0 own
      ]

  AllOwned-tail : AllOwned ekernel n (λ j. b (suc j)) (after_page (b 0) free) tag
  AllOwned-tail = record {
    owned = IsOwned-tail;
    distinct = λ i j lt lt' v v' e.
        let same : suc i ≡ suc j =
          all.distinct (suc i) (suc j) (omega arith) (omega arith) v v' e in
        omega (arith, same);
  }

unmap_page_lem :
    (ekernel root va : ℕ) (s : Kmem) (free : List ℕ) (tag : Tags)
    → IsVm s free tag root
    → va < 2 ^ 39
    → (valid (entry 2 root va s.memory) ≡ true
        → IsOwned ekernel (pte2pa (entry 2 root va s.memory)) free tag)
    → (s' : Kmem) × (unmap_page ekernel root va true s ≡ ok (tt, s'))
      × IsVm s' (after_page (entry 2 root va s.memory) free) tag root
      × ((w : ℕ)
          → w < 2 ^ 39
          → entry 2 root w s'.memory ≡ (
              if (va / 4096 == w / 4096) && valid (entry 2 root va s.memory)
              then 0
              else entry 2 root w s.memory))
unmap_page_lem ekernel root va s free tag vm in_va own =
    elim (Bool-cases (valid (entry 2 root va s.memory))) [
      | inl v ↦
          (let (s', run, vm', entries) =
              unmap_page-valid ekernel root s free tag vm va in_va v (own v) in
            (s', run, rw v vm', λ w in_w. ground (arith, entries w in_w, v)))
      | inr v ↦ (
        s,
        unmap_page-invalid ekernel root s free tag vm va v,
        rw v vm,
        λ w in_w. ground (arith, v),
      )
    ]

-- The entries after the valid ones of `n` pages are cleared.
abbrev pub cleared : (ℕ → ℕ) → ℕ → ℕ → ℕ → ℕ
cleared before va n w = if in_pages va n w && valid (before w) then 0 else before w

cleared-suc :
    (before middle : ℕ → ℕ) (va n w : ℕ)
    → va % page_size ≡ 0
    → (va / 4096 ≡ w / 4096 → before va ≡ before w)
    → middle w ≡ (if (va / 4096 == w / 4096) && valid (before va) then 0 else before w)
    → cleared middle (va + page_size) n w ≡ cleared before va (suc n) w
cleared-suc before middle va n w aligned same h = elim (eq-cases (va / 4096) (w / 4096)) [
  | inl e ↦ ground (arith, same e, h, e)
  | inr ne ↦ ground (arith, h, ne)
]

unmap_from_lem :
    (n ekernel root va : ℕ) (b : ℕ → ℕ) (s : Kmem) (free : List ℕ) (tag : Tags)
    → IsVm s free tag root
    → va % page_size ≡ 0
    → va + page_size * n ≤ 2 ^ 39
    → ((j : ℕ) → j < n → entry 2 root (va + page_size * j) s.memory ≡ b j)
    → AllOwned ekernel n b free tag
    → (end : ℕ) → end ≡ va + page_size * n
    → (s' : Kmem) × (unmap_from n ekernel root va end true s ≡ ok (tt, s'))
      × IsVm s' (released n b free) tag root
      × ((w : ℕ)
          → w < 2 ^ 39
          → entry 2 root w s'.memory ≡ cleared (λ w'. entry 2 root w' s.memory) va n w)
unfolding unmap_from
unmap_from_lem zero ekernel root va b s free tag vm aligned in_va is_b all end at_end =
    (s, refl, vm, λ w in_w. ground arith)
unmap_from_lem (suc n) ekernel root va b s free tag vm aligned in_va is_b all end at_end =
    let here : entry 2 root va s.memory ≡ b 0 =
      ap (λ w. entry 2 root w s.memory) (omega arith) ∙ is_b 0 (omega arith) in
    let (s₁, run, vm₁, first) = unmap_page_lem ekernel root va s free tag vm (omega arith) (λ v.
      subst (λ e. IsOwned ekernel (pte2pa e) free tag) (sym here)
        (all.owned 0 (omega arith) (sym (ap valid here) ∙ v))) in
    let vm₁' : IsVm s₁ (after_page (b 0) free) tag root =
      subst (λ e. IsVm s₁ (after_page e free) tag root) here vm₁ in
    let tail : (j : ℕ)
        → j < n
        → entry 2 root (va + page_size + page_size * j) s₁.memory ≡ b (suc j) =
      λ j lt.
        let far : (va / 4096 == (va + page_size + page_size * j) / 4096) ≡ false = ground arith in
        first (va + page_size + page_size * j) (omega arith)
        ∙ rw far (ap (λ w. entry 2 root w s.memory) (omega arith) ∙ is_b (suc j) (omega arith)) in
    let (s', run', vm', entries) =
      unmap_from_lem n ekernel root (va + page_size) (λ j. b (suc j)) s₁ (after_page (b 0) free) tag
        vm₁' (omega arith) (omega arith) tail (AllOwned-tail ekernel n b free tag all) end
        (omega (arith, at_end)) in
    let more : ltb va end ≡ true = ground (arith, at_end) in
    (
      s',
      rw (more, run) run',
      vm',
      λ w in_w.
          entries w in_w
          ∙ cleared-suc (λ w'. entry 2 root w' s.memory) (λ w'. entry 2 root w' s₁.memory) va n w
              aligned (entry-page root va w s.memory) (first w in_w),
    )

-- `uvmunmap` of the pages from an aligned address on, below 2 ^ 39, returns. It clears the valid
-- entries of these addresses and no other, keeps the tables and the list of free pages in order, and
-- puts the pages that these entries led to in front of the free ones, each in front of the one
-- before it. For this they have to be different pages, behind the kernel image, that are neither
-- free nor a table.
pub uvmunmap_lem :
    (ekernel root va pagenum : ℕ) (s : Kmem) (free : List ℕ) (tag : Tags)
    → IsVm s free tag root
    → va % page_size ≡ 0
    → va + page_size * pagenum ≤ 2 ^ 39
    → AllOwned ekernel pagenum (λ j. entry 2 root (va + page_size * j) s.memory) free tag
    → (s' : Kmem) × (uvmunmap ekernel root va pagenum true s ≡ ok (tt, s'))
      × IsVm s' (released pagenum (λ j. entry 2 root (va + page_size * j) s.memory) free) tag root
      × ((w : ℕ)
          → w < 2 ^ 39
          → entry 2 root w s'.memory ≡ cleared (λ w'. entry 2 root w' s.memory) va pagenum w)
unfolding uvmunmap
uvmunmap_lem ekernel root va pagenum s free tag vm aligned in_va all =
    let (s', run, vm', entries) =
      unmap_from_lem pagenum ekernel root va (λ j. entry 2 root (va + page_size * j) s.memory) s
        free tag vm aligned in_va (λ j lt. refl) all ((va + pagenum * page_size) % 2 ^ 64)
        (omega arith) in
    let good : (va % page_size == 0) ≡ true = ground arith in (s', rw good run, vm', entries)

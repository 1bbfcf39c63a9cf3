-- ===== src/Vm/MapLoop.antt =====
-- The loop of `vmmap`.
use cute_core.Base.{
  ℕ, zero, suc, ◌+◌, ◌*◌, ◌/◌, ◌%◌, ◌^◌, ◌<◌, ◌≤◌, ◌≡◌, ◌≢◌, inl, inr, refl, ◌∙◌, Bool, true, false,
  Outcome, List, arith, ◌==◌, if◌then◌else◌, ok, Bool-cases, eq-cases,
}
use cute_core.Base.Words.{put_u64}
use cute_core.Pages.{Kmem, page_size}
use cute_core.Vm.{valid, load, walk, vmmap_from}
use cute_core.Vm.Tree.{Tags, entry}
use cute_core.Vm.Map.{leaf, leaf_lem, IsVm, Maps, map_page, mapped-suc, Maps-none}

vmmap_from_null :
    (n root va pa last perm a : ℕ) (s s₁ : Kmem)
    → walk root va true s ≡ ok (a, s₁)
    → a ≡ 0
    → vmmap_from (suc n) root va pa last perm s ≡ ok (false, s₁)
unfolding vmmap_from
vmmap_from_null n root va pa last perm a s s₁ run null = rw (run, null) refl

vmmap_from_page :
    (n root va pa last perm a : ℕ) (s s₁ : Kmem)
    → walk root va true s ≡ ok (a, s₁)
    → a ≢ 0
    → valid (load a s₁) ≡ false
    → perm < 256
    → vmmap_from (suc n) root va pa last perm s ≡ (
        if va == last
        then ok (true, record s₁ { memory = put_u64 a (leaf pa perm) s₁.memory })
        else vmmap_from n root
            ((va + page_size) % 2 ^ 64)
            ((pa + page_size) % 2 ^ 64)
            last
            perm
            (record s₁ { memory = put_u64 a (leaf pa perm) s₁.memory }))
unfolding vmmap_from
vmmap_from_page n root va pa last perm a s s₁ run there v in_perm =
    let some_entry : (a == 0) ≡ false = ground (arith, there) in
    elim (Bool-cases (va == last)) [
      | inl e ↦ rw (run, some_entry, v, e, leaf_lem pa perm in_perm) refl
      | inr e ↦ rw (run, some_entry, v, e, leaf_lem pa perm in_perm) refl
    ]

-- The first page is mapped, and from there on `k` more.
Maps-suc :
    (root va pa perm n : ℕ) (s s₂ s' : Kmem) (done : Bool) (free' : List ℕ) (tag' : Tags)
    → va % page_size ≡ 0
    → ((w : ℕ)
        → w < 2 ^ 39
        → entry 2 root w s₂.memory
          ≡ (if va / 4096 == w / 4096 then leaf pa perm else entry 2 root w s.memory))
    → Maps root (va + page_size) (pa + page_size) perm n s₂ done s' free' tag'
    → Maps root va pa perm (suc n) s done s' free' tag'
Maps-suc root va pa perm n s s₂ s' done free' tag' aligned first maps = record {
  vm = maps.vm;
  count = suc maps.count;
  enough = omega (arith, maps.enough);
  all = maps.all ∙ ground arith;
  short = λ lt. maps.short (omega arith);
  entries = λ w in_w.
      maps.entries w in_w
      ∙ mapped-suc (λ w'. entry 2 root w' s.memory) (λ w'. entry 2 root w' s₂.memory) va pa perm
          maps.count w aligned (first w in_w);
}

Maps-zero :
    (root va pa perm : ℕ) (s : Kmem) (free : List ℕ) (tag : Tags)
    → IsVm s free tag root
    → Maps root va pa perm 0 s true s free tag
Maps-zero root va pa perm s free tag vm = record {
  vm = vm;
  count = 0;
  enough = omega arith;
  all = refl;
  short = λ lt. absurd (omega arith);
  entries = λ w in_w. ground arith;
}

-- A run with `fuel` that maps up to `n` pages.
abbrev MapsBy : Outcome (Bool × Kmem) → ℕ → ℕ → ℕ → ℕ → ℕ → Kmem → Type 0
MapsBy run root va pa perm n s =
    (done : Bool) × (s' : Kmem) × (free' : List ℕ) × (tag' : Tags) × (run ≡ ok (done, s'))
    × Maps root va pa perm n s done s' free' tag'

vmmap_from_round :
    (n root va pa perm last : ℕ) (s : Kmem) (free : List ℕ) (tag : Tags)
    → IsVm s free tag root
    → va % page_size ≡ 0
    → va < 2 ^ 39
    → pa < 2 ^ 64
    → perm < 256
    → valid (entry 2 root va s.memory) ≡ false
    → ((s₂ : Kmem) (free₂ : List ℕ) (tag₂ : Tags)
        → IsVm s₂ free₂ tag₂ root
        → ((w : ℕ)
            → w < 2 ^ 39
            → entry 2 root w s₂.memory
              ≡ (if va / 4096 == w / 4096 then leaf pa perm else entry 2 root w s.memory))
        → MapsBy
            (if va == last
              then ok (true, s₂)
              else vmmap_from n root
                  ((va + page_size) % 2 ^ 64)
                  ((pa + page_size) % 2 ^ 64)
                  last
                  perm
                  s₂)
            root
            (va + page_size)
            (pa + page_size)
            perm
            n
            s₂)
    → MapsBy (vmmap_from (suc n) root va pa last perm s) root va pa perm (suc n) s
vmmap_from_round n root va pa perm last s free tag vm aligned in_va in_pa in_perm unmapped rest =
    let (a, s₁, free₁, tag₁, run, vm₁, same, empty, write) =
      map_page root va s free tag vm in_va unmapped (leaf pa perm) (omega arith) in
    elim (eq-cases a 0) [
      | inl null ↦ (
        false,
        s₁,
        free₁,
        tag₁,
        vmmap_from_null n root va pa last perm a s s₁ run null,
        Maps-none root va pa perm n s s₁ free₁ tag₁ vm₁ same (empty null),
      )
      | inr there ↦
          (let (v, vm₂, first) = write there in
            let (done, s', free', tag', run', maps) = rest _ free₁ tag₁ vm₂ first in
            (
              done,
              s',
              free',
              tag',
              vmmap_from_page n root va pa last perm a s s₁ run there v in_perm ∙ run',
              Maps-suc root va pa perm n s _ s' done free' tag' aligned first maps,
            ))
    ]

pub vmmap_from_lem :
    (n root va pa perm : ℕ) (s : Kmem) (free : List ℕ) (tag : Tags)
    → IsVm s free tag root
    → va % page_size ≡ 0
    → va + page_size * suc n ≤ 2 ^ 39
    → pa + page_size * n < 2 ^ 64
    → perm < 256
    → ((w : ℕ) → va ≤ w → w < va + page_size * suc n → valid (entry 2 root w s.memory) ≡ false)
    → (last : ℕ) → last ≡ va + page_size * n
    → MapsBy (vmmap_from (suc n) root va pa last perm s) root va pa perm (suc n) s
vmmap_from_lem zero root va pa perm s free tag vm aligned in_va in_pa in_perm unmapped last
      at_last =
    vmmap_from_round zero root va pa perm last s free tag vm aligned (omega arith) (omega arith)
      in_perm (unmapped va (omega arith) (omega arith))
      (λ s₂ free₂ tag₂ vm₂ first.
        let is_last : (va == last) ≡ true = ground (arith, at_last) in
        (
          true,
          s₂,
          free₂,
          tag₂,
          rw is_last refl,
          Maps-zero root (va + page_size) (pa + page_size) perm s₂ free₂ tag₂ vm₂,
        ))
vmmap_from_lem (suc n) root va pa perm s free tag vm aligned in_va in_pa in_perm unmapped last
      at_last =
    vmmap_from_round (suc n) root va pa perm last s free tag vm aligned (omega arith) (omega arith)
      in_perm (unmapped va (omega arith) (omega arith))
      (λ s₂ free₂ tag₂ vm₂ first.
        let more : (va == last) ≡ false = ground (arith, at_last) in
        let next_va : (va + page_size) % 2 ^ 64 ≡ va + page_size = omega arith in
        let next_pa : (pa + page_size) % 2 ^ 64 ≡ pa + page_size = omega arith in
        let still : (w : ℕ)
            → va + page_size ≤ w
            → w < va + page_size + page_size * suc n
            → valid (entry 2 root w s₂.memory) ≡ false =
          λ w lo hi.
            let far : (va / 4096 == w / 4096) ≡ false = ground arith in
            rw (first w (omega arith), far) (unmapped w (omega arith) (omega arith)) in
        rw (more, next_va, next_pa)
          (vmmap_from_lem n root (va + page_size) (pa + page_size) perm s₂ free₂ tag₂ vm₂
            (omega arith) (omega arith) (omega arith) in_perm still last (omega (arith, at_last))))

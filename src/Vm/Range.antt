-- ===== src/Vm/Range.antt =====
-- What `vmmap` promises of a range of addresses, and `ismapped` of an address.
use cute_core.Base.{
  ℕ, suc, ◌+◌, ◌-◌, ◌*◌, ◌/◌, ◌%◌, ◌^◌, ◌<◌, ◌≤◌, ◌≡◌, ◌≢◌, ◌⊎◌, refl, subst, ◌∙◌, sym, Bool, true,
  false, not, ◌||◌, List, [], ap, arith, ◌==◌, ok, panic, Bool-cases, eq-cases, inl, inr,
}
use cute_core.Pages.{Kmem, page_size}
use cute_core.Vm.{valid, load, walk, vmmap_from, vmmap, ismapped}
use cute_core.Vm.Tree.{Tags, slot, entry, walk_from-slot, slot-some, slot-none}
use cute_core.Vm.Walk.{walk_from_alloc}
use cute_core.Vm.Map.{IsVm, Maps}
use cute_core.Vm.MapLoop.{vmmap_from_lem}

vmmap_lem_of :
    (n root va pa perm : ℕ) (s : Kmem) (free : List ℕ) (tag : Tags) (size : ℕ)
    → IsVm s free tag root
    → va % page_size ≡ 0
    → size ≡ page_size * suc n
    → va + size ≤ 2 ^ 39
    → pa + size ≤ 2 ^ 64
    → perm < 256
    → ((w : ℕ) → va ≤ w → w < va + size → valid (entry 2 root w s.memory) ≡ false)
    → (done : Bool) × (s' : Kmem) × (free' : List ℕ) × (tag' : Tags) × (vmmap root va size pa perm s
        ≡ ok (done, s'))
      × Maps root va pa perm (suc n) s done s' free' tag'
unfolding vmmap
vmmap_lem_of n root va pa perm s free tag size vm aligned is_size in_va in_pa in_perm unmapped =
    let (done, s', free', tag', run, maps) =
      vmmap_from_lem n root va pa perm s free tag vm aligned (omega (arith, is_size))
        (omega (arith, is_size)) in_perm (λ w lo hi. unmapped w lo (omega (arith, is_size)))
        ((va + size + 2 ^ 64 - page_size) % 2 ^ 64) (omega (arith, is_size)) in
    let good : (not (va % page_size == 0) || not (size % page_size == 0) || (size == 0)) ≡ false =
      ground (arith, is_size) in
    let rounds : size / page_size ≡ suc n = omega (arith, is_size) in
    (done, s', free', tag', rw (good, rounds) run, maps)

-- `vmmap` of a range of whole pages below 2 ^ 39, none of which is mapped, returns and keeps the
-- tables and the list of free pages in order. It maps the first pages of the range, each to the
-- page as far from `pa` with the permissions, and changes no other entry; it returns true when
-- these are all, and false only when no page is free any more.
pub vmmap_lem :
    (root va size pa perm : ℕ) (s : Kmem) (free : List ℕ) (tag : Tags)
    → IsVm s free tag root
    → va % page_size ≡ 0
    → size % page_size ≡ 0
    → 0 < size
    → va + size ≤ 2 ^ 39
    → pa + size ≤ 2 ^ 64
    → perm < 256
    → ((w : ℕ) → va ≤ w → w < va + size → valid (entry 2 root w s.memory) ≡ false)
    → (done : Bool) × (s' : Kmem) × (free' : List ℕ) × (tag' : Tags) × (vmmap root va size pa perm s
        ≡ ok (done, s'))
      × Maps root va pa perm (size / page_size) s done s' free' tag'
vmmap_lem root va size pa perm s free tag vm aligned whole pos_size in_va in_pa in_perm unmapped =
    let (done, s', free', tag', run, maps) =
      vmmap_lem_of (size / page_size - 1) root va pa perm s free tag size vm aligned (omega arith)
        in_va in_pa in_perm unmapped in
    let count : suc (size / page_size - 1) ≡ size / page_size = omega arith in
    (
      done,
      s',
      free',
      tag',
      run,
      subst (λ n. Maps root va pa perm n s done s' free' tag') count maps,
    )

-- `ismapped` returns whether the entry of the address is valid, and changes nothing.
pub ismapped_lem :
    (root va : ℕ) (s : Kmem) (free : List ℕ) (tag : Tags)
    → IsVm s free tag root
    → ismapped root va s ≡ ok (valid (entry 2 root va s.memory), s)
unfolding ismapped walk
ismapped_lem root va s free tag vm = elim (eq-cases (slot 2 root va s.memory) 0) [
  | inl e ↦
      (let nothing = slot-none s.memory free tag vm.tree 2 root va [] vm.at_root refl e in
        rw (walk_from-slot 2 root va s, e, nothing) refl)
  | inr ne ↦
      (let (q, at_q, at_slot, is_entry) =
          slot-some s.memory free tag vm.tree 2 root va [] vm.at_root refl ne in
        let there : (slot 2 root va s.memory == 0) ≡ false = ground (arith, ne) in
        rw (walk_from-slot 2 root va s, there, is_entry) refl)
]

remap :
    (n root va pa last perm : ℕ) (s : Kmem) (free : List ℕ) (tag : Tags)
    → IsVm s free tag root
    → valid (entry 2 root va s.memory) ≡ true
    → vmmap_from (suc n) root va pa last perm s ≡ panic
unfolding vmmap_from walk
remap n root va pa last perm s free tag vm v =
    let (a, s₁, free₁, tag₁, run, g, at_slot, empty) =
      walk_from_alloc 2 root va [] s free tag vm.list vm.tree vm.at_root refl in
    let at_root = g.tags root [] vm.at_root in
    let same = g.entries 2 root va [] vm.at_root refl in
    let there : slot 2 root va s₁.memory ≢ 0 = λ e.
      let nothing : entry 2 root va s.memory ≡ 0 =
        sym same ∙ slot-none s₁.memory free₁ tag₁ g.tree 2 root va [] at_root refl e in
      ground (arith, sym v ∙ ap valid nothing) in
    let (q, at_q, at_q_slot, is_entry) =
      slot-some s₁.memory free₁ tag₁ g.tree 2 root va [] at_root refl there in
    let v' : valid (load a s₁) ≡ true =
      ap (λ b. valid (load b s₁)) at_slot ∙ sym (ap valid is_entry) ∙ ap valid same ∙ v in
    let some_entry : (a == 0) ≡ false = ground (arith, at_slot, there) in
    rw (run, some_entry, v') refl

-- `vmmap` panics when the address or the size is not that of whole pages, when the size is 0, and
-- when the first page of the range is mapped already.
pub vmmap-panic :
    (root va size pa perm : ℕ) (s : Kmem) (free : List ℕ) (tag : Tags)
    → IsVm s free tag root
    → (va % page_size ≢ 0)
      ⊎ (size % page_size ≢ 0)
      ⊎ (size ≡ 0)
      ⊎ (valid (entry 2 root va s.memory) ≡ true)
    → vmmap root va size pa perm s ≡ panic
unfolding vmmap
vmmap-panic root va size pa perm s free tag vm h =
    elim (Bool-cases (not (va % page_size == 0) || not (size % page_size == 0) || (size == 0))) [
      | inl bad ↦ rw bad refl
      | inr good ↦
          (let v : valid (entry 2 root va s.memory) ≡ true = ground (arith, h) in
            let rounds : size / page_size ≡ suc (size / page_size - 1) = ground arith in
            rw (good, rounds) (remap (size / page_size - 1) root va pa _ perm s free tag vm v))
    ]

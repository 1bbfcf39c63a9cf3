-- ===== src/Vm/Unmap.antt =====
-- `uvmunmap`: the pages of a range are unmapped and freed.
use cute_core.Base.{
  ℕ, ◌+◌, ◌*◌, ◌/◌, ◌^◌, ◌<◌, ◌≤◌, ◌≡◌, ◌≢◌, inl, inr, refl, subst, ◌∙◌, sym, true, false, List, [],
  ◌∷◌, some, ap, arith, ◌==◌, if◌then◌else◌, ok, eq-cases,
}
use cute_core.Base.Words.{Bytes, get_u64, put_u64, put_u64_ne, get_u64_ext}
use cute_core.Pages.{Kmem, kfree}
use cute_core.Pages.FreeList.{IsPage, Fresh, Outside, IsFree-frame, kfree_lem}
use cute_core.Vm.{valid, px, pte2pa, load, walk}
use cute_core.Vm.User.{unmap_page}
use cute_core.Vm.Tree.{
  Tags, IsTree, slot, entry, px_lt, walk_from-slot, slot-some, slot-none, slot-Agree,
}
use cute_core.Vm.Leaf.{put-entry, page_apart}
use cute_core.Vm.Map.{IsVm}

-- No entry of a table differs, so no address has another entry.
entry-frame :
    (m m' : Bytes) (free free' : List ℕ) (tag : Tags)
    → IsTree m free tag
    → IsTree m' free' tag
    → ((q : ℕ) (path : List ℕ) (i : ℕ)
        → tag q ≡ some path
        → i < 512
        → get_u64 (q + 8 * i) m' ≡ get_u64 (q + 8 * i) m)
    → (root w : ℕ) → tag root ≡ some []
    → entry 2 root w m' ≡ entry 2 root w m
entry-frame m m' free free' tag tree tree' same root w at_root =
    let kept =
      slot-Agree m m' free tag tree (λ q path i at_q short in_i. same q path i at_q in_i) 2 root w
        [] at_root refl in
    elim (eq-cases (slot 2 root w m) 0) [
      | inl e ↦
          slot-none m' free' tag tree' 2 root w [] at_root refl (kept ∙ e)
          ∙ sym (slot-none m free tag tree 2 root w [] at_root refl e)
      | inr there ↦
          (let (q, at_q, at_slot, is_entry) =
              slot-some m free tag tree 2 root w [] at_root refl there in
            let (q', at_q', at_slot', is_entry') =
              slot-some m' free' tag tree' 2 root w [] at_root refl (λ e. there (sym kept ∙ e)) in
            is_entry'
            ∙ ap (λ a. get_u64 a m') (kept ∙ at_slot)
            ∙ same q _ (px 0 w) at_q (px_lt 0 w)
            ∙ sym (is_entry ∙ ap (λ a. get_u64 a m) at_slot))
    ]

-- A page that may be freed: no table, not free, and behind the kernel image.
pub record IsOwned (ekernel pa : ℕ) (free : List ℕ) (tag : Tags) : Type 0 where
  pub page : IsPage pa
  pub above : ekernel ≤ pa
  pub fresh : Fresh pa free
  pub no_table : (path : List ℕ) → tag pa ≢ some path

-- A change within a page that is no table leaves the tables.
module _ (ekernel root : ℕ) (s : Kmem) (free : List ℕ) (tag : Tags) (vm : IsVm s free tag root)
    (pa : ℕ) (own : IsOwned ekernel pa free tag) (m' : Bytes)
    (same : (i : ℕ) → Outside pa i → m' i ≡ s.memory i) where
  other_page : (q : ℕ) (path : List ℕ) → tag q ≡ some path → q ≢ pa
  other_page q path at_q e = own.no_table path (sym (ap tag e) ∙ at_q)

  words :
      (q : ℕ) (path : List ℕ) (i : ℕ)
      → tag q ≡ some path
      → i < 512
      → get_u64 (q + 8 * i) m' ≡ get_u64 (q + 8 * i) s.memory
  words q path i at_q in_i =
      let apart = page_apart q pa (vm.tree.page q path at_q).0 own.page (other_page q path at_q) in
      get_u64_ext (q + 8 * i) m' s.memory (λ a lo hi. same a (omega (arith, apart)))

  pub within-IsTree :
      (free' : List ℕ) → ((q : ℕ) → q ≢ pa → Fresh q free → Fresh q free') → IsTree m' free' tag
  within-IsTree free' still = record {
    page = λ q path at_q. (
      (vm.tree.page q path at_q).0,
      still q (other_page q path at_q) (vm.tree.page q path at_q).1,
    );
    child = λ q path i at_q short in_i v.
        let e = words q path i at_q in_i in
        rw e (vm.tree.child q path i at_q short in_i (sym (ap valid e) ∙ v));
  }

  pub within-entry : (w : ℕ) → entry 2 root w m' ≡ entry 2 root w s.memory
  within-entry w =
      entry-frame s.memory m' free free tag vm.tree (within-IsTree free (λ q ne f. f)) words root w
        vm.at_root

  pub within-slot : (w : ℕ) → slot 2 root w m' ≡ slot 2 root w s.memory
  within-slot w =
      slot-Agree s.memory m' free tag vm.tree (λ q path i at_q short in_i. words q path i at_q in_i)
        2 root w [] vm.at_root refl

  pub within-IsVm : IsVm (record s { memory = m' }) free tag root
  within-IsVm = record {
    list = IsFree-frame s.memory m' pa s.memlist free own.page own.fresh same vm.list;
    tree = within-IsTree free (λ q ne f. f);
    at_root = vm.at_root;
  }

module _ (ekernel root : ℕ) (s : Kmem) (free : List ℕ) (tag : Tags)
    (vm : IsVm s free tag root) where
  -- `kfree` of a page that is no table leaves the tables.
  kfree-IsVm :
      (pa : ℕ)
      → IsOwned ekernel pa free tag
      → (s₁ : Kmem) × (kfree ekernel pa s ≡ ok (tt, s₁))
        × IsVm s₁ (pa ∷ free) tag root
        × ((w : ℕ) → entry 2 root w s₁.memory ≡ entry 2 root w s.memory)
        × ((w : ℕ) → slot 2 root w s₁.memory ≡ slot 2 root w s.memory)
  kfree-IsVm pa own =
      let (s₁, run, list, same) =
        kfree_lem ekernel s free vm.list pa own.page own.above own.fresh in
      (
        s₁,
        run,
        record {
          list = list;
          tree =
              within-IsTree ekernel root s free tag vm pa own s₁.memory same (pa ∷ free)
                (λ q ne f. (ne, f));
          at_root = vm.at_root;
        },
        within-entry ekernel root s free tag vm pa own s₁.memory same,
        within-slot ekernel root s free tag vm pa own s₁.memory same,
      )

  -- A valid entry is cleared and its page is freed.
  pub unmap_page-valid :
      (va : ℕ)
      → va < 2 ^ 39
      → valid (entry 2 root va s.memory) ≡ true
      → IsOwned ekernel (pte2pa (entry 2 root va s.memory)) free tag
      → (s' : Kmem) × (unmap_page ekernel root va true s ≡ ok (tt, s'))
        × IsVm s' (pte2pa (entry 2 root va s.memory) ∷ free) tag root
        × ((w : ℕ)
            → w < 2 ^ 39
            → entry 2 root w s'.memory
              ≡ (if va / 4096 == w / 4096 then 0 else entry 2 root w s.memory))
  unfolding unmap_page walk
  unmap_page-valid va in_va v own =
      let there : slot 2 root va s.memory ≢ 0 = λ e.
        let nothing = slot-none s.memory free tag vm.tree 2 root va [] vm.at_root refl e in
        ground (arith, sym v ∙ ap valid nothing) in
      let (q₀, at_q₀, at_slot₀, is_entry) =
        slot-some s.memory free tag vm.tree 2 root va [] vm.at_root refl there in
      let (s₁, run, vm₁, same, slots) = kfree-IsVm (pte2pa (entry 2 root va s.memory)) own in
      let (tree', entries, q, j, in_j, at_q, at_slot, _) =
        put-entry s₁.memory _ tag vm₁.tree root va 0 vm.at_root in_va (omega arith)
          (λ e. there (sym (slots va) ∙ e)) in
      let a : ℕ = slot 2 root va s.memory in
      let present : (a == 0) ≡ false = ground (arith, there) in
      let v' : valid (load a s) ≡ true = sym (ap valid is_entry) ∙ v in
      let freed : kfree ekernel (pte2pa (load a s)) s ≡ ok (tt, s₁) =
        ap (λ e. kfree ekernel (pte2pa e) s) (sym is_entry) ∙ run in
      let outside : (i : ℕ) → Outside q i → put_u64 a 0 s₁.memory i ≡ s₁.memory i =
        λ i out. put_u64_ne a 0 s₁.memory i (omega (arith, slots va, at_slot)) in
      (
        record s₁ { memory = put_u64 a 0 s₁.memory },
        rw (walk_from-slot 2 root va s, present, v', freed) refl,
        record {
          list =
              IsFree-frame s₁.memory _ q s₁.memlist (pte2pa (entry 2 root va s.memory) ∷ free)
                (vm₁.tree.page q _ at_q).0 (vm₁.tree.page q _ at_q).1 outside vm₁.list;
          tree =
              subst
                (λ b. IsTree (put_u64 b 0 s₁.memory) (pte2pa (entry 2 root va s.memory) ∷ free) tag)
                (slots va) tree';
          at_root = vm.at_root;
        },
        λ w in_w.
            ap (λ b. entry 2 root w (put_u64 b 0 s₁.memory)) (sym (slots va))
            ∙ entries w in_w
            ∙ ap (λ e. if va / 4096 == w / 4096 then 0 else e) (same w),
      )

  pub unmap_page-invalid :
      (va : ℕ)
      → valid (entry 2 root va s.memory) ≡ false
      → unmap_page ekernel root va true s ≡ ok (tt, s)
  unfolding unmap_page walk
  unmap_page-invalid va v = elim (eq-cases (slot 2 root va s.memory) 0) [
    | inl e ↦ rw (walk_from-slot 2 root va s, e) refl
    | inr there ↦
        (let (q, at_q, at_slot, is_entry) =
            slot-some s.memory free tag vm.tree 2 root va [] vm.at_root refl there in
          let present : (slot 2 root va s.memory == 0) ≡ false = ground (arith, there) in
          let v' : valid (load (slot 2 root va s.memory) s) ≡ false = sym (ap valid is_entry) ∙ v in
          rw (walk_from-slot 2 root va s, present, v') refl)
  ]

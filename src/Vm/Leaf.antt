-- ===== src/Vm/Leaf.antt =====
-- A write to a lowest entry changes the entry of one page of addresses and nothing else.
use cute_core.Base.{
  ℕ, zero, suc, ◌+◌, ◌*◌, ◌/◌, ◌^◌, ◌<◌, ◌≤◌, ◌≡◌, ◌≢◌, ◌⊎◌, inl, inr, refl, ◌∙◌, sym, true, false,
  List, [], some, length, ap, arith, ◌==◌, if◌then◌else◌, eq-cases,
}
use cute_core.Base.Words.{get_u64-put_u64_ne, Bytes, get_u64, put_u64, get_u64-put_u64}
use cute_core.Pages.{page_size}
use cute_core.Pages.FreeList.{IsPage}
use cute_core.Vm.{px}
use cute_core.Vm.Tree.{
  Tags, IsTree, Agree, slot, entry, path_to, px_lt, IsTree-Agree, slot-Agree, slot-some, slot-none,
}

pub page_apart : (p q : ℕ) → IsPage p → IsPage q → p ≢ q → (p + page_size ≤ q) ⊎ (q + page_size ≤ p)
page_apart p q at_p at_q ne = omega (arith, at_p.1, at_q.1)

-- Two addresses below 2 ^ 39 with the same indices are on the same page.
px-same :
    (va w : ℕ)
    → va < 2 ^ 39
    → w < 2 ^ 39
    → px 2 va ≡ px 2 w
    → px 1 va ≡ px 1 w
    → px 0 va ≡ px 0 w
    → va / 4096 ≡ w / 4096
unfolding px
px-same va w in_va in_w e2 e1 e0 = omega arith

px-page : (l va w : ℕ) → l ≤ 2 → va / 4096 ≡ w / 4096 → px l va ≡ px l w
unfolding px
px-page zero va w h e = omega arith
px-page (suc zero) va w h e = omega arith
px-page (suc (suc zero)) va w h e = omega arith
px-page (suc (suc (suc l))) va w h e = absurd (omega arith)

slot-page : (root va w : ℕ) (m : Bytes) → va / 4096 ≡ w / 4096 → slot 2 root va m ≡ slot 2 root w m
unfolding slot
slot-page root va w m e =
    rw
      (
        px-page 2 va w (omega arith) e,
        px-page 1 va w (omega arith) e,
        px-page 0 va w (omega arith) e,
      )
      refl

pub entry-page :
    (root va w : ℕ) (m : Bytes) → va / 4096 ≡ w / 4096 → entry 2 root va m ≡ entry 2 root w m
unfolding entry
entry-page root va w m e =
    rw
      (
        px-page 2 va w (omega arith) e,
        px-page 1 va w (omega arith) e,
        px-page 0 va w (omega arith) e,
      )
      refl

module _ (m : Bytes) (free : List ℕ) (tag : Tags) (tree : IsTree m free tag) where
  -- A lowest table is another page than a table above it.
  pub put_low-Agree :
      (q v : ℕ) (path : List ℕ) (j : ℕ)
      → tag q ≡ some path
      → length path ≡ 2
      → j < 512
      → Agree m (put_u64 (q + 8 * j) v m) tag
  put_low-Agree q v path j at_q low in_j p path' i at_p short in_i =
      let ne : p ≢ q = λ e. ground (arith, ap tag e) in
      let apart = page_apart p q (tree.page p path' at_p).0 (tree.page q path at_q).0 ne in
      get_u64-put_u64_ne (p + 8 * i) (q + 8 * j) v m (omega arith)

  -- Two lowest entries of addresses on different pages lie apart.
  slots_apart :
      (va w q q' : ℕ)
      → va < 2 ^ 39
      → w < 2 ^ 39
      → tag q ≡ some (path_to 2 va [])
      → tag q' ≡ some (path_to 2 w [])
      → va / 4096 ≢ w / 4096
      → (q' + 8 * px 0 w + 8 ≤ q + 8 * px 0 va) ⊎ (q + 8 * px 0 va + 8 ≤ q' + 8 * px 0 w)
  slots_apart va w q q' in_va in_w at_q at_q' ne = elim (eq-cases q q') [
    | inl e ↦
        (let indices : (px 1 va ≡ px 1 w) × (px 2 va ≡ px 2 w) =
            ground (arith, sym at_q ∙ ap tag e ∙ at_q') in
          let differ : px 0 va ≢ px 0 w =
            λ e0. ne (px-same va w in_va in_w indices.1 indices.0 e0) in
          omega (arith, e, differ))
    | inr other ↦
        (let apart = page_apart q q' (tree.page q _ at_q).0 (tree.page q' _ at_q').0 other in
          omega (arith, apart, px_lt 0 va, px_lt 0 w))
  ]

  put-entry_at :
      (root va v q : ℕ)
      → tag root ≡ some []
      → va < 2 ^ 39
      → v < 2 ^ 64
      → tag q ≡ some (path_to 2 va [])
      → slot 2 root va m ≡ q + 8 * px 0 va
      → (w : ℕ) → w < 2 ^ 39
      → entry 2 root w (put_u64 (q + 8 * px 0 va) v m)
        ≡ (if va / 4096 == w / 4096 then v else entry 2 root w m)
  put-entry_at root va v q at_root in_va in_v at_q at_slot w in_w =
      let m' : Bytes = put_u64 (q + 8 * px 0 va) v m in
      let agree : Agree m m' tag =
        put_low-Agree q v (path_to 2 va []) (px 0 va) at_q refl (px_lt 0 va) in
      let tree' = IsTree-Agree m m' free tag tree agree in
      let kept = slot-Agree m m' free tag tree agree 2 root w [] at_root refl in
      let same_page : va / 4096 ≡ w / 4096 → slot 2 root w m ≡ q + 8 * px 0 va =
        λ e. sym (slot-page root va w m e) ∙ at_slot in
      elim (eq-cases (slot 2 root w m) 0) [
        | inl none_there ↦
            (let old = slot-none m free tag tree 2 root w [] at_root refl none_there in
              let new = slot-none m' free tag tree' 2 root w [] at_root refl (kept ∙ none_there) in
              let differ : va / 4096 ≢ w / 4096 =
                λ e. ground (arith, same_page e, (tree.page q _ at_q).0.0) in
              let far : ((va / 4096) == (w / 4096)) ≡ false = ground (arith, differ) in
              rw far (new ∙ sym old))
        | inr there ↦
            (let (q', at_q', at_slot', is_entry) =
                slot-some m free tag tree 2 root w [] at_root refl there in
              let (q'', at_q'', at_slot'', is_entry') =
                slot-some m' free tag tree' 2 root w [] at_root refl (λ e. there (sym kept ∙ e)) in
              let new : entry 2 root w m' ≡ get_u64 (q' + 8 * px 0 w) m' =
                is_entry' ∙ ap (λ a. get_u64 a m') (kept ∙ at_slot') in
              let old : entry 2 root w m ≡ get_u64 (q' + 8 * px 0 w) m =
                is_entry ∙ ap (λ a. get_u64 a m) at_slot' in
              at_page q' at_q' at_slot' new old (eq-cases (va / 4096) (w / 4096)))
      ]
    where
      at_page :
          (q' : ℕ)
          → tag q' ≡ some (path_to 2 w [])
          → slot 2 root w m ≡ q' + 8 * px 0 w
          → entry 2 root w (put_u64 (q + 8 * px 0 va) v m)
            ≡ get_u64 (q' + 8 * px 0 w) (put_u64 (q + 8 * px 0 va) v m)
          → entry 2 root w m ≡ get_u64 (q' + 8 * px 0 w) m
          → (va / 4096 ≡ w / 4096) ⊎ (va / 4096 ≢ w / 4096)
          → entry 2 root w (put_u64 (q + 8 * px 0 va) v m)
            ≡ (if va / 4096 == w / 4096 then v else entry 2 root w m)
      at_page q' at_q' at_slot' new old (inl e) =
          let near : (va / 4096 == w / 4096) ≡ true = ground (arith, e) in
          let here : q' + 8 * px 0 w ≡ q + 8 * px 0 va =
            sym at_slot' ∙ sym (slot-page root va w m e) ∙ at_slot in
          rw near (new ∙ rw here (get_u64-put_u64 (q + 8 * px 0 va) v m in_v))
      at_page q' at_q' at_slot' new old (inr ne) =
          let far : (va / 4096 == w / 4096) ≡ false = ground (arith, ne) in
          rw far (
            new
            ∙ get_u64-put_u64_ne (q' + 8 * px 0 w) (q + 8 * px 0 va) v m
                (slots_apart va w q q' in_va in_w at_q at_q' ne)
            ∙ sym old)

  -- The lowest entry of an address below 2 ^ 39 is replaced: that is then the entry of every
  -- address of its page, and the others keep theirs.
  pub put-entry :
      (root va v : ℕ)
      → tag root ≡ some []
      → va < 2 ^ 39
      → v < 2 ^ 64
      → slot 2 root va m ≢ 0
      → IsTree (put_u64 (slot 2 root va m) v m) free tag
        × ((w : ℕ)
            → w < 2 ^ 39
            → entry 2 root w (put_u64 (slot 2 root va m) v m)
              ≡ (if va / 4096 == w / 4096 then v else entry 2 root w m))
        × (q : ℕ) × (j : ℕ) × (j < 512)
        × (tag q ≡ some (path_to 2 va []))
        × (slot 2 root va m ≡ q + 8 * j)
        × (entry 2 root va m ≡ get_u64 (slot 2 root va m) m)
  put-entry root va v at_root in_va in_v there =
      let (q, at_q, at_slot, is_entry) =
        slot-some m free tag tree 2 root va [] at_root refl there in
      let agree : Agree m (put_u64 (q + 8 * px 0 va) v m) tag =
        put_low-Agree q v (path_to 2 va []) (px 0 va) at_q refl (px_lt 0 va) in
      (
        rw at_slot (IsTree-Agree _ _ free tag tree agree),
        rw at_slot (put-entry_at root va v q at_root in_va in_v at_q at_slot),
        q,
        px 0 va,
        px_lt 0 va,
        at_q,
        at_slot,
        is_entry,
      )

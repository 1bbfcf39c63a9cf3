-- ===== src/Vm/CopyOut.antt =====
-- `copyout`, round by round.
use cute_core.Base.{
  ℕ, zero, suc, ◌+◌, ◌-◌, ◌*◌, ◌/◌, ◌%◌, ◌^◌, ◌<◌, ◌≤◌, ◌≡◌, ◌≢◌, ◌⊎◌, inl, inr, refl, subst, ◌∙◌,
  sym, true, false, List, [], ap, arith, ltb, ◌==◌, if◌then◌else◌, ok, Bool-cases, eq-cases,
}
use cute_core.Base.Words.{Bytes}
use cute_core.Str.{memcpy}
use cute_core.Str.Copy.{within, memcpy_lem}
use cute_core.Pages.{Kmem, page_size}
use cute_core.Pages.FreeList.{Outside}
use cute_core.Vm.{valid, user, pte2pa, load, walk}
use cute_core.Vm.User.{copy_from, copyout}
use cute_core.Vm.Tree.{Tags, slot, entry, walk_from-slot, slot-some, slot-none}
use cute_core.Vm.Leaf.{entry-page}
use cute_core.Vm.Map.{IsVm}
use cute_core.Vm.Unmap.{within-entry, within-IsVm}
use cute_core.Vm.Copy.{phys, Writable, Writable-tail, Copied, Copied-trans, Copied-none}

-- The length of a round, and the memory after it.
abbrev round_len : ℕ → ℕ → ℕ
round_len dst len =
    if ltb len (page_size - (dst - dst / page_size * page_size))
    then len
    else page_size - (dst - dst / page_size * page_size)

copy_from_round :
    (fuel root dst src len : ℕ) (s : Kmem) (free : List ℕ) (tag : Tags)
    → IsVm s free tag root
    → 0 < len
    → valid (entry 2 root dst s.memory) ≡ true
    → user (entry 2 root dst s.memory) ≡ true
    → copy_from (suc fuel) root dst src len s
      ≡ copy_from fuel root
          ((dst + round_len dst len) % 2 ^ 64)
          ((src + round_len dst len) % 2 ^ 64)
          (len - round_len dst len)
          (record s {
            memory =
                (memcpy
                  (phys (λ w. entry 2 root w s.memory) dst)
                  src
                  (round_len dst len)
                  s.memory).0;
          })
unfolding copy_from walk
copy_from_round fuel root dst src len s free tag vm pos_len v u =
    let va : ℕ = dst / page_size * page_size in
    let same : entry 2 root va s.memory ≡ entry 2 root dst s.memory =
      entry-page root va dst s.memory (omega arith) in
    let there : slot 2 root va s.memory ≢ 0 = λ e.
      let nothing = slot-none s.memory free tag vm.tree 2 root va [] vm.at_root refl e in
      ground (arith, sym v ∙ sym (ap valid same) ∙ ap valid nothing) in
    let (q, at_q, at_slot, is_entry) =
      slot-some s.memory free tag vm.tree 2 root va [] vm.at_root refl there in
    let present : (slot 2 root va s.memory == 0) ≡ false = ground (arith, there) in
    let loaded : load (slot 2 root va s.memory) s ≡ entry 2 root dst s.memory =
      sym is_entry ∙ same in
    let more : (len == 0) ≡ false = ground arith in
    let offset : dst - va ≡ dst % page_size = omega arith in
    rw (more, walk_from-slot 2 root va s, present, loaded, v, u, offset) refl

wrap : (a : ℕ) → a < 2 ^ 64 → a % 2 ^ 64 ≡ a
wrap a h = omega arith

round_facts :
    (dst len n : ℕ)
    → 0 < len
    → n ≡ round_len dst len
    → (n ≤ len)
      × (dst % page_size + n ≤ page_size)
      × ((n ≡ len) ⊎ (dst % page_size + n ≡ page_size))
      × (0 < n)
round_facts dst len n pos_len h = elim (Bool-cases (ltb len (page_size - dst % page_size))) [
  | inl short ↦
      (let is_len : n ≡ len = ground (arith, h) in
        (omega arith, ground arith, inl is_len, omega arith))
  | inr long ↦
      (let is_rest : n ≡ page_size - dst % page_size = ground (arith, h) in
        (ground arith, omega arith, inr (omega arith), omega arith))
]

-- A round: the memory that it leaves, and the call for the rest.
copy_from_step :
    (fuel ekernel root dst src len : ℕ) (e : ℕ → ℕ) (s : Kmem) (free : List ℕ) (tag : Tags)
    → IsVm s free tag root
    → 0 < len
    → dst + len < 2 ^ 64
    → src + len < 2 ^ 64
    → ((w : ℕ) → entry 2 root w s.memory ≡ e w)
    → Writable ekernel dst src len e free tag
    → (n : ℕ) → n ≡ round_len dst len
    → (m₁ : Bytes) × (copy_from (suc fuel) root dst src len s
        ≡ copy_from fuel root (dst + n) (src + n) (len - n) (record s { memory = m₁ }))
      × IsVm (record s { memory = m₁ }) free tag root
      × ((w : ℕ) → entry 2 root w m₁ ≡ e w)
      × ((m' : Bytes)
          → Copied (dst + n) (src + n) (len - n) e m₁ m'
          → Copied dst src len e s.memory m')
copy_from_step fuel ekernel root dst src len e s free tag vm pos_len in_dst in_src is_e can n is_n =
    let (le, inside, full, pos_n) = round_facts dst len n pos_len is_n in
    let own = can.owned dst (omega arith) (omega arith) in
    let m₁ : Bytes = (memcpy (phys e dst) src n s.memory).0 in
    let apart = can.source dst (omega arith) (omega arith) in
    let bytes : (a : ℕ)
        → m₁ a
          ≡ (if within (phys e dst) n a then s.memory (src + (a - phys e dst)) else s.memory a) =
      λ a. memcpy_lem (phys e dst) src n s.memory a (omega arith) in
    let same : (a : ℕ) → Outside (pte2pa (e dst)) a → m₁ a ≡ s.memory a =
      λ a out. ground (arith, bytes a) in
    let page_wise : (w w' : ℕ) → w / page_size ≡ w' / page_size → e w ≡ e w' =
      λ w w' h. sym (is_e w) ∙ entry-page root w w' s.memory h ∙ is_e w' in
    let (v, u) = can.is_valid dst (omega arith) (omega arith) in
    let run =
      copy_from_round fuel root dst src len s free tag vm pos_len (ap valid (is_e dst) ∙ v)
        (ap user (is_e dst) ∙ u) in
    let to_dst : (dst + round_len dst len) % 2 ^ 64 ≡ dst + n =
      rw (sym is_n) (wrap (dst + n) (omega arith)) in
    let to_src : (src + round_len dst len) % 2 ^ 64 ≡ src + n =
      rw (sym is_n) (wrap (src + n) (omega arith)) in
    let to_len : len - round_len dst len ≡ len - n = ap (λ k. len - k) (sym is_n) in
    (
      m₁,
      run ∙ rw (to_dst, to_src, to_len, sym is_n, is_e dst) refl,
      within-IsVm ekernel root s free tag vm (pte2pa (e dst)) own m₁ same,
      λ w. within-entry ekernel root s free tag vm (pte2pa (e dst)) own m₁ same w ∙ is_e w,
      Copied-trans ekernel dst src len n e free tag s.memory m₁ page_wise can le inside full pos_n
          bytes,
    )

copy_from_lem :
    (fuel ekernel root dst src len : ℕ) (e : ℕ → ℕ) (s : Kmem) (free : List ℕ) (tag : Tags)
    → IsVm s free tag root
    → len ≤ fuel
    → dst + len < 2 ^ 64
    → src + len < 2 ^ 64
    → ((w : ℕ) → entry 2 root w s.memory ≡ e w)
    → Writable ekernel dst src len e free tag
    → (s' : Kmem) × (copy_from fuel root dst src len s ≡ ok (true, s'))
      × IsVm s' free tag root
      × ((w : ℕ) → entry 2 root w s'.memory ≡ e w)
      × Copied dst src len e s.memory s'.memory
unfolding copy_from
copy_from_lem zero ekernel root dst src len e s free tag vm enough in_dst in_src is_e can =
    let none_left : len ≡ 0 = omega arith in
    let done : (len == 0) ≡ true = ground arith in
    (
      s,
      rw done refl,
      vm,
      is_e,
      subst (λ n. Copied dst src n e s.memory s.memory) (sym none_left)
          (Copied-none dst src e s.memory),
    )
copy_from_lem (suc fuel) ekernel root dst src len e s free tag vm enough in_dst in_src is_e can =
    elim (eq-cases len 0) [
      | inl none_left ↦
          (let done : (len == 0) ≡ true = ground (arith, none_left) in
            (
              s,
              rw done refl,
              vm,
              is_e,
              subst (λ n. Copied dst src n e s.memory s.memory) (sym none_left)
                  (Copied-none dst src e s.memory),
            ))
      | inr more ↦
          (let n : ℕ = round_len dst len in
            let (m₁, run, vm₁, is_e₁, after) =
              copy_from_step fuel ekernel root dst src len e s free tag vm (omega (arith, more))
                in_dst in_src is_e can n refl in
            let (le, inside, full, pos_n) = round_facts dst len n (omega (arith, more)) refl in
            let (s', run', vm', is_e', copied) =
              copy_from_lem fuel ekernel root (dst + n) (src + n) (len - n) e
                (record s { memory = m₁ }) free tag vm₁ (omega (arith, le, pos_n))
                (omega (arith, le)) (omega (arith, le)) is_e₁
                (Writable-tail ekernel dst src len n e free tag le can) in
            (s', run ∙ run', vm', is_e', after s'.memory copied))
    ]

-- `copyout` of `len` bytes to pages that the user may use returns true. The bytes are then at the
-- physical addresses of the destination, page by page, no other byte of the memory has changed, and
-- neither has an entry of the tables. For this the pages have to be different ones that are neither
-- free nor a table, and they may not hold the source.
pub copyout_lem :
    (ekernel root dst src len : ℕ) (s : Kmem) (free : List ℕ) (tag : Tags)
    → IsVm s free tag root
    → dst + len < 2 ^ 64
    → src + len < 2 ^ 64
    → Writable ekernel dst src len (λ w. entry 2 root w s.memory) free tag
    → (s' : Kmem) × (copyout root dst src len s ≡ ok (true, s'))
      × IsVm s' free tag root
      × ((w : ℕ) → entry 2 root w s'.memory ≡ entry 2 root w s.memory)
      × Copied dst src len (λ w. entry 2 root w s.memory) s.memory s'.memory
unfolding copyout
copyout_lem ekernel root dst src len s free tag vm in_dst in_src can =
    copy_from_lem len ekernel root dst src len (λ w. entry 2 root w s.memory) s free tag vm
      (omega arith) in_dst in_src (λ w. refl) can

-- `copyout` returns false and copies nothing when the entry of the first address is not valid or
-- not for the user.
pub copyout-refused :
    (root dst src len : ℕ) (s : Kmem) (free : List ℕ) (tag : Tags)
    → IsVm s free tag root
    → 0 < len
    → (valid (entry 2 root dst s.memory) ≡ false) ⊎ (user (entry 2 root dst s.memory) ≡ false)
    → copyout root dst src len s ≡ ok (false, s)
unfolding copyout copy_from walk
copyout-refused root dst src zero s free tag vm pos_len h = absurd (omega arith)
copyout-refused root dst src (suc n) s free tag vm pos_len h =
    let va : ℕ = dst / page_size * page_size in
    let same : entry 2 root va s.memory ≡ entry 2 root dst s.memory =
      entry-page root va dst s.memory (omega arith) in
    let more : (suc n == 0) ≡ false = ground arith in
    elim (eq-cases (slot 2 root va s.memory) 0) [
      | inl null ↦ rw (more, walk_from-slot 2 root va s, null) refl
      | inr there ↦
          (let (q, at_q, at_slot, is_entry) =
              slot-some s.memory free tag vm.tree 2 root va [] vm.at_root refl there in
            let present : (slot 2 root va s.memory == 0) ≡ false = ground (arith, there) in
            let loaded : load (slot 2 root va s.memory) s ≡ entry 2 root dst s.memory =
              sym is_entry ∙ same in
            elim h [
              | inl no_v ↦ rw (more, walk_from-slot 2 root va s, present, loaded, no_v) refl
              | inr no_u ↦ elim (Bool-cases (valid (entry 2 root dst s.memory))) [
                | inl v ↦ rw (more, walk_from-slot 2 root va s, present, loaded, v, no_u) refl
                | inr v ↦ rw (more, walk_from-slot 2 root va s, present, loaded, v) refl
              ]
            ])
    ]

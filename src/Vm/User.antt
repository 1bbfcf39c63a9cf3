-- ===== src/Vm/User.antt =====
-- mm/vm.c: the address space of a process, which shares the kernel's tables. `kvmroot` is a
-- parameter, as is `ekernel`, where the kernel image ends.
use cute_core.Base.{
  ℕ, zero, suc, ◌+◌, ◌-◌, ◌*◌, ◌/◌, ◌%◌, ◌^◌, bit_or, Bool, true, false, not, ◌&&◌, ◌||◌, ltb, leb,
  ◌==◌, if◌then◌else◌, Cmd, pure, ok, panic, fault, ◌>>=◌, ◌>>◌,
}
use cute_core.Str.{memcpy}
use cute_core.Pages.{Kmem, page_size, kfree, kalloc}
use cute_core.Vm.{
  pte_v, pte_r, kernbase, valid, user, is_branch, px, pte2pa, page_round_up, load, save, walk,
  vmmap,
}

-- The loop of `freewalk`, with the entries that are left; `child` frees a table.
unfoldable pub free_entries : (ℕ → Cmd Kmem (Unit {0})) → ℕ → ℕ → ℕ → Cmd Kmem (Unit {0})
free_entries child zero i root s = pure tt s
free_entries child (suc n) i root s =
    let pte = load (root + 8 * i) s in
    let rest : Cmd Kmem (Unit {0}) = free_entries child n (i + 1) root in
    if valid pte && is_branch pte
    then (child (pte2pa pte) >> save (root + 8 * i) 0 >> rest) s
    else if valid pte
    then panic
    else rest s

-- The fuel is the number of levels.
unfoldable pub freewalk : ℕ → ℕ → ℕ → Cmd Kmem (Unit {0})
freewalk ekernel zero root s = fault
freewalk ekernel (suc levels) root s =
    (free_entries (freewalk ekernel levels) 512 0 root >> kfree ekernel root) s

-- The loop of `uvmfreewalk`: the entries of the kernel's half are cleared only.
unfoldable pub free_user_entries : (ℕ → Cmd Kmem (Unit {0})) → ℕ → ℕ → ℕ → Cmd Kmem (Unit {0})
free_user_entries child zero i root s = pure tt s
free_user_entries child (suc n) i root s =
    let pte = load (root + 8 * i) s in
    let rest : Cmd Kmem (Unit {0}) = free_user_entries child n (i + 1) root in
    if not (valid pte)
    then rest s
    else if leb (px 2 kernbase) i
    then (save (root + 8 * i) 0 >> rest) s
    else if is_branch pte
    then (child (pte2pa pte) >> save (root + 8 * i) 0 >> rest) s
    else panic

-- Two levels are below the root.
unfoldable pub uvmfreewalk : ℕ → ℕ → Cmd Kmem (Unit {0})
uvmfreewalk ekernel root = free_user_entries (freewalk ekernel 2) 512 0 root >> kfree ekernel root

unfoldable pub uvmcreate : Cmd Kmem ℕ
uvmcreate = kalloc >>= λ uroot. if uroot == 0 then pure 0 else pure uroot

unfoldable pub copy_entries : ℕ → ℕ → ℕ → ℕ → Cmd Kmem (Unit {0})
copy_entries zero i kvmroot uroot s = pure tt s
copy_entries (suc n) i kvmroot uroot s =
    let kpte = load (kvmroot + 8 * i) s in
    let rest : Cmd Kmem (Unit {0}) = copy_entries n (i + 1) kvmroot uroot in
    if valid kpte then (save (uroot + 8 * i) kpte >> rest) s else rest s

unfoldable pub uvmmapkernel : ℕ → ℕ → Cmd Kmem (Unit {0})
uvmmapkernel kvmroot uroot = copy_entries 512 0 kvmroot uroot

-- The body of the loop of `uvmunmap`.
unfoldable pub unmap_page : ℕ → ℕ → ℕ → Bool → Cmd Kmem (Unit {0})
unmap_page ekernel root vaddr free = walk root vaddr false >>= λ pte s.
    if (pte == 0) || not (valid (load pte s))
    then ok (tt, s)
    else ((if free then kfree ekernel (pte2pa (load pte s)) else pure tt) >> save pte 0) s

-- The loop, with fuel.
unfoldable pub unmap_from : ℕ → ℕ → ℕ → ℕ → ℕ → Bool → Cmd Kmem (Unit {0})
unmap_from zero ekernel root vaddr end free s = pure tt s
unmap_from (suc n) ekernel root vaddr end free s =
    let rest : Cmd Kmem (Unit {0}) = unmap_from n ekernel root (vaddr + page_size) end free in
    if ltb vaddr end then (unmap_page ekernel root vaddr free >> rest) s else ok (tt, s)

-- Every round moves on by a page, so `pagenum` rounds are enough.
unfoldable pub uvmunmap : ℕ → ℕ → ℕ → ℕ → Bool → Cmd Kmem (Unit {0})
uvmunmap ekernel root va pagenum free s =
    if not (va % page_size == 0)
    then panic
    else unmap_from pagenum ekernel root va ((va + pagenum * page_size) % 2 ^ 64) free s

-- a 64-bit number cut to an `i32`, and back
abbrev pub through_i32 : ℕ → ℕ
through_i32 n = if ltb (n % 2 ^ 32) (2 ^ 31) then n % 2 ^ 32 else n % 2 ^ 32 + (2 ^ 64 - 2 ^ 32)

unfoldable pub uvmdealloc : ℕ → ℕ → ℕ → ℕ → Cmd Kmem ℕ
uvmdealloc ekernel root oldsz newsz =
    if leb oldsz newsz
    then pure oldsz
    else if ltb (page_round_up newsz) (page_round_up oldsz)
    then uvmunmap ekernel root (page_round_up newsz)
        (through_i32 ((page_round_up oldsz - page_round_up newsz) / page_size)) true
      >> pure newsz
    else pure newsz

-- The loop of `uvmalloc`, with fuel; `oldsz` is rounded up.
unfoldable pub grow_from : ℕ → ℕ → ℕ → ℕ → ℕ → ℕ → ℕ → Cmd Kmem ℕ
grow_from zero ekernel root size oldsz newsz perm s = pure newsz s
grow_from (suc n) ekernel root size oldsz newsz perm s =
    let rest : Cmd Kmem ℕ = grow_from n ekernel root (size + page_size) oldsz newsz perm in
    let undo : Cmd Kmem ℕ = uvmdealloc ekernel root size oldsz >>= λ _. pure 0 in
    if not (ltb size newsz)
    then ok (newsz, s)
    else (kalloc >>= λ mem.
          if mem == 0
          then undo
          else vmmap root size page_size mem (bit_or (bit_or pte_r pte_v) perm) >>= λ done.
              if done then rest else kfree ekernel mem >> undo)
        s

-- Every round moves on by a page, so `newsz` rounds are enough.
unfoldable pub uvmalloc : ℕ → ℕ → ℕ → ℕ → ℕ → Cmd Kmem ℕ
uvmalloc ekernel root oldsz newsz perm =
    if ltb newsz oldsz
    then pure oldsz
    else grow_from newsz ekernel root (page_round_up oldsz) (page_round_up oldsz) newsz perm

unfoldable pub uvmfree : ℕ → ℕ → ℕ → ℕ → ℕ → Cmd Kmem (Unit {0})
uvmfree ekernel root sz stack_bottom stack_top =
    (if ltb 0 sz then uvmunmap ekernel root 0 (page_round_up sz / page_size) true else pure tt)
    >> (if ltb stack_bottom stack_top
        then uvmunmap ekernel root stack_bottom ((stack_top - stack_bottom) / page_size) true
        else pure tt)
    >> uvmfreewalk ekernel root

-- The rounds of `copyout`, with fuel. `src` is a kernel address, and the kernel's memory is mapped
-- at itself.
unfoldable pub copy_from : ℕ → ℕ → ℕ → ℕ → ℕ → Cmd Kmem Bool
copy_from zero pagetable dstva src len s = pure (len == 0) s
copy_from (suc fuel) pagetable dstva src len s =
    let va = dstva / page_size * page_size in
    let n = if ltb len (page_size - (dstva - va)) then len else page_size - (dstva - va) in
    let rest : Cmd Kmem Bool =
      copy_from fuel pagetable ((dstva + n) % 2 ^ 64) ((src + n) % 2 ^ 64) (len - n) in
    if len == 0
    then ok (true, s)
    else (walk pagetable va false >>= λ pte s'.
          if (pte == 0) || not (valid (load pte s')) || not (user (load pte s'))
          then ok (false, s')
          else rest (record s' {
            memory = (memcpy (pte2pa (load pte s') + (dstva - va)) src n s'.memory).0;
          }))
        s

-- Every round copies a byte at least, so `len` rounds are enough.
unfoldable pub copyout : ℕ → ℕ → ℕ → ℕ → Cmd Kmem Bool
copyout pagetable dstva src len = copy_from len pagetable dstva src len

-- ===== src/Vm/Tests.antt =====
-- The theorems of the page tables at a memory with one mapped page.
use cute_core.Base.{
  ℕ, ◌+◌, ◌*◌, ◌<◌, ◌≤◌, ◌≡◌, refl, ◌^◌, inr, Bool, true, false, List, ap, arith, ok, panic,
}
use cute_core.Pages.{Kmem, page_size}
use cute_core.Vm.{valid, user, pte2pa, vmmap, ismapped}
use cute_core.Vm.User.{uvmunmap, copyout}
use cute_core.Vm.Tree.{Tags, entry}
use cute_core.Vm.Map.{IsVm, Maps}
use cute_core.Vm.Range.{vmmap_lem, vmmap-panic, ismapped_lem}
use cute_core.Vm.Unmap.{IsOwned}
use cute_core.Vm.UnmapRange.{AllOwned, released, cleared, uvmunmap_lem}
use cute_core.Vm.Copy.{Writable, Copied}
use cute_core.Vm.CopyOut.{copyout_lem}
use cute_core.Vm.Sample.{
  root, data_pte, memory_of, machine, free_of, tag_of, machine-IsVm, machine-entry,
}

-- the second page of addresses
second_unmapped : (w : ℕ) → 4096 ≤ w → w < 4096 + 4096 → valid (entry 2 root w memory_of) ≡ false
second_unmapped w lo hi =
    let nothing : entry 2 root w memory_of ≡ 0 = ground (arith, machine-entry w (omega arith)) in
    ap valid nothing

first_mapped : (w : ℕ) → w < 4096 → entry 2 root w memory_of ≡ data_pte
first_mapped w lt = ground (arith, machine-entry w (omega arith))

data-IsOwned : IsOwned 0x80200000 0x80500000 free_of tag_of
data-IsOwned = record {
  page = (omega arith, refl, omega arith);
  above = omega arith;
  fresh = (λ e. absurd (omega (arith, e)), tt);
  no_table = λ path e. ground (arith, e);
}

IsOwned-at :
    (w : ℕ) → w < 4096 → IsOwned 0x80200000 (pte2pa (entry 2 root w memory_of)) free_of tag_of
IsOwned-at w lt = rw (first_mapped w lt) data-IsOwned

one-AllOwned :
    AllOwned 0x80200000 1 (λ j. entry 2 root (0 + page_size * j) memory_of) free_of tag_of
one-AllOwned = record {
  owned = λ j lt v. IsOwned-at (0 + page_size * j) (omega arith);
  distinct = λ i j lt lt' v v' same. omega arith;
}

page-Writable : Writable 0x80200000 4 0x80600000 16 (λ w. entry 2 root w memory_of) free_of tag_of
page-Writable = record {
  is_valid =
      λ w lo hi. (ap valid (first_mapped w (omega arith)), ap user (first_mapped w (omega arith)));
  owned = λ w lo hi. IsOwned-at w (omega arith);
  source = λ w lo hi. inr (rw (first_mapped w (omega arith)) (omega arith));
  distinct = λ w w' lo hi lo' hi' same. omega arith;
}

vmmap_lem_example :
    (done : Bool) × (s' : Kmem) × (free' : List ℕ) × (tag' : Tags) × (vmmap root 4096 4096
        0x80501000 0x16 machine
      ≡ ok (done, s'))
    × Maps root 4096 0x80501000 0x16 1 machine done s' free' tag'
vmmap_lem_example =
    vmmap_lem root 4096 4096 0x80501000 0x16 machine free_of tag_of machine-IsVm refl refl
      (omega arith) (omega arith) (omega arith) (omega arith) second_unmapped

vmmap-panic_example : vmmap root 0 4096 0x80501000 0x16 machine ≡ panic
vmmap-panic_example =
    vmmap-panic root 0 4096 0x80501000 0x16 machine free_of tag_of machine-IsVm
      (inr (inr (inr (ap valid (first_mapped 0 (omega arith))))))

ismapped_lem_example :
    ismapped root 4096 machine ≡ ok (valid (entry 2 root 4096 memory_of), machine)
ismapped_lem_example = ismapped_lem root 4096 machine free_of tag_of machine-IsVm

uvmunmap_lem_example :
    (s' : Kmem) × (uvmunmap 0x80200000 root 0 1 true machine ≡ ok (tt, s'))
    × IsVm s' (released 1 (λ j. entry 2 root (0 + page_size * j) memory_of) free_of) tag_of root
    × ((w : ℕ)
        → w < 2 ^ 39
        → entry 2 root w s'.memory ≡ cleared (λ w'. entry 2 root w' memory_of) 0 1 w)
uvmunmap_lem_example =
    uvmunmap_lem 0x80200000 root 0 1 machine free_of tag_of machine-IsVm refl (omega arith)
      one-AllOwned

copyout_lem_example :
    (s' : Kmem) × (copyout root 4 0x80600000 16 machine ≡ ok (true, s'))
    × IsVm s' free_of tag_of root
    × ((w : ℕ) → entry 2 root w s'.memory ≡ entry 2 root w memory_of)
    × Copied 4 0x80600000 16 (λ w. entry 2 root w memory_of) memory_of s'.memory
copyout_lem_example =
    copyout_lem 0x80200000 root 4 0x80600000 16 machine free_of tag_of machine-IsVm (omega arith)
      (omega arith) page-Writable

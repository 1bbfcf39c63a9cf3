-- ===== src/Vm.antt =====
-- mm/vm.c: the Sv39 page tables, which lie in the memory that `kalloc` hands out. A page-table entry
-- is a word of eight bytes; a null pointer is 0. What the linker and kalloc.h say of the kernel image
-- is a parameter.
pub mod Copy
pub mod CopyOut
pub mod Grow
pub mod Leaf
pub mod Map
pub mod MapLoop
pub mod Range
mod Sample
pub mod Table
mod Tests
pub mod Tree
pub mod Unmap
pub mod UnmapRange
pub mod User
pub mod Walk
use cute_core.Base.{
  ℕ, zero, suc, ◌+◌, ◌-◌, ◌*◌, ◌/◌, ◌%◌, ◌^◌, bit_or, Bool, true, false, not, ◌&&◌, ◌||◌, ltb, leb,
  ◌==◌, if◌then◌else◌, Cmd, pure, ok, panic, fault, ◌>>=◌, ◌>>◌,
}
use cute_core.Base.Words.{get_u64, put_u64}
use cute_core.Str.{memcpy}
use cute_core.Pages.{Kmem, page_size, phy_end, kfree, kalloc}

-- the bits R, W, X and U of an entry; V is the lowest
abbrev pub pte_v : ℕ
pte_v = 1

abbrev pub pte_r : ℕ
pte_r = 2

abbrev pub pte_w : ℕ
pte_w = 4

abbrev pub pte_x : ℕ
pte_x = 8

abbrev pub kernbase : ℕ
kernbase = 0x80200000

-- `pte & PTE_V`, and `pte & PTE_U`
abbrev pub valid : ℕ → Bool
valid pte = pte % 2 == 1

abbrev pub user : ℕ → Bool
user pte = pte / 16 % 2 == 1

-- `(pte & (PTE_R | PTE_W | PTE_X)) == 0`
abbrev pub is_branch : ℕ → Bool
is_branch pte = pte / 2 % 8 == 0

-- The page tables' index of an address at a level, `PX`.
unfoldable pub px : ℕ → ℕ → ℕ
px level va = va / 2 ^ (12 + 9 * level) % 512

abbrev pub pa2pte : ℕ → ℕ
pa2pte pa = pa / 4096 * 1024

abbrev pub pte2pa : ℕ → ℕ
pte2pa pte = pte / 1024 * 4096 % 2 ^ 64

-- `PGROUNDUP` of a 64-bit number
abbrev pub page_round_up : ℕ → ℕ
page_round_up sz = (sz + page_size - 1) % 2 ^ 64 / page_size * page_size

-- `*p`, and `*p = v`
abbrev pub load : ℕ → Kmem → ℕ
load p s = get_u64 p s.memory

abbrev pub save : ℕ → ℕ → Cmd Kmem (Unit {0})
save p v s = ok (tt, record s { memory = put_u64 p v s.memory })

-- The rounds of `walk` from a level on, and its last line.
unfoldable pub walk_from : ℕ → ℕ → ℕ → Bool → Cmd Kmem ℕ
walk_from zero ptes va alloc s = ok (ptes + 8 * px 0 va, s)
walk_from (suc level) ptes va alloc s =
    let pte = ptes + 8 * px (suc level) va in
    let rest : ℕ → Cmd Kmem ℕ = λ child. walk_from level child va alloc in
    if valid (load pte s)
    then rest (pte2pa (load pte s)) s
    else if not alloc
    then ok (0, s)
    else (kalloc >>= λ child.
          if child == 0 then pure 0 else save pte (bit_or (pa2pte child) pte_v) >> rest child)
        s

unfoldable pub walk : ℕ → ℕ → Bool → Cmd Kmem ℕ
walk root va alloc = walk_from 2 root va alloc

-- The loop of `vmmap`, with fuel; it is left at the page `last`.
unfoldable pub vmmap_from : ℕ → ℕ → ℕ → ℕ → ℕ → ℕ → Cmd Kmem Bool
vmmap_from zero root vaddr paddr last perm s = fault
vmmap_from (suc fuel) root vaddr paddr last perm s =
    let rest : Cmd Kmem Bool =
      vmmap_from fuel root ((vaddr + page_size) % 2 ^ 64) ((paddr + page_size) % 2 ^ 64) last
        perm in
    (walk root vaddr true >>= λ pte s'.
    if pte == 0
    then ok (false, s')
    else if valid (load pte s')
    then panic
    else (save pte (bit_or (bit_or (pa2pte paddr) perm) pte_v)
          >> (if vaddr == last then pure true else rest))
        s')
      s

-- Every round maps a page, so one round for each is enough.
unfoldable pub vmmap : ℕ → ℕ → ℕ → ℕ → ℕ → Cmd Kmem Bool
vmmap root va size pa perm s =
    if not (va % page_size == 0) || not (size % page_size == 0) || (size == 0)
    then panic
    else vmmap_from (size / page_size) root va pa ((va + size + 2 ^ 64 - page_size) % 2 ^ 64) perm s

unfoldable pub kvmmap : ℕ → ℕ → ℕ → ℕ → ℕ → Cmd Kmem (Unit {0})
kvmmap kroot va pa size perm =
    vmmap kroot va size pa perm >>= λ done s. if done then ok (tt, s) else panic

-- The addresses that the linker gives the parts of the kernel image.
pub record Image : Type 0 where
  pub stext : ℕ
  pub etext : ℕ
  pub srodata : ℕ
  pub erodata : ℕ
  pub sdata : ℕ
  pub edata : ℕ
  pub sbss : ℕ
  pub ebss : ℕ
  pub ekernel : ℕ

-- A part of the kernel from one address to another, each address at itself.
abbrev pub kvm_range : ℕ → ℕ → ℕ → ℕ → Cmd Kmem (Unit {0})
kvm_range kroot from to perm = kvmmap kroot from from ((to + 2 ^ 64 - from) % 2 ^ 64) perm

abbrev pub kvm_page : ℕ → ℕ → Cmd Kmem (Unit {0})
kvm_page kroot at = kvmmap kroot at at page_size (pte_r + pte_w)

-- With no page left the root is a null pointer, which the first mapping follows.
unfoldable pub kvmmake : Image → Cmd Kmem ℕ
kvmmake image = kalloc >>= λ kroot.
    if kroot == 0
    then (λ s. fault)
    else kvm_range kroot image.stext image.etext (pte_r + pte_x)
      >> kvm_range kroot image.srodata image.erodata pte_r
      >> kvm_range kroot image.sdata image.edata (pte_r + pte_w)
      >> kvm_range kroot image.sbss image.ebss (pte_r + pte_w)
      >> kvm_range kroot image.ekernel phy_end (pte_r + pte_w)
      >> kvm_page kroot 0x10000000
      >> kvm_page kroot 0x10001000
      >> kvm_page kroot 0x100000
      >> pure kroot

unfoldable pub ismapped : ℕ → ℕ → Cmd Kmem Bool
ismapped root va =
    walk root va false >>= λ pte s. ok ((if pte == 0 then false else valid (load pte s)), s)

-- ===== src/Pages.antt =====
-- mm/kalloc.c: the allocator of pages. The free pages are linked through their first words, so the
-- list lies in the memory that it manages; a null pointer is 0. `ekernel`, where the kernel image
-- ends, comes from the linker and is a parameter.
pub mod FreeList
pub mod Range
mod Tests
use cute_core.Base.{
  ℕ, zero, suc, ◌+◌, ◌-◌, ◌*◌, ◌/◌, ◌%◌, not, ◌||◌, ltb, leb, ◌==◌, if◌then◌else◌, Cmd, pure, ok,
  panic, ◌>>◌,
}
use cute_core.Base.Words.{Bytes, get_u64, put_u64}
use cute_core.Str.{memset}

abbrev pub page_size : ℕ
page_size = 4096

abbrev pub phy_end : ℕ
phy_end = 0x88000000

-- `kmem`, and the memory
pub record Kmem : Type 0 where
  pub memlist : ℕ
  pub memory : Bytes

unfoldable pub kfree : ℕ → ℕ → Cmd Kmem (Unit {0})
kfree ekernel pa s =
    if not (pa % page_size == 0) || ltb pa ekernel || leb phy_end pa
    then panic
    else ok (tt, record { memlist = pa; memory = put_u64 pa s.memlist s.memory })

unfoldable pub kalloc : Cmd Kmem ℕ
kalloc s =
    if s.memlist == 0
    then ok (0, s)
    else ok (
      s.memlist,
      record {
        memlist = get_u64 s.memlist s.memory;
        memory = (memset s.memlist 0 page_size s.memory).0;
      },
    )

-- The loop of `freerange`, with fuel.
unfoldable pub free_from : ℕ → ℕ → ℕ → ℕ → Cmd Kmem (Unit {0})
free_from zero ekernel p pa_end s = pure tt s
free_from (suc n) ekernel p pa_end s =
    let rest = free_from n ekernel (p + page_size) pa_end in
    (if leb (p + page_size) pa_end then kfree ekernel p >> rest else pure tt) s

-- Every round moves on by a page, so `pa_end` rounds are enough.
unfoldable pub freerange : ℕ → ℕ → ℕ → Cmd Kmem (Unit {0})
freerange ekernel pa_start pa_end =
    free_from pa_end ekernel ((pa_start + page_size - 1) / page_size * page_size) pa_end

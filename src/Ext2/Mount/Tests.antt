-- ===== src/Ext2/Mount/Tests.antt =====
-- The theorems of the mount at a disk of eight blocks in one group.
use cute_core.Base.{
  ◌+◌, ◌*◌, ◌||◌, List, ap, ◌∙◌, ℕ, zero, suc, ◌<◌, ◌≡◌, refl, true, false, some, [], ◌∷◌, arith,
  ◌==◌, if◌then◌else◌, find_index, get_elem?, ok, Cmd,
}
use cute_core.Base.Int.{negsuc}
use cute_core.Base.Words.{Bytes, put_u16, put_u32, put_u64, get_u16, get_u32, get_u64}
use cute_core.BlkCache.{Block, Slot, Cache}
use cute_core.BlkCache.View.{IsCoherent, content}
use cute_core.BlkCache.Room
use cute_core.Ext2.{Fs}
use cute_core.Ext2.Inode.{file}
use cute_core.Vfs.{Vfs}
use cute_core.Ext2.Mount.{Kernel, ext2_fs_init, mount_root}
use cute_core.Pages.{Kmem}
use cute_core.Slab.{kmalloc, alloc_class, cache_alloc, take_object, add_u32, minus_one}
use cute_core.Ext2.Mount.Layout.{group_number, IsSuper, IsMountOf}
use cute_core.Ext2.Mount.Init.{IsRefused, ext2_fs_init_lem, ext2_fs_init-IsRefused}

-- `magic` and the fields of a file system of eight blocks of 4096 bytes
abbrev super_block : ℕ → Block
super_block magic =
    put_u32 1028 8 (put_u32 1048 2 (put_u32 1056 8 (put_u32 1064 8 (put_u16 1080 magic (λ _. 0)))))

-- The descriptor of the group, in block 1, has its bitmaps in the blocks 2 and 3.
abbrev disk : ℕ → ℕ → Block
disk magic n =
    if n == 0
    then super_block magic
    else if n == 1
    then put_u32 0 2 (put_u32 4 3 (λ _. 0))
    else λ _. 0

abbrev empty : Slot
empty = record { blk_no = 0; valid = false; dirty = false; refcnt = 0; bytes = λ _. 0 }

abbrev cache : ℕ → Cache
cache magic = record { slots = empty ∷ empty ∷ []; disk = disk magic }

all_empty : (i : ℕ) (s : Slot) → get_elem? (empty ∷ empty ∷ []) i ≡ some s → s.valid ≡ true → ⊥
all_empty zero s h v = ground arith
all_empty (suc zero) s h v = ground arith
all_empty (suc (suc i)) s h v = ground arith

cache-IsCoherent : (magic : ℕ) → IsCoherent (cache magic)
cache-IsCoherent magic = record {
  unique = λ i j s t hi hj vs vt e. absurd (all_empty i s hi vs);
  clean = λ i s h vs ds. absurd (all_empty i s h vs);
}

abbrev nodes : ℕ → Vfs Fs
nodes magic = record {
  disk = record {
    cache = cache magic;
    sb_buf = 0;
    gb_table = [];
    group_count = 0;
    inode_size = 0;
    inode_per_group = 0;
    block_size = 0;
  };
  inode = λ _. record { ino = 0; type = file; nlinks = 0; ref = 0; dirty = false; fops = 0 };
  root = 0;
  inode_cache = record { next = λ _. 0; prev = λ _. 0 };
  icache_size = 7;
  memory = λ _. 0;
}

-- The caches of objects of 32 and of 64 bytes are at 64 and 128, their slabs at 4096 and 8192, with two
-- free objects each.
abbrev caches : List ℕ
caches = 1 ∷ 2 ∷ 64 ∷ 128 ∷ 5 ∷ 6 ∷ 7 ∷ 8 ∷ 9 ∷ []

abbrev heap : Bytes
heap a =
    if a == 81
    then 0x10
    else if a == 145
    then 0x20
    else if (a == 4112) || (a == 8208)
    then 0x28
    else if a == 4113
    then 0x10
    else if a == 8209
    then 0x20
    else if (a == 4120) || (a == 8216)
    then 2
    else 0

abbrev before : ℕ → Kernel
before magic = record { vfs = nodes magic; kmem = record { memlist = 0; memory = heap } }

-- the first object of the slab has been taken
abbrev without_first : ℕ → Kmem → Kmem
without_first slab k = record k {
  memory =
      add_u32 (slab + 24) minus_one
        (put_u64 (slab + 16) (get_u64 (get_u64 (slab + 16) k.memory) k.memory) k.memory);
}

abbrev with_info : Kmem
with_info = without_first 8192 (record { memlist = 0; memory = heap })

abbrev with_table : Kmem
with_table = without_first 4096 with_info

gives_info : kmalloc caches 40 (record { memlist = 0; memory = heap }) ≡ ok (8232, with_info)
unfolding kmalloc alloc_class cache_alloc take_object get_u64 get_u32 put_u64 put_u32
gives_info = refl

gives_table : kmalloc caches 32 with_info ≡ ok (4136, with_table)
unfolding kmalloc alloc_class cache_alloc take_object get_u64 get_u32 put_u64 put_u32
gives_table = refl

-- the root directory at 64
abbrev ext2_iget : ℕ → Cmd (Vfs Fs) ℕ
ext2_iget ino s = ok (64, s)

is_super : IsSuper (content (cache 0xEF53) 0)
unfolding content find_index put_u32 get_u32 put_u16 get_u16
is_super = record {
  magic = refl;
  log = omega arith;
  per_group = omega arith;
  inodes = omega arith;
  some_group = omega arith;
  in_range = omega arith;
}

two_free : 1 < Room.room ((cache 0xEF53).slots)
unfolding Room.room
two_free = omega arith

some_free : 0 < Room.room ((cache 0).slots)
unfolding Room.room
some_free = omega arith

other_magic : (get_u16 1080 (content (cache 0) 0) == 0xEF53) ≡ false
unfolding content find_index put_u32 put_u16 get_u16
other_magic = refl

one_group : group_number (content (cache 0xEF53) 0) ≡ 1
unfolding content find_index put_u32 get_u32 put_u16
one_group = refl

ext2_fs_init_lem_example :
    (d : Fs) × (ext2_fs_init 0 caches 8 ext2_iget (before 0xEF53)
      ≡ mount_root 0 8232 4136 8 ext2_iget
          (record { vfs = record (nodes 0xEF53) { disk = d }; kmem = with_table }))
    × IsMountOf (content (cache 0xEF53)) d
ext2_fs_init_lem_example =
    ext2_fs_init_lem 0 caches 8 ext2_iget (before 0xEF53) 8232 4136 with_info with_table
      (cache-IsCoherent 0xEF53) two_free is_super (rw (one_group) (omega arith)) gives_info
      (omega arith) (ap (λ n. kmalloc caches (n * 32) with_info) one_group ∙ gives_table)
      (omega arith)

ext2_fs_init-IsRefused_example :
    (d : Fs) × (ext2_fs_init 0 caches 8 ext2_iget (before 0)
      ≡ ok (negsuc 1, record (before 0) { vfs = record (nodes 0) { disk = d } }))
    × IsRefused (nodes 0).disk d
ext2_fs_init-IsRefused_example =
    ext2_fs_init-IsRefused 0 caches 8 ext2_iget (before 0) (cache-IsCoherent 0) some_free
      other_magic

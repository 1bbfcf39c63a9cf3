-- ===== src/Ext2/Mount.antt =====
-- fs/ext2/super.c: the mount, with the objects for `ext2_info` and for the table of descriptors from
-- `kmalloc`. The read of the root's inode (`ext2_iget`) is a parameter.
pub mod Init
pub mod Layout
pub mod Load
mod Tests
use cute_core.Base.{
  ℕ, zero, suc, ◌+◌, ◌-◌, ◌*◌, ◌/◌, ◌%◌, ◌^◌, Bool, true, false, not, ◌&&◌, ◌||◌, Option, none,
  some, List, [], ◌∷◌, ltb, leb, ◌==◌, if◌then◌else◌, Cmd, pure, Outcome, ok, panic, fault, ◌>>=◌,
  ◌>>◌,
}
use cute_core.Base.Int.{ℤ, pos, negsuc}
use cute_core.Base.Words.{get_u16, get_u32, put_bytes}
use cute_core.BlkCache.{Block, bread, brelse}
use cute_core.BlkCache.Access.{peek, with_block}
use cute_core.Links.{list_init}
use cute_core.Pages.{Kmem, page_size}
use cute_core.Slab.{kmalloc, kmfree}
use cute_core.Vfs.{Vfs}
use cute_core.Ext2.{BgDesc, Fs, desc_size, on_cache, raw_sb, super_offset, u32, sub32}
use cute_core.Ext2.Super

-- `raw_sb->field` of 16 bits
unfoldable pub raw_sb16 : ℕ → Cmd Fs ℕ
raw_sb16 field s = (do b ← on_cache (peek s.sb_buf); pure (get_u16 (super_offset + field) b)) s

-- the descriptor whose bytes begin at `o`
unfoldable pub desc_at : ℕ → Block → BgDesc
desc_at o b = record {
  block_bitmap = get_u32 o b;
  inode_bitmap = get_u32 (o + 4) b;
  inode_table = get_u32 (o + 8) b;
  free_blocks_count = get_u16 (o + 12) b;
  free_inodes_count = get_u16 (o + 14) b;
  used_dirs_count = get_u16 (o + 16) b;
  pad = get_u16 (o + 18) b;
  reserved0 = get_u32 (o + 20) b;
  reserved1 = get_u32 (o + 24) b;
  reserved2 = get_u32 (o + 28) b;
}

-- the bytes of a table as `n` descriptors, from descriptor `g` on
unfoldable pub descs_from : ℕ → ℕ → Block → List BgDesc
descs_from zero g b = []
descs_from (suc n) g b = desc_at (g * desc_size) b ∷ descs_from n (suc g) b

abbrev pub least : ℕ → ℕ → ℕ
least a b = if ltb b a then b else a

-- The loop that reads the table, with fuel: a round copies a byte at least.
unfoldable pub load_table : ℕ → ℕ → ℕ → ℕ → ℕ → Block → Cmd Fs Block
load_table zero blk copied size block_size table s =
    if ltb copied size then fault else ok (table, s)
load_table (suc fuel) blk copied size block_size table s =
    let chunk = least (size - copied) block_size in
    let rest : Block → Cmd Fs Block =
      load_table fuel ((blk + 1) % 2 ^ 64) (copied + chunk) size block_size in
    if ltb copied size
    then (on_cache (with_block blk (λ b. (b, none))) >>= λ b. rest (put_bytes copied chunk b table))
        s
    else ok (table, s)

-- The part of the third step behind `kmalloc`: the table of descriptors is read into the object.
unfoldable pub read_table : ℕ → ℕ → Cmd Fs (Unit {0})
read_table first block_size s =
    let size = s.group_count * desc_size in
    (load_table size (u32 (first + 1)) 0 size block_size (λ _. 0) >>= λ table s'.
    ok (tt, record s' { gb_table = descs_from s.group_count 0 table; block_size = block_size }))
      s

-- The second step: the fields of the superblock. What it gives is the first block and the size of a
-- block, or nothing if the fields are refused.
unfoldable pub read_layout : Cmd Fs (Option (ℕ × ℕ))
read_layout s =
    (do
      log ← raw_sb Super.log_block_size
      blocks ← raw_sb Super.blocks_count
      first ← raw_sb Super.first_data_block
      per_group ← raw_sb Super.blocks_per_group
      inodes ← raw_sb Super.inodes_per_group
      rev ← raw_sb Super.rev_level
      inode_size ← raw_sb16 Super.inode_size
      let groups = u32 (sub32 blocks first + per_group + 2 ^ 32 - 1) / per_group in
          if ltb 2 log || (per_group == 0) || (inodes == 0) || (groups == 0)
          then pure none
          else λ s'. ok (
            some (first, 1024 * 2 ^ log),
            record s' {
              group_count = groups;
              inode_per_group = inodes;
              inode_size = if leb 1 rev then inode_size else 128;
            },
          ))
      s

-- The first step: the superblock's block is read and kept; whether its magic number is right.
unfoldable pub take_super : Cmd Fs Bool
take_super = on_cache (bread 0) >>= λ sb s.
    (raw_sb16 Super.magic >>= λ magic. pure (magic == 0xEF53)) (record s { sb_buf = sb })

-- The file system, and the memory that `kmalloc` manages. The objects that it gives to the mount are
-- fields of `Fs`.
pub record Kernel : Type 0 where
  pub vfs : Vfs Fs
  pub kmem : Kmem

abbrev pub keep_kmem : {A : Type 0} → Kernel → Outcome (A × Vfs Fs) → Outcome (A × Kernel)
keep_kmem s (ok (a, v)) = ok (a, record s { vfs = v })
keep_kmem s panic = panic
keep_kmem s fault = fault

abbrev pub keep_vfs : {A : Type 0} → Kernel → Outcome (A × Kmem) → Outcome (A × Kernel)
keep_vfs s (ok (a, k)) = ok (a, record s { kmem = k })
keep_vfs s panic = panic
keep_vfs s fault = fault

abbrev pub keep_nodes : {A : Type 0} → Vfs Fs → Outcome (A × Fs) → Outcome (A × Vfs Fs)
keep_nodes s (ok (a, d)) = ok (a, record s { disk = d })
keep_nodes s panic = panic
keep_nodes s fault = fault

-- A function of the file system on the disk, one of the inodes, and one of the memory.
abbrev pub on_disk : {A : Type 0} → Cmd Fs A → Cmd Kernel A
on_disk m s = keep_kmem s (keep_nodes s.vfs (m s.vfs.disk))

abbrev pub on_vfs : {A : Type 0} → Cmd (Vfs Fs) A → Cmd Kernel A
on_vfs m s = keep_kmem s (m s.vfs)

abbrev pub on_kmem : {A : Type 0} → Cmd Kmem A → Cmd Kernel A
on_kmem m s = keep_vfs s (m s.kmem)

-- `brelse(cache)`
abbrev pub give_back : Cmd Fs (Unit {0})
give_back s = on_cache (brelse (some s.sb_buf)) s

-- `brelse(cache); kmfree(ext2_info); return -1;`
unfoldable pub give_up : ℕ → ℕ → Cmd Kernel ℤ
give_up ekernel info = on_disk give_back >> on_kmem (kmfree ekernel info) >> pure (negsuc 0)

-- `sizeof(struct ext2_sb_info)`, and the bytes of an object that has a page for itself, behind the
-- word in which kmalloc.c marks it
abbrev pub info_size : ℕ
info_size = 40

abbrev pub page_object : ℕ
page_object = page_size - 8

-- The fourth step. `inode_cache` is the address of `fs.inode_cache`, `table` that of the descriptors.
unfoldable pub mount_root : ℕ → ℕ → ℕ → ℕ → (ℕ → Cmd (Vfs Fs) ℕ) → Cmd Kernel ℤ
mount_root ekernel info table inode_cache ext2_iget =
    on_vfs (λ v.
      ok (tt, record v { inode_cache = list_init inode_cache v.inode_cache; icache_size = 0 }))
    >> on_vfs (λ v. (ext2_iget 2 >>= λ root v'. ok (root, record v' { root = root })) v)
    >>= λ root.
        if root == 0 then on_kmem (kmfree ekernel table) >> give_up ekernel info else pure (pos 0)

-- The third step: an object for the table, and the table in it. The loop writes behind the object if
-- the table is larger than `kmalloc` can give.
unfoldable pub load_descs :
    ℕ → List ℕ → ℕ → ℕ → (ℕ → Cmd (Vfs Fs) ℕ) → Option (ℕ × ℕ) → Cmd Kernel ℤ
load_descs ekernel caches info inode_cache ext2_iget none = give_up ekernel info
load_descs ekernel caches info inode_cache ext2_iget (some (first, block_size)) = λ s.
    let size = s.vfs.disk.group_count * desc_size in
    (on_kmem (kmalloc caches size) >>= λ table.
    if table == 0
    then give_up ekernel info
    else if ltb page_object size
    then (λ s'. fault)
    else on_disk (read_table first block_size)
      >> mount_root ekernel info table inode_cache ext2_iget)
      s

-- `caches` are the caches of kmalloc.c. `kmfree` of a null pointer does nothing.
unfoldable pub ext2_fs_init : ℕ → List ℕ → ℕ → (ℕ → Cmd (Vfs Fs) ℕ) → Cmd Kernel ℤ
ext2_fs_init ekernel caches inode_cache ext2_iget = on_disk take_super >>= λ is_ext2.
    if not is_ext2
    then on_disk give_back >> pure (negsuc 1)
    else on_kmem (kmalloc caches info_size) >>= λ info.
        if info == 0
        then give_up ekernel info
        else on_disk read_layout >>= load_descs ekernel caches info inode_cache ext2_iget

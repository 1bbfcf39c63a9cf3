-- ===== src/Ext2.antt =====
-- fs/ext2: the state of the mounted file system, and how its functions reach blocks, the
-- superblock and the group descriptors (include/ext2/ext2_def.h).
-- `raw_sb` points into the data of the slot `sb_buf`, so its fields are read from and written to
-- that slot. The fields are read before the block at hand is taken, where the source reads some of
-- them after; a slot that is in use is not moved by `bread`, so the values are the same.
pub mod Alloc
pub mod Bitmap
pub mod Dir
pub mod File
pub mod Inode
pub mod Mount
pub mod Mounted
mod Sample
pub mod Super
use cute_core.Base.{
  ℕ, ◌+◌, ◌-◌, ◌*◌, ◌/◌, ◌%◌, ◌^◌, Bool, true, false, Option, none, some, List, ltb, leb, ◌==◌,
  if◌then◌else◌, get_elem?, set, Outcome, ok, panic, fault, Cmd, pure, ◌>>=◌, ◌>>◌,
}
use cute_core.Base.Words.{put_u16, put_u32, put_bytes, get_u32}
use cute_core.Ext2.Super
use cute_core.BlkCache.{Block, Cache, bwrite, poke}
use cute_core.BlkCache.Access.{peek, with_block}

-- `struct ext2_bg_desc`
pub record BgDesc : Type 0 where
  pub block_bitmap : ℕ
  pub inode_bitmap : ℕ
  pub inode_table : ℕ
  pub free_blocks_count : ℕ
  pub free_inodes_count : ℕ
  pub used_dirs_count : ℕ
  pub pad : ℕ
  pub reserved0 : ℕ
  pub reserved1 : ℕ
  pub reserved2 : ℕ

abbrev pub desc_size : ℕ
desc_size = 32

-- the bytes of a descriptor
unfoldable pub desc_bytes : BgDesc → Block
desc_bytes d = put_u32 0 d.block_bitmap (
    put_u32 4 d.inode_bitmap (
      put_u32 8 d.inode_table (
        put_u16 12 d.free_blocks_count (
          put_u16 14 d.free_inodes_count (
            put_u16 16 d.used_dirs_count (
              put_u16 18 d.pad (
                put_u32 20 d.reserved0
                  (put_u32 24 d.reserved1 (put_u32 28 d.reserved2 (λ _. 0))))))))))

-- `fs` and its `struct ext2_sb_info`
pub record Fs : Type 0 where
  pub cache : Cache
  pub sb_buf : ℕ
  pub gb_table : List BgDesc
  pub group_count : ℕ
  pub inode_size : ℕ
  pub inode_per_group : ℕ
  pub block_size : ℕ

abbrev pub keep_rest : {A : Type 0} → Fs → Outcome (A × Cache) → Outcome (A × Fs)
keep_rest s (ok (a, c)) = ok (a, record s { cache = c })
keep_rest s panic = panic
keep_rest s fault = fault

-- A function of the block cache, run on the cache of the file system.
abbrev pub on_cache : {A : Type 0} → Cmd Cache A → Cmd Fs A
on_cache m s = keep_rest s (m s.cache)

abbrev pub super_offset : ℕ
super_offset = 1024

-- `raw_sb->field`
unfoldable pub raw_sb : ℕ → Cmd Fs ℕ
raw_sb field s = (do b ← on_cache (peek s.sb_buf); pure (get_u32 (super_offset + field) b)) s

-- `raw_sb->field = f(raw_sb->field); bwrite(sbi->sb_buf);`
unfoldable pub set_raw_sb : ℕ → (ℕ → ℕ) → Cmd Fs (Unit {0})
set_raw_sb field f s =
    (do
      b ← on_cache (peek s.sb_buf)
      on_cache (λ c. ok (
        tt,
        bwrite (some s.sb_buf) (
            poke s.sb_buf (put_u32 (super_offset + field) (f (get_u32 (super_offset + field) b)))
              c),
      )))
      s

abbrev pub u32 : ℕ → ℕ
u32 x = x % 2 ^ 32

abbrev pub u16 : ℕ → ℕ
u16 x = x % 2 ^ 16

-- a - b and a + 1, a - 1, on unsigned words
abbrev pub sub32 : ℕ → ℕ → ℕ
sub32 a b = (a + 2 ^ 32 - b) % 2 ^ 32

abbrev pub dec32 : ℕ → ℕ
dec32 a = sub32 a 1

abbrev pub inc32 : ℕ → ℕ
inc32 a = u32 (a + 1)

abbrev pub dec16 : ℕ → ℕ
dec16 a = (a + 2 ^ 16 - 1) % 2 ^ 16

abbrev pub inc16 : ℕ → ℕ
inc16 a = u16 (a + 1)

-- `&sbi->gb_table[g]`
unfoldable pub group_desc : ℕ → Cmd Fs BgDesc
group_desc g s = elim (get_elem? s.gb_table g) [ none ↦ fault | some d ↦ ok (d, s) ]

-- A change of descriptor `g` in memory, and its copy to the block of the descriptor table.
unfoldable pub store_desc : ℕ → BgDesc → Cmd Fs (Unit {0})
store_desc g d s = ok (tt, record s { gb_table = set s.gb_table g d })

abbrev pub gdt_blk : ℕ → ℕ → ℕ → ℕ
gdt_blk block_size first g = u32 (first + 1 + g / (block_size / desc_size))

abbrev pub gdt_off : ℕ → ℕ → ℕ
gdt_off block_size g = g % (block_size / desc_size) * desc_size

unfoldable pub sync_desc : ℕ → BgDesc → Cmd Fs (Unit {0})
sync_desc g d s =
    (do
      first ← raw_sb Super.first_data_block
      on_cache (
          with_block (gdt_blk s.block_size first g)
            (λ b. (tt, some (put_bytes (gdt_off s.block_size g) desc_size (desc_bytes d))))))
      s

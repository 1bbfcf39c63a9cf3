-- ===== src/Ext2/Mount/Layout.antt =====
-- fs/ext2/super.c: what a mount leaves, on a disk with a valid superblock and on one with another
-- magic number.
use cute_core.Base.{
  ℕ, zero, suc, ◌+◌, ◌-◌, ◌*◌, ◌/◌, ◌%◌, ◌^◌, ◌<◌, ◌≤◌, ◌≡◌, refl, sym, ap, ◌∙◌, false, ◌||◌, some,
  arith, ltb, leb, ◌==◌, if◌then◌else◌, get_elem?, ok,
}
use cute_core.Base.Words.{get_u16, get_u32}
use cute_core.BlkCache.{Block, Slot, Cache}
use cute_core.BlkCache.View.{IsCoherent, Holds, content-held}
use cute_core.BlkCache.Access.{peek-held}
use cute_core.Ext2.{Fs, desc_size, gdt_blk, gdt_off, super_offset, u32, sub32}
use cute_core.Ext2.Super
use cute_core.Ext2.Mounted.{IsMounted, blocks, with_cache, raw_sb_lem}
use cute_core.Ext2.Mount.{desc_at, descs_from, raw_sb16, read_table, read_layout}
use cute_core.Ext2.Mount.Load.{disk_byte, Loaded, load_table_lem, desc_at_ext, descs_from-get}

-- the fields of the superblock in block 0
abbrev pub field : ℕ → Block → ℕ
field o b = get_u32 (super_offset + o) b

abbrev pub field16 : ℕ → Block → ℕ
field16 o b = get_u16 (super_offset + o) b

abbrev pub group_number : Block → ℕ
group_number b =
    u32 (
      sub32 (field Super.blocks_count b) (field Super.first_data_block b)
      + field Super.blocks_per_group b
      + 2 ^ 32
      - 1)
    / field Super.blocks_per_group b

abbrev pub block_bytes : Block → ℕ
block_bytes b = 1024 * 2 ^ field Super.log_block_size b

-- A superblock that a mount accepts; the table of descriptors ends below block 2^32.
pub record IsSuper (b : Block) : Type 0 where
  pub magic : field16 Super.magic b ≡ 0xEF53
  pub log : field Super.log_block_size b ≤ 2
  pub per_group : 0 < field Super.blocks_per_group b
  pub inodes : 0 < field Super.inodes_per_group b
  pub some_group : 0 < group_number b
  pub in_range : field Super.first_data_block b + group_number b + 1 < 2 ^ 32

-- What a mount leaves of the blocks `b` that a reader saw before.
pub record IsMountOf (b : ℕ → Block) (s : Fs) : Type 0 where
  pub mounted : IsMounted s
  pub same : blocks s ≡ b
  pub groups : s.group_count ≡ group_number (b 0)
  pub block_size : s.block_size ≡ block_bytes (b 0)
  pub per_group : s.inode_per_group ≡ field Super.inodes_per_group (b 0)
  pub inode_size :
      s.inode_size
      ≡ (if leb 1 (field Super.rev_level (b 0)) then field16 Super.inode_size (b 0) else 128)
  pub table :
      (g : ℕ)
      → g < s.group_count
      → get_elem? s.gb_table g
        ≡ some (
            desc_at
              (gdt_off s.block_size g)
              (b (gdt_blk s.block_size (field Super.first_data_block (b 0)) g)))

-- Only the cache and the slot of the superblock matter to the invariant.
relabelled :
    {s : Fs} (v : IsMounted s) (t : Fs) → t.cache ≡ s.cache → t.sb_buf ≡ s.sb_buf → IsMounted t
relabelled {s} v t e e' = record {
  coherent = rw (e) v.coherent;
  has_room = rw (e) v.has_room;
  sb = v.sb;
  sb_held = rw (e, e') v.sb_held;
  sb_in_use = v.sb_in_use;
}

pub raw_sb16_lem :
    (s : Fs) (v : IsCoherent s.cache) (t : Slot) (h : Holds s.cache 0 s.sb_buf t) (o : ℕ)
    → raw_sb16 o s ≡ ok (field16 o (blocks s 0), s)
unfolding raw_sb16
raw_sb16_lem s v t h o =
    rw (peek-held s.cache s.sb_buf t h.at_i, sym (content-held s.cache 0 v s.sb_buf t h)) refl

-- Byte `k` of descriptor `g` in the blocks of the table.
module _ (first g k : ℕ) (low : k < 32) (small : first + g + 1 < 2 ^ 32) where
  blk_of :
      (log : ℕ)
      → log ≤ 2
      → u32 (first + 1) + (g * desc_size + k) / (1024 * 2 ^ log) ≡ gdt_blk (1024 * 2 ^ log) first g
  blk_of zero h = omega (arith, low, small)
  blk_of (suc zero) h = omega (arith, low, small)
  blk_of (suc (suc zero)) h = omega (arith, low, small)
  blk_of (suc (suc (suc n))) h = absurd (omega arith)

  off_of :
      (log : ℕ) → log ≤ 2 → (g * desc_size + k) % (1024 * 2 ^ log) ≡ gdt_off (1024 * 2 ^ log) g + k
  off_of zero h = omega (arith, low)
  off_of (suc zero) h = omega (arith, low)
  off_of (suc (suc zero)) h = omega (arith, low)
  off_of (suc (suc (suc n))) h = absurd (omega arith)

table_desc :
    (log first groups g : ℕ) (b : ℕ → Block) (t : Block)
    → log ≤ 2
    → first + groups + 1 < 2 ^ 32
    → g < groups
    → ((j : ℕ) → j < groups * desc_size → t j ≡ disk_byte b (1024 * 2 ^ log) (u32 (first + 1)) j)
    → desc_at (g * desc_size) t
      ≡ desc_at (gdt_off (1024 * 2 ^ log) g) (b (gdt_blk (1024 * 2 ^ log) first g))
table_desc log first groups g b t small fits within bytes = desc_at_ext _ _ t _ (λ k low.
    let blk = blk_of first g k low (omega arith) log small in
    let off = off_of first g k low (omega arith) log small in
    bytes (g * desc_size + k) (omega arith) ∙ rw (blk, off) refl)

some_bytes : (log : ℕ) → log ≤ 2 → 0 < 1024 * 2 ^ log
some_bytes zero h = omega arith
some_bytes (suc zero) h = omega arith
some_bytes (suc (suc zero)) h = omega arith
some_bytes (suc (suc (suc n))) h = absurd (omega arith)

read_table_lem :
    {s : Fs} (v : IsMounted s) (log first : ℕ) (small : log ≤ 2)
    → first + s.group_count + 1 < 2 ^ 32
    → (t : Block) × (c : Cache) × (read_table first (1024 * 2 ^ log) s
        ≡ ok (
          tt,
          record (with_cache s c) {
            gb_table = descs_from s.group_count 0 t;
            block_size = 1024 * 2 ^ log;
          },
        ))
      × Loaded
          (s.group_count * desc_size)
          (1024 * 2 ^ log)
          (some_bytes log small)
          s
          (u32 (first + 1))
          0
          (λ _. 0)
          t
          c
unfolding read_table
read_table_lem {s} v log first small fits =
    let (t, c, run, l) =
      load_table_lem (s.group_count * desc_size) (1024 * 2 ^ log) (some_bytes log small)
        (s.group_count * desc_size) (u32 (first + 1)) 0 (λ _. 0) v (omega arith) (omega arith) in
    (t, c, rw (run) refl, l)

zero_add : (g : ℕ) → 0 + g ≡ g
zero_add g = omega arith

from_start :
    (b : ℕ → Block) (n blk j : ℕ)
    → (if ltb j 0 then 0 else disk_byte b n blk (j - 0)) ≡ disk_byte b n blk j
from_start b n blk j =
    let outside : ltb j 0 ≡ false = ground arith in
    let itself : j - 0 ≡ j = omega arith in rw (outside, itself) refl

-- the state when the fields of the superblock have been read
abbrev pub laid_out : Fs → Fs
laid_out s =
    let b = blocks s 0 in
    record s {
      group_count = group_number b;
      inode_per_group = field Super.inodes_per_group b;
      inode_size = if leb 1 (field Super.rev_level b) then field16 Super.inode_size b else 128;
    }

pub read_layout_lem :
    {s : Fs} (v : IsMounted s)
    → IsSuper (blocks s 0)
    → read_layout s
      ≡ ok (some (field Super.first_data_block (blocks s 0), block_bytes (blocks s 0)), laid_out s)
unfolding read_layout
read_layout_lem {s} v valid =
    let b = blocks s 0 in
    let guard : (ltb 2 (field Super.log_block_size b)
          || (field Super.blocks_per_group b == 0)
          || (field Super.inodes_per_group b == 0)
          || (group_number b == 0))
        ≡ false =
      ground (arith, valid.log, valid.per_group, valid.inodes, valid.some_group) in
    rw
      (
        raw_sb_lem v Super.log_block_size,
        raw_sb_lem v Super.blocks_count,
        raw_sb_lem v Super.first_data_block,
        raw_sb_lem v Super.blocks_per_group,
        raw_sb_lem v Super.inodes_per_group,
        raw_sb_lem v Super.rev_level,
        raw_sb16_lem s v.coherent v.sb v.sb_held Super.inode_size,
        guard,
      )
      refl

-- the table that is read then
pub table_lem :
    {s : Fs} (v : IsMounted s)
    → IsSuper (blocks s 0)
    → (s' : Fs) × (read_table
          (field Super.first_data_block (blocks s 0))
          (block_bytes (blocks s 0))
          (laid_out s)
        ≡ ok (tt, s'))
      × IsMountOf (blocks s) s'
table_lem {s} v valid =
    let b = blocks s 0 in
    let first = field Super.first_data_block b in
    let (t, c, run, l) =
      read_table_lem (relabelled v (laid_out s) refl refl) (field Super.log_block_size b) first
        valid.log valid.in_range in
    (
      _,
      run,
      record {
        mounted = relabelled l.mounted _ refl refl;
        same = l.same;
        groups = refl;
        block_size = refl;
        per_group = refl;
        inode_size = refl;
        table = λ g h.
            descs_from-get (group_number b) 0 g t h
            ∙ ap (λ n. some (desc_at (n * desc_size) t)) (zero_add g)
            ∙ ap some (
                table_desc (field Super.log_block_size b) first (group_number b) g (blocks s) t
                  valid.log valid.in_range h
                  (λ j within.
                    l.bytes j within ∙ from_start (blocks s) (block_bytes b) (u32 (first + 1)) j));
      },
    )

-- ===== src/Ext2/Alloc.antt =====
-- fs/ext2/balloc.c and fs/ext2/ialloc.c: the allocators of blocks and of inodes. The two files are
-- the same code over different fields; `Kind` says which.
pub mod Answer
pub mod Count
pub mod Effect
pub mod Search
pub mod Release
pub mod Roundtrip
mod Tests
use cute_core.Base.{
  ℕ, zero, suc, ◌+◌, ◌-◌, ◌*◌, ◌/◌, ◌%◌, Bool, ◌||◌, Option, none, some, ltb, leb, ◌==◌,
  if◌then◌else◌, Cmd, pure, ◌>>=◌, ◌>>◌,
}
use cute_core.BlkCache.{Block}
use cute_core.BlkCache.Access.{with_block}
use cute_core.Ext2.Super
use cute_core.Ext2.Bitmap.{find_clear, set_bit, clear_bit}
use cute_core.Ext2.{
  Fs, BgDesc, on_cache, raw_sb, set_raw_sb, group_desc, store_desc, sync_desc, u32, sub32, dec32,
  inc32, dec16, inc16,
}

pub data Kind : Type 0 where
  block inode : Kind

abbrev pub bitmap_of : Kind → BgDesc → ℕ
bitmap_of block d = d.block_bitmap
bitmap_of inode d = d.inode_bitmap

abbrev pub free_count : Kind → BgDesc → ℕ
free_count block d = d.free_blocks_count
free_count inode d = d.free_inodes_count

abbrev pub map_count : Kind → (ℕ → ℕ) → BgDesc → BgDesc
map_count block f d = record d { free_blocks_count = f d.free_blocks_count }
map_count inode f d = record d { free_inodes_count = f d.free_inodes_count }

abbrev pub super_free : Kind → ℕ
super_free block = Super.free_blocks_count
super_free inode = Super.free_inodes_count

abbrev pub super_total : Kind → ℕ
super_total block = Super.blocks_count
super_total inode = Super.inode_count

-- the number of the first block or inode, and how many there are in a group
unfoldable pub first_of : Kind → Cmd Fs ℕ
first_of block s = raw_sb Super.first_data_block s
first_of inode s = pure 0 s

unfoldable pub per_group : Kind → Cmd Fs ℕ
per_group block s = raw_sb Super.blocks_per_group s
per_group inode s = pure s.inode_per_group s

-- The number that is returned for bit 0 of the first group is above the base: inodes count from 1.
abbrev pub number_offset : Kind → ℕ
number_offset block = 0
number_offset inode = 1

abbrev pub group_base : ℕ → ℕ → ℕ → ℕ
group_base first per g = u32 (first + u32 (g * per))

-- the last group may be shorter than the others
abbrev pub group_limit : ℕ → ℕ → ℕ → ℕ
group_limit base per total = if ltb total (u32 (base + per)) then sub32 total base else per

-- the search of a bitmap, and the bit set in it
unfoldable pub claim : ℕ → Block → Option ℕ × Option (Block → Block)
claim limit b = elim (find_clear b limit) [
  | none ↦ (none, none)
  | some bit ↦ (some bit, some (set_bit bit))
]

-- the counts, after a bit of group `g` was set
unfoldable pub count_taken : Kind → ℕ → BgDesc → Cmd Fs (Unit {0})
count_taken k g d = do
  store_desc g (map_count k dec16 d)
  sync_desc g (map_count k dec16 d)
  set_raw_sb (super_free k) dec32

-- One round of the loop over the groups, for a group whose count is not 0; `rest` is `continue`.
unfoldable pub round : Kind → ℕ → BgDesc → Cmd Fs ℕ → Cmd Fs ℕ
round k g d rest = do
  first ← first_of k
  per ← per_group k
  total ← raw_sb (super_total k)
  found ←
      on_cache (with_block (bitmap_of k d) (claim (group_limit (group_base first per g) per total)))
  elim found [
    | none ↦ rest
    | some bit ↦ (do count_taken k g d; pure (u32 (group_base first per g + bit + number_offset k)))
  ]

-- The loop over the groups from `g` on, with the groups that are left; 0 is a failure.
unfoldable pub alloc_from : Kind → ℕ → ℕ → Cmd Fs ℕ
alloc_from k zero g s = pure 0 s
alloc_from k (suc n) g s =
    let rest = alloc_from k n (g + 1) in
    (do d ← group_desc g; if free_count k d == 0 then rest else round k g d rest) s

unfoldable pub alloc : Kind → Cmd Fs ℕ
alloc k s = alloc_from k s.group_count 0 s

unfoldable pub ext2_alloc_block : Cmd Fs ℕ
ext2_alloc_block = alloc block

unfoldable pub ext2_alloc_inode : Cmd Fs ℕ
ext2_alloc_inode = alloc inode

-- Where a number stands behind the first one; `none` if it stands for nothing.
unfoldable pub relative : Kind → ℕ → Cmd Fs (Option ℕ)
relative block n s =
    (do
      first ← raw_sb Super.first_data_block
      pure (if n == 0 || ltb n first then none else some (n - first)))
      s
relative inode n s = pure (if n == 0 then none else some (n - 1)) s

unfoldable pub count_freed : Kind → ℕ → BgDesc → Cmd Fs (Unit {0})
count_freed k g d = do
  store_desc g (map_count k inc16 d)
  sync_desc g (map_count k inc16 d)
  set_raw_sb (super_free k) inc32

unfoldable pub release_bit : Kind → ℕ → ℕ → Cmd Fs (Unit {0})
release_bit k g bit s =
    if leb s.group_count g
    then pure tt s
    else (do
      d ← group_desc g
      on_cache (with_block (bitmap_of k d) (λ b. (tt, some (clear_bit bit))))
      count_freed k g d)
        s

unfoldable pub free : Kind → ℕ → Cmd Fs (Unit {0})
free k n = do
  r ← relative k n
  elim r [
    | none ↦ pure tt
    | some rel ↦ (do per ← per_group k; release_bit k (rel / per) (rel % per))
  ]

unfoldable pub ext2_free_block : ℕ → Cmd Fs (Unit {0})
ext2_free_block = free block

unfoldable pub ext2_free_inode : ℕ → Cmd Fs (Unit {0})
ext2_free_inode = free inode

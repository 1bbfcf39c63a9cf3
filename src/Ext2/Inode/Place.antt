-- ===== src/Ext2/Inode/Place.antt =====
-- `ext2_inode_loc`: the place of an inode in the tables of inodes.
use cute_core.Base.{
  ℕ, ◌+◌, ◌*◌, ◌/◌, ◌%◌, ◌<◌, ◌≤◌, ◌≡◌, refl, arith, true, false, some, leb, get_elem?, ok, panic,
}
use cute_core.Ext2.{Fs, BgDesc, u32, sub32}
use cute_core.Ext2.Alloc.Search.{group_desc-at}
use cute_core.Ext2.Inode.{ext2_inode_loc}

-- the offset of inode `ino` in the table of its group
abbrev pub table_offset : Fs → ℕ → ℕ
table_offset s ino = u32 (sub32 ino 1 % s.inode_per_group * s.inode_size)

-- The descriptor of the group of inode `ino`, and where the inode lies.
pub record Located (s : Fs) (ino blk off : ℕ) : Type 0 where
  pub desc : BgDesc
  pub in_range : sub32 ino 1 / s.inode_per_group < s.group_count
  pub at_group : get_elem? s.gb_table (sub32 ino 1 / s.inode_per_group) ≡ some desc
  pub is_blk : blk ≡ u32 (desc.inode_table + table_offset s ino / s.block_size)
  pub is_off : off ≡ table_offset s ino % s.block_size

pub ext2_inode_loc-Located :
    (s : Fs) (ino blk off : ℕ) → Located s ino blk off → ext2_inode_loc ino s ≡ ok ((blk, off), s)
unfolding ext2_inode_loc
ext2_inode_loc-Located s ino blk off p =
    let below : leb s.group_count (sub32 ino 1 / s.inode_per_group) ≡ false =
      ground (arith, p.in_range) in
    rw
      (
        below,
        group_desc-at (sub32 ino 1 / s.inode_per_group) s p.desc p.at_group,
        p.is_blk,
        p.is_off,
      )
      refl

-- A number beyond the last group panics.
pub ext2_inode_loc-panic :
    (s : Fs) (ino : ℕ)
    → s.group_count ≤ sub32 ino 1 / s.inode_per_group
    → ext2_inode_loc ino s ≡ panic
unfolding ext2_inode_loc
ext2_inode_loc-panic s ino h =
    let over : leb s.group_count (sub32 ino 1 / s.inode_per_group) ≡ true = ground arith in
    rw over refl

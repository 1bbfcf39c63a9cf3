-- ===== src/Ext2/Super.antt =====
-- include/ext2/ext2_def.h: the offsets of the fields of `struct ext2_super_block`.
use Prim.Native.Nat.{ℕ}

abbrev pub inode_count : ℕ
inode_count = 0

abbrev pub blocks_count : ℕ
blocks_count = 4

abbrev pub free_blocks_count : ℕ
free_blocks_count = 12

abbrev pub free_inodes_count : ℕ
free_inodes_count = 16

abbrev pub first_data_block : ℕ
first_data_block = 20

abbrev pub log_block_size : ℕ
log_block_size = 24

abbrev pub blocks_per_group : ℕ
blocks_per_group = 32

abbrev pub inodes_per_group : ℕ
inodes_per_group = 40

abbrev pub magic : ℕ
magic = 56

abbrev pub rev_level : ℕ
rev_level = 76

abbrev pub inode_size : ℕ
inode_size = 88

-- ===== src/Ext2/Sample.antt =====
-- A file system of one group of eight blocks and eight inodes, for the tests.
use cute_core.Base.{
  ℕ, zero, suc, ◌<◌, ◌≡◌, refl, true, false, some, [], ◌∷◌, arith, ◌==◌, if◌then◌else◌, find_index,
  get_elem?, ◌&&◌,
}
use cute_core.Base.Words.{put_u32, get_u32}
use cute_core.Base.Bytes
use cute_core.BlkCache.{Block, Slot, Cache}
use cute_core.BlkCache.View.{IsCoherent, content}
use cute_core.BlkCache.Room
use cute_core.Ext2.Super
use cute_core.Ext2.Bitmap.{bit_at}
use cute_core.Ext2.{Fs, BgDesc}
use cute_core.Ext2.Mounted.{IsMounted, blocks}
use cute_core.Ext2.Alloc.Count.{super}

abbrev pub super_block : Block
super_block =
    put_u32 1024 8
      (put_u32 1028 8 (put_u32 1036 6 (put_u32 1040 5 (put_u32 1056 8 (put_u32 1064 8 (λ _. 0))))))

-- a directory's block with the one entry "a" of inode 3
abbrev pub dir_block : Block
dir_block i =
    if i == 0 then 3 else if i == 5 then 16 else if i == 6 then 1 else if i == 8 then 97 else 0

-- Block 2 is the map of the blocks, of which two are in use, block 3 that of the inodes, and block 6
-- a directory.
abbrev pub disk : ℕ → Block
disk n i =
    if n == 0
    then super_block i
    else if (n == 2) && (i == 0)
    then 3
    else if (n == 3) && (i == 0)
    then 7
    else if n == 6
    then dir_block i
    else 0

abbrev pub sb_slot : Slot
sb_slot = record { blk_no = 0; valid = true; dirty = false; refcnt = 1; bytes = disk 0 }

abbrev pub empty : Slot
empty = record { blk_no = 0; valid = false; dirty = false; refcnt = 0; bytes = λ _. 0 }

abbrev pub cache : Cache
cache = record { slots = sb_slot ∷ empty ∷ []; disk = disk }

abbrev pub group : BgDesc
group = record {
  block_bitmap = 2;
  inode_bitmap = 3;
  inode_table = 4;
  free_blocks_count = 6;
  free_inodes_count = 5;
  used_dirs_count = 1;
  pad = 0;
  reserved0 = 0;
  reserved1 = 0;
  reserved2 = 0;
}

abbrev pub fs : Fs
fs = record {
  cache = cache;
  sb_buf = 0;
  gb_table = group ∷ [];
  group_count = 1;
  inode_size = 128;
  inode_per_group = 8;
  block_size = 4096;
}

only_sb :
    (i : ℕ) (s : Slot)
    → get_elem? (sb_slot ∷ empty ∷ []) i ≡ some s
    → s.valid ≡ true
    → (i ≡ 0) × (sb_slot ≡ s)
only_sb zero s h vs = (refl, ground arith)
only_sb (suc zero) s h vs = ground arith
only_sb (suc (suc i)) s h vs = ground arith

cache-IsCoherent : IsCoherent cache
cache-IsCoherent = record {
  unique = λ i j s t hi hj vs vt e. ground (arith, (only_sb i s hi vs).0, (only_sb j t hj vt).0);
  clean = λ i s h vs ds. rw (← (only_sb i s h vs).1) refl;
}

pub fs-IsMounted : IsMounted fs
unfolding Room.room
fs-IsMounted = record {
  coherent = cache-IsCoherent;
  has_room = omega arith;
  sb = sb_slot;
  sb_held = record { at_i = refl; valid = refl; same_no = refl };
  sb_in_use = omega arith;
}

-- what the superblock says
pub super_fields :
    (super (blocks fs) Super.first_data_block ≡ 0)
    × (super (blocks fs) Super.blocks_per_group ≡ 8)
    × (super (blocks fs) Super.blocks_count ≡ 8)
    × (super (blocks fs) Super.free_blocks_count ≡ 6)
unfolding content find_index put_u32 get_u32
super_fields = (refl, refl, refl, refl)

pub map_byte : (i : ℕ) → blocks fs 2 i < 256
unfolding content find_index
map_byte i = ground arith

pub map_set : (i : ℕ) → i < 2 → bit_at (blocks fs 2) i ≡ true
unfolding content find_index bit_at Bytes.bit_test
map_set zero h = refl
map_set (suc zero) h = refl
map_set (suc (suc i)) h = absurd (omega arith)

-- ===== src/Ext2/Inode/Tests.antt =====
-- The theorems of inodes at a small file system.
use cute_core.Base.{◌≡◌, refl, arith, true, false, some, ok, ◌==◌, if◌then◌else◌}
use cute_core.BlkCache.{Cache}
use cute_core.BlkCache.View.{content}
use cute_core.Ext2.Sample.{group, fs, fs-IsMounted}
use cute_core.Ext2.Mounted.{IsMounted, with_cache}
use cute_core.Ext2.Inode.{Inode, file, ext2_read_inode, ext2_write_inode}
use cute_core.Ext2.Inode.Place.{Located}
use cute_core.Ext2.Inode.Roundtrip.{FitsDisk, SameMetadata, ext2_read_inode-write_inode}

-- inode 3, of two blocks
abbrev inode3 : Inode
inode3 = record {
  ino = 3;
  type = file;
  mode = 0x81A4;
  uid = 1;
  gid = 2;
  size = 5000;
  nlinks = 1;
  dirty = true;
  valid = true;
  i_block = λ i. if i == 0 then 5 else if i == 1 then 6 else 0;
  i_flags = 0;
}

abbrev blank : Inode
blank = record inode3 { size = 0; valid = false; i_block = λ _. 0 }

inode3-Located : Located fs 3 4 256
inode3-Located = record {
  desc = group;
  in_range = omega arith;
  at_group = refl;
  is_blk = refl;
  is_off = refl;
}

inode3-FitsDisk : FitsDisk inode3
inode3-FitsDisk = record {
  mode = omega arith;
  uid = omega arith;
  gid = omega arith;
  size = omega arith;
  nlinks = omega arith;
  flags = omega arith;
  blocks = λ i h. ground arith;
}

ext2_read_inode-write_inode_example :
    (c c' : Cache) × (kp : Inode) × (ext2_write_inode inode3 fs
      ≡ ok (some (record inode3 { dirty = false }), with_cache fs c))
    × (ext2_read_inode blank (with_cache fs c) ≡ ok (kp, with_cache fs c'))
    × IsMounted (with_cache fs c')
    × SameMetadata kp inode3
    × (kp.valid ≡ true)
    × (content c' ≡ content c)
ext2_read_inode-write_inode_example =
    ext2_read_inode-write_inode fs-IsMounted inode3 4 256 inode3-Located blank refl inode3-FitsDisk
      refl refl

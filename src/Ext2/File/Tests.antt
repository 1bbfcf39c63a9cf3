-- ===== src/Ext2/File/Tests.antt =====
-- The theorems of files at a small file system.
use cute_core.Base.{
  ℕ, Option, zero, suc, ◌+◌, ◌≡◌, refl, arith, true, false, ok, ◌==◌, ltb, if◌then◌else◌,
}
use mathlib.Core.Option
use cute_core.Base.Int.{pos}
use cute_core.Base.Words
use cute_core.Base.Words.{Bytes}
use cute_core.BlkCache.{Cache}
use cute_core.BlkCache.View.{content}
use cute_core.Ext2.Sample.{fs, fs-IsMounted}
use cute_core.Ext2.Mounted.{IsMounted, blocks, with_cache}
use cute_core.Ext2.Inode.{Inode, file}
use cute_core.Ext2.File.{ext2_read_block, ext2_file_read}
use cute_core.Ext2.File.Blocks.{Leads, data_of, Reads, ext2_read_block_lem}
use cute_core.Ext2.File.Loop.{IsMapped, file_byte}
use cute_core.Ext2.File.Reading.{ext2_file_read_lem}

-- a file of 5000 bytes, of which the first block is block 3 and the second a hole
abbrev holed : Inode
holed = record {
  ino = 3;
  type = file;
  mode = 0x81A4;
  uid = 0;
  gid = 0;
  size = 5000;
  nlinks = 1;
  dirty = false;
  valid = true;
  i_block = λ i. if i == 0 then 3 else 0;
  i_flags = 0;
}

abbrev buffer : Bytes
buffer _ = 1

ext2_read_block_lem_example :
    (o : Option ℕ) × Leads (blocks fs) holed 1024 0 o
    × Reads
        (blocks fs)
        (ext2_read_block holed 0 buffer)
        fs
        (Option.map (λ p. Words.put_bytes 0 4096 (data_of (blocks fs) p) buffer) o)
ext2_read_block_lem_example = ext2_read_block_lem (blocks fs) buffer fs-IsMounted refl holed 0

two_blocks : IsMapped (blocks fs) 4096 holed 2
two_blocks zero h = (3, refl)
two_blocks (suc zero) h = (0, refl)
two_blocks (suc (suc lbk)) h = absurd (omega arith)

-- 100 bytes are asked for, of which the file has 10
ext2_file_read_lem_example :
    (c : Cache) × (buf' : Bytes) × (ext2_file_read holed 100 4990 buffer buffer fs
      ≡ ok ((pos 10, 5000, buf'), with_cache fs c))
    × IsMounted (with_cache fs c)
    × (content c ≡ blocks fs)
    × ((i : ℕ) → buf' i ≡ (if ltb i 10 then file_byte (blocks fs) 4096 holed (4990 + i) else 1))
ext2_file_read_lem_example =
    ext2_file_read_lem fs-IsMounted holed 2 100 4990 (omega arith) (omega arith) two_blocks
      (omega arith) (omega arith) (omega arith) buffer buffer

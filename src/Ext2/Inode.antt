-- ===== src/Ext2/Inode.antt =====
-- fs/ext2/inode.c: where an inode lies on the disk, and its way there and back.
-- The private data of the file system (`struct ext2_inode_info`) are fields of the inode here.
pub mod Place
pub mod Roundtrip
mod Tests
use cute_core.Base.{
  ℕ, zero, suc, ◌+◌, ◌*◌, ◌/◌, ◌%◌, bit_and, Bool, true, false, Option, none, some, leb, ◌==◌,
  if◌then◌else◌, Cmd, pure, panic, ◌>>=◌,
}
use cute_core.Base.Words.{get_u16, get_u32, put_u16, put_u32, put_words}
use cute_core.BlkCache.{Block}
use cute_core.BlkCache.Access.{with_block}
use cute_core.Ext2.{Fs, on_cache, group_desc, u32, u16, sub32}

pub data InodeType : Type 0 where
  file dir symlink dev : InodeType

pub record Inode : Type 0 where
  pub ino : ℕ
  pub type : InodeType
  pub mode : ℕ
  pub uid : ℕ
  pub gid : ℕ
  pub size : ℕ
  pub nlinks : ℕ
  pub dirty : Bool
  pub valid : Bool
  pub i_block : ℕ → ℕ
  pub i_flags : ℕ

abbrev pub n_blocks : ℕ
n_blocks = 15

-- The block and the offset in it of inode `ino`.
unfoldable pub ext2_inode_loc : ℕ → Cmd Fs (ℕ × ℕ)
ext2_inode_loc ino s =
    (let ino_idx = sub32 ino 1 in
        let group = ino_idx / s.inode_per_group in
        if leb s.group_count group then (λ _. panic) else (do
          d ← group_desc group
          pure (
            u32 (d.inode_table + u32 (ino_idx % s.inode_per_group * s.inode_size) / s.block_size),
            u32 (ino_idx % s.inode_per_group * s.inode_size) % s.block_size,
          )))
      s

-- `S_ISDIR` and its like
abbrev pub type_of : ℕ → InodeType
type_of mode =
    if bit_and mode 0xF000 == 0x4000
    then dir
    else if bit_and mode 0xF000 == 0x8000
    then file
    else if bit_and mode 0xF000 == 0xA000
    then symlink
    else file

-- the inode, filled from its bytes on the disk
unfoldable pub filled : ℕ → Block → Inode → Inode
filled off b ip = record ip {
  mode = get_u16 off b;
  uid = get_u16 (off + 2) b;
  gid = get_u16 (off + 24) b;
  size = get_u32 (off + 4) b;
  nlinks = get_u16 (off + 26) b;
  type = type_of (get_u16 off b);
  i_block = λ i. get_u32 (off + 40 + 4 * i) b;
  i_flags = get_u32 (off + 32) b;
  valid = true;
}

unfoldable pub read_place : Inode → Cmd Fs Inode
read_place ip = do
  (blk, off) ← ext2_inode_loc ip.ino
  on_cache (with_block blk (λ b. (filled off b ip, none)))

unfoldable pub ext2_read_inode : Inode → Cmd Fs Inode
ext2_read_inode ip = if ip.valid then pure ip else read_place ip

-- how many of the first `n` words are not 0
unfoldable pub used_blocks : ℕ → (ℕ → ℕ) → ℕ
used_blocks zero w = 0
used_blocks (suc n) w = used_blocks n w + (if w n == 0 then 0 else 1)

-- the bytes of a block, with the inode stored at `off`
unfoldable pub stored : ℕ → ℕ → Inode → Block → Block
stored block_size off ip b = put_u32 (off + 32) ip.i_flags (
    put_words n_blocks (off + 40) ip.i_block (
      put_u32 (off + 28) (u32 (used_blocks n_blocks ip.i_block * (block_size / 512))) (
        put_u16 (off + 26) (u16 ip.nlinks) (
          put_u32 (off + 4) ip.size (
            put_u16 (off + 24) (u16 ip.gid)
              (put_u16 (off + 2) (u16 ip.uid) (put_u16 off (u16 ip.mode) b)))))))

-- `none` is the result -1; a write clears `dirty`.
unfoldable pub write_place : Inode → Cmd Fs (Option Inode)
write_place ip s =
    (do
      (blk, off) ← ext2_inode_loc ip.ino
      on_cache (
          with_block blk
            (λ b. (some (record ip { dirty = false }), some (stored s.block_size off ip)))))
      s

unfoldable pub ext2_write_inode : Inode → Cmd Fs (Option Inode)
ext2_write_inode ip = if ip.valid then write_place ip else pure none

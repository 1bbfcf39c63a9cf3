-- ===== src/Ext2/File.antt =====
-- fs/ext2/dir.c: the blocks of a file, and reading a file. `block_buf` and the caller's buffer are
-- bytes by their offset; only the first `block_size` bytes of a block are used.
pub mod Blocks
mod Loop
mod Reading
mod Tests
use cute_core.Base.{
  ℕ, zero, suc, ◌+◌, ◌-◌, ◌*◌, ◌/◌, ◌%◌, ◌^◌, Bool, Option, none, some, ltb, leb, ◌==◌,
  if◌then◌else◌, Cmd, pure, ◌>>=◌,
}
use cute_core.Base.Int.{ℤ, pos, negsuc, as_i32}
use cute_core.Base.Words.{Bytes, get_u32, put_bytes}
use cute_core.BlkCache.Access.{with_block}
use cute_core.Ext2.{Fs, on_cache, u32, sub32}
use cute_core.Ext2.Inode.{Inode}

abbrev pub n_dir_blocks : ℕ
n_dir_blocks = 12

-- the places of the pointers to indirect blocks
abbrev pub ind_block : ℕ
ind_block = 12

abbrev pub dind_block : ℕ
dind_block = 13

abbrev pub max_block_size : ℕ
max_block_size = 4096

-- `memset(buf, 0, fs.block_size)`
abbrev pub cleared : ℕ → Bytes → Bytes
cleared block_size buf = put_bytes 0 block_size (λ _. 0) buf

-- A block of data: block 0 stands for a hole.
unfoldable pub read_data : ℕ → Bytes → Cmd Fs Bytes
read_data blk buf s =
    (if blk == 0
        then pure (cleared s.block_size buf)
        else on_cache (with_block blk (λ b. (put_bytes 0 s.block_size b buf, none))))
      s

-- through one block of pointers
unfoldable pub read_ind : ℕ → ℕ → Bytes → Cmd Fs Bytes
read_ind ind i buf s =
    (if ind == 0 then pure (cleared s.block_size buf) else (do
      blk ← on_cache (with_block ind (λ b. (get_u32 (4 * i) b, none)))
      read_data blk buf))
      s

-- through two
unfoldable pub read_dind : ℕ → ℕ → ℕ → Bytes → Cmd Fs Bytes
read_dind dind i j buf s =
    (if dind == 0 then pure (cleared s.block_size buf) else (do
      ind ← on_cache (with_block dind (λ b. (get_u32 (4 * i) b, none)))
      read_ind ind j buf))
      s

abbrev pub ptrs_per_blk : Fs → ℕ
ptrs_per_blk s = s.block_size / 4

-- Where the logical block `lbk` hangs: the place in `i_block`, and the indices below it.
pub data Path3 : Type 0 where
  direct : ℕ → Path3
  single : ℕ → Path3
  double : ℕ → ℕ → Path3
  beyond : Path3

abbrev pub path_of : ℕ → ℕ → Path3
path_of ptrs lbk =
    if ltb lbk n_dir_blocks
    then direct lbk
    else if ltb (lbk - n_dir_blocks) ptrs
    then single (lbk - n_dir_blocks)
    else if ltb (lbk - n_dir_blocks - ptrs) (u32 (ptrs * ptrs))
    then double ((lbk - n_dir_blocks - ptrs) / ptrs) ((lbk - n_dir_blocks - ptrs) % ptrs)
    else beyond

unfoldable pub read_path : Inode → Path3 → Bytes → Cmd Fs (Option Bytes)
read_path ip (direct i) buf = do b ← read_data (ip.i_block i) buf; pure (some b)
read_path ip (single i) buf = do b ← read_ind (ip.i_block ind_block) i buf; pure (some b)
read_path ip (double i j) buf = do b ← read_dind (ip.i_block dind_block) i j buf; pure (some b)
read_path ip beyond buf = pure none

-- `none` is the result -1, otherwise the new `buf`.
unfoldable pub ext2_read_block : Inode → ℕ → Bytes → Cmd Fs (Option Bytes)
ext2_read_block ip lbk buf s = read_path ip (path_of (ptrs_per_blk s) lbk) buf s

-- `total > 0 ? (i32)total : -1`
abbrev pub partial : ℕ → ℤ
partial total = if total == 0 then negsuc 0 else as_i32 total

abbrev pub chunk_of : ℕ → ℕ → ℕ → ℕ
chunk_of block_size off left =
    if ltb left (block_size - off % block_size) then left else block_size - off % block_size

-- The loop of `ext2_file_read` with the rounds left: what is returned, `*offset`, and `buf`.
unfoldable pub read_loop : ℕ → Inode → ℕ → ℕ → ℕ → Bytes → Bytes → Cmd Fs (ℤ × ℕ × Bytes)
read_loop zero ip len total off block_buf buf s = pure (as_i32 total, off, buf) s
read_loop (suc n) ip len total off block_buf buf s =
    (if ltb total len
        then (do
          r ← ext2_read_block ip (off / s.block_size) block_buf
          elim r [
            | none ↦ pure (partial total, off, buf)
            | some bb ↦
                read_loop n ip len (total + chunk_of s.block_size off (len - total))
                  (u32 (off + chunk_of s.block_size off (len - total))) bb
                  (put_bytes total (chunk_of s.block_size off (len - total))
                    (λ i. bb (off % s.block_size + i)) buf)
          ])
        else pure (as_i32 total, off, buf))
      s

-- how much there is to read
abbrev pub clipped : ℕ → ℕ → ℕ → ℕ
clipped size off len = if ltb size ((off + len) % 2 ^ 64) then sub32 size off else len

-- Every round copies a byte at least, so `len` rounds are enough. `block_buf` is not initialised.
unfoldable pub ext2_file_read : Inode → ℕ → ℕ → Bytes → Bytes → Cmd Fs (ℤ × ℕ × Bytes)
ext2_file_read ip len off block_buf buf s =
    (if ltb max_block_size s.block_size
        then pure (negsuc 0, off, buf)
        else if leb ip.size off
        then pure (pos 0, off, buf)
        else read_loop (clipped ip.size off len) ip (clipped ip.size off len) 0 off block_buf buf)
      s

-- ===== src/Ext2/File/Reading.antt =====
-- `ext2_file_read` returns the bytes of the file.
use cute_core.Base.{
  ℕ, ◌+◌, ◌-◌, ◌*◌, ◌^◌, ◌<◌, ◌≤◌, ◌≡◌, refl, sym, ap, ◌∙◌, true, false, ◌&&◌, arith, ltb, leb,
  if◌then◌else◌, Bool-cases, inl, inr, ok, Outcome,
}
use mathlib.Core.Path.{ap₂}
use cute_core.Base.Int.{ℤ, as_i32}
use cute_core.Base.Words.{Bytes}
use cute_core.BlkCache.{Cache}
use cute_core.BlkCache.View.{content}
use cute_core.Ext2.{Fs}
use cute_core.Ext2.Mounted.{IsMounted, blocks, with_cache}
use cute_core.Ext2.Inode.{Inode}
use cute_core.Ext2.File.{read_loop, clipped, ext2_file_read, max_block_size}
use cute_core.Ext2.File.Loop.{file_byte, IsMapped, read_loop_lem}

-- how many of `len` bytes the file has from `off` on
abbrev pub available : ℕ → ℕ → ℕ → ℕ
available size off len = if ltb len (size - off) then len else size - off

module _ {s : Fs} (v : IsMounted s) (ip : Inode) (limit len off : ℕ) where
  clipped_lem :
      off < ip.size
      → ip.size < 2 ^ 32
      → off + len < 2 ^ 64
      → clipped ip.size off len ≡ available ip.size off len
  clipped_lem lt word word' = ground arith

  -- On a mounted file system whose blocks are at most BLKSZ bytes, `ext2_file_read` on a file whose
  -- blocks are all within the two-fold indirect ones, at an offset that does not overflow, copies the
  -- bytes from the offset on, as many as asked for or as the file has, into the buffer, and zeros
  -- where the file has a hole. It returns their number and advances the offset by it, writes
  -- nothing else into the buffer and changes no block.
  pub ext2_file_read_lem :
      0 < s.block_size
      → s.block_size ≤ max_block_size
      → IsMapped (blocks s) s.block_size ip limit
      → ip.size ≤ limit * s.block_size
      → ip.size < 2 ^ 32
      → off + len < 2 ^ 64
      → (bb buf : Bytes)
      → (c : Cache) × (buf' : Bytes) × (ext2_file_read ip len off bb buf s
          ≡ ok (
            (as_i32 (available ip.size off len), off + available ip.size off len, buf'),
            with_cache s c,
          ))
        × IsMounted (with_cache s c)
        × (content c ≡ blocks s)
        × ((i : ℕ)
            → buf' i ≡ (
                if ltb i (available ip.size off len)
                then file_byte (blocks s) s.block_size ip (off + i)
                else buf i))
  unfolding ext2_file_read
  ext2_file_read_lem pos_size small mapped within word word' bb buf =
      elim (Bool-cases (leb ip.size off)) [
        | inl past ↦
            (let nothing : available ip.size off len ≡ 0 = ground arith in
              (s.cache, buf, at_end past nothing, v, refl, λ i. nothing_read i nothing))
        | inr before ↦
            (let n = available ip.size off len in
              let lt : off < ip.size = ground arith in
              let e = clipped_lem lt word word' in
              let le : n ≤ ip.size - off = ground arith in
              let (c, buf', run, v', same, bytes) =
                read_loop_lem (blocks s) ip limit n n 0 off bb buf v refl pos_size mapped
                  (omega arith) (omega arith) (omega arith) (omega arith) in
              (
                c,
                buf',
                whole before e ∙ run ∙ to_end n c buf',
                v',
                same,
                λ i. bytes i ∙ from_start n i,
              ))
      ]
    where
      fits : ltb max_block_size s.block_size ≡ false
      fits = ground arith

      nothing_read :
          (i : ℕ)
          → available ip.size off len ≡ 0
          → buf i ≡ (
              if ltb i (available ip.size off len)
              then file_byte (blocks s) s.block_size ip (off + i)
              else buf i)
      nothing_read i nothing =
          let outside : ltb i (available ip.size off len) ≡ false = ground arith in rw outside refl

      result : ℕ → ℕ → Bytes → Fs → Outcome ((ℤ × ℕ × Bytes) × Fs)
      result n o b s' = ok ((as_i32 n, o, b), s')

      to_end :
          (n : ℕ) (c : Cache) (b : Bytes)
          → result n (off + (n - 0)) b (with_cache s c) ≡ result n (off + n) b (with_cache s c)
      to_end n c b =
          let same : off + (n - 0) ≡ off + n = omega arith in
          ap (λ o. result n o b (with_cache s c)) same

      from_start :
          (n i : ℕ)
          → (if leb 0 i && ltb i n
              then file_byte (blocks s) s.block_size ip (off + (i - 0))
              else buf i)
            ≡ (if ltb i n then file_byte (blocks s) s.block_size ip (off + i) else buf i)
      from_start n i =
          let same : i - 0 ≡ i = omega arith in
          let starts : leb 0 i ≡ true = ground arith in rw (same, starts) refl

      at_end :
          leb ip.size off ≡ true
          → available ip.size off len ≡ 0
          → ext2_file_read ip len off bb buf s
            ≡ ok ((as_i32 (available ip.size off len), off + available ip.size off len, buf), s)
      at_end past nothing =
          let same : off ≡ off + available ip.size off len = omega arith in
          rw (fits, past) (ap₂ (λ n o. ok ((as_i32 n, o, buf), s)) (sym nothing) same)

      whole :
          leb ip.size off ≡ false
          → clipped ip.size off len ≡ available ip.size off len
          → ext2_file_read ip len off bb buf s
            ≡ read_loop (available ip.size off len) ip (available ip.size off len) 0 off bb buf s
      whole before e = rw (fits, before) (ap (λ n. read_loop n ip n 0 off bb buf s) e)

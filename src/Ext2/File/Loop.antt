-- ===== src/Ext2/File/Loop.antt =====
-- The bytes of a file, and the loop of `ext2_file_read` that copies them.
use cute_core.Base.{
  ℕ, zero, suc, ◌+◌, ◌-◌, ◌*◌, ◌/◌, ◌%◌, ◌^◌, ◌<◌, ◌≤◌, ◌≡◌, refl, ap, subst, ◌∙◌, true, ◌&&◌,
  Option, none, some, arith, ltb, leb, if◌then◌else◌, Bool-cases, inl, inr, ok,
}
use mathlib.Core.Option
use mathlib.Core.Path.{ap₂}
use cute_core.Base.Div.{div_same, mod_same, div-lt, mod_lt}
use cute_core.Base.Int.{as_i32}
use cute_core.Base.Words.{Bytes, put_bytes}
use cute_core.BlkCache.{Block, Cache}
use cute_core.BlkCache.View.{content}
use cute_core.Ext2.{Fs, u32}
use cute_core.Ext2.Mounted.{IsMounted, blocks, with_cache}
use cute_core.Ext2.Inode.{Inode}
use cute_core.Ext2.File.{ext2_read_block, path_of, chunk_of, read_loop}
use cute_core.Ext2.File.Blocks.{block_at, data_of, ext2_read_block-Reads, Reads}

module _ (d : ℕ → Block) (block_size : ℕ) (ip : Inode) where
  abbrev byte_in : Option ℕ → ℕ → ℕ
  byte_in none i = 0
  byte_in (some p) i = data_of d p i

  -- The byte of the file at `o`.
  abbrev pub file_byte : ℕ → ℕ
  file_byte o = byte_in (block_at d ip (path_of (block_size / 4) (o / block_size))) (o % block_size)

  -- The first `limit` logical blocks are within the two-fold indirect ones.
  abbrev pub IsMapped : ℕ → Type 0
  IsMapped limit =
      (lbk : ℕ) → lbk < limit → (p : ℕ) × (block_at d ip (path_of (block_size / 4) lbk) ≡ some p)

  -- the bytes of one block
  file_byte-in_block :
      (off j p : ℕ)
      → block_at d ip (path_of (block_size / 4) (off / block_size)) ≡ some p
      → off % block_size + j < block_size
      → file_byte (off + j) ≡ data_of d p (off % block_size + j)
  file_byte-in_block off j p e fits =
      rw (div_same off block_size j fits, mod_same off block_size j fits, e) refl

module _ (block_size off left : ℕ) (pos_size : 0 < block_size) where
  chunk_fits :
      (chunk_of block_size off left ≤ left)
      × (off % block_size + chunk_of block_size off left ≤ block_size)
  chunk_fits = (ground arith, ground (arith, mod_lt off block_size pos_size))

  chunk_pos : 0 < left → 0 < chunk_of block_size off left
  chunk_pos h = ground (arith, mod_lt off block_size pos_size)

module _ (d : ℕ → Block) (ip : Inode) where
  read_mapped :
      {s : Fs} (v : IsMounted s) (is_d : blocks s ≡ d) (lbk p : ℕ) (bb : Bytes)
      → block_at d ip (path_of (s.block_size / 4) lbk) ≡ some p
      → Reads d (ext2_read_block ip lbk bb) s (some (put_bytes 0 s.block_size (data_of d p) bb))
  read_mapped {s} v is_d lbk p bb e =
      subst
        (λ o.
          Reads d (ext2_read_block ip lbk bb) s
            (Option.map (λ q. put_bytes 0 s.block_size (data_of d q) bb) o))
        e (ext2_read_block-Reads d bb v is_d ip lbk)

  block_bytes :
      (block_size off k p : ℕ) (bb : Bytes)
      → block_at d ip (path_of (block_size / 4) (off / block_size)) ≡ some p
      → off % block_size + k ≤ block_size
      → (j : ℕ) → j < k
      → file_byte d block_size ip (off + j)
        ≡ put_bytes 0 block_size (data_of d p) bb (off % block_size + j)
  unfolding put_bytes
  block_bytes block_size off k p bb at_p fits j lt =
      let o = off % block_size + j in
      let here : (leb 0 o && ltb o (0 + block_size)) ≡ true = ground arith in
      let same : o - 0 ≡ o = omega arith in
      file_byte-in_block d block_size ip off j p at_p (omega arith) ∙ rw (here, same) refl

-- What a round copies are the `k` bytes of the file `f` at `off`; the later rounds add the others.
module _ (f new ub : ℕ → ℕ) (off total len k : ℕ) where
  round_bytes :
      k ≤ len - total
      → ((j : ℕ) → j < k → f (off + j) ≡ new j)
      → (i : ℕ)
      → (if leb (total + k) i && ltb i len
          then f (off + k + (i - (total + k)))
          else put_bytes total k new ub i)
        ≡ (if leb total i && ltb i len then f (off + (i - total)) else ub i)
  unfolding put_bytes
  round_bytes le copied i = elim (Bool-cases (leb (total + k) i)) [
    | inl later ↦
        (let same : off + k + (i - (total + k)) ≡ off + (i - total) = ground arith in
          rw same (ground arith))
    | inr earlier ↦ ground (arith, copied (i - total))
  ]

-- one round of the loop
read_loop_round :
    (ip : Inode) (n len total off : ℕ) (bb new ub : Bytes) (s : Fs) (c : Cache)
    → ltb total len ≡ true
    → ext2_read_block ip (off / s.block_size) bb s ≡ ok (some new, with_cache s c)
    → u32 (off + chunk_of s.block_size off (len - total))
      ≡ off + chunk_of s.block_size off (len - total)
    → read_loop (suc n) ip len total off bb ub s
      ≡ read_loop n ip len
          (total + chunk_of s.block_size off (len - total))
          (off + chunk_of s.block_size off (len - total))
          new
          (put_bytes total
            (chunk_of s.block_size off (len - total))
            (λ j. new (off % s.block_size + j))
            ub)
          (with_cache s c)
unfolding read_loop
read_loop_round ip n len total off bb new ub s c more run off' = rw (more, run, off') refl

module _ (d : ℕ → Block) (ip : Inode) (limit len : ℕ) where
  pub read_loop_lem :
      (n total off : ℕ) (bb ub : Bytes) {s : Fs}
      → IsMounted s
      → blocks s ≡ d
      → 0 < s.block_size
      → IsMapped d s.block_size ip limit
      → total ≤ len
      → len ≤ total + n
      → off + (len - total) ≤ limit * s.block_size
      → off + (len - total) < 2 ^ 32
      → (c : Cache) × (ub' : Bytes) × (read_loop n ip len total off bb ub s
          ≡ ok ((as_i32 len, off + (len - total), ub'), with_cache s c))
        × IsMounted (with_cache s c)
        × (content c ≡ d)
        × ((i : ℕ)
            → ub' i ≡ (
                if leb total i && ltb i len
                then file_byte d s.block_size ip (off + (i - total))
                else ub i))
  unfolding read_loop
  read_loop_lem zero total off bb ub {s} v is_d pos_size mapped le fuel range word =
      let done : total ≡ len = omega arith in
      let same : off ≡ off + (len - total) = omega arith in
      (s.cache, ub, ap₂ (λ t o. ok ((as_i32 t, o, ub), s)) done same, v, is_d, λ i. ground arith)
  read_loop_lem (suc n) total off bb ub {s} v is_d pos_size mapped le fuel range word =
      elim (Bool-cases (ltb total len)) [
        | inl more ↦
            (let k = chunk_of s.block_size off (len - total) in
              let (k_le, k_fits) = chunk_fits s.block_size off (len - total) pos_size in
              let k_pos : 0 < k =
                chunk_pos s.block_size off (len - total) pos_size (ground arith) in
              let (p, at_p) =
                mapped (off / s.block_size) (div-lt off s.block_size limit (omega arith)) in
              let r = read_mapped d ip v is_d (off / s.block_size) p bb at_p in
              let new : Bytes = put_bytes 0 s.block_size (data_of d p) bb in
              let part : Bytes = λ j. new (off % s.block_size + j) in
              let off' : u32 (off + k) ≡ off + k = omega arith in
              let (c, ub', run, v', same, bytes) =
                read_loop_lem n (total + k) (off + k) new (put_bytes total k part ub) r.mounted
                  r.same pos_size mapped (omega arith) (omega arith) (omega arith) (omega arith) in
              let end : off + k + (len - (total + k)) ≡ off + (len - total) = omega arith in
              (
                c,
                ub',
                read_loop_round ip n len total off bb new ub s r.after more r.run off'
                    ∙ run
                    ∙ ap (λ o. ok ((as_i32 len, o, ub'), with_cache s c)) end,
                v',
                same,
                λ i.
                    bytes i
                    ∙ round_bytes (file_byte d s.block_size ip) part ub off total len k k_le
                        (block_bytes d ip s.block_size off k p bb at_p k_fits) i,
              ))
        | inr done ↦
            (let all : total ≡ len = ground arith in
              let same : off ≡ off + (len - total) = omega arith in
              (
                s.cache,
                ub,
                rw done (ap₂ (λ t o. ok ((as_i32 t, o, ub), s)) all same),
                v,
                is_d,
                λ i. ground arith,
              ))
      ]

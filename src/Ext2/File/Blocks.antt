-- ===== src/Ext2/File/Blocks.antt =====
-- `ext2_read_block`: the block that a logical block stands for, and that it is read.
use cute_core.Base.{
  ℕ, ◌+◌, ◌-◌, ◌*◌, ◌/◌, ◌%◌, ◌^◌, ◌<◌, ◌≤◌, ltb, arith, ◌≡◌, refl, ap, ◌∙◌, Option, none, some,
  ◌==◌, if◌then◌else◌, Bool-cases, inl, inr, ok, Cmd, pure, ◌>>=◌,
}
use mathlib.Core.Option
use cute_core.Base.Words.{Bytes, get_u32, put_bytes}
use cute_core.BlkCache.{Block, Cache}
use cute_core.BlkCache.View.{content}
use cute_core.Ext2.{Fs}
use cute_core.Ext2.Mounted.{IsMounted, blocks, with_cache, read_block}
use cute_core.Ext2.Inode.{Inode}
use cute_core.Ext2.File.{
  read_data, read_ind, read_dind, read_path, ext2_read_block, Path3, direct, single, double, beyond,
  path_of, ind_block, dind_block, ptrs_per_blk,
}

-- Pointer `i` of the block of pointers `p`; a hole has none.
abbrev pub follow : (ℕ → Block) → ℕ → ℕ → ℕ
follow d p i = if p == 0 then 0 else get_u32 (4 * i) (d p)

-- The block at the end of a path; 0 is a hole.
abbrev pub block_at : (ℕ → Block) → Inode → Path3 → Option ℕ
block_at d ip (direct i) = some (ip.i_block i)
block_at d ip (single i) = some (follow d (ip.i_block ind_block) i)
block_at d ip (double i j) = some (follow d (follow d (ip.i_block dind_block) i) j)
block_at d ip beyond = none

-- Where the logical block `lbk` of a file is, with `ptrs` pointers in a block: the first 12 blocks
-- are named by the inode; the next `ptrs` by the block of pointers in its place 12; and those behind
-- them, `ptrs` for each pointer of the block in its place 13, by two blocks of pointers. The last
-- number is a word of 32 bits.
pub data Leads (d : ℕ → Block) (ip : Inode) (ptrs lbk : ℕ) (r : Option ℕ) : Type 0 where
  by_inode : lbk < 12 → r ≡ some (ip.i_block lbk) → Leads d ip ptrs lbk r
  by_one :
      (i : ℕ)
      → i < ptrs
      → lbk ≡ 12 + i
      → r ≡ some (follow d (ip.i_block 12) i)
      → Leads d ip ptrs lbk r
  by_two :
      (i j : ℕ)
      → j < ptrs
      → i * ptrs + j < ptrs * ptrs % 2 ^ 32
      → lbk ≡ 12 + ptrs + (i * ptrs + j)
      → r ≡ some (follow d (follow d (ip.i_block 13) i) j)
      → Leads d ip ptrs lbk r
  too_far : 12 + ptrs + ptrs * ptrs % 2 ^ 32 ≤ lbk → r ≡ none → Leads d ip ptrs lbk r

quotient : (n k : ℕ) → 0 < k → (n / k * k + n % k ≡ n) × (n % k < k)
quotient n k h = (grind arith, grind arith)

pub path_of-Leads :
    (d : ℕ → Block) (ip : Inode) (ptrs lbk : ℕ)
    → Leads d ip ptrs lbk (block_at d ip (path_of ptrs lbk))
path_of-Leads d ip ptrs lbk = elim (Bool-cases (ltb lbk 12)) [
  | inl low ↦ by_inode (ground arith) (rw low refl)
  | inr high ↦ elim (Bool-cases (ltb (lbk - 12) ptrs)) [
    | inl one ↦ by_one (lbk - 12) (ground arith) (ground arith) (rw (high, one) refl)
    | inr more ↦ elim (Bool-cases (ltb (lbk - 12 - ptrs) (ptrs * ptrs % 2 ^ 32))) [
      | inl two ↦
          (let n = lbk - 12 - ptrs in
            let within : n < ptrs * ptrs % 2 ^ 32 = ground arith in
            let (whole, low) = quotient n ptrs (grind arith) in
            by_two (n / ptrs) (n % ptrs) low (rw whole within) (rw whole (ground arith))
              (rw (high, more, two) refl))
      | inr past ↦ too_far (ground arith) (rw (high, more, past) refl)
    ]
  ]
]

-- its data, which are 0 in a hole
abbrev pub data_of : (ℕ → Block) → ℕ → Block
data_of d p = if p == 0 then (λ _. 0) else d p

module _ (d : ℕ → Block) where
  -- A run that returns `r` and changes the cache alone, the blocks being `d`.
  pub record Reads {A : Type 0} (m : Cmd Fs A) (s : Fs) (r : A) : Type 0 where
    pub after : Cache
    pub run : m s ≡ ok (r, with_cache s after)
    pub mounted : IsMounted (with_cache s after)
    pub same : content after ≡ d

module _ (d : ℕ → Block) (buf : Bytes) {s : Fs} (v : IsMounted s) (is_d : blocks s ≡ d) where
  read_data_lem : (p : ℕ) → Reads d (read_data p buf) s (put_bytes 0 s.block_size (data_of d p) buf)
  unfolding read_data
  read_data_lem p = elim (Bool-cases (p == 0)) [
    | inl hole ↦ record { after = s.cache; run = rw hole refl; mounted = v; same = is_d }
    | inr there ↦
        (let (c, run, v', same) = read_block v p (λ b. put_bytes 0 s.block_size b buf) in
          record { after = c; run = rw (there, ← is_d) run; mounted = v'; same = same ∙ is_d })
  ]

module _ (d : ℕ → Block) (buf : Bytes) {s : Fs} (v : IsMounted s) (is_d : blocks s ≡ d) where
  read_ind_lem :
      (p i : ℕ)
      → Reads d (read_ind p i buf) s (put_bytes 0 s.block_size (data_of d (follow d p i)) buf)
  unfolding read_ind
  read_ind_lem p i = elim (Bool-cases (p == 0)) [
    | inl hole ↦ record { after = s.cache; run = rw hole refl; mounted = v; same = is_d }
    | inr there ↦
        (let (c, run, v', same) = read_block v p (get_u32 (4 * i)) in
          let r = read_data_lem d buf v' (same ∙ is_d) (get_u32 (4 * i) (d p)) in
          record {
            after = r.after;
            run = rw (there, run, ap (λ (b : ℕ → Block). get_u32 (4 * i) (b p)) is_d) r.run;
            mounted = r.mounted;
            same = r.same;
          })
  ]

module _ (d : ℕ → Block) (buf : Bytes) {s : Fs} (v : IsMounted s) (is_d : blocks s ≡ d) where
  read_dind_lem :
      (p i j : ℕ)
      → Reads d
          (read_dind p i j buf)
          s
          (put_bytes 0 s.block_size (data_of d (follow d (follow d p i) j)) buf)
  unfolding read_dind
  read_dind_lem p i j = elim (Bool-cases (p == 0)) [
    | inl hole ↦ record { after = s.cache; run = rw hole refl; mounted = v; same = is_d }
    | inr there ↦
        (let (c, run, v', same) = read_block v p (get_u32 (4 * i)) in
          let r = read_ind_lem d buf v' (same ∙ is_d) (get_u32 (4 * i) (d p)) j in
          record {
            after = r.after;
            run = rw (there, run, ap (λ (b : ℕ → Block). get_u32 (4 * i) (b p)) is_d) r.run;
            mounted = r.mounted;
            same = r.same;
          })
  ]

module _ (d : ℕ → Block) (buf : Bytes) {s : Fs} (v : IsMounted s) (is_d : blocks s ≡ d) where
  -- the new `buf`
  abbrev block_read : ℕ → Bytes
  block_read p = put_bytes 0 s.block_size (data_of d p) buf

  returned :
      {m : Cmd Fs Bytes} {b : Bytes} → Reads d m s b → Reads d (m >>= λ b. pure (some b)) s (some b)
  returned r = record { after = r.after; run = rw r.run refl; mounted = r.mounted; same = r.same }

  read_path_lem :
      (ip : Inode) (w : Path3)
      → Reads d (read_path ip w buf) s (Option.map block_read (block_at d ip w))
  unfolding read_path
  read_path_lem ip (direct i) = returned (read_data_lem d buf v is_d (ip.i_block i))
  read_path_lem ip (single i) = returned (read_ind_lem d buf v is_d (ip.i_block ind_block) i)
  read_path_lem ip (double i j) = returned (read_dind_lem d buf v is_d (ip.i_block dind_block) i j)
  read_path_lem ip beyond = record { after = s.cache; run = refl; mounted = v; same = is_d }

  pub ext2_read_block-Reads :
      (ip : Inode) (lbk : ℕ)
      → Reads d
          (ext2_read_block ip lbk buf)
          s
          (Option.map block_read (block_at d ip (path_of (ptrs_per_blk s) lbk)))
  unfolding ext2_read_block
  ext2_read_block-Reads ip lbk =
      let r = read_path_lem ip (path_of (ptrs_per_blk s) lbk) in
      record { after = r.after; run = r.run; mounted = r.mounted; same = r.same }

  -- `ext2_read_block` fills the buffer with the block that the logical block stands for: one named by
  -- the inode, through one block of pointers or through two, with zeros for a hole. It fails exactly
  -- beyond these. It never panics and changes no block.
  pub ext2_read_block_lem :
      (ip : Inode) (lbk : ℕ)
      → (o : Option ℕ) × Leads d ip (ptrs_per_blk s) lbk o
        × Reads d (ext2_read_block ip lbk buf) s (Option.map block_read o)
  ext2_read_block_lem ip lbk = (
    block_at d ip (path_of (ptrs_per_blk s) lbk),
    path_of-Leads d ip (ptrs_per_blk s) lbk,
    ext2_read_block-Reads ip lbk,
  )

-- ===== src/Ext2/Mount/Load.antt =====
-- fs/ext2/super.c: what the loop that reads the table of descriptors leaves.
use cute_core.Base.{
  ℕ, zero, suc, ◌+◌, ◌-◌, ◌*◌, ◌/◌, ◌%◌, ◌^◌, ◌<◌, ◌≤◌, ◌≡◌, refl, ap, ◌∙◌, inl, inr, some, arith,
  ltb, if◌then◌else◌, Bool-cases, get_elem?, ok,
}
use cute_core.Base.Words.{get_u16, get_u32, put_bytes}
use cute_core.BlkCache.{Block, Cache}
use cute_core.BlkCache.View.{content}
use cute_core.Ext2.{Fs, desc_size}
use cute_core.Ext2.Mounted.{IsMounted, blocks, with_cache, read_block}
use cute_core.Ext2.Mount.{desc_at, descs_from, least, load_table}

-- The byte `j` of what lies from block `blk` on, the blocks being cut off after `block_size` bytes.
abbrev pub disk_byte : (ℕ → Block) → ℕ → ℕ → ℕ → ℕ
disk_byte b block_size blk j = b (blk + j / block_size) (j % block_size)

module _ (size block_size : ℕ) (some_bytes : 0 < block_size) where
  -- The table after the rounds from `copied` on.
  pub record Loaded (s : Fs) (blk copied : ℕ) (table t : Block) (c : Cache) : Type 0 where
    pub mounted : IsMounted (with_cache s c)
    pub same : content c ≡ blocks s
    pub bytes :
        (j : ℕ)
        → j < size
        → t j ≡ (if ltb j copied then table j else disk_byte (blocks s) block_size blk (j - copied))

  in_block : (b : ℕ → Block) (blk k : ℕ) → k < block_size → disk_byte b block_size blk k ≡ b blk k
  in_block b blk k h =
      let place : blk + k / block_size ≡ blk = grind arith in
      let itself : k % block_size ≡ k = grind arith in rw (place, itself) refl

  next_block :
      (b : ℕ → Block) (blk k : ℕ)
      → disk_byte b block_size (blk + 1) k ≡ disk_byte b block_size blk (block_size + k)
  next_block b blk k =
      let one_more : (block_size + k) / block_size ≡ 1 + k / block_size = grind arith in
      let there : (block_size + k) % block_size ≡ k % block_size = grind arith in
      let place : blk + 1 + k / block_size ≡ blk + (1 + k / block_size) = omega arith in
      rw (one_more, there, place) refl

  -- byte `j` when the rest is read from `next` on, after a round that read a block of `b`
  abbrev after_round : ℕ → Block → Block → (ℕ → Block) → ℕ → ℕ → ℕ
  after_round copied table now b next j =
      let chunk = least (size - copied) block_size in
      if ltb j (copied + chunk)
      then put_bytes copied chunk now table j
      else disk_byte b block_size next (j - (copied + chunk))

  round_bytes :
      (b : ℕ → Block) (blk copied j : ℕ) (table : Block)
      → j < size
      → copied < size
      → after_round copied table (b blk) b (blk + 1) j
        ≡ (if ltb j copied then table j else disk_byte b block_size blk (j - copied))
  unfolding put_bytes
  round_bytes b blk copied j table within more = elim (Bool-cases (ltb j copied)) [
    | inl before ↦ ground arith
    | inr after ↦ elim (Bool-cases (ltb j (copied + least (size - copied) block_size))) [
      | inl here ↦ ground (arith, in_block b blk (j - copied) (ground arith))
      | inr past ↦
          (let full : least (size - copied) block_size ≡ block_size = ground arith in
            let k = j - (copied + least (size - copied) block_size) in
            let place : block_size + k ≡ j - copied = ground arith in
            rw (past, after) (next_block b blk k ∙ ap (disk_byte b block_size blk) place))
    ]
  ]

  pub load_table_lem :
      (fuel blk copied : ℕ) (table : Block) {s : Fs}
      → IsMounted s
      → size ≤ copied + fuel
      → blk + fuel < 2 ^ 64
      → (t : Block) × (c : Cache) × (load_table fuel blk copied size block_size table s
          ≡ ok (t, with_cache s c))
        × Loaded s blk copied table t c
  unfolding load_table
  load_table_lem zero blk copied table {s} v enough fits = (
    table,
    s.cache,
    ground arith,
    record { mounted = v; same = refl; bytes = λ j h. ground arith },
  )
  load_table_lem (suc fuel) blk copied table {s} v enough fits =
      elim (Bool-cases (ltb copied size)) [
        | inr e ↦ (
          table,
          s.cache,
          rw (e) refl,
          record { mounted = v; same = refl; bytes = λ j h. ground arith },
        )
        | inl e ↦
            (let chunk = least (size - copied) block_size in
              let (c1, run, v1, same1) = read_block v blk (λ b. b) in
              let blk' = (blk + 1) % 2 ^ 64 in
              let next : blk' ≡ blk + 1 = omega arith in
              let (t, c, rest, l) =
                load_table_lem fuel blk' (copied + chunk)
                  (put_bytes copied chunk (blocks s blk) table) v1 (ground arith) (omega arith) in
              (
                t,
                c,
                rw (e, run) rest,
                record {
                  mounted = l.mounted;
                  same = l.same ∙ same1;
                  bytes = λ j h.
                      l.bytes j h
                      ∙ ap (λ d. after_round copied table (blocks s blk) d blk' j) same1
                      ∙ ap (λ n. after_round copied table (blocks s blk) (blocks s) n j) next
                      ∙ round_bytes (blocks s) blk copied j table h (ground arith);
                },
              ))
      ]

-- A descriptor depends on its 32 bytes alone.
module _ (o o' : ℕ) (b b' : Block) (same : (k : ℕ) → k < 32 → b (o + k) ≡ b' (o' + k)) where
  byte : (k i i' : ℕ) → k < 32 → i ≡ o + k → i' ≡ o' + k → b i ≡ b' i'
  byte k i i' h e e' = rw (e, e') (same k h)

  word : (k p p' : ℕ) → k + 3 < 32 → p ≡ o + k → p' ≡ o' + k → get_u32 p b ≡ get_u32 p' b'
  unfolding get_u32
  word k p p' h e e' =
      rw
        (
          byte k p p' (omega arith) e e',
          byte (k + 1) (p + 1) (p' + 1) (omega arith) (omega arith) (omega arith),
          byte (k + 2) (p + 2) (p' + 2) (omega arith) (omega arith) (omega arith),
          byte (k + 3) (p + 3) (p' + 3) (omega arith) (omega arith) (omega arith),
        )
        refl

  half : (k p p' : ℕ) → k + 1 < 32 → p ≡ o + k → p' ≡ o' + k → get_u16 p b ≡ get_u16 p' b'
  unfolding get_u16
  half k p p' h e e' =
      rw
        (
          byte k p p' (omega arith) e e',
          byte (k + 1) (p + 1) (p' + 1) (omega arith) (omega arith) (omega arith),
        )
        refl

  pub desc_at_ext : desc_at o b ≡ desc_at o' b'
  unfolding desc_at
  desc_at_ext =
      rw
        (
          word 0 o o' (omega arith) (omega arith) (omega arith),
          word 4 (o + 4) (o' + 4) (omega arith) refl refl,
          word 8 (o + 8) (o' + 8) (omega arith) refl refl,
          half 12 (o + 12) (o' + 12) (omega arith) refl refl,
          half 14 (o + 14) (o' + 14) (omega arith) refl refl,
          half 16 (o + 16) (o' + 16) (omega arith) refl refl,
          half 18 (o + 18) (o' + 18) (omega arith) refl refl,
          word 20 (o + 20) (o' + 20) (omega arith) refl refl,
          word 24 (o + 24) (o' + 24) (omega arith) refl refl,
          word 28 (o + 28) (o' + 28) (omega arith) refl refl,
        )
        refl

pub descs_from-get :
    (n g k : ℕ) (t : Block)
    → k < n
    → get_elem? (descs_from n g t) k ≡ some (desc_at ((g + k) * desc_size) t)
unfolding descs_from
descs_from-get zero g k t h = absurd (omega arith)
descs_from-get (suc n) g zero t h = let e : g + 0 ≡ g = omega arith in rw (e) refl
descs_from-get (suc n) g (suc k) t h =
    let e : suc g + k ≡ g + suc k = omega arith in
    rw (← e) (descs_from-get n (suc g) k t (omega arith))

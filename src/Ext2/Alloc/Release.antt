-- ===== src/Ext2/Alloc/Release.antt =====
-- `ext2_free_block` and `ext2_free_inode`.
use cute_core.Base.{
  ℕ, ◌-◌, ◌/◌, ◌%◌, ◌<◌, ◌≤◌, ◌≡◌, ◌≢◌, ◌⊎◌, refl, ap, ◌∙◌, inl, inr, true, false, ◌||◌, Option,
  none, some, arith, ltb, leb, ◌==◌, if◌then◌else◌, Bool-cases, get_elem?, set, ok,
}
use cute_core.BlkCache.{Block, Cache}
use cute_core.BlkCache.View.{content}
use cute_core.Ext2.Bitmap.{clear_bit}
use cute_core.Ext2.Super
use cute_core.Ext2.{Fs, BgDesc, inc16, inc32}
use cute_core.Ext2.Mounted.{IsMounted, blocks, write_at, use_block, raw_sb_lem}
use cute_core.Ext2.Alloc.{
  Kind, block, inode, bitmap_of, map_count, super_free, relative, release_bit, free,
}
use cute_core.Ext2.Alloc.Count.{super, per_val, counted, per_group_lem, count_freed_lem}
use cute_core.Ext2.Alloc.Search.{group_desc-at}

-- the number of the first unit that counts: 0 stands for none
abbrev pub lowest : Kind → (ℕ → Block) → ℕ
lowest block b = super b Super.first_data_block
lowest inode b = 1

abbrev pub relative_val : Kind → (ℕ → Block) → ℕ → Option ℕ
relative_val k b n = if n == 0 || ltb n (lowest k b) then none else some (n - lowest k b)

module _ {s : Fs} (v : IsMounted s) where
  relative_lem : (k : Kind) (n : ℕ) → relative k n s ≡ ok (relative_val k (blocks s) n, s)
  unfolding relative
  relative_lem block n = rw (raw_sb_lem v) refl
  relative_lem inode n = ground arith

  module _ (k : Kind) where
    abbrev pub freed_blocks : ℕ → BgDesc → ℕ → ℕ → Block
    freed_blocks g d bit =
        counted s g (map_count k inc16 d) (super_free k) inc32
          (write_at (blocks s) (bitmap_of k d) (clear_bit bit (blocks s (bitmap_of k d))))

    abbrev pub freed_fs : ℕ → BgDesc → Cache → Fs
    freed_fs g d c = record s { cache = c; gb_table = set s.gb_table g (map_count k inc16 d) }

    release_lem :
        (g bit : ℕ) (d : BgDesc)
        → g < s.group_count
        → get_elem? s.gb_table g ≡ some d
        → (c : Cache) × (release_bit k g bit s ≡ ok (tt, freed_fs g d c))
          × IsMounted (freed_fs g d c)
          × (content c ≡ freed_blocks g d bit)
    unfolding release_bit
    release_lem g bit d in_range at_g =
        let (c₁, run, v₁, eq) = use_block v (bitmap_of k d) (λ b. (tt, some (clear_bit bit))) in
        let (c₂, run', v₂, eq') = count_freed_lem v₁ k g d in
        let below : leb s.group_count g ≡ false = ground arith in
        (
          c₂,
          rw (below, group_desc-at g s d at_g, run, run') refl,
          v₂,
          eq' ∙ ap (counted s g (map_count k inc16 d) (super_free k) inc32) eq,
        )

    -- `ext2_free_block` and `ext2_free_inode` ignore 0, a number below the first, and one whose group
    -- is not there: the mounted file system is left as it was.
    pub free_ignored :
        (n : ℕ)
        → (n ≡ 0)
          ⊎ (n < lowest k (blocks s))
          ⊎ (s.group_count ≤ (n - lowest k (blocks s)) / per_val k s.inode_per_group (blocks s))
        → free k n s ≡ ok (tt, s)
    unfolding free release_bit
    free_ignored n why = elim (Bool-cases (n == 0 || ltb n (lowest k (blocks s)))) [
      | inl nothing ↦ rw (relative_lem k n, nothing) refl
      | inr there ↦
          (let over : leb s.group_count
                  ((n - lowest k (blocks s)) / per_val k s.inode_per_group (blocks s))
                ≡ true =
              ground arith in
            rw (relative_lem k n, there, per_group_lem v k, over) refl)
    ]

    -- On a mounted file system `ext2_free_block` and `ext2_free_inode` of a number that stands for
    -- bit `bit` of a group that is in the table return; that bit is then cleared in the blocks, the
    -- counts of the group and of the superblock are raised by one, and no other block is changed.
    pub free_lem :
        (n g bit : ℕ) (d : BgDesc)
        → n ≢ 0
        → lowest k (blocks s) ≤ n
        → (n - lowest k (blocks s)) / per_val k s.inode_per_group (blocks s) ≡ g
        → (n - lowest k (blocks s)) % per_val k s.inode_per_group (blocks s) ≡ bit
        → g < s.group_count
        → get_elem? s.gb_table g ≡ some d
        → (c : Cache) × (free k n s ≡ ok (tt, freed_fs g d c))
          × IsMounted (freed_fs g d c)
          × (content c ≡ freed_blocks g d bit)
    unfolding free
    free_lem n g bit d ne le is_g is_bit in_range at_g =
        let there : (n == 0 || ltb n (lowest k (blocks s))) ≡ false = ground arith in
        let (c, run, v', eq) = release_lem g bit d in_range at_g in
        (c, rw (relative_lem k n, there, per_group_lem v k, is_g, is_bit) run, v', eq)

-- ===== src/Ext2/Alloc/Answer.antt =====
-- What `ext2_alloc_block` and `ext2_alloc_inode` may answer, and the state that they leave.
use cute_core.Base.{ℕ, ◌+◌, ◌<◌, ◌≤◌, ◌≡◌, ◌≢◌, ◌⊎◌, true, false, some, get_elem?, set, Outcome, ok}
use cute_core.BlkCache.{Block, Cache}
use cute_core.BlkCache.View.{content}
use cute_core.Ext2.Bitmap.{bit_at, set_bit}
use cute_core.Ext2.{Fs, BgDesc, u32, dec16, dec32}
use cute_core.Ext2.Mounted.{IsMounted, write_at, with_cache}
use cute_core.Ext2.Alloc.{
  Kind, bitmap_of, free_count, map_count, super_free, super_total, number_offset, group_base,
  group_limit,
}
use cute_core.Ext2.Alloc.Count.{super, first_val, per_val, counted}

module _ (k : Kind) (s : Fs) (b : ℕ → Block) where
  abbrev pub base_val : ℕ → ℕ
  base_val g = group_base (first_val k b) (per_val k s.inode_per_group b) g

  -- how many bits of the map of group `g` count
  abbrev pub limit_val : ℕ → ℕ
  limit_val g = group_limit (base_val g) (per_val k s.inode_per_group b) (super b (super_total k))

  -- Group `g` has nothing free: its count says so, or every bit of its map is set.
  abbrev pub Exhausted : ℕ → Type 0
  Exhausted g =
      (d : BgDesc)
      → get_elem? s.gb_table g ≡ some d
      → (free_count k d ≡ 0) ⊎ ((i : ℕ) → i < limit_val g → bit_at (b (bitmap_of k d)) i ≡ true)

  -- Bit `bit` of group `g`, whose descriptor is `d`, is the first that is free.
  pub record Chosen (g : ℕ) (d : BgDesc) (bit : ℕ) : Type 0 where
    pub at_g : get_elem? s.gb_table g ≡ some d
    pub has_free : free_count k d ≢ 0
    pub below : bit < limit_val g
    pub clear : bit_at (b (bitmap_of k d)) bit ≡ false
    pub first : (i : ℕ) → i < bit → bit_at (b (bitmap_of k d)) i ≡ true

  -- The blocks after that bit is taken.
  abbrev pub taken_blocks : ℕ → BgDesc → ℕ → ℕ → Block
  taken_blocks g d bit =
      counted s g (map_count k dec16 d) (super_free k) dec32
        (write_at b (bitmap_of k d) (set_bit bit (b (bitmap_of k d))))

  abbrev pub taken_fs : ℕ → BgDesc → Cache → Fs
  taken_fs g d c = record s { cache = c; gb_table = set s.gb_table g (map_count k dec16 d) }

  -- How a search of the groups from `lo` to `hi` ends: with 0 and all blocks as they were, or with
  -- the number of the first free bit, and exactly that bit taken.
  pub data Search (lo hi : ℕ) (run : Outcome (ℕ × Fs)) : Type 0 where
    full :
        (c : Cache)
        → run ≡ ok (0, with_cache s c)
        → IsMounted (with_cache s c)
        → content c ≡ b
        → ((g : ℕ) → lo ≤ g → g < hi → Exhausted g)
        → Search lo hi run
    found :
        (g : ℕ) (d : BgDesc) (bit : ℕ) (c : Cache)
        → lo ≤ g
        → g < hi
        → run ≡ ok (u32 (base_val g + bit + number_offset k), taken_fs g d c)
        → IsMounted (taken_fs g d c)
        → Chosen g d bit
        → content c ≡ taken_blocks g d bit
        → ((e : ℕ) → lo ≤ e → e < g → Exhausted e)
        → Search lo hi run

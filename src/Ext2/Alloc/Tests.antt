-- ===== src/Ext2/Alloc/Tests.antt =====
-- The theorems of the allocators at a small file system.
use cute_core.Base.{
  ℕ, zero, suc, ◌/◌, ◌<◌, ◌≡◌, ◌≢◌, refl, subst, ◌⊎◌, true, false, some, [], ◌∷◌, arith, ◌==◌,
  if◌then◌else◌, get_elem?, ok,
}
use cute_core.Base.Bytes
use cute_core.Ext2.Bitmap
use cute_core.BlkCache.{Block, Cache}
use cute_core.BlkCache.View.{content}
use cute_core.Ext2.Super
use cute_core.Ext2.Bitmap.{bit_at, set_bit, clear_bit, find_clear}
use cute_core.Ext2.{Fs, BgDesc}
use cute_core.Ext2.Mounted.{IsMounted, blocks, with_cache}
use cute_core.Ext2.Sample.{group, fs, fs-IsMounted, super_fields, map_byte, map_set}
use cute_core.Ext2.Alloc.{block, inode, bitmap_of, alloc, free}
use cute_core.Ext2.Alloc.Count.{super}
use cute_core.Ext2.Alloc.Answer.{Search, Chosen, limit_val}
use cute_core.Ext2.Alloc.Release.{free_lem, freed_fs, freed_blocks}
use cute_core.Ext2.Alloc.Effect.{IsApart}
use cute_core.Ext2.Alloc.Roundtrip.{Fits, alloc-free}

-- Inode 3 stands for bit 2 of the group, which is in use.
abbrev FreeResult : Type 0
FreeResult =
    (c : Cache) × (free inode 3 fs ≡ ok (tt, freed_fs fs-IsMounted inode 0 group c))
    × IsMounted (freed_fs fs-IsMounted inode 0 group c)
    × (content c ≡ freed_blocks fs-IsMounted inode 0 group 2)

free_lem_example : FreeResult
free_lem_example =
    free_lem fs-IsMounted inode 3 0 2 group (ground arith) (omega arith) refl refl (omega arith)
      refl

fs-IsApart : IsApart fs (blocks fs) 0 2
fs-IsApart = record {
  not_super = omega arith;
  not_table = omega (arith, super_fields);
  table_not_super = omega (arith, super_fields);
}

abbrev full_then_free : Block
full_then_free i = if i == 0 then 255 else 5

finds : find_clear full_then_free 20 ≡ some 9
unfolding find_clear Bitmap.scan_bytes Bitmap.scan_bits Bytes.bit_test
finds = refl

one_group : (g : ℕ) (d : BgDesc) → get_elem? (group ∷ []) g ≡ some d → (g ≡ 0) × (group ≡ d)
one_group zero d h = (refl, ground arith)
one_group (suc g) d h = ground arith

fs-Fits :
    (g : ℕ) (d : BgDesc) (bit : ℕ) → Chosen block fs (blocks fs) g d bit → Fits block fs g d bit
fs-Fits zero d bit ch =
    let is_group : group ≡ d = (one_group 0 d ch.at_g).1 in
    let in_eight : bit < 8 = subst (λ n. bit < n) limit_eight ch.below in
    rw (← is_group) (record {
      in_table = omega arith;
      in_group = omega (arith, super_fields);
      in_word = omega (arith, super_fields);
      not_zero = omega (arith, not_first);
      count_fits = omega arith;
      total_fits = omega (arith, super_fields);
      apart = fs-IsApart;
      is_byte = map_byte (bit / 8);
    })
  where
    limit_eight : limit_val block fs (blocks fs) 0 ≡ 8
    limit_eight = rw (super_fields.0, super_fields.1, super_fields.2) refl

    first_set : bit_at (blocks fs (bitmap_of block d)) 0 ≡ true
    first_set = rw (← (one_group 0 d ch.at_g).1) (map_set 0 (omega arith))

    not_first : 0 < bit
    not_first = positive bit ch.clear
      where
        positive : (i : ℕ) → bit_at (blocks fs (bitmap_of block d)) i ≡ false → 0 < i
        positive zero clear = ground (arith, first_set)
        positive (suc i) clear = omega arith
fs-Fits (suc g) d bit ch = absurd (omega (arith, (one_group (suc g) d ch.at_g).0))

abbrev AllocFreeResult : Type 0
AllocFreeResult =
    ((c : Cache) × (alloc block fs ≡ ok (0, with_cache fs c)))
    ⊎ ((n : ℕ) × (s' : Fs) × (c' : Cache) × (g : ℕ) × (d : BgDesc) × (n ≢ 0)
        × (alloc block fs ≡ ok (n, s'))
        × (free block n s' ≡ ok (tt, with_cache fs c'))
        × (get_elem? (group ∷ []) g ≡ some d)
        × ((i : ℕ) → bit_at (content c' d.block_bitmap) i ≡ bit_at (blocks fs d.block_bitmap) i)
        × (super (content c') Super.free_blocks_count ≡ super (blocks fs) Super.free_blocks_count))

alloc-free_example : AllocFreeResult
alloc-free_example = alloc-free block fs-IsMounted (omega arith) fs-Fits

-- ===== src/Ext2/Alloc/Roundtrip.antt =====
-- A number that was allocated, given back.
use cute_core.Base.{
  ℕ, ◌+◌, ◌-◌, ◌*◌, ◌/◌, ◌%◌, ◌^◌, ◌<◌, ◌≤◌, ◌≡◌, ◌≢◌, refl, sym, ap, subst, ◌∙◌, false, ◌||◌, inl,
  inr, some, arith, ◌==◌, get_elem?, set, set-set, set_same, get_elem?-set_self, ok, List, ◌⊎◌,
  length,
}
use mathlib.Core.Path.{ap₂}
use cute_core.BlkCache.{Block, Cache}
use cute_core.BlkCache.View.{content}
use cute_core.Ext2.Bitmap.{bit_at, clear_bit}
use cute_core.Ext2.Bitmap.Bits.{bit_at-clear_bit, set_bit-lt}
use cute_core.Ext2.Super
use cute_core.Ext2.{Fs, BgDesc, gdt_blk, u32, dec16, dec32, inc16, inc32}
use cute_core.Ext2.Mounted.{IsMounted, blocks, with_cache, write_at}
use cute_core.Ext2.Alloc.{
  Kind, block, inode, bitmap_of, free_count, map_count, super_free, number_offset, free, alloc,
}
use cute_core.Ext2.Alloc.Count.{super, per_val, counted}
use cute_core.Ext2.Alloc.Answer.{Chosen, full, found, base_val, taken_blocks, taken_fs}
use cute_core.Ext2.Alloc.Search.{alloc-Search}
use cute_core.Ext2.Alloc.Release.{lowest, freed_blocks, freed_fs, free_lem}
use cute_core.Ext2.Alloc.Effect.{
  IsApart, Separate, gdt_of, after-bitmap, super-after, super-after_ne, group_of, bit_of,
  number_lem, taken_effect,
}

-- What the number of a bit has to satisfy for the words of the source to hold it.
pub record Fits (k : Kind) (s : Fs) (g : ℕ) (d : BgDesc) (bit : ℕ) : Type 0 where
  pub in_table : g < s.group_count
  pub in_group : bit < per_val k s.inode_per_group (blocks s)
  pub in_word : lowest k (blocks s) + g * per_val k s.inode_per_group (blocks s) + bit < 2 ^ 32
  pub not_zero : 0 < lowest k (blocks s) + g * per_val k s.inode_per_group (blocks s) + bit
  pub count_fits : free_count k d < 2 ^ 16
  pub total_fits : super (blocks s) (super_free k) < 2 ^ 32
  pub apart : IsApart s (blocks s) g (bitmap_of k d)
  pub is_byte : blocks s (bitmap_of k d) (bit / 8) < 256

Separate-free : (k : Kind) (other : ℕ) → 20 ≤ other → Separate (super_free k) other
Separate-free block other h = omega arith
Separate-free inode other h = omega arith

free-map_count : (k : Kind) (f : ℕ → ℕ) (d : BgDesc) → bitmap_of k (map_count k f d) ≡ bitmap_of k d
free-map_count block f d = refl
free-map_count inode f d = refl

inc-dec-count :
    (k : Kind) (d : BgDesc)
    → free_count k d ≢ 0
    → free_count k d < 2 ^ 16
    → map_count k inc16 (map_count k dec16 d) ≡ d
inc-dec-count block d ne h = ap (λ x. record d { free_blocks_count = x }) (omega arith)
inc-dec-count inode d ne h = ap (λ x. record d { free_inodes_count = x }) (omega arith)

module _ (k : Kind) {s : Fs} (g : ℕ) (d : BgDesc) (bit : ℕ) (c : Cache)
    (eq : content c ≡ taken_blocks k s (blocks s) g d bit) (fits : Fits k s g d bit) where
  -- the fields that say where groups lie are not touched
  super_same : (other : ℕ) → 20 ≤ other → super (content c) other ≡ super (blocks s) other
  super_same other sep =
      ap (λ b. super b other) eq
      ∙ super-after_ne s (blocks s) g (bitmap_of k d) _ fits.apart (map_count k dec16 d)
          (super_free k) dec32 other (Separate-free k other sep)

  lowest_same : (j : Kind) → lowest j (content c) ≡ lowest j (blocks s)
  lowest_same block = super_same Super.first_data_block (omega arith)
  lowest_same inode = refl

  per_same :
      (j : Kind) → per_val j s.inode_per_group (content c) ≡ per_val j s.inode_per_group (blocks s)
  per_same block = super_same Super.blocks_per_group (omega arith)
  per_same inode = refl

  IsApart-same : IsApart s (content c) g (bitmap_of k d)
  IsApart-same =
      let same : gdt_of s (content c) g ≡ gdt_of s (blocks s) g =
        ap (λ x. gdt_blk s.block_size x g) (super_same Super.first_data_block (omega arith)) in
      record {
        not_super = fits.apart.not_super;
        not_table = λ e. fits.apart.not_table (e ∙ same);
        table_not_super = λ e. fits.apart.table_not_super (sym same ∙ e);
      }

  rest_is :
      (n : ℕ)
      → n ≡ lowest k (blocks s) + (g * per_val k s.inode_per_group (blocks s) + bit)
      → n - lowest k (content c) ≡ g * per_val k s.inode_per_group (blocks s) + bit
  rest_is n e = omega (arith, lowest_same k)

  free_taken :
      (v : IsMounted (taken_fs k s (blocks s) g d c))
      → Chosen k s (blocks s) g d bit
      → (c' : Cache) × (free k
            (u32 (base_val k s (blocks s) g + bit + number_offset k))
            (taken_fs k s (blocks s) g d c)
          ≡ ok (tt, freed_fs v k g (map_count k dec16 d) c'))
        × IsMounted (freed_fs v k g (map_count k dec16 d) c')
        × (content c' ≡ freed_blocks v k g (map_count k dec16 d) bit)
  free_taken v ch =
      let n = u32 (base_val k s (blocks s) g + bit + number_offset k) in
      let e = number_lem k s (blocks s) g bit fits.in_word in
      free_lem v k n g bit (map_count k dec16 d) (omega (arith, fits.not_zero))
        (omega (arith, lowest_same k))
        (ap₂ ◌/◌ (rest_is n e) (per_same k) ∙ group_of g _ bit fits.in_group)
        (ap₂ ◌%◌ (rest_is n e) (per_same k) ∙ bit_of g _ bit fits.in_group) fits.in_table
        (get_elem?-set_self s.gb_table g (map_count k dec16 d) ch.at_g)

  table_back :
      Chosen k s (blocks s) g d bit
      → set (set s.gb_table g (map_count k dec16 d)) g (map_count k inc16 (map_count k dec16 d))
        ≡ s.gb_table
  table_back ch =
      set-set s.gb_table g (map_count k dec16 d) (map_count k inc16 (map_count k dec16 d))
      ∙ ap (set s.gb_table g) (inc-dec-count k d ch.has_free fits.count_fits)
      ∙ set_same s.gb_table g d ch.at_g

  -- the bitmap after both, and the count of the superblock
  bits_back :
      (e : ℕ)
      → e ≡ bitmap_of k d
      → bit_at (blocks s (bitmap_of k d)) bit ≡ false
      → (d' : BgDesc)
      → let b' =
          counted s g d'
            (super_free k)
            inc32
            (write_at (content c) e (clear_bit bit (content c e))) in
        ((i : ℕ) → bit_at (b' (bitmap_of k d)) i ≡ bit_at (blocks s (bitmap_of k d)) i)
        × (super b' (super_free k) ≡ super (blocks s) (super_free k))
  bits_back e same clear d' = rw same (bits, total)
    where
      bm : ℕ
      bm = bitmap_of k d

      effect :
          ((i : ℕ)
            → bit_at (taken_blocks k s (blocks s) g d bit bm) i
              ≡ ((bit == i) || bit_at (blocks s bm) i))
          × (super (taken_blocks k s (blocks s) g d bit) (super_free k)
              ≡ dec32 (super (blocks s) (super_free k)))
      effect = taken_effect k s (blocks s) g d bit fits.apart fits.is_byte

      new_byte : content c bm (bit / 8) < 256
      new_byte =
          subst (λ (y : Block). y (bit / 8) < 256)
            (sym (
              ap (λ (b : ℕ → Block). b bm) eq
              ∙ after-bitmap s (blocks s) g bm _ fits.apart (map_count k dec16 d) (super_free k)
                  dec32))
            (set_bit-lt bit (blocks s bm) fits.is_byte (bit / 8) fits.is_byte)

      bits :
          (i : ℕ)
          → bit_at
              (counted s g d'
                (super_free k)
                inc32
                (write_at (content c) bm (clear_bit bit (content c bm)))
                bm)
              i
            ≡ bit_at (blocks s bm) i
      bits i =
          ap (λ (y : Block). bit_at y i)
            (after-bitmap s (content c) g bm _ IsApart-same d' (super_free k) inc32)
          ∙ bit_at-clear_bit bit (content c bm) new_byte i
          ∙ ground (arith, ap (λ (b : ℕ → Block). bit_at (b bm) i) eq, effect.0 i)

      total :
          super
            (counted s g d'
              (super_free k)
              inc32
              (write_at (content c) bm (clear_bit bit (content c bm))))
            (super_free k)
          ≡ super (blocks s) (super_free k)
      total =
          super-after s (content c) g bm _ IsApart-same d' (super_free k) inc32 (omega arith)
          ∙ omega
              (arith, fits.total_fits, ap (λ (b : ℕ → Block). super b (super_free k)) eq, effect.1)

  free_back :
      (v : IsMounted (taken_fs k s (blocks s) g d c))
      → Chosen k s (blocks s) g d bit
      → (c' : Cache) × (free k
            (u32 (base_val k s (blocks s) g + bit + number_offset k))
            (taken_fs k s (blocks s) g d c)
          ≡ ok (tt, with_cache s c'))
        × ((i : ℕ) → bit_at (content c' (bitmap_of k d)) i ≡ bit_at (blocks s (bitmap_of k d)) i)
        × (super (content c') (super_free k) ≡ super (blocks s) (super_free k))
  free_back v ch =
      let (c', run, _, left) = free_taken v ch in
      let (bits, total) =
        bits_back _ (free-map_count k dec16 d) ch.clear (map_count k inc16 (map_count k dec16 d)) in
      (
        c',
        run
            ∙ ap (λ (t : List BgDesc). ok (tt, record s { cache = c'; gb_table = t }))
                (table_back ch),
        (λ i. ap (λ (b : ℕ → Block). bit_at (b (bitmap_of k d)) i) left ∙ bits i),
        ap (λ (b : ℕ → Block). super b (super_free k)) left ∙ total,
      )

module _ (k : Kind) {s : Fs} (v : IsMounted s) (table : s.group_count ≤ length s.gb_table)
    (all_fit : (g : ℕ) (d : BgDesc) (bit : ℕ)
      → Chosen k s (blocks s) g d bit
      → Fits k s g d bit) where
  -- On a mounted file system with all groups in its table, for which every bit that an allocation may
  -- choose has a number that fits: it is not 0 and, like the counts, within its word, and the bitmap,
  -- the superblock and the group's part of the descriptor table are different blocks. Then an
  -- allocation finds nothing free and returns 0, or
  -- it returns a number other than 0 that can be given back: then every bit of the bitmap of the
  -- group at hand, the count of the superblock and the table of groups are as before both.
  pub alloc-free :
      ((c : Cache) × (alloc k s ≡ ok (0, with_cache s c)))
      ⊎ ((n : ℕ) × (s' : Fs) × (c' : Cache) × (g : ℕ) × (d : BgDesc) × (n ≢ 0)
          × (alloc k s ≡ ok (n, s'))
          × (free k n s' ≡ ok (tt, with_cache s c'))
          × (get_elem? s.gb_table g ≡ some d)
          × ((i : ℕ) → bit_at (content c' (bitmap_of k d)) i ≡ bit_at (blocks s (bitmap_of k d)) i)
          × (super (content c') (super_free k) ≡ super (blocks s) (super_free k)))
  alloc-free = elim (alloc-Search k v table) [
    | full c run v' same rest ↦ inl (c, run)
    | found g d bit c lo up run v' ch eq rest ↦
        (let fits = all_fit g d bit ch in
          let (c', back, bits, total) = free_back k g d bit c eq fits v' ch in
          inr (
            _,
            _,
            c',
            g,
            d,
            (λ e.
                absurd
                  (omega (arith, number_lem k s (blocks s) g bit fits.in_word, fits.not_zero))),
            run,
            back,
            ch.at_g,
            bits,
            total,
          ))
  ]

-- ===== src/Ext2/Alloc/Effect.antt =====
-- What a taken or freed bit does to its bitmap, to the superblock and to the descriptor on disk;
-- and that a freed number is free again.
use cute_core.Base.{
  ℕ, ◌+◌, ◌*◌, ◌/◌, ◌%◌, ◌^◌, ◌<◌, ◌≤◌, ◌≡◌, ◌≢◌, ◌⊎◌, sym, ap, ◌∙◌, ◌||◌, arith, ◌==◌,
}
use cute_core.Base.Words.{put_u32, get_u32, get_u32-put_u32, get_u32-put_u32_ne}
use cute_core.BlkCache.{Block}
use cute_core.Ext2.Bitmap.{bit_at}
use cute_core.Ext2.Bitmap.Bits.{bit_at-set_bit}
use cute_core.Ext2.Super
use cute_core.Ext2.{Fs, BgDesc, super_offset, gdt_blk, u32, dec16, dec32}
use cute_core.Ext2.Mounted.{write_at}
use cute_core.Ext2.Alloc.{Kind, block, inode, bitmap_of, map_count, super_free, number_offset}
use cute_core.Ext2.Alloc.Count.{super, per_val, counted, recount}
use cute_core.Ext2.Alloc.Answer.{base_val, taken_blocks}
use cute_core.Ext2.Alloc.Release.{lowest}

-- The block of the descriptor table that holds descriptor `g`.
abbrev pub gdt_of : Fs → (ℕ → Block) → ℕ → ℕ
gdt_of s b g = gdt_blk s.block_size (super b Super.first_data_block) g

-- The superblock, the bitmap at hand and the block of the descriptor table are different blocks.
pub record IsApart (s : Fs) (b : ℕ → Block) (g bitmap : ℕ) : Type 0 where
  pub not_super : bitmap ≢ 0
  pub not_table : bitmap ≢ gdt_of s b g
  pub table_not_super : gdt_of s b g ≢ 0

elsewhere : (b : ℕ → Block) (blk m : ℕ) (x : Block) → blk ≢ m → write_at b blk x m ≡ b m
elsewhere b blk m x ne = ground arith

module _ (field : ℕ) (f : ℕ → ℕ) (w : ℕ → Block) (blk : ℕ) (x : Block) where
  recount-super :
      blk ≢ 0
      → recount field f (write_at w blk x) 0
        ≡ put_u32 (super_offset + field) (f (super w field)) (w 0)
  recount-super ne =
      ap (λ (y : Block). put_u32 (super_offset + field) (f (get_u32 (super_offset + field) y)) y)
        (elsewhere w blk 0 x ne)

  recount-other : (m : ℕ) → m ≢ 0 → m ≢ blk → recount field f (write_at w blk x) m ≡ w m
  recount-other m ne ne' = ground arith

-- Two fields of the superblock do not overlap.
abbrev pub Separate : ℕ → ℕ → Type 0
Separate field other = (field + 4 ≤ other) ⊎ (other + 4 ≤ field)

module _ (s : Fs) (b : ℕ → Block) (g bitmap : ℕ) (new : Block) (apart : IsApart s b g bitmap)
    (d : BgDesc) (field : ℕ) (f : ℕ → ℕ) where
  abbrev pub after : ℕ → Block
  after = counted s g d field f (write_at b bitmap new)

  super-kept : write_at b bitmap new 0 ≡ b 0
  super-kept = elsewhere b bitmap 0 new apart.not_super

  same_gdt : gdt_of s (write_at b bitmap new) g ≡ gdt_of s b g
  same_gdt =
      ap (λ (y : Block). gdt_blk s.block_size (get_u32 (super_offset + Super.first_data_block) y) g)
        super-kept

  after-super : after 0 ≡ put_u32 (super_offset + field) (f (super b field)) (b 0)
  after-super =
      recount-super field f (write_at b bitmap new) (gdt_of s (write_at b bitmap new) g) _
        (λ e. apart.table_not_super (sym same_gdt ∙ e))
      ∙ ap (λ (y : Block). put_u32 (super_offset + field) (f (get_u32 (super_offset + field) y)) y)
          super-kept

  -- The bitmap's block holds what was written to it.
  pub after-bitmap : after bitmap ≡ new
  after-bitmap =
      recount-other field f (write_at b bitmap new) (gdt_of s (write_at b bitmap new) g) _ bitmap
        apart.not_super (λ e. apart.not_table (e ∙ same_gdt))
      ∙ ground arith

  pub super-after : f (super b field) < 2 ^ 32 → super after field ≡ f (super b field)
  super-after h =
      ap (get_u32 (super_offset + field)) after-super
      ∙ get_u32-put_u32 (super_offset + field) (f (super b field)) (b 0) h

  pub super-after_ne : (other : ℕ) → Separate field other → super after other ≡ super b other
  super-after_ne other sep =
      ap (get_u32 (super_offset + other)) after-super
      ∙ get_u32-put_u32_ne (super_offset + other) (super_offset + field) (f (super b field)) (b 0)
          (ground arith)

module _ (k : Kind) (s : Fs) (b : ℕ → Block) (g : ℕ) (d : BgDesc) (bit : ℕ)
    (apart : IsApart s b g (bitmap_of k d)) (is_byte : b (bitmap_of k d) (bit / 8) < 256) where
  -- If the superblock, the bitmap and the block of the descriptor are different blocks, an
  -- allocation sets the bit that it takes and no other bit of the bitmap, and the count of the
  -- superblock is lowered by one.
  pub taken_effect :
      ((i : ℕ)
        → bit_at (taken_blocks k s b g d bit (bitmap_of k d)) i
          ≡ ((bit == i) || bit_at (b (bitmap_of k d)) i))
      × (super (taken_blocks k s b g d bit) (super_free k) ≡ dec32 (super b (super_free k)))
  taken_effect = (
    (λ i.
        ap (λ (y : Block). bit_at y i)
          (after-bitmap s b g (bitmap_of k d) _ apart (map_count k dec16 d) (super_free k) dec32)
        ∙ bit_at-set_bit bit (b (bitmap_of k d)) is_byte i),
    super-after s b g (bitmap_of k d) _ apart (map_count k dec16 d) (super_free k) dec32
        (omega arith),
  )

module _ (g per bit : ℕ) (in_group : bit < per) where
  pub group_of : (g * per + bit) / per ≡ g
  group_of = grind arith

  pub bit_of : (g * per + bit) % per ≡ bit
  bit_of = grind arith

-- The number of bit `bit` of group `g`, where it fits a word.
pub number_lem :
    (k : Kind) (s : Fs) (b : ℕ → Block) (g bit : ℕ)
    → lowest k b + g * per_val k s.inode_per_group b + bit < 2 ^ 32
    → u32 (base_val k s b g + bit + number_offset k)
      ≡ lowest k b + (g * per_val k s.inode_per_group b + bit)
number_lem block s b g bit h = omega arith
number_lem inode s b g bit h = omega arith

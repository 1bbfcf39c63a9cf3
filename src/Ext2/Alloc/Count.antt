-- ===== src/Ext2/Alloc/Count.antt =====
-- What the allocators read of the superblock, and what `count_taken` and `count_freed` write.
use cute_core.Base.{ℕ, ◌+◌, ◌≡◌, refl, ap, ◌∙◌, ok, some, set, Cmd, ◌>>◌}
use cute_core.Base.Words.{get_u32, put_u32, put_bytes}
use cute_core.BlkCache.{Block, Cache}
use cute_core.BlkCache.View.{content}
use cute_core.Ext2.Super
use cute_core.Ext2.{
  Fs, BgDesc, set_raw_sb, store_desc, sync_desc, super_offset, gdt_blk, gdt_off, desc_size,
  desc_bytes, dec16, dec32, inc16, inc32,
}
use cute_core.Ext2.Mounted.{
  IsMounted, blocks, write_at, with_cache, use_block, raw_sb_lem, set_raw_sb_lem,
}
use cute_core.Ext2.Alloc.{
  Kind, block, inode, first_of, per_group, map_count, super_free, count_taken, count_freed,
}

-- a field of the superblock as it reads
abbrev pub super : (ℕ → Block) → ℕ → ℕ
super b field = get_u32 (super_offset + field) (b 0)

-- The first number and the size of a group, in the blocks `b`, with `inodes` of them in a group.
abbrev pub first_val : Kind → (ℕ → Block) → ℕ
first_val block b = super b Super.first_data_block
first_val inode b = 0

abbrev pub per_val : Kind → ℕ → (ℕ → Block) → ℕ
per_val block inodes b = super b Super.blocks_per_group
per_val inode inodes b = inodes

module _ {s : Fs} (v : IsMounted s) where
  pub first_of_lem : (k : Kind) → first_of k s ≡ ok (first_val k (blocks s), s)
  unfolding first_of
  first_of_lem block = raw_sb_lem v Super.first_data_block
  first_of_lem inode = refl

  pub per_group_lem : (k : Kind) → per_group k s ≡ ok (per_val k s.inode_per_group (blocks s), s)
  unfolding per_group
  per_group_lem block = raw_sb_lem v Super.blocks_per_group
  per_group_lem inode = refl

-- A count of the superblock changed by `f`.
abbrev pub recount : ℕ → (ℕ → ℕ) → (ℕ → Block) → ℕ → Block
recount field f b = write_at b 0 (put_u32 (super_offset + field) (f (super b field)) (b 0))

-- The blocks after descriptor `g` became `d` in the table on disk, and a count of the superblock
-- was changed by `f`.
abbrev pub counted : Fs → ℕ → BgDesc → ℕ → (ℕ → ℕ) → (ℕ → Block) → ℕ → Block
counted s g d field f b =
    let at_gdt = gdt_blk s.block_size (super b Super.first_data_block) g in
    recount field f
      (write_at b at_gdt (put_bytes (gdt_off s.block_size g) desc_size (desc_bytes d) (b at_gdt)))

module _ {s : Fs} (v : IsMounted s) where
  sync_lem :
      (g : ℕ) (d : BgDesc)
      → (c' : Cache) × (sync_desc g d s ≡ ok (tt, with_cache s c'))
        × IsMounted (with_cache s c')
        × (content c'
            ≡ write_at
                (blocks s)
                (gdt_blk s.block_size (super (blocks s) Super.first_data_block) g)
                (put_bytes
                  (gdt_off s.block_size g)
                  desc_size
                  (desc_bytes d)
                  (blocks s (gdt_blk s.block_size (super (blocks s) Super.first_data_block) g))))
  unfolding sync_desc
  sync_lem g d =
      let (c', run, v', eq) =
        use_block v (gdt_blk s.block_size (super (blocks s) Super.first_data_block) g)
          (λ b. (tt, some (put_bytes (gdt_off s.block_size g) desc_size (desc_bytes d)))) in
      (c', rw (raw_sb_lem v, run) refl, v', eq)

update_counts : ℕ → BgDesc → ℕ → (ℕ → ℕ) → Cmd Fs (Unit {0})
update_counts g d field f = do store_desc g d; sync_desc g d; set_raw_sb field f

update_counts_lem :
    {s : Fs} (v : IsMounted s) (g : ℕ) (d : BgDesc) (field : ℕ) (f : ℕ → ℕ)
    → (c' : Cache) × (update_counts g d field f s
        ≡ ok (tt, record s { cache = c'; gb_table = set s.gb_table g d }))
      × IsMounted (record s { cache = c'; gb_table = set s.gb_table g d })
      × (content c' ≡ counted s g d field f (blocks s))
unfolding update_counts store_desc
update_counts_lem {s} v g d field f =
    let s₁ : Fs = record s { gb_table = set s.gb_table g d } in
    let v₁ : IsMounted s₁ = record {
      coherent = v.coherent;
      has_room = v.has_room;
      sb = v.sb;
      sb_held = v.sb_held;
      sb_in_use = v.sb_in_use;
    } in
    let (c₂, run, v₂, eq) = sync_lem v₁ g d in
    let (c₃, run', v₃, eq') = set_raw_sb_lem v₂ field f in
    (c₃, rw (run, run') refl, v₃, eq' ∙ ap (recount field f) eq)

module _ {s : Fs} (v : IsMounted s) (k : Kind) (g : ℕ) (d : BgDesc) where
  pub count_taken_lem :
      (c' : Cache) × (count_taken k g d s
        ≡ ok (tt, record s { cache = c'; gb_table = set s.gb_table g (map_count k dec16 d) }))
      × IsMounted (record s { cache = c'; gb_table = set s.gb_table g (map_count k dec16 d) })
      × (content c' ≡ counted s g (map_count k dec16 d) (super_free k) dec32 (blocks s))
  unfolding count_taken update_counts
  count_taken_lem = update_counts_lem v g (map_count k dec16 d) (super_free k) dec32

  pub count_freed_lem :
      (c' : Cache) × (count_freed k g d s
        ≡ ok (tt, record s { cache = c'; gb_table = set s.gb_table g (map_count k inc16 d) }))
      × IsMounted (record s { cache = c'; gb_table = set s.gb_table g (map_count k inc16 d) })
      × (content c' ≡ counted s g (map_count k inc16 d) (super_free k) inc32 (blocks s))
  unfolding count_freed update_counts
  count_freed_lem = update_counts_lem v g (map_count k inc16 d) (super_free k) inc32

-- ===== src/Ext2/Inode/Roundtrip.antt =====
-- An inode that is written and read back.
use cute_core.Base.{
  ℕ, ◌+◌, ◌*◌, ◌^◌, ◌<◌, ◌≡◌, refl, ◌∙◌, arith, true, false, inl, ◌≤◌, ◌⊎◌, sym, ap, subst, ok,
  some, none,
}
use cute_core.Base.Words.{
  get_u16, get_u32, put_u16, put_u32, put_words_ne, put_u32_ne, put_u16_ne, get_u32-put_words,
  get_u32-put_u32, get_u32-put_u32_ne,
}
use cute_core.BlkCache.{Block, Cache}
use cute_core.BlkCache.View.{content}
use cute_core.Ext2.Mounted.{IsMounted, blocks, write_at, write_at_same, with_cache, use_block}
use cute_core.Ext2.Inode.Place.{Located, ext2_inode_loc-Located}
use cute_core.Ext2.{Fs, u16}
use cute_core.Ext2.Inode.{
  Inode, ext2_inode_loc, stored, filled, n_blocks, ext2_write_inode, write_place, ext2_read_inode,
  read_place,
}

-- The fields fit the words that hold them on the disk.
pub record FitsDisk (ip : Inode) : Type 0 where
  pub mode : ip.mode < 2 ^ 16
  pub uid : ip.uid < 2 ^ 16
  pub gid : ip.gid < 2 ^ 16
  pub size : ip.size < 2 ^ 32
  pub nlinks : ip.nlinks < 2 ^ 16
  pub flags : ip.i_flags < 2 ^ 32
  pub blocks : (i : ℕ) → i < n_blocks → ip.i_block i < 2 ^ 32

module _ (block_size off : ℕ) (ip : Inode) (b : Block) where
  -- what is stored before the count of the blocks
  unfoldable header : Block
  header = put_u16 (off + 26) (u16 ip.nlinks) (
      put_u32 (off + 4) ip.size (
        put_u16 (off + 24) (u16 ip.gid)
          (put_u16 (off + 2) (u16 ip.uid) (put_u16 off (u16 ip.mode) b))))

  in_header : (i : ℕ) → i < off + 28 → stored block_size off ip b i ≡ header i
  unfolding stored header
  in_header i h =
      put_u32_ne (off + 32) ip.i_flags _ i (inl (omega arith))
      ∙ put_words_ne n_blocks (off + 40) ip.i_block _ i (inl (omega arith))
      ∙ put_u32_ne (off + 28) _ _ i (inl h)

  -- Every field of the inode is read back from where it was stored.
  module _ (fits : FitsDisk ip) where
    mode_lem : get_u16 off (stored block_size off ip b) ≡ ip.mode
    unfolding get_u16 header put_u16 put_u32
    mode_lem = ground (arith, fits.mode, in_header off, in_header (off + 1))

    uid_lem : get_u16 (off + 2) (stored block_size off ip b) ≡ ip.uid
    unfolding get_u16 header put_u16 put_u32
    uid_lem = ground (arith, fits.uid, in_header (off + 2), in_header (off + 2 + 1))

    gid_lem : get_u16 (off + 24) (stored block_size off ip b) ≡ ip.gid
    unfolding get_u16 header put_u16 put_u32
    gid_lem = ground (arith, fits.gid, in_header (off + 24), in_header (off + 24 + 1))

    nlinks_lem : get_u16 (off + 26) (stored block_size off ip b) ≡ ip.nlinks
    unfolding get_u16 header put_u16 put_u32
    nlinks_lem = ground (arith, fits.nlinks, in_header (off + 26), in_header (off + 26 + 1))

    size_lem : get_u32 (off + 4) (stored block_size off ip b) ≡ ip.size
    unfolding get_u32 header put_u16 put_u32
    size_lem = ground (
      arith,
      fits.size,
      in_header (off + 4),
      in_header (off + 4 + 1),
      in_header (off + 4 + 2),
      in_header (off + 4 + 3),
    )

    flags_lem : get_u32 (off + 32) (stored block_size off ip b) ≡ ip.i_flags
    unfolding stored
    flags_lem = get_u32-put_u32 (off + 32) ip.i_flags _ fits.flags

    block_lem :
        (i : ℕ)
        → i < n_blocks
        → get_u32 (off + 40 + 4 * i) (stored block_size off ip b) ≡ ip.i_block i
    unfolding stored
    block_lem i h =
        get_u32-put_u32_ne (off + 40 + 4 * i) (off + 32) ip.i_flags _ (omega arith)
        ∙ get_u32-put_words n_blocks (off + 40) ip.i_block _ i h (fits.blocks i h)

-- The bytes outside the inode's are as they were.
stored_elsewhere :
    (block_size off : ℕ) (ip : Inode) (b : Block) (i : ℕ)
    → (i < off) ⊎ (off + 100 ≤ i)
    → stored block_size off ip b i ≡ b i
unfolding stored
stored_elsewhere block_size off ip b i h =
    put_u32_ne (off + 32) _ _ i (omega arith)
    ∙ put_words_ne n_blocks (off + 40) _ _ i (omega arith)
    ∙ put_u32_ne (off + 28) _ _ i (omega arith)
    ∙ put_u16_ne (off + 26) _ _ i (omega arith)
    ∙ put_u32_ne (off + 4) _ _ i (omega arith)
    ∙ put_u16_ne (off + 24) _ _ i (omega arith)
    ∙ put_u16_ne (off + 2) _ _ i (omega arith)
    ∙ put_u16_ne off _ _ i (omega arith)

-- Two inodes that have the same metadata, the pointers to their blocks among them.
pub record SameMetadata (ip jp : Inode) : Type 0 where
  pub mode : ip.mode ≡ jp.mode
  pub uid : ip.uid ≡ jp.uid
  pub gid : ip.gid ≡ jp.gid
  pub size : ip.size ≡ jp.size
  pub nlinks : ip.nlinks ≡ jp.nlinks
  pub flags : ip.i_flags ≡ jp.i_flags
  pub blocks : (i : ℕ) → i < n_blocks → ip.i_block i ≡ jp.i_block i

filled-stored :
    (block_size off : ℕ) (ip jp : Inode) (b : Block)
    → FitsDisk ip
    → SameMetadata (filled off (stored block_size off ip b) jp) ip
unfolding filled
filled-stored block_size off ip jp b fits = record {
  mode = mode_lem block_size off ip b fits;
  uid = uid_lem block_size off ip b fits;
  gid = gid_lem block_size off ip b fits;
  size = size_lem block_size off ip b fits;
  nlinks = nlinks_lem block_size off ip b fits;
  flags = flags_lem block_size off ip b fits;
  blocks = block_lem block_size off ip b fits;
}

module _ {s : Fs} (v : IsMounted s) (ip : Inode) (blk off : ℕ) (p : Located s ip.ino blk off) where
  -- A valid inode is written to its place: block `blk` holds it then, with every byte outside the
  -- inode's as before, no other block is changed, and the inode that is left is not dirty.
  pub ext2_write_inode_lem :
      ip.valid ≡ true
      → (c : Cache) × (new : Block) × (ext2_write_inode ip s
          ≡ ok (some (record ip { dirty = false }), with_cache s c))
        × IsMounted (with_cache s c)
        × (content c ≡ write_at (blocks s) blk new)
        × (new ≡ stored s.block_size off ip (blocks s blk))
        × ((i : ℕ) → (i < off) ⊎ (off + 100 ≤ i) → new i ≡ blocks s blk i)
  unfolding ext2_write_inode write_place
  ext2_write_inode_lem valid =
      let step : ext2_write_inode ip s ≡ write_place ip s = ground arith in
      let (c, run, v', eq) =
        use_block v blk
          (λ b. (some (record ip { dirty = false }), some (stored s.block_size off ip))) in
      (
        c,
        _,
        step ∙ rw (ext2_inode_loc-Located s ip.ino blk off p) run,
        v',
        eq,
        refl,
        stored_elsewhere s.block_size off ip (blocks s blk),
      )

  -- An inode that was written and whose fields fit the disk is read back with the same metadata,
  -- whatever else the inode that it is read into held; reading changes no block.
  pub ext2_read_inode-write_inode :
      (jp : Inode)
      → ip.valid ≡ true
      → FitsDisk ip
      → jp.ino ≡ ip.ino
      → jp.valid ≡ false
      → (c c' : Cache) × (kp : Inode) × (ext2_write_inode ip s
          ≡ ok (some (record ip { dirty = false }), with_cache s c))
        × (ext2_read_inode jp (with_cache s c) ≡ ok (kp, with_cache s c'))
        × IsMounted (with_cache s c')
        × SameMetadata kp ip
        × (kp.valid ≡ true)
        × (content c' ≡ content c)
  unfolding ext2_read_inode read_place filled
  ext2_read_inode-write_inode jp valid fits same fresh =
      let (c, new, run, v', eq, is_new, _) = ext2_write_inode_lem valid in
      let (c', run', v'', eq') = use_block v' blk (λ b. (filled off b jp, none)) in
      let at_blk : content c blk ≡ stored s.block_size off ip (blocks s blk) =
        ap (λ (d : ℕ → Block). d blk) eq ∙ ground arith ∙ is_new in
      (
        c,
        c',
        filled off (content c blk) jp,
        run,
        read_step jp c fresh ∙ rw (at_place jp c same) run',
        v'',
        subst (λ (b : Block). SameMetadata (filled off b jp) ip) (sym at_blk)
            (filled-stored s.block_size off ip jp (blocks s blk) fits),
        refl,
        eq' ∙ write_at_same (content c) blk,
      )
    where
      read_step :
          (jp : Inode) (c : Cache)
          → jp.valid ≡ false
          → ext2_read_inode jp (with_cache s c) ≡ read_place jp (with_cache s c)
      read_step jp c fresh = ground arith

      moved : (c : Cache) → Located (with_cache s c) ip.ino blk off
      moved c = record {
        desc = p.desc;
        in_range = p.in_range;
        at_group = p.at_group;
        is_blk = p.is_blk;
        is_off = p.is_off;
      }

      at_place :
          (jp : Inode) (c : Cache)
          → jp.ino ≡ ip.ino
          → ext2_inode_loc jp.ino (with_cache s c) ≡ ok ((blk, off), with_cache s c)
      at_place jp c same =
          ap (λ n. ext2_inode_loc n (with_cache s c)) same
          ∙ ext2_inode_loc-Located (with_cache s c) ip.ino blk off (moved c)

-- ===== src/Ext2/Mounted.antt =====
-- The invariant of a mounted file system, and its primitive operations on blocks and on the
-- superblock as operations on the blocks that a reader sees.
use cute_core.Base.{
  ℕ, ◌+◌, ◌<◌, ◌≡◌, refl, sym, ap, ◌∙◌, fun_ext, inl, inr, true, Option, none, some, arith, ◌==◌,
  if◌then◌else◌, Bool-cases, get_elem?, get_elem?-set_ne, set, ok,
}
use cute_core.Base.Words.{put_u32, get_u32}
use cute_core.BlkCache.{Block, Slot, Cache, bwrite, poke}
use cute_core.BlkCache.View.{IsCoherent, Holds, content, content-held}
use cute_core.BlkCache.InPlace.{poke-bwrite}
use cute_core.BlkCache.Room.{room, room-set}
use cute_core.BlkCache.Access.{peek-held, with_block, with_block_lem, Used, apply_to}
use cute_core.Ext2.{Fs, on_cache, super_offset, raw_sb, set_raw_sb}

-- The cache is coherent, has a free slot, and holds the superblock's block with a reference.
pub record IsMounted (s : Fs) : Type 0 where
  pub coherent : IsCoherent s.cache
  pub has_room : 0 < room s.cache.slots
  pub sb : Slot
  pub sb_held : Holds s.cache 0 s.sb_buf sb
  pub sb_in_use : 0 < sb.refcnt

-- The blocks of the disk as a reader of the cache sees them.
abbrev pub blocks : Fs → ℕ → Block
blocks s = content s.cache

abbrev pub write_at : (ℕ → Block) → ℕ → Block → ℕ → Block
write_at d blk b m = if blk == m then b else d m

-- reading a block and putting it back changes nothing
pub write_at_same : (b : ℕ → Block) (blk : ℕ) → write_at b blk (b blk) ≡ b
write_at_same b blk = fun_ext (λ m. ground arith)

abbrev pub with_cache : Fs → Cache → Fs
with_cache s c = record s { cache = c }

module _ {s : Fs} (v : IsMounted s) where
  -- The cache has changed in one slot, whose references are as before.
  keeps_IsMounted :
      (c' : Cache) (i : ℕ) (old t : Slot)
      → IsCoherent c'
      → get_elem? s.cache.slots i ≡ some old
      → c'.slots ≡ set s.cache.slots i t
      → t.refcnt ≡ old.refcnt
      → (i ≡ s.sb_buf → Holds c' 0 i t)
      → IsMounted (with_cache s c')
  keeps_IsMounted c' i old t coh was slots refs own = elim (Bool-cases (i == s.sb_buf)) [
    | inl e ↦
        (let here : i ≡ s.sb_buf = ground arith in
          record {
            coherent = coh;
            has_room = has_room';
            sb = t;
            sb_held = rw (← here) (own here);
            sb_in_use = ground (arith, v.sb_in_use, v.sb_held.at_i);
          })
    | inr e ↦ record {
      coherent = coh;
      has_room = has_room';
      sb = v.sb;
      sb_held = record {
        at_i =
            ap (λ l. get_elem? l s.sb_buf) slots
            ∙ get_elem?-set_ne s.cache.slots i s.sb_buf t (ground arith)
            ∙ v.sb_held.at_i;
        valid = v.sb_held.valid;
        same_no = v.sb_held.same_no;
      };
      sb_in_use = v.sb_in_use;
    }
  ]
    where
      has_room' : 0 < room c'.slots
      has_room' = rw slots (ground (arith, room-set s.cache.slots i t was, v.has_room))

  -- A use of a block returns what `body` makes of the block as it reads.
  pub use_block :
      {A : Type 0} (blk : ℕ) (body : Block → A × Option (Block → Block))
      → (c' : Cache) × (on_cache (with_block blk body) s
          ≡ ok ((body (blocks s blk)).0, with_cache s c'))
        × IsMounted (with_cache s c')
        × (content c' ≡ write_at (blocks s) blk (apply_to (body (blocks s blk)).1 (blocks s blk)))
  use_block blk body =
      let (c', run, u) = with_block_lem v.coherent blk body v.has_room in
      (
        c',
        rw run,
        keeps_IsMounted c' u.place u.before u.slot u.coherent u.was u.slots_eq u.same_refs
            (λ e. own c' u e),
        fun_ext u.reads,
      )
    where
      own :
          {new : Block} (c' : Cache) (u : Used s.cache blk new c')
          → u.place ≡ s.sb_buf
          → Holds c' 0 u.place u.slot
      own c' u e =
          let same : u.before ≡ v.sb = ground (arith, u.was, v.sb_held.at_i) in
          let zero' : blk ≡ 0 = ground (arith, u.kept_no, v.sb_in_use, v.sb_held.same_no) in
          record { at_i = u.held.at_i; valid = u.held.valid; same_no = u.held.same_no ∙ zero' }

  pub sb_bytes : v.sb.bytes ≡ blocks s 0
  sb_bytes = sym (content-held s.cache 0 v.coherent s.sb_buf v.sb v.sb_held)

  pub raw_sb_lem :
      (field : ℕ) → raw_sb field s ≡ ok (get_u32 (super_offset + field) (blocks s 0), s)
  unfolding raw_sb
  raw_sb_lem field = rw (peek-held s.cache s.sb_buf v.sb v.sb_held.at_i, sb_bytes)

  pub set_raw_sb_lem :
      (field : ℕ) (f : ℕ → ℕ)
      → (c' : Cache) × (set_raw_sb field f s ≡ ok (tt, with_cache s c'))
        × IsMounted (with_cache s c')
        × (content c'
            ≡ write_at (blocks s) 0 (
                put_u32
                  (super_offset + field)
                  (f (get_u32 (super_offset + field) (blocks s 0)))
                  (blocks s 0)))
  unfolding set_raw_sb
  set_raw_sb_lem field f =
      let g : Block → Block =
        put_u32 (super_offset + field) (f (get_u32 (super_offset + field) (blocks s 0))) in
      let (coh, reads, h, slots) = poke-bwrite v.coherent s.sb_buf 0 v.sb g v.sb_held in
      (
        bwrite (some s.sb_buf) (poke s.sb_buf g s.cache),
        rw (peek-held s.cache s.sb_buf v.sb v.sb_held.at_i, sb_bytes) refl,
        keeps_IsMounted _ s.sb_buf v.sb (record v.sb { bytes = g v.sb.bytes; dirty = true }) coh
            v.sb_held.at_i slots refl (λ _. h),
        fun_ext reads,
      )

  -- A use that only reads changes no block.
  pub read_block :
      {A : Type 0} (blk : ℕ) (f : Block → A)
      → (c : Cache) × (on_cache (with_block blk (λ b. (f b, none))) s
          ≡ ok (f (blocks s blk), with_cache s c))
        × IsMounted (with_cache s c)
        × (content c ≡ blocks s)
  read_block blk f =
      let (c, run, v', eq) = use_block blk (λ b. (f b, none)) in
      (c, run, v', eq ∙ write_at_same (blocks s) blk)

-- ===== src/BlkCache/Tests.antt =====
-- A cache of two slots over a small disk, and the theorems at it.
use cute_core.Base.{
  ℕ, zero, suc, ◌<◌, ◌≡◌, refl, ◌⊎◌, true, false, some, [], ◌∷◌, Option, arith, ◌==◌, if◌then◌else◌,
  find_index, get_elem?, ok, panic,
}
use cute_core.BlkCache.{Block, Slot, Cache, bread, replace, bwrite, bsync, poke}
use cute_core.BlkCache.View.{IsCoherent, Missed, content}
use cute_core.BlkCache.InPlace.{SameReads}
use cute_core.BlkCache.Bread.{Read, bread-returns}
use cute_core.BlkCache.Access.{with_block, Used, with_block_lem}
use cute_core.BlkCache.Room.{room}
use cute_core.BlkCache.Sync.{bsync_lem}

-- Block `n` of the disk is filled with the byte `n`.
abbrev disk : ℕ → Block
disk n _ = n

abbrev old : Slot
old = record { blk_no = 7; valid = true; dirty = true; refcnt = 0; bytes = λ _. 70 }

abbrev busy : Slot
busy = record { blk_no = 8; valid = true; dirty = false; refcnt = 1; bytes = disk 8 }

abbrev cache : Cache
cache = record { slots = old ∷ busy ∷ []; disk = disk }

cache-IsCoherent : IsCoherent cache
cache-IsCoherent = record { unique = unique'; clean = clean' }
  where
    unique' :
        (i j : ℕ) (s t : Slot)
        → get_elem? (old ∷ busy ∷ []) i ≡ some s
        → get_elem? (old ∷ busy ∷ []) j ≡ some t
        → s.valid ≡ true
        → t.valid ≡ true
        → s.blk_no ≡ t.blk_no
        → i ≡ j
    unique' zero zero s t hi hj vs vt e = refl
    unique' zero (suc zero) s t hi hj vs vt e = ground arith
    unique' zero (suc (suc j)) s t hi hj vs vt e = ground arith
    unique' (suc zero) zero s t hi hj vs vt e = ground arith
    unique' (suc zero) (suc zero) s t hi hj vs vt e = refl
    unique' (suc zero) (suc (suc j)) s t hi hj vs vt e = ground arith
    unique' (suc (suc i)) j s t hi hj vs vt e = ground arith

    clean' :
        (i : ℕ) (s : Slot)
        → get_elem? (old ∷ busy ∷ []) i ≡ some s
        → s.valid ≡ true
        → s.dirty ≡ false
        → s.bytes ≡ disk s.blk_no
    clean' zero s h vs ds = ground arith
    clean' (suc zero) s h vs ds = let e : busy ≡ s = ground arith in rw (← e)
    clean' (suc (suc i)) s h vs ds = ground arith

-- The dirty block 7 is evicted for block 9, and its data are on the disk then.
evicts :
    (x : Slot) × (y : Slot) × (d : ℕ → Block) × (bread 9 cache
      ≡ ok (0, record { slots = x ∷ y ∷ []; disk = d }))
    × (d 7 0 ≡ 70)
    × (x.bytes 0 ≡ 9)
unfolding bread replace find_index
evicts = (
  record { blk_no = 9; valid = true; dirty = false; refcnt = 1; bytes = disk 9 },
  busy,
  (λ m. if 7 == m then (λ _. 70) else disk m),
  refl,
  refl,
  refl,
)

bread-returns_example :
    ((i : ℕ) × (c' : Cache) × (bread 9 cache ≡ ok (i, c')) × Read cache 9 i c')
    ⊎ ((bread 9 cache ≡ panic)
        × Missed cache 9
        × ((j : ℕ) (u : Slot) → get_elem? (old ∷ busy ∷ []) j ≡ some u → 0 < u.refcnt))
bread-returns_example = bread-returns 9 cache-IsCoherent

bsync_lem_example :
    ((m : ℕ) → (bsync cache).disk m ≡ content cache m)
    × ((i : ℕ) (s : Slot)
        → get_elem? (bsync cache).slots i ≡ some s
        → s.valid ≡ true
        → s.dirty ≡ false)
    × IsCoherent (bsync cache)
    × SameReads cache (bsync cache)
bsync_lem_example = bsync_lem cache-IsCoherent

-- `memset` of the busy block
abbrev zeroed : Block → Block
zeroed _ _ = 0

abbrev written : Cache
written = bwrite (some 1) (poke 1 zeroed cache)

abbrev body : Block → ℕ × Option (Block → Block)
body b = (b 0, some zeroed)

with_block_lem_example :
    (c' : Cache) × (with_block 9 body cache ≡ ok (content cache 9 0, c'))
    × Used cache 9 (zeroed (content cache 9)) c'
unfolding room
with_block_lem_example = with_block_lem cache-IsCoherent 9 body one_free
  where
    one_free : 0 < room (old ∷ busy ∷ [])
    one_free = omega arith

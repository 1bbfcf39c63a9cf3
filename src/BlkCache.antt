-- ===== src/BlkCache.antt =====
-- block/blk_cache.c: the cache of NBLKNUM disk blocks, its replacement and its write-back.
-- `blk_caches` is the list `slots`; a `struct blk_cache *` is an index into it, `nullptr` is `none`.
-- The disk behind `blkread` and `blkwrite` is a function from block numbers to blocks.
-- `refcnt` is a number: `brelse` panics before it could fall below 0, and its overflow at 2^31
-- references is not modelled.
pub mod Access
pub mod Bread
pub mod InPlace
pub mod Room
pub mod Step
pub mod Sync
mod Tests
pub mod View
use cute_core.Base.{
  ℕ, ◌+◌, ◌-◌, Bool, true, false, ◌&&◌, Option, none, some, List, [], ◌∷◌, ltb, ◌==◌, if◌then◌else◌,
  find_index, get_elem?, modify, Outcome, ok, panic, fault, Cmd, pure,
}

-- The BLKSZ bytes of a block, by their offset.
abbrev pub Block : Type 0
Block = ℕ → ℕ

pub record Slot : Type 0 where
  pub blk_no : ℕ
  pub valid : Bool
  pub dirty : Bool
  pub refcnt : ℕ
  pub bytes : Block

pub record Cache : Type 0 where
  pub slots : List Slot
  pub disk : ℕ → Block

abbrev pub BlkPtr : Type 0
BlkPtr = Option ℕ

-- `blkwrite` as the cache sees it
abbrev pub write_disk : (ℕ → Block) → ℕ → Block → ℕ → Block
write_disk d blk b m = if blk == m then b else d m

abbrev pub is_hit : ℕ → Slot → Bool
is_hit blk s = s.valid && (s.blk_no == blk)

abbrev pub is_free : Slot → Bool
is_free s = s.refcnt == 0

abbrev pub take_ref : Slot → Slot
take_ref s = record s { refcnt = s.refcnt + 1 }

-- a dirty slot's data goes to the disk
abbrev pub flush : Slot → (ℕ → Block) → ℕ → Block
flush s d = if s.valid && s.dirty then write_disk d s.blk_no s.bytes else d

abbrev pub loaded : ℕ → Block → Slot
loaded blk b = record { blk_no = blk; valid = true; dirty = false; refcnt = 1; bytes = b }

-- Slot `i` is given to block `blk`: the old data are written back first, then the new are read.
unfoldable pub replace : ℕ → ℕ → Cache → Cache
replace blk i c = elim (get_elem? c.slots i) [
  | none ↦ c
  | some s ↦
      (let d = flush s c.disk in
        record { slots = modify c.slots i (λ _. loaded blk (d blk)); disk = d })
]

unfoldable pub bread : ℕ → Cmd Cache ℕ
bread blk c = elim (find_index (is_hit blk) c.slots) [
  | some i ↦ ok (i, record c { slots = modify c.slots i take_ref })
  | none ↦ elim (find_index is_free c.slots) [ some i ↦ ok (i, replace blk i c) | none ↦ panic ]
]

abbrev pub mark_dirty : Slot → Slot
mark_dirty s = if s.valid then record s { dirty = true } else s

unfoldable pub bwrite : BlkPtr → Cache → Cache
bwrite none c = c
bwrite (some i) c = record c { slots = modify c.slots i mark_dirty }

abbrev pub drop_ref : Slot → Slot
drop_ref s = record s { refcnt = s.refcnt - 1 }

unfoldable pub brelse : BlkPtr → Cmd Cache (Unit {0})
brelse none c = ok (tt, c)
brelse (some i) c = elim (get_elem? c.slots i) [
  | none ↦ fault
  | some s ↦
      if s.refcnt == 0 then panic else ok (tt, record c { slots = modify c.slots i drop_ref })
]

abbrev pub cleaned : Slot → Slot
cleaned s = if s.valid && s.dirty then record s { dirty = false } else s

-- the loop of `bsync` over the slots from `i` on
unfoldable pub sync_slots : List Slot → (ℕ → Block) → List Slot × (ℕ → Block)
sync_slots [] d = ([], d)
sync_slots (s ∷ ss) d = let (ss', d') = sync_slots ss (flush s d) in (cleaned s ∷ ss', d')

unfoldable pub bsync : Cache → Cache
unfolding sync_slots
bsync c = let (ss, d) = sync_slots c.slots c.disk in record { slots = ss; disk = d }

-- A caller's write into `blk->data`.
unfoldable pub poke : ℕ → (Block → Block) → Cache → Cache
poke i f c = record c { slots = modify c.slots i (λ s. record s { bytes = f s.bytes }) }

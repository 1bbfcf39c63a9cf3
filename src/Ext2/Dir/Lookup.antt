-- ===== src/Ext2/Dir/Lookup.antt =====
-- `ext2_lookup`: the first entry of that name in the blocks of the directory.
use cute_core.Base.{
  ℕ, zero, suc, ◌+◌, ◌-◌, ◌/◌, ◌≤◌, ◌<◌, ◌≡◌, ◌≢◌, ◌⊎◌, refl, ap, subst, ◌∙◌, true, false, ◌&&◌,
  Option, none, some, arith, leb, ltb, ◌==◌, Bool-cases, Option-cases, inl, inr, ok, Outcome,
}
use mathlib.Core.Option
use cute_core.Base.Words.{Bytes, put_bytes, get_u32}
use cute_core.BlkCache.{Block, Cache}
use cute_core.BlkCache.View.{content}
use cute_core.Ext2.{Fs}
use cute_core.Ext2.Mounted.{IsMounted, blocks, with_cache}
use cute_core.Ext2.Inode.{Inode}
use cute_core.Ext2.File.{path_of, ext2_read_block}
use cute_core.Ext2.File.Blocks.{
  block_at, data_of, Reads, Leads, path_of-Leads, ext2_read_block-Reads,
}
use cute_core.Ext2.Dir.Search.{Search, find_entry_lem}
use cute_core.Ext2.Dir.{find_entry, if_found, lookup_blocks, ext2_lookup, is_dir, blocks_of}

module _ (d : ℕ → Block) (block_size : ℕ) (ip : Inode) (name : Bytes) (namelen : ℕ) where
  -- `bb` is the data of the logical block `lbk`
  pub record IsBlock (lbk : ℕ) (bb : Bytes) : Type 0 where
    pub place : ℕ
    pub at_place : Leads d ip (block_size / 4) lbk (some place)
    pub bytes : (i : ℕ) → i < block_size → bb i ≡ data_of d place i

  -- The block cannot be read, or has no entry of that name.
  abbrev pub Absent : ℕ → Type 0
  Absent lbk =
      Leads d ip (block_size / 4) lbk none
      ⊎ ((bb : Bytes) × IsBlock lbk bb × Search block_size name namelen bb none 0)

  -- What a lookup in the blocks from `lo` to `hi` may give.
  pub data Looked (lo hi : ℕ) (r : Option ℕ) : Type 0 where
    missing : r ≡ none → ((lbk : ℕ) → lo ≤ lbk → lbk < hi → Absent lbk) → Looked lo hi r
    found :
        (lbk pos : ℕ) (bb : Bytes)
        → lo ≤ lbk
        → lbk < hi
        → IsBlock lbk bb
        → Search block_size name namelen bb (some pos) 0
        → r ≡ some (get_u32 pos bb)
        → ((k : ℕ) → lo ≤ k → k < lbk → Absent k)
        → Looked lo hi r

module _ (d : ℕ → Block) (block_size : ℕ) (ip : Inode) (name : Bytes) (namelen : ℕ) where
  -- A block without the name is passed.
  pass :
      (lo hi : ℕ) (r : Option ℕ)
      → Absent d block_size ip name namelen lo
      → Looked d block_size ip name namelen (lo + 1) hi r
      → Looked d block_size ip name namelen lo hi r
  pass lo hi r absent (missing e rest) = missing e (λ lbk ge lt. elim (Bool-cases (lo == lbk)) [
    | inl here ↦ subst (Absent d block_size ip name namelen) (ground arith) absent
    | inr later ↦ rest lbk (ground arith) lt
  ])
  pass lo hi r absent (found lbk pos bb ge lt blk at_pos e rest) =
      found lbk pos bb (omega arith) lt blk at_pos e (λ k ge' lt'. elim (Bool-cases (lo == k)) [
        | inl here ↦ subst (Absent d block_size ip name namelen) (ground arith) absent
        | inr later ↦ rest k (ground arith) lt'
      ])

  is_block :
      (lbk p : ℕ) (buf : Bytes)
      → Leads d ip (block_size / 4) lbk (some p)
      → IsBlock d block_size ip name namelen lbk (put_bytes 0 block_size (data_of d p) buf)
  unfolding put_bytes
  is_block lbk p buf e = record {
    place = p;
    at_place = e;
    bytes = λ i lt.
        (let here : (leb 0 i && ltb i (0 + block_size)) ≡ true = ground arith in
          let same : i - 0 ≡ i = omega arith in rw (here, same) refl);
  }

-- a round of the loop whose block is read
lookup_blocks_round :
    (n lo : ℕ) (ip : Inode) (name : Bytes) (namelen : ℕ) (buf bb : Bytes) (s : Fs) (c : Cache)
    (o : Option (Option ℕ))
    → ext2_read_block ip lo buf s ≡ ok (some bb, with_cache s c)
    → find_entry s.block_size s.block_size name namelen bb 0 ≡ o
    → lookup_blocks (suc n) ip name namelen lo buf s
      ≡ if_found o bb (lookup_blocks n ip name namelen (lo + 1) bb) (with_cache s c)
unfolding lookup_blocks
lookup_blocks_round n lo ip name namelen buf bb s c o run e =
    rw run
      (ap (λ x. if_found x bb (lookup_blocks n ip name namelen (lo + 1) bb) (with_cache s c)) e)

module _ (d : ℕ → Block) (ip : Inode) (name : Bytes) (namelen : ℕ) where
  -- A run that returns a result of a lookup and changes no block.
  pub record Answers (s : Fs) (lo hi : ℕ) (run : Outcome (Option ℕ × Fs)) : Type 0 where
    pub after : Cache
    pub answer : Option ℕ
    pub is_run : run ≡ ok (answer, with_cache s after)
    pub mounted : IsMounted (with_cache s after)
    pub same : content after ≡ d
    pub looked : Looked d s.block_size ip name namelen lo hi answer

  later :
      {s : Fs} (c : Cache) (lo hi : ℕ) {run run' : Outcome (Option ℕ × Fs)}
      → Absent d s.block_size ip name namelen lo
      → run ≡ run'
      → Answers (with_cache s c) (lo + 1) hi run'
      → Answers s lo hi run
  later {s} c lo hi absent e a = record {
    after = a.after;
    answer = a.answer;
    is_run = e ∙ a.is_run;
    mounted = a.mounted;
    same = a.same;
    looked = pass d s.block_size ip name namelen lo hi a.answer absent a.looked;
  }

  lookup_blocks_lem :
      (n lo hi : ℕ) (buf : Bytes) {s : Fs}
      → IsMounted s
      → blocks s ≡ d
      → lo + n ≡ hi
      → Answers s lo hi (lookup_blocks n ip name namelen lo buf s)
  unfolding lookup_blocks
  lookup_blocks_lem zero lo hi buf {s} v is_d e = record {
    after = s.cache;
    answer = none;
    is_run = refl;
    mounted = v;
    same = is_d;
    looked = missing refl (λ lbk ge lt. absurd (omega arith));
  }
  lookup_blocks_lem (suc n) lo hi buf {s} v is_d e =
      elim (Option-cases (block_at d ip (path_of (s.block_size / 4) lo))) [
        | inl past ↦
            (let r = reads none past in
              later r.after lo hi (inl (leads none past)) (rw r.run refl)
                (lookup_blocks_lem n (lo + 1) hi buf r.mounted r.same (omega arith)))
        | inr (p, at_p) ↦
            (let r = reads (some p) at_p in
              let bb : Bytes = put_bytes 0 s.block_size (data_of d p) buf in
              let blk = is_block d s.block_size ip name namelen lo p buf (leads (some p) at_p) in
              let (o, run, search) =
                find_entry_lem s.block_size s.block_size name namelen bb 0 (omega arith) in
              let round = lookup_blocks_round n lo ip name namelen buf bb s r.after in
              elim (Option-cases o) [
                | inl absent ↦
                    later r.after lo hi (inr (bb, blk, at_result bb o none absent search))
                      (round (some none) r.run (run ∙ ap some absent))
                      (lookup_blocks_lem n (lo + 1) hi bb r.mounted r.same (omega arith))
                | inr (pos, at_pos) ↦ record {
                  after = r.after;
                  answer = some (get_u32 pos bb);
                  is_run = round (some (some pos)) r.run (run ∙ ap some at_pos);
                  mounted = r.mounted;
                  same = r.same;
                  looked =
                      found lo pos bb (omega arith) (omega arith) blk
                        (at_result bb o (some pos) at_pos search) refl
                        (λ k ge lt. absurd (omega arith));
                }
              ])
      ]
    where
      leads :
          (o : Option ℕ)
          → block_at d ip (path_of (s.block_size / 4) lo) ≡ o
          → Leads d ip (s.block_size / 4) lo o
      leads o e =
          subst (Leads d ip (s.block_size / 4) lo) e (path_of-Leads d ip (s.block_size / 4) lo)

      at_result :
          (bb : Bytes) (o o' : Option ℕ)
          → o ≡ o'
          → Search s.block_size name namelen bb o 0
          → Search s.block_size name namelen bb o' 0
      at_result bb o o' e = subst (λ x. Search s.block_size name namelen bb x 0) e

      reads :
          (o : Option ℕ)
          → block_at d ip (path_of (s.block_size / 4) lo) ≡ o
          → Reads d
              (ext2_read_block ip lo buf)
              s
              (Option.map (λ q. put_bytes 0 s.block_size (data_of d q) buf) o)
      reads o at_o =
          subst
            (λ o.
              Reads d (ext2_read_block ip lo buf) s
                (Option.map (λ q. put_bytes 0 s.block_size (data_of d q) buf) o))
            at_o (ext2_read_block-Reads d buf v is_d ip lo)

-- `ext2_lookup` of a name that is not empty in a directory of a mounted file system returns, changes
-- no block, and gives the inode of the first entry of that name in the first block of the directory
-- that has one, among the entries that the lengths lead to from the block's begin; it gives nothing
-- if each block has none or lies beyond those that the inode leads to.
pub ext2_lookup_lem :
    {s : Fs} (v : IsMounted s) (ip : Inode) (name : Bytes) (namelen : ℕ) (buf : Bytes)
    → is_dir ip.type ≡ true
    → namelen ≢ 0
    → Answers
        (blocks s)
        ip
        name
        namelen
        s
        0
        (blocks_of s.block_size ip.size)
        (ext2_lookup ip name namelen buf s)
unfolding ext2_lookup
ext2_lookup_lem {s} v ip name namelen buf dir ne =
    let named : (namelen == 0) ≡ false = ground arith in
    let a =
      lookup_blocks_lem (blocks s) ip name namelen (blocks_of s.block_size ip.size) 0
        (blocks_of s.block_size ip.size) buf v refl (omega arith) in
    record {
      after = a.after;
      answer = a.answer;
      is_run = rw (dir, named) a.is_run;
      mounted = a.mounted;
      same = a.same;
      looked = a.looked;
    }

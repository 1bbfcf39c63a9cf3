-- ===== src/Ext2/Alloc/Search.antt =====
-- `ext2_alloc_block` and `ext2_alloc_inode`: which bit they take, and what they write.
use cute_core.Base.{
  ℕ, zero, suc, ◌+◌, ◌<◌, ◌≤◌, ◌≡◌, ◌≢◌, refl, sym, ap, subst, ◌∙◌, inl, inr, true, Option, none,
  some, arith, ◌==◌, if◌then◌else◌, Bool-cases, Option-cases, length, get_elem?, get_elem?-some,
  Outcome, ok, Cmd,
}
use cute_core.BlkCache.{Block, Cache}
use cute_core.BlkCache.View.{content}
use cute_core.BlkCache.Access.{apply_to, with_block}
use cute_core.Ext2.Bitmap.{bit_at, find_clear, set_bit}
use cute_core.Ext2.Bitmap.Search.{IsFirst, find_clear-IsFirst}
use cute_core.Ext2.{Fs, BgDesc, on_cache, group_desc, u32, dec16, dec32}
use cute_core.Ext2.Mounted.{
  IsMounted, blocks, write_at, write_at_same, with_cache, use_block, raw_sb_lem,
}
use cute_core.Ext2.Alloc.{
  Kind, bitmap_of, free_count, map_count, super_free, number_offset, claim, round, alloc_from,
  alloc,
}
use cute_core.Ext2.Alloc.Count.{counted, first_of_lem, per_group_lem, count_taken_lem}
use cute_core.Ext2.Alloc.Answer.{
  base_val, limit_val, Exhausted, Chosen, taken_blocks, taken_fs, Search, full, found,
}

module _ (k : Kind) (s : Fs) (b : ℕ → Block) where
  -- A group that is exhausted is skipped; only the cache may have changed.
  skip :
      (c : Cache) (g hi : ℕ) (run : Outcome (ℕ × Fs))
      → Exhausted k s b g
      → Search k (with_cache s c) b (g + 1) hi run
      → Search k s b g hi run
  skip c g hi run ex (full c' e v same rest) = full c' e v same (λ h lo up.
      elim (Bool-cases (g == h)) [
        | inl here ↦ subst (Exhausted k s b) (ground arith) ex
        | inr ne ↦ rest h (ground arith) up
      ])
  skip c g hi run ex (found h d bit c' lo up e v ch eq rest) =
      found h d bit c' (omega arith) up e v
        (record {
          at_g = ch.at_g;
          has_free = ch.has_free;
          below = ch.below;
          clear = ch.clear;
          first = ch.first;
        })
        eq
        (λ j jlo jup. elim (Bool-cases (g == j)) [
          | inl here ↦ subst (Exhausted k s b) (ground arith) ex
          | inr ne ↦ rest j (ground arith) jup
        ])

abbrev marked : Option ℕ → Block → Block
marked none b = b
marked (some bit) b = set_bit bit b

claim-eq :
    (limit : ℕ) (b : Block) (r : Option ℕ)
    → find_clear b limit ≡ r
    → ((claim limit b).0 ≡ r) × (apply_to (claim limit b).1 b ≡ marked r b)
unfolding claim
claim-eq limit b none e = (ground arith, ground arith)
claim-eq limit b (some bit) e = (ground arith, ground arith)

module _ (k : Kind) {s : Fs} (v : IsMounted s) (g : ℕ) (d : BgDesc) (rest : Cmd Fs ℕ) where
  abbrev bitmap : Block
  bitmap = blocks s (bitmap_of k d)

  abbrev searched : Option ℕ
  searched = find_clear bitmap (limit_val k s (blocks s) g)

  -- the use of the bitmap in a round
  searches :
      (r : Option ℕ)
      → searched ≡ r
      → (c : Cache) × (on_cache (with_block (bitmap_of k d) (claim (limit_val k s (blocks s) g))) s
          ≡ ok (r, with_cache s c))
        × IsMounted (with_cache s c)
        × (content c ≡ write_at (blocks s) (bitmap_of k d) (marked r bitmap))
  searches r e =
      let (c, run, v', eq) = use_block v (bitmap_of k d) (claim (limit_val k s (blocks s) g)) in
      let (got, left) = claim-eq (limit_val k s (blocks s) g) bitmap r e in
      (
        c,
        run ∙ ap (λ x. ok (x, with_cache s c)) got,
        v',
        eq ∙ ap (write_at (blocks s) (bitmap_of k d)) left,
      )

  round-miss :
      searched ≡ none
      → (c : Cache) × (round k g d rest s ≡ rest (with_cache s c))
        × IsMounted (with_cache s c)
        × (content c ≡ blocks s)
  unfolding round
  round-miss e =
      let (c, run, v', eq) = searches none e in
      (
        c,
        rw (first_of_lem v, per_group_lem v, raw_sb_lem v, run) refl,
        v',
        eq ∙ write_at_same (blocks s) (bitmap_of k d),
      )

  round-hit :
      (bit : ℕ)
      → searched ≡ some bit
      → (c : Cache) × (round k g d rest s
          ≡ ok (
            u32 (base_val k s (blocks s) g + bit + number_offset k),
            taken_fs k s (blocks s) g d c,
          ))
        × IsMounted (taken_fs k s (blocks s) g d c)
        × (content c ≡ taken_blocks k s (blocks s) g d bit)
  unfolding round
  round-hit bit e =
      let (c₁, run, v₁, eq) = searches (some bit) e in
      let (c₂, run', v₂, eq') = count_taken_lem v₁ k g d in
      (
        c₂,
        rw (first_of_lem v, per_group_lem v, raw_sb_lem v, run, run') refl,
        v₂,
        eq' ∙ ap (counted s g (map_count k dec16 d) (super_free k) dec32) eq,
      )

pub group_desc-at :
    (g : ℕ) (s : Fs) (d : BgDesc) → get_elem? s.gb_table g ≡ some d → group_desc g s ≡ ok (d, s)
unfolding group_desc
group_desc-at g s d h = ground arith

-- One round, given what the rounds that follow do from any state that differs in the cache alone.
module _ (k : Kind) {s : Fs} (v : IsMounted s) (g hi : ℕ) (d : BgDesc) (rest : Cmd Fs ℕ)
    (at_g : get_elem? s.gb_table g ≡ some d) (in_range : g < hi)
    (later : (c : Cache)
      → IsMounted (with_cache s c)
      → content c ≡ blocks s
      → Search k (with_cache s c) (blocks s) (g + 1) hi (rest (with_cache s c))) where
  only_d : (e : BgDesc) → get_elem? s.gb_table g ≡ some e → e ≡ d
  only_d e at_e = ground arith

  round-Search : free_count k d ≢ 0 → Search k s (blocks s) g hi (round k g d rest s)
  round-Search has = elim (Option-cases (searched k v g d rest)) [
    | inl none' ↦
        (let (c, run, v', eq) = round-miss k v g d rest none' in
          rw run (
            skip k s (blocks s) c g hi _
              (λ e at_e. inr (
                subst
                  (λ e.
                    (i : ℕ)
                    → i < limit_val k s (blocks s) g
                    → bit_at (blocks s (bitmap_of k e)) i ≡ true)
                  (sym (only_d e at_e)) (all_set none')))
              (later c v' eq)))
    | inr (bit, hit) ↦
        (let (c, run, v', eq) = round-hit k v g d rest bit hit in
          found g d bit c (omega arith) in_range run v' (chosen bit hit) eq
            (λ e lo up. absurd (omega arith)))
  ]
    where
      all_set :
          searched k v g d rest ≡ none
          → (i : ℕ) → i < limit_val k s (blocks s) g
          → bit_at (blocks s (bitmap_of k d)) i ≡ true
      all_set none' i h =
          subst
            (IsFirst (blocks s (bitmap_of k d)) (limit_val k s (blocks s) g) 0
              (limit_val k s (blocks s) g))
            none' (find_clear-IsFirst (blocks s (bitmap_of k d)) (limit_val k s (blocks s) g)) i
            (omega arith) h h

      chosen : (bit : ℕ) → searched k v g d rest ≡ some bit → Chosen k s (blocks s) g d bit
      chosen bit hit =
          let (lo, below', clear', first') =
            subst
              (IsFirst (blocks s (bitmap_of k d)) (limit_val k s (blocks s) g) 0
                (limit_val k s (blocks s) g))
              hit (find_clear-IsFirst (blocks s (bitmap_of k d)) (limit_val k s (blocks s) g)) in
          record {
            at_g = at_g;
            has_free = has;
            below = below';
            clear = clear';
            first = λ i h. first' i (omega arith) h;
          }

  step-Search :
      Search k s (blocks s) g hi ((if free_count k d == 0 then rest else round k g d rest) s)
  step-Search = elim (Bool-cases (free_count k d == 0)) [
    | inl empty ↦ rw empty (
        skip k s (blocks s) s.cache g hi (rest s)
          (λ e at_e. inl (ap (free_count k) (only_d e at_e) ∙ ground arith)) (later s.cache v refl))
    | inr has ↦ rw has (round-Search (ground arith))
  ]

alloc_from_lem :
    (k : Kind) (n g hi : ℕ) {s : Fs}
    → IsMounted s
    → g + n ≡ hi
    → hi ≤ length s.gb_table
    → Search k s (blocks s) g hi (alloc_from k n g s)
unfolding alloc_from
alloc_from_lem k zero g hi {s} v e fits = full s.cache refl v refl (λ h lo up. absurd (omega arith))
alloc_from_lem k (suc n) g hi {s} v e fits =
    let (d, at_g) = get_elem?-some s.gb_table g (omega arith) in
    rw (group_desc-at g s d at_g) (
      step-Search k v g hi d (alloc_from k n (g + 1)) at_g (omega arith) (λ c v' eq.
        subst
          (λ b. Search k (with_cache s c) b (g + 1) hi (alloc_from k n (g + 1) (with_cache s c))) eq
          (alloc_from_lem k n (g + 1) hi v' (omega arith) fits)))

pub alloc-Search :
    (k : Kind) {s : Fs}
    → IsMounted s
    → s.group_count ≤ length s.gb_table
    → Search k s (blocks s) 0 s.group_count (alloc k s)
unfolding alloc
alloc-Search k {s} v fits = alloc_from_lem k s.group_count 0 s.group_count v (omega arith) fits

-- ===== src/BlkCache/Bread.antt =====
-- `bread`: on a hit, on a replacement with its write-back, and when it panics.
use cute_core.Base.{
  ℕ, ◌+◌, ◌<◌, ◌≡◌, ◌≢◌, refl, sym, ◌∙◌, ◌⊎◌, inl, inr, true, ◌&&◌, some, arith, ◌==◌, Bool-cases,
  Option-cases, find_index, find_index_sound, find_index-none, get_elem?, get_elem?-set_self,
  get_elem?-set_ne, set, modify-eq-set, ok, panic,
}
use cute_core.BlkCache.{
  Block, Slot, Cache, is_hit, is_free, take_ref, flush, loaded, replace, bread,
}
use cute_core.BlkCache.View.{
  IsCoherent, Holds, Missed, content, held_at, Missed-of_none, held-or-Missed, content-held,
  content-Missed,
}
use cute_core.BlkCache.Step.{changed, changed-IsCoherent, Holds-new}
use cute_core.BlkCache.InPlace.{SameReads, in_place-SameReads}

-- What `bread blk` gives: a slot that holds the block, with a reference; nothing that a reader
-- could see has changed, and no slot but this one; this one was free, or held the block already.
pub record Read (c : Cache) (blk i : ℕ) (c' : Cache) : Type 0 where
  pub coherent : IsCoherent c'
  pub reads : SameReads c c'
  pub slot : Slot
  pub held : Holds c' blk i slot
  pub before : Slot
  pub was : get_elem? c.slots i ≡ some before
  pub slots_eq : c'.slots ≡ set c.slots i slot
  pub one_more : slot.refcnt ≡ before.refcnt + 1
  pub kept_no : 0 < before.refcnt → (before.valid ≡ true) × (before.blk_no ≡ blk)

hit-Read :
    {c : Cache} (v : IsCoherent c) (blk i : ℕ) (s : Slot) (h : Holds c blk i s)
    → Read c blk i (changed c i (take_ref s) c.disk h.at_i)
hit-Read {c} v blk i s h =
    let (v', reads) = in_place-SameReads v i (take_ref s) h.at_i refl refl refl refl in
    record {
      coherent = v';
      reads = reads;
      slot = take_ref s;
      held = record {
        at_i = get_elem?-set_self c.slots i (take_ref s) h.at_i;
        valid = h.valid;
        same_no = h.same_no;
      };
      before = s;
      was = h.at_i;
      slots_eq = refl;
      one_more = refl;
      kept_no = λ _. (h.valid, h.same_no);
    }

-- A block held by no slot but `i` is on the disk as a reader sees it, once slot `i` is flushed.
module _ {c : Cache} (v : IsCoherent c) (i : ℕ) (s : Slot)
    (at_i : get_elem? c.slots i ≡ some s) where
  flush-other :
      (j : ℕ) (u : Slot)
      → i ≢ j
      → get_elem? c.slots j ≡ some u
      → u.valid ≡ true
      → flush s c.disk u.blk_no ≡ c.disk u.blk_no
  flush-other j u ne at_j vu = elim (Bool-cases (s.valid && s.dirty)) [
    | inl e ↦ ground (arith, v.unique i j s u at_i at_j)
    | inr e ↦ rw e
  ]

  flush-content :
      (m : ℕ)
      → ((j : ℕ) (u : Slot) → i ≢ j → get_elem? c.slots j ≡ some u → u.valid ≡ true → u.blk_no ≢ m)
      → flush s c.disk m ≡ content c m
  flush-content m others = elim (held-or-Missed c m) [
    | inl miss ↦ ground (arith, content-Missed c m miss, miss i s at_i)
    | inr (j, u, h) ↦ elim (Bool-cases (i == j)) [
      | inl ij ↦
          (let e : i ≡ j = ground arith in
            let us : u ≡ s = ground (arith, h.at_i) in
            ground (arith, content-held c m v j u h, v.clean i s at_i, h.valid, h.same_no))
      | inr ne ↦ absurd (others j u (ground arith) h.at_i h.valid h.same_no)
    ]
  ]

module _ {c : Cache} (v : IsCoherent c) (blk i : ℕ) (s : Slot) (at_i : get_elem? c.slots i ≡ some s)
    (miss : Missed c blk) where
  abbrev flushed : ℕ → Block
  flushed = flush s c.disk

  abbrev fresh : Slot
  fresh = loaded blk (flushed blk)

  abbrev replaced : Cache
  replaced = changed c i fresh flushed at_i

  replaced-IsCoherent : IsCoherent replaced
  replaced-IsCoherent =
      changed-IsCoherent c i fresh flushed at_i v (λ _ j u _ at_j vu. miss j u at_j vu)
        (λ _ _. refl) (λ j u ne at_j vu _. flush-other v i s at_i j u ne at_j vu)

  replaced-SameReads : SameReads c replaced
  replaced-SameReads m = elim (Bool-cases (blk == m)) [
    | inl e ↦
        (let bm : blk ≡ m = ground arith in
          rw (← bm) (
            content-held replaced blk replaced-IsCoherent i fresh
              (Holds-new c i fresh flushed at_i refl)
            ∙ flush-content v i s at_i blk (λ j u _ at_j. miss j u at_j)))
    | inr e ↦ elsewhere (ground arith)
  ]
    where
      elsewhere : blk ≢ m → content replaced m ≡ content c m
      elsewhere ne = elim (held-or-Missed replaced m) [
        | inl gone ↦
            content-Missed replaced m gone
            ∙ flush-content v i s at_i m
                (λ j u ij at_j vu. gone j u (get_elem?-set_ne c.slots i j fresh ij ∙ at_j) vu)
        | inr (j, u, h) ↦ elim (Bool-cases (i == j)) [
          | inl ij ↦
              absurd
                (ne (ground (arith, h.at_i, h.same_no, get_elem?-set_self c.slots i fresh at_i)))
          | inr apart ↦
              (let ij : i ≢ j = ground arith in
                content-held replaced m replaced-IsCoherent j u h
                ∙ sym (
                    content-held c m v j u (record {
                      at_i = sym (get_elem?-set_ne c.slots i j fresh ij) ∙ h.at_i;
                      valid = h.valid;
                      same_no = h.same_no;
                    })))
        ]
      ]

  replaced-Read : s.refcnt ≡ 0 → Read c blk i replaced
  replaced-Read free = record {
    coherent = replaced-IsCoherent;
    reads = replaced-SameReads;
    slot = fresh;
    held = Holds-new c i fresh flushed at_i refl;
    before = s;
    was = at_i;
    slots_eq = refl;
    one_more = ground arith;
    kept_no = λ pos. absurd (omega arith);
  }

-- On a coherent cache `bread` returns a slot that holds the block, one reference more on it, with
-- all reads and the invariant as before; or it panics, and then no slot holds the block and every
-- slot is in use.
pub bread-returns :
    {c : Cache} (blk : ℕ)
    → IsCoherent c
    → ((i : ℕ) × (c' : Cache) × (bread blk c ≡ ok (i, c')) × Read c blk i c')
      ⊎ ((bread blk c ≡ panic)
          × Missed c blk
          × ((j : ℕ) (u : Slot) → get_elem? c.slots j ≡ some u → 0 < u.refcnt))
unfolding bread replace
bread-returns {c} blk v = elim (Option-cases (find_index (is_hit blk) c.slots)) [
  | inr (i, hit) ↦
      (let (s, h) = held_at c blk i hit in
        inl (
          i,
          changed c i (take_ref s) c.disk h.at_i,
          ground (arith, modify-eq-set c.slots i take_ref h.at_i),
          hit-Read v blk i s h,
        ))
  | inl none' ↦
      (let miss = Missed-of_none c blk none' in
        elim (Option-cases (find_index is_free c.slots)) [
          | inr (i, free) ↦
              (let (s, at_i, zero') = find_index_sound is_free c.slots i free in
                inl (
                  i,
                  replaced v blk i s at_i miss,
                  ground (arith, modify-eq-set c.slots i (λ _. fresh v blk i s at_i miss) at_i),
                  replaced-Read v blk i s at_i miss (ground arith),
                ))
          | inl full ↦ inr (
            ground arith,
            miss,
            λ j u at_j. ground (arith, find_index-none is_free c.slots j full at_j),
          )
        ])
]

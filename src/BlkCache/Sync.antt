-- ===== src/BlkCache/Sync.antt =====
-- `bsync`: after it the disk holds what a reader saw before, and nothing is dirty.
use cute_core.Base.{
  ℕ, zero, suc, ◌≡◌, ◌≢◌, refl, sym, ap, ◌∙◌, inl, inr, true, false, some, List, [], ◌∷◌, map,
  arith, Bool-cases, get_elem?,
}
use cute_core.BlkCache.{Block, Slot, Cache, flush, cleaned, sync_slots, bsync}
use cute_core.BlkCache.View.{
  IsCoherent, Holds, content, held-or-Missed, content-held, content-Missed,
}
use cute_core.BlkCache.InPlace.{SameReads}

abbrev IsUnique : List Slot → Type 0
IsUnique ss =
    (i j : ℕ) (s t : Slot)
    → get_elem? ss i ≡ some s
    → get_elem? ss j ≡ some t
    → s.valid ≡ true
    → t.valid ≡ true
    → s.blk_no ≡ t.blk_no
    → i ≡ j

slots-sync : (ss : List Slot) (d : ℕ → Block) → (sync_slots ss d).0 ≡ map cleaned ss
unfolding sync_slots
slots-sync [] d = refl
slots-sync (s ∷ ss) d = ap (◌∷◌ (cleaned s)) (slots-sync ss (flush s d))

-- A block that no dirty slot holds keeps its data on the disk.
sync_elsewhere :
    (ss : List Slot) (d : ℕ → Block) (m : ℕ)
    → ((i : ℕ) (s : Slot)
        → get_elem? ss i ≡ some s
        → s.valid ≡ true
        → s.dirty ≡ true
        → s.blk_no ≢ m)
    → (sync_slots ss d).1 m ≡ d m
unfolding sync_slots
sync_elsewhere [] d m none_holds = refl
sync_elsewhere (s ∷ ss) d m none_holds =
    sync_elsewhere ss (flush s d) m (λ i t h. none_holds (suc i) t h)
    ∙ ground (arith, none_holds 0 s refl)

sync_dirty :
    (ss : List Slot) (d : ℕ → Block) (i : ℕ) (s : Slot)
    → IsUnique ss
    → get_elem? ss i ≡ some s
    → s.valid ≡ true
    → s.dirty ≡ true
    → (sync_slots ss d).1 s.blk_no ≡ s.bytes
unfolding sync_slots
sync_dirty [] d i s u h vs ds = ground arith
sync_dirty (t ∷ ss) d zero s u h vs ds =
    let same : t ≡ s = ground arith in
    sync_elsewhere ss (flush t d) s.blk_no
      (λ j w hw vw dw e. absurd (ground (arith, u 0 (suc j) s w h hw vs vw (sym e))))
    ∙ ground arith
sync_dirty (t ∷ ss) d (suc i) s u h vs ds =
    sync_dirty ss (flush t d) i s
      (λ j k w x hj hk vw vx e. ground (arith, u (suc j) (suc k) w x hj hk vw vx e)) h vs ds

-- The disk after `bsync` is what a reader saw before it.
pub disk-bsync : {c : Cache} → IsCoherent c → (m : ℕ) → (bsync c).disk m ≡ content c m
unfolding bsync
disk-bsync {c} v m = elim (held-or-Missed c m) [
  | inl miss ↦
      sync_elsewhere c.slots c.disk m (λ i s h vs _. miss i s h vs) ∙ sym (content-Missed c m miss)
  | inr (i, s, h) ↦ elim (Bool-cases s.dirty) [
    | inl ds ↦
        ap (sync_slots c.slots c.disk).1 (sym h.same_no)
        ∙ sync_dirty c.slots c.disk i s v.unique h.at_i h.valid ds
        ∙ sym (content-held c m v i s h)
    | inr clean ↦
        sync_elsewhere c.slots c.disk m (λ j t ht vt dt e.
          ground (arith, v.unique i j s t h.at_i ht h.valid vt (h.same_no ∙ sym e), h.at_i))
        ∙ ap c.disk (sym h.same_no)
        ∙ sym (v.clean i s h.at_i h.valid clean)
        ∙ sym (content-held c m v i s h)
  ]
]

-- every slot after `bsync` is a slot before it, cleaned
at-cleaned :
    (ss : List Slot) (i : ℕ) (s : Slot)
    → get_elem? (map cleaned ss) i ≡ some s
    → (t : Slot) × (get_elem? ss i ≡ some t) × (s ≡ cleaned t)
at-cleaned [] i s h = ground arith
at-cleaned (x ∷ ss) zero s h = (x, refl, ground arith)
at-cleaned (x ∷ ss) (suc i) s h = at-cleaned ss i s h

bsync-at :
    (c : Cache) (i : ℕ) (s : Slot)
    → get_elem? (bsync c).slots i ≡ some s
    → (t : Slot) × (get_elem? c.slots i ≡ some t) × (s ≡ cleaned t)
unfolding bsync
bsync-at c i s h = at-cleaned c.slots i s (rw (slots-sync c.slots c.disk) at h)

cleaned-keeps :
    (t : Slot)
    → ((cleaned t).valid ≡ t.valid)
      × ((cleaned t).blk_no ≡ t.blk_no)
      × ((cleaned t).bytes ≡ t.bytes)
cleaned-keeps t = ground arith

-- `bsync` writes back exactly what a reader sees: the disk then agrees with the cache on every
-- block, no valid slot is dirty, the reads are those of before, and the invariant is kept.
pub bsync_lem :
    {c : Cache}
    → IsCoherent c
    → ((m : ℕ) → (bsync c).disk m ≡ content c m)
      × ((i : ℕ) (s : Slot)
          → get_elem? (bsync c).slots i ≡ some s
          → s.valid ≡ true
          → s.dirty ≡ false)
      × IsCoherent (bsync c)
      × SameReads c (bsync c)
bsync_lem {c} v = (disk-bsync v, no_dirty, v', reads)
  where
    no_dirty :
        (i : ℕ) (s : Slot) → get_elem? (bsync c).slots i ≡ some s → s.valid ≡ true → s.dirty ≡ false
    no_dirty i s h vs = let (t, at_i, e) = bsync-at c i s h in ground arith

    shown :
        (i : ℕ) (s : Slot)
        → get_elem? (bsync c).slots i ≡ some s
        → s.valid ≡ true
        → s.bytes ≡ content c s.blk_no
    shown i s h vs =
        let (t, at_i, e) = bsync-at c i s h in
        let holds : Holds c s.blk_no i t = record {
          at_i = at_i;
          valid = ground (arith, cleaned-keeps t);
          same_no = ground (arith, cleaned-keeps t);
        } in
        ground (arith, cleaned-keeps t, content-held c s.blk_no v i t holds)

    v' : IsCoherent (bsync c)
    v' = record {
      unique = λ i j s t hi hj vs vt e.
          let (s', at_i, es) = bsync-at c i s hi in
          let (t', at_j, et) = bsync-at c j t hj in
          v.unique i j s' t' at_i at_j (ground (arith, cleaned-keeps s'))
            (ground (arith, cleaned-keeps t')) (ground (arith, cleaned-keeps s', cleaned-keeps t'));
      clean = λ i s h vs _. shown i s h vs ∙ sym (disk-bsync v s.blk_no);
    }

    reads : SameReads c (bsync c)
    reads m = elim (held-or-Missed (bsync c) m) [
      | inl miss ↦ content-Missed (bsync c) m miss ∙ disk-bsync v m
      | inr (i, s, h) ↦
          content-held (bsync c) m v' i s h ∙ shown i s h.at_i h.valid ∙ ap (content c) h.same_no
    ]

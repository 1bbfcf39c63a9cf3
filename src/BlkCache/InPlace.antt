-- ===== src/BlkCache/InPlace.antt =====
-- A slot that keeps its block: `bread` on a hit, `brelse`, and a write followed by `bwrite`.
use cute_core.Base.{
  ℕ, ◌≡◌, ◌≢◌, refl, sym, ◌∙◌, inl, inr, true, false, ◌&&◌, some, arith, ◌==◌, Bool-cases,
  if◌then◌else◌, get_elem?, get_elem?-set_self, set, modify-eq-set, modify-modify, ok, List, ap,
  ◌<◌,
}
use cute_core.BlkCache.{Block, Slot, Cache, drop_ref, mark_dirty, bwrite, brelse, poke}
use cute_core.BlkCache.View.{
  IsCoherent, Holds, content, held-or-Missed, content-held, content-Missed,
}
use cute_core.BlkCache.Step.{changed, changed-IsCoherent, Holds-new, Holds-old, Missed-changed}

module _ {c : Cache} (v : IsCoherent c) (i : ℕ) {s : Slot} (t : Slot)
    (at_i : get_elem? c.slots i ≡ some s) (same_no : t.blk_no ≡ s.blk_no)
    (same_valid : t.valid ≡ s.valid) where
  abbrev after : Cache
  after = changed c i t c.disk at_i

  others :
      (j : ℕ) (u : Slot)
      → i ≢ j
      → get_elem? c.slots j ≡ some u
      → u.valid ≡ true
      → t.valid ≡ true
      → u.blk_no ≢ t.blk_no
  others j u ne h vu vt e =
      ne (v.unique i j s u at_i h (sym same_valid ∙ vt) vu (sym same_no ∙ sym e))

  pub in_place-IsCoherent :
      (t.valid ≡ true → t.dirty ≡ false → t.bytes ≡ c.disk t.blk_no) → IsCoherent after
  in_place-IsCoherent t_clean =
      changed-IsCoherent c i t c.disk at_i v (λ vt j u ne h vu. others j u ne h vu vt) t_clean
        (λ j u ne h vu du. refl)

  -- What the slot does not hold is read as before.
  content-elsewhere :
      IsCoherent after → (m : ℕ) → (t.valid ≡ true → t.blk_no ≢ m) → content after m ≡ content c m
  content-elsewhere v' m ne = elim (held-or-Missed c m) [
    | inl miss ↦
        content-Missed after m (Missed-changed c i t c.disk at_i m (λ j u _ h. miss j u h) ne)
        ∙ sym (content-Missed c m miss)
    | inr (j, u, h) ↦ elim (Bool-cases (i == j)) [
      | inl ij ↦ absurd (ne (ground arith) (ground arith))
      | inr apart ↦
          content-held after m v' j u (Holds-old c i t c.disk at_i m j u (ground arith) h)
          ∙ sym (content-held c m v j u h)
    ]
  ]

  pub content-in_place :
      IsCoherent after
      → (m : ℕ) → content after m ≡ (if t.valid && (t.blk_no == m) then t.bytes else content c m)
  content-in_place v' m = elim (Bool-cases (t.valid && (t.blk_no == m))) [
    | inl e ↦ rw e (
        content-held after m v' i t (record {
          at_i = (Holds-new c i t c.disk at_i (ground arith)).at_i;
          valid = ground arith;
          same_no = ground arith;
        }))
    | inr e ↦ rw e (content-elsewhere v' m (ground arith))
  ]

-- A reader of the cache cannot tell the two states apart.
abbrev pub SameReads : Cache → Cache → Type 0
SameReads c c' = (m : ℕ) → content c' m ≡ content c m

-- The slot changes in nothing that a reader sees, and in nothing that the invariant is about.
pub in_place-SameReads :
    {c : Cache} (v : IsCoherent c) (i : ℕ) {s : Slot} (t : Slot)
    (at_i : get_elem? c.slots i ≡ some s)
    → t.blk_no ≡ s.blk_no
    → t.valid ≡ s.valid
    → t.dirty ≡ s.dirty
    → t.bytes ≡ s.bytes
    → IsCoherent (changed c i t c.disk at_i) × SameReads c (changed c i t c.disk at_i)
in_place-SameReads {c} v i {s} t at_i n l d b = (v', reads)
  where
    v' : IsCoherent (changed c i t c.disk at_i)
    v' =
        in_place-IsCoherent v i t at_i n l
          (λ vt dt. b ∙ v.clean i s at_i (sym l ∙ vt) (sym d ∙ dt) ∙ ap c.disk (sym n))

    reads : SameReads c (changed c i t c.disk at_i)
    reads m = elim (Bool-cases (t.valid && (t.blk_no == m))) [
      | inl e ↦
          content-in_place v i t at_i n l v' m
          ∙ rw e (
              b
              ∙ sym (
                  content-held c m v i s
                    (record { at_i = at_i; valid = ground arith; same_no = ground arith })))
      | inr e ↦ content-in_place v i t at_i n l v' m ∙ rw e
    ]

-- `bwrite` after a write into the data of a slot that holds a block: the block then reads as
-- written, every other block as before, and the invariant is kept.
pub poke-bwrite :
    {c : Cache} (v : IsCoherent c) (i blk : ℕ) (s : Slot) (f : Block → Block)
    → Holds c blk i s
    → let c' = bwrite (some i) (poke i f c) in
      IsCoherent c'
      × ((m : ℕ) → content c' m ≡ (if blk == m then f (content c blk) else content c m))
      × Holds c' blk i (record s { bytes = f s.bytes; dirty = true })
      × (c'.slots ≡ set c.slots i (record s { bytes = f s.bytes; dirty = true }))
unfolding bwrite poke
poke-bwrite {c} v i blk s f h =
    rw same_state (v', reads, held, ap (λ (c' : Cache). c'.slots) same_state)
  where
    t : Slot
    t = record s { bytes = f s.bytes; dirty = true }

    same_state : bwrite (some i) (poke i f c) ≡ changed c i t c.disk h.at_i
    same_state =
        ap (λ (l : List Slot). record { slots = l; disk = c.disk })
          (modify-modify c.slots i (λ s. record s { bytes = f s.bytes }) mark_dirty
            ∙ modify-eq-set c.slots i (λ s. mark_dirty (record s { bytes = f s.bytes })) h.at_i
            ∙ ap (set c.slots i) (rw h.valid))

    v' : IsCoherent (changed c i t c.disk h.at_i)
    v' = in_place-IsCoherent v i t h.at_i refl refl (λ _ e. cc)

    reads :
        (m : ℕ)
        → content (changed c i t c.disk h.at_i) m
          ≡ (if blk == m then f (content c blk) else content c m)
    reads m =
        content-in_place v i t h.at_i refl refl v' m
        ∙ rw (h.valid, h.same_no, content-held c blk v i s h)

    held : Holds (changed c i t c.disk h.at_i) blk i t
    held = record {
      at_i = get_elem?-set_self c.slots i t h.at_i;
      valid = h.valid;
      same_no = h.same_no;
    }

-- On a coherent cache `brelse` of a slot whose count is not 0 returns and lowers that count by one;
-- every other slot, the disk, the invariant and all reads are as before.
pub brelse_lem :
    {c : Cache} (v : IsCoherent c) (i : ℕ) (s : Slot)
    → get_elem? c.slots i ≡ some s
    → 0 < s.refcnt
    → (c' : Cache) × (brelse (some i) c ≡ ok (tt, c'))
      × IsCoherent c'
      × SameReads c c'
      × (c'.slots ≡ set c.slots i (drop_ref s))
      × (c'.disk ≡ c.disk)
unfolding brelse
brelse_lem {c} v i s at_i pos =
    let (v', reads) = in_place-SameReads v i (drop_ref s) at_i refl refl refl refl in
    (
      changed c i (drop_ref s) c.disk at_i,
      ground (arith, modify-eq-set c.slots i drop_ref at_i),
      v',
      reads,
      refl,
      refl,
    )

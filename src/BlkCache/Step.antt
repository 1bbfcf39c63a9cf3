-- ===== src/BlkCache/Step.antt =====
-- One slot changes, and with it perhaps the disk: when the invariant is kept, and what is read
-- afterwards.
use cute_core.Base.{
  ℕ, ◌≡◌, ◌≢◌, refl, sym, ◌∙◌, ◌⊎◌, inl, inr, true, false, some, arith, ◌==◌, Bool-cases, get_elem?,
  set, get_elem?-set, get_elem?-set_self, get_elem?-set_ne,
}
use cute_core.BlkCache.{Block, Slot, Cache}
use cute_core.BlkCache.View.{IsCoherent, Holds, Missed}

module _ (c : Cache) (i : ℕ) {s : Slot} (t : Slot) (d : ℕ → Block)
    (at_i : get_elem? c.slots i ≡ some s) where
  abbrev pub changed : Cache
  changed = record { slots = set c.slots i t; disk = d }

  -- A slot of the new state is the new one or an old one.
  pub at-changed :
      (j : ℕ) (u : Slot)
      → get_elem? (set c.slots i t) j ≡ some u
      → ((i ≡ j) × (u ≡ t)) ⊎ ((i ≢ j) × (get_elem? c.slots j ≡ some u))
  at-changed j u h = elim (Bool-cases (i == j)) [
    | inl e ↦ inl (ground arith, ground (arith, get_elem?-set c.slots i j t at_i))
    | inr e ↦ inr (ground arith, ground (arith, get_elem?-set c.slots i j t at_i))
  ]

  pub changed-IsCoherent :
      IsCoherent c
      → (t.valid ≡ true
          → (j : ℕ) (u : Slot) → i ≢ j
          → get_elem? c.slots j ≡ some u
          → u.valid ≡ true
          → u.blk_no ≢ t.blk_no)
      → (t.valid ≡ true → t.dirty ≡ false → t.bytes ≡ d t.blk_no)
      → ((j : ℕ) (u : Slot)
          → i ≢ j
          → get_elem? c.slots j ≡ some u
          → u.valid ≡ true
          → u.dirty ≡ false
          → d u.blk_no ≡ c.disk u.blk_no)
      → IsCoherent changed
  changed-IsCoherent v fresh t_clean kept = record { unique = unique'; clean = clean' }
    where
      unique' :
          (j k : ℕ) (u w : Slot)
          → get_elem? (set c.slots i t) j ≡ some u
          → get_elem? (set c.slots i t) k ≡ some w
          → u.valid ≡ true
          → w.valid ≡ true
          → u.blk_no ≡ w.blk_no
          → j ≡ k
      unique' j k u w hj hk vu vw e = elim (at-changed j u hj) [
        | inl (ij, ut) ↦ elim (at-changed k w hk) [
          | inl (ik, wt) ↦ sym ij ∙ ik
          | inr (ik, old) ↦ absurd (fresh (ground arith) k w ik old vw (ground arith))
        ]
        | inr (ij, old) ↦ elim (at-changed k w hk) [
          | inl (ik, wt) ↦ absurd (fresh (ground arith) j u ij old vu (ground arith))
          | inr (ik, old') ↦ v.unique j k u w old old' vu vw e
        ]
      ]

      clean' :
          (j : ℕ) (u : Slot)
          → get_elem? (set c.slots i t) j ≡ some u
          → u.valid ≡ true
          → u.dirty ≡ false
          → u.bytes ≡ d u.blk_no
      clean' j u hj vu du = elim (at-changed j u hj) [
        | inl (ij, ut) ↦ rw ut (t_clean (ground arith) (ground arith))
        | inr (ij, old) ↦ v.clean j u old vu du ∙ sym (kept j u ij old vu du)
      ]

  pub Holds-new : t.valid ≡ true → Holds changed t.blk_no i t
  Holds-new valid = record {
    at_i = get_elem?-set_self c.slots i t at_i;
    valid = valid;
    same_no = refl;
  }

  pub Holds-old : (blk j : ℕ) (u : Slot) → i ≢ j → Holds c blk j u → Holds changed blk j u
  Holds-old blk j u ne h = record {
    at_i = get_elem?-set_ne c.slots i j t ne ∙ h.at_i;
    valid = h.valid;
    same_no = h.same_no;
  }

  -- A block is missed afterwards if no other slot held it and the new one does not.
  pub Missed-changed :
      (blk : ℕ)
      → ((j : ℕ) (u : Slot)
          → i ≢ j
          → get_elem? c.slots j ≡ some u
          → u.valid ≡ true
          → u.blk_no ≢ blk)
      → (t.valid ≡ true → t.blk_no ≢ blk)
      → Missed changed blk
  Missed-changed blk others new j u h valid e = elim (at-changed j u h) [
    | inl (ij, ut) ↦ new (ground arith) (ground arith)
    | inr (ij, old) ↦ others j u ij old valid e
  ]

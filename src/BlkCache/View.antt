-- ===== src/BlkCache/View.antt =====
-- What the cache and the disk hold together, and the invariant under which that is well defined.
use cute_core.Base.{
  ℕ, ◌≡◌, ◌≢◌, ◌∙◌, sym, ◌⊎◌, inl, inr, true, false, none, some, arith, find_index,
  find_index_sound, find_index-none, get_elem?, Option-cases,
}
use cute_core.BlkCache.{Block, Slot, Cache, is_hit}

-- The data of block `blk` as a reader through the cache sees them.
unfoldable pub content : Cache → ℕ → Block
content c blk = elim (find_index (is_hit blk) c.slots) [
  | none ↦ c.disk blk
  | some i ↦ elim (get_elem? c.slots i) [ none ↦ c.disk blk | some s ↦ s.bytes ]
]

-- No block is held twice, and what is held clean is what the disk holds.
pub record IsCoherent (c : Cache) : Type 0 where
  pub unique :
      (i j : ℕ) (s t : Slot)
      → get_elem? c.slots i ≡ some s
      → get_elem? c.slots j ≡ some t
      → s.valid ≡ true
      → t.valid ≡ true
      → s.blk_no ≡ t.blk_no
      → i ≡ j
  pub clean :
      (i : ℕ) (s : Slot)
      → get_elem? c.slots i ≡ some s
      → s.valid ≡ true
      → s.dirty ≡ false
      → s.bytes ≡ c.disk s.blk_no

-- Slot `i`, which is `s`, holds block `blk`.
pub record Holds (c : Cache) (blk i : ℕ) (s : Slot) : Type 0 where
  pub at_i : get_elem? c.slots i ≡ some s
  pub valid : s.valid ≡ true
  pub same_no : s.blk_no ≡ blk

abbrev pub Missed : Cache → ℕ → Type 0
Missed c blk = (i : ℕ) (s : Slot) → get_elem? c.slots i ≡ some s → s.valid ≡ true → s.blk_no ≢ blk

-- where the first loop of `bread` stops
pub held_at :
    (c : Cache) (blk j : ℕ)
    → find_index (is_hit blk) c.slots ≡ some j
    → (t : Slot) × Holds c blk j t
held_at c blk j found =
    let (t, at_j, hit) = find_index_sound (is_hit blk) c.slots j found in
    (t, record { at_i = at_j; valid = ground arith; same_no = ground arith })

pub Missed-of_none : (c : Cache) (blk : ℕ) → find_index (is_hit blk) c.slots ≡ none → Missed c blk
Missed-of_none c blk none' i s at_i valid e =
    ground (arith, find_index-none (is_hit blk) c.slots i none' at_i)

module _ (c : Cache) (blk : ℕ) where
  -- Every block is held by a slot, or by none.
  pub held-or-Missed : Missed c blk ⊎ ((i : ℕ) × (s : Slot) × Holds c blk i s)
  held-or-Missed = elim (Option-cases (find_index (is_hit blk) c.slots)) [
    | inl none' ↦ inl (Missed-of_none c blk none')
    | inr (j, found) ↦ (let (t, h) = held_at c blk j found in inr (j, t, h))
  ]

  pub content-held : IsCoherent c → (i : ℕ) (s : Slot) → Holds c blk i s → content c blk ≡ s.bytes
  unfolding content
  content-held v i s h = elim (Option-cases (find_index (is_hit blk) c.slots)) [
    | inl none' ↦ absurd (Missed-of_none c blk none' i s h.at_i h.valid h.same_no)
    | inr (j, found) ↦
        (let (t, g) = held_at c blk j found in
          let same : i ≡ j =
            v.unique i j s t h.at_i g.at_i h.valid g.valid (h.same_no ∙ sym g.same_no) in
          ground arith)
  ]

  pub content-Missed : Missed c blk → content c blk ≡ c.disk blk
  unfolding content
  content-Missed miss = elim (Option-cases (find_index (is_hit blk) c.slots)) [
    | inl none' ↦ ground arith
    | inr (j, found) ↦
        (let (t, g) = held_at c blk j found in absurd (miss j t g.at_i g.valid g.same_no))
  ]

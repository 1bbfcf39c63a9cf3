-- ===== src/Ext2/Dir/Search.antt =====
-- What it is to look for a name among the entries of a block, and that `find_entry` does so.
use cute_core.Base.{
  ℕ, zero, suc, ◌+◌, ◌%◌, ◌<◌, ◌≤◌, ◌≡◌, ◌≢◌, refl, arith, true, false, leb, ◌==◌, Option, none,
  some, Bool-cases, inl, inr, subst,
}
use cute_core.Base.Words.{Bytes, get_u16, get_u32}
use cute_core.Ext2.Dir.{same_bytes, is_named, find_entry}

module _ (block_size : ℕ) (name : Bytes) (namelen : ℕ) (b : Bytes) where
  -- The entry at `pos` is in use and has that name: the number of its inode is its first word, the
  -- length of its name its byte 6, and its name begins at its byte 8.
  pub record IsNamed (pos : ℕ) : Type 0 where
    pub in_use : get_u32 pos b ≢ 0
    pub same_length : b (pos + 6) ≡ namelen % 256
    pub same_name : (i : ℕ) → i < namelen → b (pos + 8 + i) ≡ name i

  -- `r` is the first entry of that name from `pos` on. An entry of which not eight bytes lie in the
  -- block, or whose length is 0, is the end; the next entry is as far on as the length says.
  pub data Search (r : Option ℕ) : ℕ → Type 0 where
    outside : {pos : ℕ} → block_size < pos + 8 → r ≡ none → Search r pos
    no_length : {pos : ℕ} → pos + 8 ≤ block_size → get_u16 (pos + 4) b ≡ 0 → r ≡ none → Search r pos
    here :
        {pos : ℕ}
        → pos + 8 ≤ block_size
        → get_u16 (pos + 4) b ≢ 0
        → IsNamed pos
        → r ≡ some pos
        → Search r pos
    later :
        {pos : ℕ}
        → pos + 8 ≤ block_size
        → get_u16 (pos + 4) b ≢ 0
        → (IsNamed pos → ⊥)
        → Search r (pos + get_u16 (pos + 4) b)
        → Search r pos

same_bytes-all :
    (n o : ℕ) (b name : Bytes) → same_bytes n o b name ≡ true → (i : ℕ) → i < n → b (o + i) ≡ name i
unfolding same_bytes
same_bytes-all zero o b name e i h = absurd (omega arith)
same_bytes-all (suc n) o b name e i h = elim (Bool-cases (i == n)) [
  | inl last ↦
      (let at : n ≡ i = ground arith in
        let same : b (o + n) ≡ name n = ground arith in subst (λ k. b (o + k) ≡ name k) at same)
  | inr other ↦ same_bytes-all n o b name (ground arith) i (ground arith)
]

all-same_bytes :
    (n o : ℕ) (b name : Bytes)
    → ((i : ℕ) → i < n → b (o + i) ≡ name i)
    → same_bytes n o b name ≡ true
unfolding same_bytes
all-same_bytes zero o b name h = refl
all-same_bytes (suc n) o b name h =
    let rest = all-same_bytes n o b name (λ i lt. h i (omega arith)) in
    let last : (b (o + n) == name n) ≡ true = ground (arith, h n (omega arith)) in
    rw (last, rest) refl

module _ (block_size : ℕ) (name : Bytes) (namelen : ℕ) (b : Bytes) (pos : ℕ) where
  is_named-true : is_named name namelen b pos ≡ true → IsNamed block_size name namelen b pos
  unfolding is_named
  is_named-true e = record {
    in_use = ground arith;
    same_length = ground arith;
    same_name = same_bytes-all namelen (pos + 8) b name (ground arith);
  }

  IsNamed-is_named : IsNamed block_size name namelen b pos → is_named name namelen b pos ≡ true
  unfolding is_named
  IsNamed-is_named n =
      let used : (get_u32 pos b == 0) ≡ false = ground (arith, n.in_use) in
      let long : (b (pos + 6) == namelen % 256) ≡ true = ground (arith, n.same_length) in
      rw (used, long, all-same_bytes namelen (pos + 8) b name n.same_name) refl

-- The search for a name ends, whatever the bytes of the block are: with as much fuel as there are
-- bytes left in the block it does not run out, and it gives the first entry of that name among those
-- that the lengths lead to, or none if there is none.
pub find_entry_lem :
    (n block_size : ℕ) (name : Bytes) (namelen : ℕ) (b : Bytes) (pos : ℕ)
    → block_size ≤ pos + n
    → (r : Option ℕ) × (find_entry n block_size name namelen b pos ≡ some r)
      × Search block_size name namelen b r pos
unfolding find_entry
find_entry_lem zero block_size name namelen b pos enough =
    let out : leb (pos + 8) block_size ≡ false = ground arith in
    (none, rw (out) refl, outside (omega arith) refl)
find_entry_lem (suc n) block_size name namelen b pos enough =
    elim (Bool-cases (leb (pos + 8) block_size)) [
      | inr out ↦ (none, rw (out) refl, outside (ground arith) refl)
      | inl within ↦ elim (Bool-cases (get_u16 (pos + 4) b == 0)) [
        | inl stop ↦ (none, rw (within, stop) refl, no_length (ground arith) (ground arith) refl)
        | inr more ↦ elim (Bool-cases (is_named name namelen b pos)) [
          | inl named ↦ (
            some pos,
            rw (within, more, named) refl,
            here (ground arith) (ground arith) (is_named-true block_size name namelen b pos named)
                refl,
          )
          | inr other ↦
              (let (r, run, found) =
                  find_entry_lem n block_size name namelen b (pos + get_u16 (pos + 4) b)
                    (ground arith) in
                (
                  r,
                  rw (within, more, other) run,
                  later (ground arith) (ground arith)
                      (λ is. ground (arith, IsNamed-is_named block_size name namelen b pos is))
                      found,
                ))
        ]
      ]
    ]

-- ===== src/Ext2/Dir/Insert.antt =====
-- A name that was added to a block of a directory is found in it.
use cute_core.Base.{
  ℕ, zero, suc, ◌+◌, ◌-◌, ◌^◌, ◌≤◌, ◌<◌, ◌≡◌, ◌≢◌, ◌⊎◌, refl, sym, ap, ◌∙◌, true, false, none, some,
  leb, ◌==◌, arith, Option-cases, inl, inr,
}
use cute_core.Base.Words.{Bytes, get_u16, put_u8, put_u16, put_u32, put_bytes}
use cute_core.Ext2.Dir.{
  entry_size, de_inode, rec_len, name_len, is_named, find_entry, aligned, actual, slack, find_slack,
  write_entry, split_entry, add_in_block,
}
use cute_core.Ext2.Dir.Fuel.{find_entry_fuel}
use cute_core.Ext2.Dir.Entry.{
  get_u16-Agree, is_named-Agree, find_slack_ge, entry_rec, entry_inode, entry-is_named,
  find_slack-some, find_entry-none, find_entry_next, find_slack_enough,
}

module _ (b : Bytes) (pos ino namelen ftype : ℕ) (name : Bytes) (bytes : (i : ℕ) → b i < 256)
    (short : namelen < 256) where
  abbrev after : Bytes
  after = split_entry pos ino namelen name ftype b

  -- where the new entry lies
  abbrev new_pos : ℕ
  new_pos = pos + actual b pos

  actual_ge : (p : ℕ) → entry_size + name_len b p ≤ actual b p
  actual_ge p = omega (arith, bytes (p + 6))

  rec_lt : (p : ℕ) → rec_len b p < 2 ^ 16
  unfolding get_u16
  rec_lt p = omega (arith, bytes (p + 4), bytes (p + 4 + 1))

  untouched :
      (i : ℕ)
      → (i < pos + 4) ⊎ ((pos + 6 ≤ i) × (i < new_pos)) ⊎ (new_pos + 8 + namelen ≤ i)
      → after i ≡ b i
  unfolding split_entry write_entry put_u8 put_u16 put_u32 put_bytes
  untouched i h = ground (arith, actual_ge pos)

  -- the entry that was cut
  cut_rec : rec_len after pos ≡ actual b pos
  unfolding split_entry write_entry get_u16 put_u8 put_u16 put_u32 put_bytes
  cut_rec = ground (arith, actual_ge pos, bytes (pos + 6))

  cut-is_named : is_named name namelen after pos ≡ is_named name namelen b pos
  cut-is_named =
      is_named-Agree after b name namelen pos short (λ i lo hi. untouched i (inl hi))
        (untouched (pos + 6) (inr (inl (omega arith, omega (arith, actual_ge pos)))))
        (λ i lo hi. untouched i (inr (inl (omega arith, omega (arith, actual_ge pos)))))

  -- an entry before it
  earlier_same :
      (p : ℕ)
      → p + actual b p ≤ pos
      → (rec_len after p ≡ rec_len b p)
        × (is_named name namelen after p ≡ is_named name namelen b p)
  earlier_same p le = (
    get_u16-Agree after b (p + 4) (λ i lo hi. untouched i (inl (omega (arith, actual_ge p)))),
    is_named-Agree after b name namelen p short
        (λ i lo hi. untouched i (inl (omega (arith, actual_ge p))))
        (untouched (p + 6) (inl (omega (arith, actual_ge p))))
        (λ i lo hi. untouched i (inl (omega (arith, actual_ge p)))),
  )

  -- The search comes to the place of the new entry. Every entry that it passes has too little slack,
  -- so its size is not above its record's, and its bytes lie before that place.
  passed :
      (p needed : ℕ) → needed < 2 ^ 31 → leb needed (slack b p) ≡ false → actual b p ≤ rec_len b p
  passed p needed small h = ground (arith, actual_ge p, rec_lt p, bytes (p + 6))

  split_inode : ino < 2 ^ 32 → de_inode after new_pos ≡ ino
  unfolding split_entry
  split_inode word = entry_inode new_pos ino (slack b pos) namelen ftype name _ word

  module _ (block_size : ℕ) (ne : ino ≢ 0) (word : ino < 2 ^ 32)
      (fits : actual b pos + (entry_size + namelen) ≤ rec_len b pos)
      (inside : pos + rec_len b pos ≤ block_size) where
    slack_eq : slack b pos ≡ rec_len b pos - actual b pos
    slack_eq = omega (arith, rec_lt pos)

    new_rec : rec_len after new_pos ≡ slack b pos
    unfolding split_entry
    new_rec =
        entry_rec new_pos ino (slack b pos) namelen ftype name _
          (omega (arith, slack_eq, rec_lt pos))

    new-is_named : is_named name namelen after new_pos ≡ true
    unfolding split_entry
    new-is_named = entry-is_named new_pos ino (slack b pos) namelen ftype name _ ne word short

    found_new :
        (n : ℕ) → find_entry (suc n) block_size name namelen after new_pos ≡ some (some new_pos)
    unfolding find_entry
    found_new n =
        let fits' : leb (new_pos + entry_size) block_size ≡ true = ground arith in
        let has : (rec_len after new_pos == 0) ≡ false = ground (arith, new_rec, slack_eq) in
        rw (fits', has, new-is_named) refl

    -- the entry that was cut, and the new one behind it
    at_pos :
        (n : ℕ)
        → is_named name namelen b pos ≡ false
        → find_entry (suc (suc n)) block_size name namelen after pos ≡ some (some new_pos)
    at_pos n other =
        find_entry_next (suc n) block_size after pos name namelen (omega (arith, actual_ge pos))
          (omega (arith, cut_rec, actual_ge pos)) (cut-is_named ∙ other)
        ∙ ap (λ r. find_entry (suc n) block_size name namelen after (pos + r)) cut_rec
        ∙ found_new n

    find_split_lem :
        (n p needed : ℕ)
        → needed < 2 ^ 31
        → find_slack n block_size needed b p ≡ some pos
        → find_entry n block_size name namelen b p ≡ some none
        → find_entry (suc n) block_size name namelen after p ≡ some (some new_pos)
    unfolding find_slack
    find_split_lem zero p needed small e absent = absurd (ground arith)
    find_split_lem (suc n) p needed small e absent =
        let (in_block, more, where_it_is) = find_slack-some n block_size b p needed pos e in
        let (other, absent') = find_entry-none n block_size b p name namelen in_block more absent in
        elim where_it_is [
          | inl (has, here) ↦
              (let other' : is_named name namelen b pos ≡ false =
                  ap (λ q. is_named name namelen b q) (sym here) ∙ other in
                ap (find_entry (suc (suc n)) block_size name namelen after) here ∙ at_pos n other')
          | inr (lacks, e') ↦
              (let le = passed p needed small lacks in
                let ge = find_slack_ge n block_size needed b (p + rec_len b p) pos e' in
                let (same_rec, same_named) = earlier_same p (omega arith) in
                find_entry_next (suc n) block_size after p name namelen in_block
                  (λ z. more (sym same_rec ∙ z)) (same_named ∙ other)
                ∙ ap (λ r. find_entry (suc n) block_size name namelen after (p + r)) same_rec
                ∙ find_split_lem n (p + rec_len b p) needed small e' absent')
        ]

-- A name of at most 255 characters and an inode other than 0 are added to a block that has space for
-- them and does not hold the name: the new entry is found then
-- under that name, with its inode, if the entry that is split lies within its record and its record
-- within the block.
pub add_in_block-find_entry :
    (block_size ino namelen ftype : ℕ) (name b b' : Bytes)
    → ((i : ℕ) → b i < 256)
    → namelen < 256
    → ino ≢ 0
    → ino < 2 ^ 32
    → ((q : ℕ)
        → find_slack block_size block_size (aligned (entry_size + namelen)) b 0 ≡ some q
        → (actual b q ≤ rec_len b q) × (q + rec_len b q ≤ block_size))
    → find_entry block_size block_size name namelen b 0 ≡ some none
    → add_in_block block_size ino namelen name ftype b ≡ some b'
    → (pos : ℕ) × (find_entry block_size block_size name namelen b' 0 ≡ some (some pos))
      × (de_inode b' pos ≡ ino)
unfolding add_in_block
add_in_block-find_entry block_size ino namelen ftype name b b' bytes short ne word sound absent
      added =
    elim (Option-cases (find_slack block_size block_size (aligned (entry_size + namelen)) b 0)) [
      | inl full ↦ absurd (ground arith)
      | inr (pos, e) ↦
          (let (in_record, in_block) = sound pos e in
            let is_new : split_entry pos ino namelen name ftype b ≡ b' = ground arith in
            let fits : actual b pos + (entry_size + namelen) ≤ rec_len b pos =
              fits_lem pos e in_record in
            (
              new_pos b pos ino namelen ftype name bytes short,
              find_entry_fuel block_size (suc block_size) block_size name namelen b' 0 (omega arith)
                    (omega arith)
                  ∙ ap (λ (c : Bytes). find_entry (suc block_size) block_size name namelen c 0)
                      (sym is_new)
                  ∙ find_split_lem b pos ino namelen ftype name bytes short block_size ne word fits
                      in_block block_size 0 (aligned (entry_size + namelen)) (omega arith) e absent,
              ap (λ (c : Bytes). de_inode c (pos + actual b pos)) (sym is_new)
                  ∙ split_inode b pos ino namelen ftype name bytes short word,
            ))
    ]
  where
    fits_lem :
        (pos : ℕ)
        → find_slack block_size block_size (aligned (entry_size + namelen)) b 0 ≡ some pos
        → actual b pos ≤ rec_len b pos
        → actual b pos + (entry_size + namelen) ≤ rec_len b pos
    fits_lem pos e le =
        let enough =
          find_slack_enough block_size block_size (aligned (entry_size + namelen)) b 0 pos e in
        omega (arith, rec_lt b pos ino namelen ftype name bytes short pos)

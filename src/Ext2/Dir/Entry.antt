-- ===== src/Ext2/Dir/Entry.antt =====
-- What an entry of a directory reads as, and the rounds of the searches of a block.
use cute_core.Base.{
  ℕ, zero, suc, ◌+◌, ◌-◌, ◌%◌, ◌^◌, ◌≤◌, ◌<◌, ◌≡◌, ◌≢◌, ◌⊎◌, refl, ◌∙◌, true, false, ◌&&◌, none,
  some, leb, ltb, ◌==◌, arith, Bool-cases, inl, inr,
}
use cute_core.Base.Words.{
  Bytes, get_u16, get_u32, put_u8, put_u16, put_u32, put_bytes, get_u32-put_u32,
}
use cute_core.Ext2.Dir.{
  entry_size, de_inode, rec_len, name_len, same_bytes, is_named, find_entry, slack, find_slack,
  write_entry,
}

-- Two blocks that agree on the bytes from `lo` to `hi`.
abbrev pub Agree : Bytes → Bytes → ℕ → ℕ → Type 0
Agree b c lo hi = (i : ℕ) → lo ≤ i → i < hi → b i ≡ c i

module _ (b c : Bytes) where
  pub same_bytes-Agree :
      (n o : ℕ) (name : Bytes) → Agree b c o (o + n) → same_bytes n o b name ≡ same_bytes n o c name
  unfolding same_bytes
  same_bytes-Agree zero o name h = refl
  same_bytes-Agree (suc n) o name h =
      let tail = same_bytes-Agree n o name (λ i lo hi. h i lo (omega arith)) in
      let last : b (o + n) ≡ c (o + n) = h (o + n) (omega arith) (omega arith) in
      rw (last, tail) refl

  pub get_u16-Agree : (o : ℕ) → Agree b c o (o + 2) → get_u16 o b ≡ get_u16 o c
  unfolding get_u16
  get_u16-Agree o h =
      let e0 = h o (omega arith) (omega arith) in
      let e1 = h (o + 1) (omega arith) (omega arith) in rw (e0, e1) refl

  pub get_u32-Agree : (o : ℕ) → Agree b c o (o + 4) → get_u32 o b ≡ get_u32 o c
  unfolding get_u32
  get_u32-Agree o h =
      let e0 = h o (omega arith) (omega arith) in
      let e1 = h (o + 1) (omega arith) (omega arith) in
      let e2 = h (o + 2) (omega arith) (omega arith) in
      let e3 = h (o + 3) (omega arith) (omega arith) in rw (e0, e1, e2, e3) refl

  -- An entry is named alike in both if they agree on its inode, the length of its name, and its name.
  pub is_named-Agree :
      (name : Bytes) (namelen pos : ℕ)
      → namelen < 256
      → Agree b c pos (pos + 4)
      → b (pos + 6) ≡ c (pos + 6)
      → Agree b c (pos + 8) (pos + 8 + name_len c pos)
      → is_named name namelen b pos ≡ is_named name namelen c pos
  unfolding is_named
  is_named-Agree name namelen pos short ino len bytes =
      elim (Bool-cases (name_len c pos == namelen % 256)) [
        | inl e ↦
            (let same : name_len c pos ≡ namelen = ground arith in
              let names =
                same_bytes-Agree namelen (pos + 8) name (λ i lo hi. bytes i lo (omega arith)) in
              rw (get_u32-Agree pos ino, len, names) refl)
        | inr ne ↦ rw (len, ne, get_u32-Agree pos ino) (ground arith)
      ]

-- A position that is found lies at or behind the one that the search began at.
pub find_slack_ge :
    (n block_size needed : ℕ) (b : Bytes) (pos q : ℕ)
    → find_slack n block_size needed b pos ≡ some q
    → pos ≤ q
unfolding find_slack
find_slack_ge zero block_size needed b pos q e = absurd (ground arith)
find_slack_ge (suc n) block_size needed b pos q e =
    ground (arith, find_slack_ge n block_size needed b (pos + rec_len b pos) q)

-- What a new entry reads as.
module _ (pos ino len namelen ftype : ℕ) (name c : Bytes) where
  abbrev pub written : Bytes
  written = write_entry pos ino len namelen name ftype c

  pub entry_rec : len < 2 ^ 16 → rec_len written pos ≡ len
  unfolding get_u16 write_entry put_u8 put_u16 put_u32 put_bytes
  entry_rec h = ground arith

  pub before_rec : (i : ℕ) → pos ≤ i → i < pos + 4 → written i ≡ put_u32 pos ino c i
  unfolding write_entry put_u8 put_u16 put_bytes
  before_rec i lo hi = ground arith

  pub entry_inode : ino < 2 ^ 32 → de_inode written pos ≡ ino
  entry_inode h =
      get_u32-Agree written (put_u32 pos ino c) pos before_rec ∙ get_u32-put_u32 pos ino c h

  pub entry_len : namelen < 256 → name_len written pos ≡ namelen
  unfolding write_entry put_u8 put_u16 put_u32 put_bytes
  entry_len h = ground arith

  pub name_byte : (i : ℕ) → i < namelen → written (pos + 8 + i) ≡ name i
  unfolding write_entry put_bytes
  name_byte i h =
      let same : pos + 8 + i - (pos + 8) ≡ i = omega arith in
      let here : (leb (pos + 8) (pos + 8 + i) && ltb (pos + 8 + i) (pos + 8 + namelen)) ≡ true =
        ground arith in
      rw (here, same) refl

  pub entry_name : (n : ℕ) → n ≤ namelen → same_bytes n (pos + entry_size) written name ≡ true
  unfolding same_bytes
  entry_name zero h = refl
  entry_name (suc n) h = ground (arith, name_byte n (omega arith), entry_name n (omega arith))

  pub entry-is_named :
      ino ≢ 0 → ino < 2 ^ 32 → namelen < 256 → is_named name namelen written pos ≡ true
  unfolding is_named
  entry-is_named ne word short =
      let has : (ino == 0) ≡ false = ground arith in
      let same : (namelen == namelen % 256) ≡ true = ground arith in
      rw (entry_inode word, entry_len short, has, same) (entry_name namelen (omega arith))

-- One round of each of the two searches.
module _ (n block_size : ℕ) (b : Bytes) (p : ℕ) where
  pub find_slack-some :
      (needed q : ℕ)
      → find_slack (suc n) block_size needed b p ≡ some q
      → (p + entry_size ≤ block_size)
        × (rec_len b p ≢ 0)
        × (((leb needed (slack b p) ≡ true) × (p ≡ q))
            ⊎ ((leb needed (slack b p) ≡ false)
                × (find_slack n block_size needed b (p + rec_len b p) ≡ some q)))
  unfolding find_slack
  find_slack-some needed q e = elim (Bool-cases (leb (p + entry_size) block_size)) [
    | inr out ↦ absurd (ground arith)
    | inl inside ↦ elim (Bool-cases (rec_len b p == 0)) [
      | inl stop ↦ absurd (ground arith)
      | inr more ↦ elim (Bool-cases (leb needed (slack b p))) [
        | inl here ↦ (ground arith, ground arith, inl (here, ground arith))
        | inr on ↦ (ground arith, ground arith, inr (on, ground arith))
      ]
    ]
  ]

  pub find_entry-none :
      (name : Bytes) (namelen : ℕ)
      → p + entry_size ≤ block_size
      → rec_len b p ≢ 0
      → find_entry (suc n) block_size name namelen b p ≡ some none
      → (is_named name namelen b p ≡ false)
        × (find_entry n block_size name namelen b (p + rec_len b p) ≡ some none)
  unfolding find_entry
  find_entry-none name namelen inside more e = elim (Bool-cases (is_named name namelen b p)) [
    | inl here ↦ absurd (ground arith)
    | inr other ↦ (other, ground arith)
  ]

  pub find_entry_next :
      (name : Bytes) (namelen : ℕ)
      → p + entry_size ≤ block_size
      → rec_len b p ≢ 0
      → is_named name namelen b p ≡ false
      → find_entry (suc n) block_size name namelen b p
        ≡ find_entry n block_size name namelen b (p + rec_len b p)
  unfolding find_entry
  find_entry_next name namelen inside more other =
      let fits : leb (p + entry_size) block_size ≡ true = ground arith in
      let has : (rec_len b p == 0) ≡ false = ground arith in rw (fits, has, other) refl

-- What is found has slack enough.
pub find_slack_enough :
    (n block_size needed : ℕ) (b : Bytes) (p q : ℕ)
    → find_slack n block_size needed b p ≡ some q
    → needed ≤ slack b q
unfolding find_slack
find_slack_enough zero block_size needed b p q e = absurd (ground arith)
find_slack_enough (suc n) block_size needed b p q e =
    elim (find_slack-some n block_size b p needed q e).2 [
      | inl (has, here) ↦ rw (← here) (ground arith)
      | inr (lacks, e') ↦ find_slack_enough n block_size needed b (p + rec_len b p) q e'
    ]

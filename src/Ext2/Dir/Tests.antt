-- ===== src/Ext2/Dir/Tests.antt =====
-- The theorems of directories at small blocks.
use cute_core.Base.{
  ℕ, Option, ◌+◌, ◌≤◌, ◌≡◌, refl, arith, true, false, some, none, ◌==◌, if◌then◌else◌,
}
use cute_core.Base.Words.{Bytes, get_u16, get_u32}
use cute_core.Ext2.Sample.{fs, fs-IsMounted}
use cute_core.Ext2.Mounted.{blocks}
use cute_core.Ext2.Inode.{Inode, dir}
use cute_core.Ext2.Dir.{
  rec_len, de_inode, same_bytes, is_named, find_entry, actual, find_slack, add_in_block,
  split_entry, ext2_lookup,
}
use cute_core.Ext2.Dir.Search.{Search, find_entry_lem}
use cute_core.Ext2.Dir.Insert.{add_in_block-find_entry}
use cute_core.Ext2.Dir.Lookup.{Answers, ext2_lookup_lem}

-- a block of 64 bytes with the one entry "a" of inode 3
abbrev one_entry : Bytes
one_entry i =
    if i == 0 then 3 else if i == 4 then 64 else if i == 6 then 1 else if i == 8 then 97 else 0

abbrev bb : Bytes
bb _ = 98

abbrev two_entries : Bytes
two_entries = split_entry 0 4 2 bb 1 one_entry

has_space : find_slack 64 64 12 one_entry 0 ≡ some 0
unfolding find_slack get_u16
has_space = refl

is_absent : find_entry 64 64 bb 2 one_entry 0 ≡ some none
unfolding find_entry get_u16 get_u32 is_named same_bytes
is_absent = refl

finds_old : find_entry 64 64 (λ _. 97) 1 one_entry 0 ≡ some (some 0)
unfolding find_entry get_u16 get_u32 is_named same_bytes
finds_old = refl

is_added : add_in_block 64 4 2 bb 1 one_entry ≡ some two_entries
unfolding add_in_block find_slack get_u16
is_added = refl

record_is_sound :
    (q : ℕ)
    → find_slack 64 64 12 one_entry 0 ≡ some q
    → (actual one_entry q ≤ rec_len one_entry q) × (q + rec_len one_entry q ≤ 64)
unfolding get_u16
record_is_sound q e =
    let at_zero : 0 ≡ q = ground (arith, has_space) in rw (← at_zero) (omega arith, omega arith)

add_in_block-find_entry_example :
    (pos : ℕ) × (find_entry 64 64 bb 2 two_entries 0 ≡ some (some pos))
    × (de_inode two_entries pos ≡ 4)
add_in_block-find_entry_example =
    add_in_block-find_entry 64 4 2 1 bb one_entry two_entries (λ i. ground arith) (omega arith)
      (omega arith) (omega arith) record_is_sound is_absent is_added

find_entry_lem_example :
    (r : Option ℕ) × (find_entry 64 64 bb 2 two_entries 0 ≡ some r) × Search 64 bb 2 two_entries r 0
find_entry_lem_example = find_entry_lem 64 64 bb 2 two_entries 0 (omega arith)

-- a directory of one block
abbrev root : Inode
root = record {
  ino = 2;
  type = dir;
  mode = 0x41ED;
  uid = 0;
  gid = 0;
  size = 4096;
  nlinks = 2;
  dirty = false;
  valid = true;
  i_block = λ i. if i == 0 then 6 else 0;
  i_flags = 0;
}

ext2_lookup_lem_example :
    Answers (blocks fs) root (λ _. 97) 1 fs 0 1 (ext2_lookup root (λ _. 97) 1 (λ _. 0) fs)
ext2_lookup_lem_example = ext2_lookup_lem fs-IsMounted root (λ _. 97) 1 (λ _. 0) refl (omega arith)

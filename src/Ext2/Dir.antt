-- ===== src/Ext2/Dir.antt =====
-- fs/ext2/dir.c: the entries in one block of a directory: how `ext2_lookup` and `ext2_unlink` look
-- for a name, where `ext2_dir_add_entry` finds space, and what the last two write. The loops over
-- the entries have fuel; an entry moves the position on by one at least, so the size of the block
-- is enough. A search that runs out of fuel has no result, which is not the same as finding nothing. `memcmp(de->name, name, n) == 0` says that the `n` bytes are equal.
mod Entry
mod Fuel
mod Insert
mod Lookup
mod Search
mod Tests
use cute_core.Base.{
  ℕ, zero, suc, ◌+◌, ◌*◌, ◌/◌, ◌%◌, Bool, true, not, ◌&&◌, Option, none, some, leb, ◌==◌,
  if◌then◌else◌, false, ◌||◌, ◌-◌, ◌^◌, Cmd, pure, fault, ◌>>=◌,
}
use cute_core.Base.Words.{Bytes, get_u16, get_u32, put_u8, put_u16, put_u32, put_bytes}
use cute_core.Ext2.{Fs, u16, u32, sub32}
use cute_core.Ext2.Inode.{Inode, InodeType, file, dir, symlink, dev}
use cute_core.Ext2.File.{ext2_read_block}

-- `sizeof(struct ext2_dir_entry)`, and the fields of the entry at `pos`
abbrev pub entry_size : ℕ
entry_size = 8

abbrev pub de_inode : Bytes → ℕ → ℕ
de_inode b pos = get_u32 pos b

abbrev pub rec_len : Bytes → ℕ → ℕ
rec_len b pos = get_u16 (pos + 4) b

abbrev pub name_len : Bytes → ℕ → ℕ
name_len b pos = b (pos + 6)

-- the `n` bytes at `o` are those of `name`
unfoldable pub same_bytes : ℕ → ℕ → Bytes → Bytes → Bool
same_bytes zero o b name = true
same_bytes (suc n) o b name = (b (o + n) == name n) && same_bytes n o b name

-- the test for the entry that is looked for
unfoldable pub is_named : Bytes → ℕ → Bytes → ℕ → Bool
is_named name namelen b pos =
    not (de_inode b pos == 0)
    && (name_len b pos == namelen % 256)
    && same_bytes namelen (pos + entry_size) b name

-- The entry of that name, from `pos` on; `none` is a search that runs out of fuel, and `some none` one
-- that finds nothing.
unfoldable pub find_entry : ℕ → ℕ → Bytes → ℕ → Bytes → ℕ → Option (Option ℕ)
find_entry zero block_size name namelen b pos =
    if leb (pos + entry_size) block_size then none else some none
find_entry (suc n) block_size name namelen b pos =
    let rest = find_entry n block_size name namelen b (pos + rec_len b pos) in
    if leb (pos + entry_size) block_size
    then if rec_len b pos == 0
      then some none
      else if is_named name namelen b pos
      then some (some pos)
      else rest
    else some none

-- `x + 3 & ~3u`
abbrev pub aligned : ℕ → ℕ
aligned x = u32 (x + 3) / 4 * 4

abbrev pub actual : Bytes → ℕ → ℕ
actual b pos = aligned (entry_size + name_len b pos)

abbrev pub slack : Bytes → ℕ → ℕ
slack b pos = sub32 (rec_len b pos) (actual b pos)

-- The first entry with space for `needed` bytes behind it.
unfoldable pub find_slack : ℕ → ℕ → ℕ → Bytes → ℕ → Option ℕ
find_slack zero block_size needed b pos = none
find_slack (suc n) block_size needed b pos =
    let rest = find_slack n block_size needed b (pos + rec_len b pos) in
    if leb (pos + entry_size) block_size
    then if rec_len b pos == 0 then none else if leb needed (slack b pos) then some pos else rest
    else none

-- a new entry at `pos`
unfoldable pub write_entry : ℕ → ℕ → ℕ → ℕ → Bytes → ℕ → Bytes → Bytes
write_entry pos ino len namelen name ftype b = put_bytes (pos + 8) namelen name (
    put_u8 (pos + 7) ftype
      (put_u8 (pos + 6) namelen (put_u16 (pos + 4) (u16 len) (put_u32 pos ino b))))

-- The entry at `pos` is cut to its size, and a new one takes the space behind it.
unfoldable pub split_entry : ℕ → ℕ → ℕ → Bytes → ℕ → Bytes → Bytes
split_entry pos ino namelen name ftype b =
    write_entry (pos + actual b pos) ino (slack b pos) namelen name ftype
      (put_u16 (pos + 4) (u16 (actual b pos)) b)

-- The part of `ext2_dir_add_entry` in one block; `none` if it has no space.
unfoldable pub add_in_block : ℕ → ℕ → ℕ → Bytes → ℕ → Bytes → Option Bytes
add_in_block block_size ino namelen name ftype b =
    elim (find_slack block_size block_size (aligned (entry_size + namelen)) b 0) [
      | none ↦ none
      | some pos ↦ some (split_entry pos ino namelen name ftype b)
    ]

abbrev pub is_dir : InodeType → Bool
is_dir file = false
is_dir dir = true
is_dir symlink = false
is_dir dev = false

abbrev pub blocks_of : ℕ → ℕ → ℕ
blocks_of block_size size = (size + block_size + 2 ^ 32 - 1) % 2 ^ 32 / block_size

-- the entry that was found in a block, or the rest of the loop
abbrev pub if_found : Option (Option ℕ) → Bytes → Cmd Fs (Option ℕ) → Cmd Fs (Option ℕ)
if_found none bb rest = λ s. fault
if_found (some none) bb rest = rest
if_found (some (some pos)) bb rest = pure (some (de_inode bb pos))

-- The loop of `ext2_lookup` over the blocks that are left, from `lbk` on.
unfoldable pub lookup_blocks : ℕ → Inode → Bytes → ℕ → ℕ → Bytes → Cmd Fs (Option ℕ)
lookup_blocks zero ip name namelen lbk buf s = pure none s
lookup_blocks (suc n) ip name namelen lbk buf s =
    (do
      r ← ext2_read_block ip lbk buf
      elim r [
        | none ↦ lookup_blocks n ip name namelen (lbk + 1) buf
        | some bb ↦
            if_found (find_entry s.block_size s.block_size name namelen bb 0) bb
              (lookup_blocks n ip name namelen (lbk + 1) bb)
      ])
      s

-- The number of the inode that `ext2_iget` is called with; `none` is `nullptr`. The directory and
-- the name are given, so that neither is a null pointer.
unfoldable pub ext2_lookup : Inode → Bytes → ℕ → Bytes → Cmd Fs (Option ℕ)
ext2_lookup ip name namelen buf s =
    (if not (is_dir ip.type) || (namelen == 0)
        then pure none
        else lookup_blocks (blocks_of s.block_size ip.size) ip name namelen 0 buf)
      s

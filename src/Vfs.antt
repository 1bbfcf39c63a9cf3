-- ===== src/Vfs.antt =====
-- fs/vfs.c: the inodes in memory, their reference counts, and how a path leads to one. A node of the
-- list of cached inodes is named by its inode. The file system below the inodes is a parameter: it is
-- called through tables of functions.
pub mod Counts
mod Tests
use cute_core.Base.{
  ℕ, zero, suc, ◌+◌, ◌-◌, ◌%◌, ◌^◌, Bool, true, false, not, ◌&&◌, ◌||◌, Option, none, some, ltb,
  leb, ◌==◌, if◌then◌else◌, Cmd, pure, ok, fault, ◌>>=◌, ◌>>◌,
}
use cute_core.Base.Int.{ℤ, pos, negsuc}
use cute_core.Str.{Memory, memcpy, strlen}
use cute_core.PathNames.{slash, max_path_len, skipslash, path_next, clip_len}
use cute_core.Ext2.Inode.{InodeType, file, dir, symlink, dev}
use cute_core.Links.{Links, list_del}

-- The fields of `struct inode` that these functions use; `ref` is an `i32`, by its 32 bits.
pub record Vnode : Type 0 where
  pub ino : ℕ
  pub type : InodeType
  pub nlinks : ℕ
  pub ref : ℕ
  pub dirty : Bool
  pub fops : ℕ

-- The inodes by address, the mounted file system, the memory, and what lies below.
pub record Vfs (D : Type 0) : Type 0 where
  pub disk : D
  pub inode : ℕ → Vnode
  pub root : ℕ
  pub inode_cache : Links
  pub icache_size : ℕ
  pub memory : Memory

-- The functions of `struct inode_ops` that are called here.
pub record InodeOps (D : Type 0) : Type 0 where
  pub lookup : ℕ → ℕ → ℕ → Cmd (Vfs D) ℕ
  pub truncate : ℕ → Cmd (Vfs D) (Unit {0})
  pub free_inode : ℕ → Cmd (Vfs D) (Unit {0})
  pub write_inode : ℕ → Cmd (Vfs D) (Unit {0})
  pub destroy_inode : ℕ → Cmd (Vfs D) (Unit {0})

-- `ref++`, `ref--` and `ref > 0` on an `i32`
abbrev pub up : ℕ → ℕ
up ref = (ref + 1) % 2 ^ 32

abbrev pub down : ℕ → ℕ
down ref = (ref + 2 ^ 32 - 1) % 2 ^ 32

abbrev pub positive : ℕ → Bool
positive ref = ltb 0 ref && ltb ref (2 ^ 31)

abbrev pub is_directory : InodeType → Bool
is_directory file = false
is_directory dir = true
is_directory symlink = false
is_directory dev = false

module _ {D : Type 0} where
  abbrev pub set_ref : ℕ → ℕ → Vfs D → Vfs D
  set_ref ip ref s = record s {
    inode = λ a. if ip == a then record (s.inode a) { ref = ref } else s.inode a;
  }

  -- the last reference to an inode other than the root
  unfoldable pub drop_inode : InodeOps D → ℕ → Cmd (Vfs D) (Unit {0})
  drop_inode ops ip s =
      ((if (s.inode ip).nlinks == 0
            then ops.truncate ip >> (λ s'. ops.free_inode ((s'.inode ip).ino) s')
            else if (s.inode ip).dirty
            then ops.write_inode ip
            else pure tt)
          >> (λ s'. ok (
            tt,
            record s' {
              inode_cache = list_del ip s'.inode_cache;
              icache_size = (s'.icache_size + 2 ^ 32 - 1) % 2 ^ 32;
            },
          ))
          >> ops.destroy_inode ip)
        s

  unfoldable pub iput : InodeOps D → ℕ → Cmd (Vfs D) (Unit {0})
  iput ops ip s =
      let ref = down ((s.inode ip).ref) in
      if ip == 0
      then ok (tt, s)
      else if positive ref
      then ok (tt, set_ref ip ref s)
      else if ip == s.root
      then ok (tt, set_ref ip 1 (set_ref ip ref s))
      else drop_inode ops ip (set_ref ip ref s)

  -- A pointer that a string function returns; without fuel it has run off the string.
  abbrev pub found : Option ℕ → Cmd (Vfs D) ℕ
  found none s = fault
  found (some p) s = ok (p, s)

  -- `path_next`, whose null pointer is 0 here
  abbrev pub next_name : ℕ → ℕ → ℕ → Cmd (Vfs D) ℕ
  next_name limit path name s = elim (path_next limit path name s.memory) [
    | none ↦ fault
    | some (none, m) ↦ ok (0, record s { memory = m })
    | some (some rest, m) ↦ ok (rest, record s { memory = m })
  ]

  -- `memcpy(namebuf, name, l + 1)` with the length of the name, clipped
  unfoldable pub give_name : ℕ → ℕ → ℕ → Cmd (Vfs D) (Unit {0})
  give_name limit namebuf name s = elim (strlen limit name s.memory) [
    | none ↦ fault
    | some l ↦ ok (tt, record s { memory = (memcpy namebuf name (clip_len l + 1) s.memory).0 })
  ]

  -- The rounds of `namex`, with fuel; `limit` is the fuel of the string functions, `name` the
  -- address of the buffer of that name.
  unfoldable pub namex_from : ℕ → ℕ → InodeOps D → ℕ → ℕ → ℕ → Bool → ℕ → Cmd (Vfs D) ℕ
  namex_from zero limit ops name cur path parent namebuf s = fault
  namex_from (suc fuel) limit ops name cur path parent namebuf s =
      let rest : ℕ → ℕ → Cmd (Vfs D) ℕ =
        λ next p. namex_from fuel limit ops name next p parent namebuf in
      (next_name limit path name >>= λ end.
      if end == 0
      then (if parent then iput ops cur >> pure 0 else pure cur)
      else (λ s1. found (skipslash limit end s1.memory) s1) >>= λ p s2.
          if parent && (s2.memory p == 0)
          then ((if namebuf == 0 then pure tt else give_name limit namebuf name) >> pure cur) s2
          else if not (is_directory ((s2.inode cur).type))
          then (iput ops cur >> pure 0) s2
          else ((λ s3. found (strlen limit name s3.memory) s3) >>= λ len.
                ops.lookup cur name len >>= λ next.
                iput ops cur >> (if next == 0 then pure 0 else rest next p))
              s2)
        s

  unfoldable pub namex : ℕ → ℕ → InodeOps D → ℕ → ℕ → Bool → ℕ → Cmd (Vfs D) ℕ
  namex fuel limit ops name path parent namebuf s =
      if (path == 0) || not (s.memory path == slash)
      then ok (0, s)
      else if s.root == 0
      then ok (0, s)
      else ((λ s1. found (skipslash limit (path + 1) s1.memory) s1) >>= λ p.
            namex_from fuel limit ops name s.root p parent namebuf)
          (set_ref s.root (up ((s.inode s.root).ref)) s)

  unfoldable pub namei : ℕ → ℕ → InodeOps D → ℕ → ℕ → Cmd (Vfs D) ℕ
  namei fuel limit ops name path = namex fuel limit ops name path false 0

  unfoldable pub nameiparent : ℕ → ℕ → InodeOps D → ℕ → ℕ → ℕ → Cmd (Vfs D) ℕ
  nameiparent fuel limit ops name path namebuf = namex fuel limit ops name path true namebuf

-- An open file, and the functions of `struct file_ops`, by the address of their table.
pub record File : Type 0 where
  pub ref : ℕ
  pub flags : ℕ
  pub offset : ℕ
  pub inode : ℕ
  pub ops : ℕ

-- A function that reads or writes: file, buffer, length, offset.
abbrev pub Transfer : Type 0 → Type 0
Transfer D = File → ℕ → ℕ → ℕ → Cmd (Vfs D) ℤ

pub record FileOps (D : Type 0) : Type 0 where
  pub release : ℕ → Option (ℕ → ℕ → Cmd (Vfs D) (Unit {0}))
  pub read : ℕ → Option (Transfer D)
  pub write : ℕ → Option (Transfer D)

module _ {D : Type 0} where
  -- A call through a function pointer that may be null.
  abbrev pub call : Option (Transfer D) → Transfer D
  call none f buf len offset s = ok (negsuc 0, s)
  call (some transfer) f buf len offset s = transfer f buf len offset s

  unfoldable pub readi : FileOps D → ℕ → ℕ → ℕ → ℕ → Cmd (Vfs D) ℤ
  readi fops ip buf offset len s =
      let ops = (s.inode ip).fops in
      if (ip == 0) || (ops == 0)
      then ok (negsuc 0, s)
      else call (fops.read ops)
          (record { ref = 1; flags = 0; offset = offset; inode = ip; ops = ops }) buf len offset s

  unfoldable pub writei : FileOps D → ℕ → ℕ → ℕ → ℕ → Cmd (Vfs D) ℤ
  writei fops ip buf offset len s =
      let ops = (s.inode ip).fops in
      if (ip == 0) || (ops == 0)
      then ok (negsuc 0, s)
      else call (fops.write ops)
          (record { ref = 1; flags = 1; offset = offset; inode = ip; ops = ops }) buf len offset s

-- ===== src/Files.antt =====
-- fs/file.c: the table of open files. A node of the table's list is named by its file, and the slab
-- allocator that the file objects come from is a parameter.
pub mod Table
mod Tests
use cute_core.Base.{
  ℕ, ◌+◌, ◌-◌, ◌%◌, ◌^◌, Bool, true, false, not, ◌&&◌, ◌||◌, Option, none, some, ltb, ◌==◌,
  if◌then◌else◌, Cmd, pure, Outcome, ok, panic, fault, ◌>>=◌, ◌>>◌,
}
use cute_core.Base.Int.{ℤ, pos, negsuc}
use cute_core.Ext2.Inode.{InodeType, file, dir, symlink, dev}
use cute_core.Links.{Links, list_init, list_add_tail, list_del}
use cute_core.Vfs.{
  Vfs, InodeOps, File, FileOps, Transfer, up, down, positive, iput, call, readi, writei,
}

-- The inodes and what lies below, the file objects by address, and `ftable`.
pub record Files (D : Type 0) : Type 0 where
  pub vfs : Vfs D
  pub file_at : ℕ → File
  pub head : ℕ
  pub links : Links
  pub count : ℕ

-- `cache_alloc(file_cache)` and `cache_free(file_cache, f)`
pub record FileCache (D : Type 0) : Type 0 where
  pub cache_alloc : Cmd (Vfs D) ℕ
  pub cache_free : ℕ → Cmd (Vfs D) (Unit {0})

abbrev pub readable : File → Bool
readable o = not (o.flags % 4 == 1)

abbrev pub writable : File → Bool
writable o = not (o.flags % 4 == 0)

-- the table of a device file
abbrev pub device_ops : ℕ → File → ℕ
device_ops uart_ops o = if o.ops == 0 then uart_ops else o.ops

module _ {D : Type 0} where
  abbrev pub set_file : ℕ → File → Files D → Files D
  set_file f v s = record s { file_at = λ a. if f == a then v else s.file_at a }

  -- A function of the inodes, within the whole.
  abbrev pub within_files : {A : Type 0} → Files D → Outcome (A × Vfs D) → Outcome (A × Files D)
  within_files s (ok (a, v)) = ok (a, record s { vfs = v })
  within_files s panic = panic
  within_files s fault = fault

  abbrev pub below : {A : Type 0} → Cmd (Vfs D) A → Cmd (Files D) A
  below run s = within_files s (run s.vfs)

  -- the part of `fileinit` on the table
  unfoldable pub init_table : ℕ → Files D → Files D
  init_table head s = record s { head = head; links = list_init head s.links; count = 0 }

  unfoldable pub filealloc : FileCache D → Cmd (Files D) ℕ
  filealloc cache = below cache.cache_alloc >>= λ f s.
      if f == 0
      then ok (0, s)
      else ok (
        f,
        record (set_file f (record { ref = 1; flags = 0; offset = 0; inode = 0; ops = 0 }) s) {
          links = list_add_tail f s.head (list_init f s.links);
          count = (s.count + 1) % 2 ^ 64;
        },
      )

  -- `if (f->ops && f->ops->release) f->ops->release(f->inode, f);`
  abbrev pub call_release : Option (ℕ → ℕ → Cmd (Vfs D) (Unit {0})) → ℕ → ℕ → Cmd (Vfs D) (Unit {0})
  call_release none inode f s = ok (tt, s)
  call_release (some release) inode f s = release inode f s

  abbrev pub release_file : FileOps D → ℕ → ℕ → ℕ → Cmd (Vfs D) (Unit {0})
  release_file fops ops inode f =
      if ops == 0 then pure tt else call_release (fops.release ops) inode f

  -- The last reference is gone.
  unfoldable pub close_file : InodeOps D → FileOps D → FileCache D → ℕ → Cmd (Files D) (Unit {0})
  close_file iops fops cache f s =
      let o : File = s.file_at f in
      (below (release_file fops o.ops o.inode f)
          >> below (if o.inode == 0 then pure tt else iput iops o.inode)
          >> (λ s'. ok (
            tt,
            record s' { links = list_del f s'.links; count = (s'.count + 2 ^ 64 - 1) % 2 ^ 64 },
          ))
          >> below (cache.cache_free f))
        s

  unfoldable pub fileclose : InodeOps D → FileOps D → FileCache D → ℕ → Cmd (Files D) (Unit {0})
  fileclose iops fops cache f s =
      let ref = down ((s.file_at f).ref) in
      let s' : Files D = set_file f (record (s.file_at f) { ref = ref }) s in
      if f == 0
      then ok (tt, s)
      else if positive ref
      then ok (tt, s')
      else close_file iops fops cache f s'

  unfoldable pub filedup : ℕ → Cmd (Files D) ℕ
  filedup f s =
      if f == 0
      then ok (0, s)
      else ok (f, set_file f (record (s.file_at f) { ref = up ((s.file_at f).ref) }) s)

  unfoldable pub filecount : Files D → ℕ
  filecount s = s.count

  -- `if (ret > 0) f->offset += ret;`
  abbrev pub advance : ℕ → ℤ → Cmd (Files D) ℤ
  advance f (negsuc n) s = ok (negsuc n, s)
  advance f (pos n) s =
      if n == 0
      then ok (pos n, s)
      else ok (
        pos n,
        set_file f (record (s.file_at f) { offset = ((s.file_at f).offset + n) % 2 ^ 32 }) s,
      )

  abbrev pub read_by_type : FileOps D → ℕ → InodeType → ℕ → ℕ → ℕ → Cmd (Files D) ℤ
  read_by_type fops uart_ops file f buf len s =
      let o : File = s.file_at f in
      (below (readi fops o.inode buf o.offset len) >>= λ ret. advance f ret) s
  read_by_type fops uart_ops dev f buf len s =
      let o : File = s.file_at f in
      below (call (fops.read (device_ops uart_ops o)) o buf len o.offset) s
  read_by_type fops uart_ops dir f buf len s = ok (negsuc 0, s)
  read_by_type fops uart_ops symlink f buf len s = ok (negsuc 0, s)

  unfoldable pub fileread : FileOps D → ℕ → ℕ → ℕ → ℕ → Cmd (Files D) ℤ
  fileread fops uart_ops f buf len s =
      let o : File = s.file_at f in
      if (f == 0) || (o.inode == 0) || not (readable o)
      then ok (negsuc 0, s)
      else read_by_type fops uart_ops ((s.vfs.inode o.inode).type) f buf len s

  abbrev pub write_by_type : FileOps D → ℕ → InodeType → ℕ → ℕ → ℕ → Cmd (Files D) ℤ
  write_by_type fops uart_ops file f buf len s =
      let o : File = s.file_at f in
      (below (writei fops o.inode buf o.offset len) >>= λ ret. advance f ret) s
  write_by_type fops uart_ops dev f buf len s =
      let o : File = s.file_at f in
      below (call (fops.write (device_ops uart_ops o)) o buf len o.offset) s
  write_by_type fops uart_ops dir f buf len s = ok (negsuc 0, s)
  write_by_type fops uart_ops symlink f buf len s = ok (negsuc 0, s)

  unfoldable pub filewrite : FileOps D → ℕ → ℕ → ℕ → ℕ → Cmd (Files D) ℤ
  filewrite fops uart_ops f buf len s =
      let o : File = s.file_at f in
      if (f == 0) || (o.inode == 0) || not (writable o)
      then ok (negsuc 0, s)
      else write_by_type fops uart_ops ((s.vfs.inode o.inode).type) f buf len s

-- ===== src/Syscalls/Tests.antt =====
-- The theorems of the system calls at a process with one open file.
use cute_core.Base.{
  ℕ, ◌≡◌, ◌^◌, ◌-◌, refl, inl, false, [], ◌∷◌, none, some, arith, Outcome, ok, pure,
}
use cute_core.Base.Int.{ℤ, pos, negsuc}
use cute_core.Ext2.Inode.{dev}
use cute_core.Vfs.{FileOps}
use cute_core.Files.{Files, fileread}
use cute_core.Syscalls.{Process, minus_one, set_a0, syscall}
use cute_core.Syscalls.Dispatch.{syscall-bad_fd, syscall-read}

-- A device from which 2 bytes are read.
abbrev fops : FileOps (Unit {0})
fops = record {
  release = λ ops. none;
  read = λ ops. some (λ f buf len offset. pure (pos 2));
  write = λ ops. none;
}

abbrev files : Files (Unit {0})
files = record {
  vfs = record {
    disk = tt;
    inode = λ a. record { ino = 2; type = dev; nlinks = 1; ref = 1; dirty = false; fops = 0 };
    root = 8;
    inode_cache = record { next = λ a. a; prev = λ a. a };
    icache_size = 0;
    memory = λ a. 0;
  };
  file_at = λ a. record { ref = 1; flags = 0; offset = 0; inode = 40; ops = 0 };
  head = 24;
  links = record { next = λ a. a; prev = λ a. a };
  count = 0;
}

abbrev exec : Process (Unit {0}) → Outcome (ℤ × Process (Unit {0}))
exec = pure (negsuc 0)

-- a process that makes call `number` with a descriptor
abbrev process : ℕ → ℕ → Process (Unit {0})
process number fd = record {
  trapframe = record { a0 = fd; a1 = 64; a2 = 4; a3 = 0; a4 = 0; a5 = 0; a7 = number };
  fdtable = 0 ∷ 16 ∷ [];
  files = files;
}

syscall-bad_fd_example :
    syscall fops 8 exec (process 63 (2 ^ 64 - 1))
    ≡ ok (tt, set_a0 minus_one (process 63 (2 ^ 64 - 1)))
syscall-bad_fd_example =
    syscall-bad_fd fops 8 exec (process 63 (2 ^ 64 - 1)) (inl refl) (inl (omega arith))

reads : fileread fops 8 16 64 4 files ≡ ok (pos 2, files)
unfolding fileread
reads = refl

syscall-read_example : syscall fops 8 exec (process 63 1) ≡ ok (tt, set_a0 2 (process 63 1))
syscall-read_example =
    syscall-read fops 8 exec (process 63 1) 16 (pos 2) files refl (omega arith) refl
      (λ e. omega (arith, e)) reads

-- ===== src/Files/Tests.antt =====
-- The theorems of the open files at a table of one file.
use cute_core.Base.{
  ℕ, ◌≡◌, ◌≢◌, refl, false, [], ◌∷◌, none, arith, ◌==◌, if◌then◌else◌, ok, pure, ◌>>=◌,
}
use cute_core.Ext2.Inode.{dir}
use cute_core.Vfs.{Vfs, InodeOps, FileOps}
use cute_core.Files.{Files, FileCache, filealloc, fileclose, filedup}
use cute_core.Files.Table.{IsTable, blank, filealloc_lem, fileclose-last, filedup-fileclose}

abbrev iops : InodeOps (Unit {0})
iops = record {
  lookup = λ at name len. pure 0;
  truncate = λ ip. pure tt;
  free_inode = λ ino. pure tt;
  write_inode = λ ip. pure tt;
  destroy_inode = λ ip. pure tt;
}

abbrev fops : FileOps (Unit {0})
fops = record { release = λ ops. none; read = λ ops. none; write = λ ops. none }

abbrev cache : FileCache (Unit {0})
cache = record { cache_alloc = pure 32; cache_free = λ f. pure tt }

abbrev vfs : Vfs (Unit {0})
vfs = record {
  disk = tt;
  inode = λ a. record { ino = 2; type = dir; nlinks = 2; ref = 1; dirty = false; fops = 0 };
  root = 8;
  inode_cache = record { next = λ a. a; prev = λ a. a };
  icache_size = 0;
  memory = λ a. 0;
}

-- The table of 24 has the file 16.
abbrev files : Files (Unit {0})
files = record {
  vfs = vfs;
  file_at = λ a. blank;
  head = 24;
  links = record { next = λ a. if a == 24 then 16 else 24; prev = λ a. if a == 24 then 16 else 24 };
  count = 1;
}

files-IsTable : IsTable files (16 ∷ [])
files-IsTable = record {
  ring = ((refl, refl, (refl, refl)), ((λ e. omega (arith, e)), tt), (tt, tt));
  counted = refl;
}

filealloc_lem_example :
    (s' : Files (Unit {0})) × (filealloc cache files ≡ ok (32, s'))
    × IsTable s' (16 ∷ 32 ∷ [])
    × (s'.file_at 32 ≡ blank)
    × ((g : ℕ) → g ≢ 32 → s'.file_at g ≡ blank)
filealloc_lem_example =
    filealloc_lem cache files vfs 32 (16 ∷ []) files-IsTable refl (λ e. omega (arith, e))
      ((λ e. omega (arith, e)), ((λ e. omega (arith, e)), tt)) (omega arith)

filedup-fileclose_example : (filedup 16 >>= λ g. fileclose iops fops cache g) files ≡ ok (tt, files)
filedup-fileclose_example =
    filedup-fileclose iops fops cache 16 files (λ e. omega (arith, e)) (omega arith) (omega arith)

fileclose-last_example :
    (s' : Files (Unit {0})) × (fileclose iops fops cache 16 files ≡ ok (tt, s'))
    × IsTable s' []
    × (s'.vfs ≡ vfs)
    × ((g : ℕ) → g ≢ 16 → s'.file_at g ≡ blank)
fileclose-last_example =
    fileclose-last iops fops cache 16 [] [] files vfs vfs vfs (λ e. omega (arith, e)) refl
      files-IsTable (omega arith) refl refl refl

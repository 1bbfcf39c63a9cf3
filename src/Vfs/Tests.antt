-- ===== src/Vfs/Tests.antt =====
-- The theorems of the inodes at a file system with a root and one more inode.
use cute_core.Base.{
  ℕ, suc, ◌+◌, ◌<◌, ◌≡◌, ◌≢◌, ◌^◌, refl, false, [], arith, ◌==◌, if◌then◌else◌, ok, pure, zero, ◌≤◌,
}
use cute_core.Str.{Memory}
use cute_core.PathNames.{slash}
use cute_core.Ext2.Inode.{dir}
use cute_core.Links.Ring.{IsRing}
use cute_core.Vfs.{Vfs, InodeOps, set_ref, iput}
use cute_core.Vfs.Counts.{iput-keeps_root, iput-last}

abbrev ops : InodeOps (Unit {0})
ops = record {
  lookup = λ at name len. pure 0;
  truncate = λ ip. pure tt;
  free_inode = λ ino. pure tt;
  write_inode = λ ip. pure tt;
  destroy_inode = λ ip. pure tt;
}

-- the path "//" at 64
abbrev path : Memory
path a = if a == 64 then slash else if a == 65 then slash else 0

-- The root is 8, and 16 is in the list of 24.
abbrev mounted : Vfs (Unit {0})
mounted = record {
  disk = tt;
  inode = λ a. record { ino = 2; type = dir; nlinks = 2; ref = 1; dirty = false; fops = 0 };
  root = 8;
  inode_cache = record {
    next = λ a. if a == 24 then 16 else 24;
    prev = λ a. if a == 24 then 16 else 24;
  };
  icache_size = 1;
  memory = path;
}

iput-keeps_root_example :
    (r : ℕ) × (iput ops 8 mounted ≡ ok (tt, set_ref 8 r mounted)) × (0 < r) × (r < 2 ^ 31)
iput-keeps_root_example =
    iput-keeps_root ops mounted (λ e. omega (arith, e)) (omega arith) (omega arith)

iput-last_example :
    (s' : Vfs (Unit {0})) × (iput ops 16 mounted ≡ ops.destroy_inode 16 s')
    × IsRing s'.inode_cache 24 []
    × (s'.icache_size + 1 ≡ 1)
    × ((a : ℕ) → a ≢ 16 → s'.inode a ≡ mounted.inode a)
iput-last_example =
    iput-last ops 16 24 [] [] mounted (λ e. omega (arith, e)) (λ e. omega (arith, e)) refl
      (λ e. omega (arith, e)) refl
      ((refl, refl, (refl, refl)), ((λ e. omega (arith, e)), tt), (tt, tt)) (omega arith)
      (omega arith)

slashes : (i : ℕ) → i ≤ 1 → path (64 + i) ≡ slash
slashes zero h = refl
slashes (suc zero) h = refl
slashes (suc (suc i)) h = absurd (omega arith)

-- ===== src/Pids.antt =====
-- kernel/task/proc.c: the allocation of process ids by a bitmap.
pub mod Allocation
mod Tests
use cute_core.Base.{ℕ, zero, suc, ◌+◌, Option, none, some, ltb, leb, if◌then◌else◌}
use cute_core.Base.Int.{ℤ, pos, negsuc}
use cute_core.Base.Words.{Bytes}
use cute_core.Ext2.Bitmap.{bit_at, set_bit, clear_bit}

abbrev pub max_pid : ℕ
max_pid = 32768

abbrev pub reserved_pid : ℕ
reserved_pid = 300

-- `pid_bitmap` and `last_pid`
pub record Pids : Type 0 where
  pub bitmap : Bytes
  pub last_pid : ℕ

-- `pid++; if (pid >= MAXPID) pid = RESERVEDPID;`
abbrev pub next_pid : ℕ → ℕ
next_pid pid = if leb max_pid (pid + 1) then reserved_pid else pid + 1

-- the loop, with the rounds left
unfoldable pub search_pid : ℕ → ℕ → Bytes → Option ℕ
search_pid zero pid b = none
search_pid (suc n) pid b =
    let rest = search_pid n (next_pid pid) b in
    if bit_at b (next_pid pid) then rest else some (next_pid pid)

abbrev pub taken : Pids → Option ℕ → ℤ × Pids
taken s none = (negsuc 0, s)
taken s (some pid) = (pos pid, record { bitmap = set_bit pid s.bitmap; last_pid = pid })

unfoldable pub allocpid : Pids → ℤ × Pids
allocpid s = taken s (search_pid max_pid s.last_pid s.bitmap)

-- the part of `freeproc` that gives the id back
unfoldable pub release_pid : ℕ → Pids → Pids
release_pid pid s = if ltb reserved_pid pid then record s { bitmap = clear_bit pid s.bitmap } else s

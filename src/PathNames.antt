-- ===== src/PathNames.antt =====
-- fs/vfs.c: how a path is taken apart, over the memory of lib/string.c. The loops look for a
-- character and take fuel; `none` means that it ran out.
pub mod Segment
mod Tests
use cute_core.Base.{
  ℕ, zero, suc, ◌+◌, ◌-◌, Bool, ◌||◌, Option, none, some, leb, ◌==◌, if◌then◌else◌,
}
use cute_core.Str.{Memory, store, memcpy}

abbrev pub max_path_len : ℕ
max_path_len = 256

-- '/'
abbrev pub slash : ℕ
slash = 47

unfoldable pub skipslash : ℕ → ℕ → Memory → Option ℕ
skipslash zero path m = none
skipslash (suc fuel) path m =
    let rest = skipslash fuel (path + 1) m in if m path == slash then rest else some path

-- where `while (*path != '/' && *path != 0) path++` stops
unfoldable pub find_end : ℕ → ℕ → Memory → Option ℕ
find_end zero path m = none
find_end (suc fuel) path m =
    let rest = find_end fuel (path + 1) m in
    if (m path == slash) || (m path == 0) then some path else rest

abbrev pub clip_len : ℕ → ℕ
clip_len len = if leb max_path_len len then max_path_len - 1 else len

abbrev pub copy_name : ℕ → ℕ → ℕ → Memory → Memory
copy_name name start len m = store (memcpy name start len m).0 (name + len) 0

-- The pointer behind the component, `none` for a null pointer, and the memory with the name.
unfoldable pub path_next : ℕ → ℕ → ℕ → Memory → Option (Option ℕ × Memory)
path_next fuel path name m = if m path == 0 then some (none, m) else elim (find_end fuel path m) [
  | none ↦ none
  | some end ↦ some (some end, copy_name name path (clip_len (end - path)) m)
]

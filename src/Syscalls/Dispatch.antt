-- ===== src/Syscalls/Dispatch.antt =====
-- Which call a process makes, and what a call of a file does that is not open.
use cute_core.Base.{
  ℕ, ◌%◌, ◌^◌, ◌<◌, ◌≤◌, ◌≡◌, ◌≢◌, ◌⊎◌, inl, inr, refl, true, false, none, some, List, get_elem?,
  arith, ltb, leb, ◌==◌, Cmd, ok, Bool-cases,
}
use cute_core.Base.Int.{ℤ, as_i32}
use cute_core.Vfs.{FileOps}
use cute_core.Files.{Files, fileread}
use cute_core.Syscalls.{
  nofile, Process, minus_one, as_u64, argraw, argint, argaddr, file_of_fd, argfd, sys_read,
  sys_write, call_of, set_a0, syscall,
}

-- A descriptor that is negative, too large, or that of no open file.
abbrev pub IsBad : ℕ → List ℕ → Type 0
IsBad fd table =
    (nofile ≤ fd % 2 ^ 32)
    ⊎ (get_elem? table (fd % 2 ^ 32) ≡ none)
    ⊎ (get_elem? table (fd % 2 ^ 32) ≡ some 0)

file_of_fd-bad : (fd : ℕ) (table : List ℕ) → IsBad fd table → file_of_fd (as_i32 fd) table ≡ none
file_of_fd-bad fd table bad = elim (Bool-cases (ltb (fd % 2 ^ 32) (2 ^ 31))) [
  | inl positive ↦ elim (Bool-cases (leb nofile (fd % 2 ^ 32))) [
    | inl large ↦ rw (positive, large) refl
    | inr small ↦ elim bad [
      | inl large ↦ absurd (ground (arith, large))
      | inr (inl e) ↦ rw (positive, small, e) refl
      | inr (inr e) ↦ rw (positive, small, e) refl
    ]
  ]
  | inr negative ↦ rw negative refl
]

file_of_fd-open :
    (fd f : ℕ) (table : List ℕ)
    → fd % 2 ^ 32 < nofile
    → get_elem? table (fd % 2 ^ 32) ≡ some f
    → f ≢ 0
    → file_of_fd (as_i32 fd) table ≡ some f
file_of_fd-open fd f table small at there =
    let positive : ltb (fd % 2 ^ 32) (2 ^ 31) ≡ true = ground arith in
    let in_table : leb nofile (fd % 2 ^ 32) ≡ false = ground arith in
    let file : (f == 0) ≡ false = ground (arith, there) in rw (positive, in_table, at, file) refl

module _ {D : Type 0} (fops : FileOps D) (uart_ops : ℕ) (sys_execve : Cmd (Process D) ℤ)
    (p : Process D) where
  call_of-read :
      (a7 : ℕ)
      → a7 % 2 ^ 32 ≡ 63
      → call_of fops uart_ops sys_execve (as_i32 a7) ≡ some (sys_read fops uart_ops)
  call_of-read a7 e = rw e refl

  call_of-write :
      (a7 : ℕ)
      → a7 % 2 ^ 32 ≡ 64
      → call_of fops uart_ops sys_execve (as_i32 a7) ≡ some (sys_write fops uart_ops)
  call_of-write a7 e = rw e refl

  call_of-none :
      (a7 : ℕ)
      → a7 % 2 ^ 32 ≢ 63
      → a7 % 2 ^ 32 ≢ 64
      → a7 % 2 ^ 32 ≢ 221
      → call_of fops uart_ops sys_execve (as_i32 a7) ≡ none
  call_of-none a7 no_read no_write no_exec =
      let r : (a7 % 2 ^ 32 == 63) ≡ false = ground (arith, no_read) in
      let w : (a7 % 2 ^ 32 == 64) ≡ false = ground (arith, no_write) in
      let x : (a7 % 2 ^ 32 == 221) ≡ false = ground (arith, no_exec) in
      elim (Bool-cases (ltb (a7 % 2 ^ 32) (2 ^ 31))) [
        | inl positive ↦ rw (positive, r, w, x) refl
        | inr negative ↦ rw negative refl
      ]

  -- A process that reads or writes by a descriptor that is negative, too large or that of no open
  -- file gets -1, and nothing else changes.
  pub syscall-bad_fd :
      ((p.trapframe).a7 % 2 ^ 32 ≡ 63) ⊎ ((p.trapframe).a7 % 2 ^ 32 ≡ 64)
      → IsBad ((p.trapframe).a0) p.fdtable
      → syscall fops uart_ops sys_execve p ≡ ok (tt, set_a0 minus_one p)
  unfolding syscall sys_read sys_write argfd argint argraw
  syscall-bad_fd number bad =
      let no_file = file_of_fd-bad ((p.trapframe).a0) p.fdtable bad in
      elim number [
        | inl e ↦ rw (call_of-read ((p.trapframe).a7) e, no_file) refl
        | inr e ↦ rw (call_of-write ((p.trapframe).a7) e, no_file) refl
      ]

  -- A process that makes a call with a number other than those of read, write and execve gets -1,
  -- and nothing else changes.
  pub syscall-unsupported :
      (p.trapframe).a7 % 2 ^ 32 ≢ 63
      → (p.trapframe).a7 % 2 ^ 32 ≢ 64
      → (p.trapframe).a7 % 2 ^ 32 ≢ 221
      → syscall fops uart_ops sys_execve p ≡ ok (tt, set_a0 minus_one p)
  unfolding syscall
  syscall-unsupported no_read no_write no_exec =
      rw (call_of-none ((p.trapframe).a7) no_read no_write no_exec) refl

  -- A process that reads by the descriptor of an open file gets what `fileread` of that file returns,
  -- with the buffer and the length of its second and third arguments, and the files are then as
  -- `fileread` left them.
  pub syscall-read :
      (f : ℕ) (ret : ℤ) (files : Files D)
      → (p.trapframe).a7 % 2 ^ 32 ≡ 63
      → (p.trapframe).a0 % 2 ^ 32 < nofile
      → get_elem? p.fdtable ((p.trapframe).a0 % 2 ^ 32) ≡ some f
      → f ≢ 0
      → fileread fops uart_ops f ((p.trapframe).a1) (as_u64 (as_i32 ((p.trapframe).a2))) p.files
        ≡ ok (ret, files)
      → syscall fops uart_ops sys_execve p
        ≡ ok (tt, set_a0 (as_u64 ret) (record p { files = files }))
  unfolding syscall sys_read argfd argint argaddr argraw
  syscall-read f ret files number small at there run =
      rw
        (
          call_of-read ((p.trapframe).a7) number,
          file_of_fd-open ((p.trapframe).a0) f p.fdtable small at there,
          run,
        )
        refl

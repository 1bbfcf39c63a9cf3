-- ===== src/Syscalls.antt =====
-- kernel/syscall/syscall.c and filecall.c: the calls of a process. `sys_execve` of proccall.c is a
-- parameter.
pub mod Dispatch
mod Tests
use cute_core.Base.{
  ℕ, ◌+◌, ◌-◌, ◌%◌, ◌^◌, Bool, true, false, not, ◌&&◌, ◌||◌, Option, none, some, List, [], ◌∷◌,
  get_elem?, ltb, leb, ◌==◌, if◌then◌else◌, Cmd, pure, Outcome, ok, panic, fault, ◌>>=◌, ◌>>◌,
}
use cute_core.Base.Int.{ℤ, pos, negsuc, as_i32}
use cute_core.Vfs.{FileOps}
use cute_core.Files.{Files, fileread, filewrite}

abbrev pub nofile : ℕ
nofile = 16

-- The registers of `struct trapframe` that a call uses.
pub record Trapframe : Type 0 where
  pub a0 : ℕ
  pub a1 : ℕ
  pub a2 : ℕ
  pub a3 : ℕ
  pub a4 : ℕ
  pub a5 : ℕ
  pub a7 : ℕ

-- The current process, and the open files.
pub record Process (D : Type 0) : Type 0 where
  pub trapframe : Trapframe
  pub fdtable : List ℕ
  pub files : Files D

-- -1 in 64 bits
abbrev pub minus_one : ℕ
minus_one = 2 ^ 64 - 1

-- a signed result in 64 bits
abbrev pub as_u64 : ℤ → ℕ
as_u64 (pos n) = n % 2 ^ 64
as_u64 (negsuc n) = (2 ^ 64 - 1 - n) % 2 ^ 64

unfoldable pub argraw : ℕ → Trapframe → ℕ
argraw n t =
    if n == 0
    then t.a0
    else if n == 1
    then t.a1
    else if n == 2
    then t.a2
    else if n == 3
    then t.a3
    else if n == 4
    then t.a4
    else if n == 5
    then t.a5
    else minus_one

unfoldable pub argint : ℕ → Trapframe → ℤ
argint n t = as_i32 (argraw n t)

unfoldable pub argaddr : ℕ → Trapframe → ℕ
argaddr n t = argraw n t

-- The file of a descriptor, if it is one of an open file; a null pointer is 0.
abbrev pub file_of_fd : ℤ → List ℕ → Option ℕ
file_of_fd (negsuc n) table = none
file_of_fd (pos fd) table =
    if leb nofile fd
    then none
    else elim (get_elem? table fd) [ none ↦ none | some f ↦ if f == 0 then none else some f ]

module _ {D : Type 0} where
  unfoldable pub argfd : ℕ → Process D → Option ℕ
  argfd n p = file_of_fd (argint n p.trapframe) p.fdtable

  -- A function of the files, within the process.
  abbrev pub within_process :
      {A : Type 0} → Process D → Outcome (A × Files D) → Outcome (A × Process D)
  within_process p (ok (a, s)) = ok (a, record p { files = s })
  within_process p panic = panic
  within_process p fault = fault

  -- `if (!argfd(0, nullptr, &f)) return -1;`
  abbrev pub with_file : Option ℕ → (ℕ → Cmd (Process D) ℤ) → Cmd (Process D) ℤ
  with_file none run p = ok (negsuc 0, p)
  with_file (some f) run p = run f p

  unfoldable pub sys_read : FileOps D → ℕ → Cmd (Process D) ℤ
  sys_read fops uart_ops p =
      with_file (argfd 0 p)
        (λ f p'. within_process p' (
          fileread fops uart_ops f (argaddr 1 p'.trapframe) (as_u64 (argint 2 p'.trapframe))
            p'.files))
        p

  unfoldable pub sys_write : FileOps D → ℕ → Cmd (Process D) ℤ
  sys_write fops uart_ops p =
      with_file (argfd 0 p)
        (λ f p'. within_process p' (
          filewrite fops uart_ops f (argaddr 1 p'.trapframe) (as_u64 (argint 2 p'.trapframe))
            p'.files))
        p

  -- The functions in the table `syscalls`; the others are null, and there are none from 279 on.
  abbrev pub call_of : FileOps D → ℕ → Cmd (Process D) ℤ → ℤ → Option (Cmd (Process D) ℤ)
  call_of fops uart_ops sys_execve (negsuc n) = none
  call_of fops uart_ops sys_execve (pos num) =
      if num == 63
      then some (sys_read fops uart_ops)
      else if num == 64
      then some (sys_write fops uart_ops)
      else if num == 221
      then some sys_execve
      else none

  abbrev pub set_a0 : ℕ → Process D → Process D
  set_a0 v p = record p { trapframe = record p.trapframe { a0 = v } }

  -- A call that there is, or that there is not.
  abbrev pub make_call : Option (Cmd (Process D) ℤ) → Cmd (Process D) (Unit {0})
  make_call none p = ok (tt, set_a0 minus_one p)
  make_call (some run) p = (run >>= λ ret p'. ok (tt, set_a0 (as_u64 ret) p')) p

  unfoldable pub syscall : FileOps D → ℕ → Cmd (Process D) ℤ → Cmd (Process D) (Unit {0})
  syscall fops uart_ops sys_execve p =
      make_call (call_of fops uart_ops sys_execve (as_i32 ((p.trapframe).a7))) p

-- ===== src/Scheduler.antt =====
-- kernel/task/scheduler.c: the scheduler takes processes from the list of those that are ready. The
-- switch of contexts (`swtch`) is a parameter: it returns when the process gives the processor back.
-- Interrupts are left out.
pub mod Order
mod Tests
use cute_core.Base.{
  ℕ, zero, suc, ◌==◌, Bool, true, false, not, ◌&&◌, if◌then◌else◌, Cmd, pure, ok, ◌>>=◌, ◌>>◌,
}
use cute_core.BlkCache.{Cache, bsync}

-- `enum procstate`
pub data ProcState : Type 0 where
  sleeping : ProcState
  runnable : ProcState
  running : ProcState
  zombie : ProcState

-- The ready list by the addresses of its processes, the state of each process, `cpu->proc`, and the
-- cache that the scheduler writes back.
pub record Sched : Type 0 where
  pub blk_caches : Cache
  pub ready_list_head : ℕ
  pub ready_list_tail : ℕ
  pub next_of : ℕ → ℕ
  pub prev_of : ℕ → ℕ
  pub state_of : ℕ → ProcState
  pub proc : ℕ

-- `ready_list_head = proc->next` and what follows from it
unfoldable pub dequeue : ℕ → Sched → Sched
dequeue p s =
    let h = s.next_of p in
    record s {
      ready_list_head = h;
      ready_list_tail = if h == 0 then 0 else s.ready_list_tail;
      prev_of = λ a. if not (h == 0) && (h == a) then 0 else s.prev_of a;
    }

-- `proc->state = RUNNING; cpu->proc = proc;`
unfoldable pub start : ℕ → Sched → Sched
start p s = record s { state_of = λ a. if p == a then running else s.state_of a; proc = p }

module _ (swtch : Cmd Sched (Unit {0})) where
  -- One round of the loop.
  unfoldable pub schedule : Cmd Sched (Unit {0})
  schedule s =
      let p = s.ready_list_head in
      let s' : Sched = record s { blk_caches = bsync s.blk_caches } in
      if not (p == 0)
      then (swtch >> (λ t. ok (tt, record t { proc = 0 }))) (start p (dequeue p s'))
      else ok (tt, s')

  -- The first rounds of the loop, which has no end.
  unfoldable pub scheduler : ℕ → Cmd Sched (Unit {0})
  scheduler zero = pure tt
  scheduler (suc n) = schedule >> scheduler n

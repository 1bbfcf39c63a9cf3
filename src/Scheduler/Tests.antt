-- ===== src/Scheduler/Tests.antt =====
-- The order of the scheduler at two processes, 8 and 16, that give the processor back at once.
use cute_core.Base.{◌≡◌, refl, [], ◌∷◌, arith, ◌==◌, if◌then◌else◌, Cmd, ok}
use cute_core.Scheduler.{Sched, runnable, scheduler}
use cute_core.Scheduler.Order.{IsStarted, scheduler_lem}

abbrev two : Sched
two = record {
  blk_caches = record { slots = []; disk = λ n i. 0 };
  ready_list_head = 8;
  ready_list_tail = 16;
  next_of = λ a. if a == 8 then 16 else 0;
  prev_of = λ a. if a == 16 then 8 else 0;
  state_of = λ a. runnable;
  proc = 0;
}

abbrev swtch : Cmd Sched (Unit {0})
swtch s = ok (tt, s)

scheduler_lem_example :
    (t : Sched) × (t' : Sched) × (swtch t ≡ ok (tt, t'))
    × (scheduler swtch 2 two ≡ ok (tt, record t' { proc = 0 }))
    × IsStarted 16 [] t
scheduler_lem_example =
    scheduler_lem swtch (λ t. (t, refl, refl, refl)) (8 ∷ []) 16 [] two
      (refl, omega arith, (refl, omega arith, refl))

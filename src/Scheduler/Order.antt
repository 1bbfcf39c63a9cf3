-- ===== src/Scheduler/Order.antt =====
-- kernel/task/scheduler.c: in which order the processes run.
use cute_core.Base.{
  ℕ, suc, ◌<◌, ◌≡◌, refl, List, [], ◌∷◌, ◌++◌, ◌==◌, true, false, Cmd, ok, arith, length,
}
use cute_core.BlkCache.{bsync}
use cute_core.Scheduler.{Sched, running, dequeue, start, schedule, scheduler}

-- The list that begins at `h` has the processes `ps`.
abbrev pub IsChain : (ℕ → ℕ) → ℕ → List ℕ → Type 0
IsChain next h [] = h ≡ 0
IsChain next h (p ∷ ps) = (h ≡ p) × (0 < p) × IsChain next (next p) ps

-- `t` is a state in which `p` has been taken from the list and is about to run.
pub record IsStarted (p : ℕ) (rest : List ℕ) (t : Sched) : Type 0 where
  pub proc : t.proc ≡ p
  pub state : t.state_of p ≡ running
  pub chain : IsChain t.next_of t.ready_list_head rest

module _ (swtch : Cmd Sched (Unit {0}))
    (returns : (t : Sched)
      → (t' : Sched) × (swtch t ≡ ok (tt, t'))
        × (t'.ready_list_head ≡ t.ready_list_head)
        × (t'.next_of ≡ t.next_of)) where
  -- A round with a process in the list.
  schedule_lem :
      (p : ℕ) (rest : List ℕ) (s : Sched)
      → IsChain s.next_of s.ready_list_head (p ∷ rest)
      → (t : Sched) × (t' : Sched) × (swtch t ≡ ok (tt, t'))
        × (schedule swtch s ≡ ok (tt, record t' { proc = 0 }))
        × IsStarted p rest t
        × IsChain t'.next_of t'.ready_list_head rest
  unfolding schedule start dequeue
  schedule_lem p rest s (first, real, chain) =
      let h = s.ready_list_head in
      let t = start h (dequeue h (record s { blk_caches = bsync s.blk_caches })) in
      let (t', run, head, next) = returns t in
      let there : IsChain s.next_of (s.next_of h) rest = rw (first) chain in
      let some_process : (h == 0) ≡ false = ground (arith, first, real) in
      let own : (h == p) ≡ true = ground (arith, first) in
      (
        t,
        t',
        run,
        rw (some_process, run) refl,
        record { proc = first; state = rw (own) refl; chain = there },
        rw (head, next) there,
      )

  -- When `swtch` returns with the list as it was, whatever else it changes, a process is started by
  -- the round whose number is that of the processes before it: they have run and left the list, and
  -- those behind it are still there in their order.
  pub scheduler_lem :
      (before : List ℕ) (p : ℕ) (rest : List ℕ) (s : Sched)
      → IsChain s.next_of s.ready_list_head (before ++ (p ∷ rest))
      → (t : Sched) × (t' : Sched) × (swtch t ≡ ok (tt, t'))
        × (scheduler swtch (suc (length before)) s ≡ ok (tt, record t' { proc = 0 }))
        × IsStarted p rest t
  unfolding scheduler
  scheduler_lem [] p rest s chain =
      let (t, t', run, one, started, _) = schedule_lem p rest s chain in
      (t, t', run, rw (one) refl, started)
  scheduler_lem (q ∷ before) p rest s chain =
      let (_, t', _, one, _, left) = schedule_lem q (before ++ (p ∷ rest)) s chain in
      let (u, u', run, all, started) = scheduler_lem before p rest (record t' { proc = 0 }) left in
      (u, u', run, rw (one) all, started)

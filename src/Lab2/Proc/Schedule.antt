-- ===== src/Lab2/Proc/Schedule.antt =====
-- Lab2/kernel/proc.c: how processes end, wait, sleep, wake and get a CPU. Each operation is one critical
-- section: the locks of the table are left out.
use hitsz_os.Base.{
  List, [], ◌∷◌, ◌++◌, ℕ, zero, suc, Bool, true, false, none, some, not, ◌&&◌, ◌==◌, if◌then◌else◌,
}
use hitsz_os.Base.Kernel.{M, ok, pure, fail, ◌>>=◌, ◌>>◌, gets, modify, ensure}
use hitsz_os.Lab4.Proc.{
  sleeping, runnable, running, zombie, is_sleeping, is_runnable, is_running, is_zombie, Chan, entry,
  same_chan, is_child, change, find_entry, for_all, Cpu, FileCall, begin_op, iput, end_op,
  close_loop,
}
use hitsz_os.Lab4.ProcMemory.{Waited, reaped, failed, sleeps}
use hitsz_os.Lab2.Proc.{Proc, Vm, Kernel, on_vm, the, edit, freeproc}

abbrev make_runnable : Proc → Proc
make_runnable p = record p { state = runnable }

module _ {V : Type 0} (nproc : ℕ) where
  unfoldable pub wakeup : Chan → M (Kernel V) (Unit {0})
  wakeup chan = modify (λ s. record s {
    proc =
        for_all (λ _ p. is_sleeping p.state && same_chan chan p.chan) make_runnable s.proc nproc 0;
  })

  -- The result tells 0 from -1.
  unfoldable pub kill : (pid : ℕ) → M (Kernel V) Bool
  kill pid s = elim (find_entry {A = Proc} (λ p. p.pid == pid) s.proc nproc 0) [
    | none ↦ ok (false, s)
    | some i ↦ ok (
      true,
      record s {
        proc = change s.proc i (λ p. record p {
          killed = true;
          state = if is_sleeping p.state then runnable else p.state;
        });
      },
    )
  ]

  unfoldable pub reparent : (p : ℕ) → M (Kernel V) (Unit {0})
  reparent p = modify (λ s. record s {
    proc =
        for_all (λ _ pp. is_child p pp.parent) (λ pp. record pp { parent = some s.initproc }) s.proc
          nproc 0;
  })

module _ {V : Type 0} where
  -- `wakeup1`. Its caller holds the lock of `p`.
  unfoldable pub wakeup1 : (p : ℕ) → M (Kernel V) (Unit {0})
  wakeup1 p = do
    q ← the p
    if same_chan (entry p) q.chan && is_sleeping q.state then edit p make_runnable else pure tt

  -- `exit` of process `p`, up to `sched`, which does not come back. The result are the calls into the file
  -- system, in order. A process without a parent would
  -- read a lock at address 0. `fileclose` and `iput` stand elsewhere.
  unfoldable pub exit : (nproc nofile p status : ℕ) → M (Kernel V) (List FileCall)
  exit nproc nofile p status = do
    initproc ← gets (λ s. s.initproc)
    if p == initproc then fail "init exiting" else do
      r ← the p
      let closed = close_loop r.ofile nofile 0
      edit p (λ q. record q { ofile = closed.1; cwd = 0 })
      wakeup1 initproc
      q ← the p
      reparent nproc p
      elim q.parent [ none ↦ fail "fault" | some parent ↦ wakeup1 parent ]
      edit p (λ q. record q { xstate = status; state = zombie })
      pure (closed.0 ++ (begin_op ∷ iput r.cwd ∷ end_op ∷ []))

  -- One scan of `wait` by process `p`, up to the call of `sleep`. `bytes` are those of `xstate`.
  unfoldable pub wait : Vm V → (nproc : ℕ) (bytes : ℕ → ℕ → ℕ) (p addr : ℕ) → M (Kernel V) Waited
  wait vm nproc bytes p addr = do
    t ← gets (λ s. s.proc)
    elim (find_entry {A = Proc} (λ q. is_child p q.parent && is_zombie q.state) t nproc 0) [
      | some np ↦ do
        let pid = (t np).pid
        copied ←
            (if addr == 0
              then pure true
              else on_vm (vm.copyout (t p).pagetable addr (bytes (t np).xstate) 4))
        if not copied then pure failed else do freeproc vm np; pure (reaped pid)
      | none ↦ elim (find_entry {A = Proc} (λ q. is_child p q.parent) t nproc 0) [
        | none ↦ pure failed
        | some _ ↦ if (t p).killed then pure failed else pure sleeps
      ]
    ]

  -- One pass of `scheduler` over the table, from entry `i` on. `run p` is what happens from `swtch` to
  -- process `p` until the switch back. The result is `found`.
  unfoldable pub scheduler_pass :
      (run : ℕ → M (Kernel V) (Unit {0})) (count i : ℕ) (found : Bool) → M (Kernel V) Bool
  scheduler_pass run zero i found = pure found
  scheduler_pass run (suc n) i found =
      let rest = scheduler_pass run n (suc i) in
      do
        q ← the i
        if is_runnable q.state
            then (do
              edit i (λ p. record p { state = running })
              modify (λ s. record s { current = some i })
              run i
              modify (λ s. record s { current = none })
              rest true)
            else rest found

  -- The part of `sched` before the switch. `holding_lock` is `holding(&p->lock)`.
  unfoldable pub sched : (holding_lock : Bool) → Cpu → (p : ℕ) → M (Kernel V) (Unit {0})
  sched holding_lock cpu p = do
    q ← the p
    ensure holding_lock "sched p->lock"
    ensure (cpu.noff == 1) "sched locks"
    ensure (not (is_running q.state)) "sched running"
    ensure (not cpu.intr) "sched interruptible"

  -- `yield`, up to the switch: the process holds its lock, and no other.
  unfoldable pub yield : Cpu → (p : ℕ) → M (Kernel V) (Unit {0})
  yield cpu p = do edit p make_runnable; sched true cpu p

  -- `sleep`, up to the switch.
  unfoldable pub sleep : Cpu → (p : ℕ) → Chan → M (Kernel V) (Unit {0})
  sleep cpu p chan = do
    edit p (λ q. record q { chan = some chan; state = sleeping })
    sched true cpu p

  -- `sleep`, behind the switch
  unfoldable pub awake : (p : ℕ) → M (Kernel V) (Unit {0})
  awake p = edit p (λ q. record q { chan = none })

-- ===== src/Lab4/Scheduler/Tests.antt =====
-- A pass of the scheduler over four processes, of which two are ready.
use hitsz_os.Base.{ℕ, ◌≡◌, ◌<◌, ◌↔◌, refl, Bool, true, false, none, ◌==◌, if◌then◌else◌, []}
use hitsz_os.Base.Kernel.{M, Outcome, ok, panic, modify, Returns, returns}
use hitsz_os.Lab4.Proc.{sleeping, runnable, is_runnable, Proc, change}
use hitsz_os.Lab4.Scheduler.{
  Hart, kvminithart, proc_kvminithart, turn, scheduler_pass, scheduler_pass-Switched,
}

abbrev job : ℕ → Proc
job i = record {
  state = if i == 1 then runnable else if i == 3 then runnable else sleeping;
  parent = none;
  chan = none;
  killed = false;
  xstate = 0;
  pid = i;
  kstack = 0;
  kstack_pa = 0;
  sz = 0;
  pagetable = 0;
  k_pagetable = i;
  trapframe = 0;
  frame = record { epc = 0; sp = 0; a0 = 0; a1 = 0; rest = 0 };
  ra = 0;
  ksp = 0;
  ofile = λ fd. 0;
  cwd = 0;
  name = [];
}

abbrev idle_hart : Hart
idle_hart = record {
  table = record { proc = job; nextpid = 9; initproc = 1 };
  current = none;
  satp = 77;
}

-- The process goes to sleep.
abbrev nap : ℕ → M Hart (Unit {0})
nap p = modify (λ s. record s {
  table = record s.table { proc = change s.table.proc p (λ q. record q { state = sleeping }) };
})

found : Outcome (Bool × Hart) → Bool
found (ok (r, s)) = r
found (panic msg) = false

finds_ready : found (scheduler_pass 77 nap 4 0 false idle_hart) ≡ true
unfolding found scheduler_pass turn kvminithart proc_kvminithart
finds_ready = refl

passes_over :
    Returns
      (λ r t.
        ((t.satp ≡ 77) × (t.current ≡ none))
        × ((r ≡ false) ↔ ((j : ℕ) → j < 4 → is_runnable (job j).state ≡ false))
        × (r ≡ false → t ≡ idle_hart))
      (scheduler_pass 77 nap 4 0 false idle_hart)
passes_over = scheduler_pass-Switched 77 nap (λ p s switched. returns tt) 4 idle_hart (refl, refl)

-- ===== src/Lab4/Proc/Tests.antt =====
-- A process table with init, a parent that waits, and its child.
use hitsz_os.Base.{
  ℕ, ◌≡◌, refl, false, Option, none, some, ◌&&◌, arith, ◌==◌, ltb, if◌then◌else◌, [],
}
use hitsz_os.Base.Kernel.{Returns}
use hitsz_os.Lab4.Proc.{
  ProcState, unused, sleeping, running, is_sleeping, Chan, entry, same_chan, Proc, Table,
  make_runnable, wakeup, exit,
}
use hitsz_os.Lab4.Proc.Wake.{wakeup_lem}
use hitsz_os.Lab4.Proc.Exit.{file_calls, Exited, exit-Exited}

abbrev a_proc : ProcState → Option ℕ → Option Chan → ℕ → Proc
a_proc state parent chan pid = record {
  state = state;
  parent = parent;
  chan = chan;
  killed = false;
  xstate = 0;
  pid = pid;
  kstack = 0;
  kstack_pa = 0;
  sz = 4096;
  pagetable = 1;
  k_pagetable = 2;
  trapframe = 3;
  frame = record { epc = 0; sp = 4096; a0 = 0; a1 = 0; rest = 0 };
  ra = 0;
  ksp = 0;
  ofile = λ fd. fd;
  cwd = 9;
  name = [];
}

-- init is entry 0, the parent entry 1, the child entry 2.
abbrev table : Table
table = record {
  proc = λ i.
      if i == 0
      then a_proc sleeping none (some (entry 0)) 1
      else if i == 1
      then a_proc sleeping (some 0) (some (entry 1)) 2
      else if i == 2
      then a_proc running (some 1) none 3
      else a_proc unused none none 0;
  nextpid = 4;
  initproc = 0;
}

woken_1 :
    Returns
      (λ _ t.
        (t.nextpid ≡ 4)
        × (t.initproc ≡ 0)
        × ((i : ℕ)
            → t.proc i ≡ (
                if ltb i 64
                  && (is_sleeping (table.proc i).state && same_chan (entry 1) (table.proc i).chan)
                then make_runnable (table.proc i)
                else table.proc i)))
      (wakeup 64 (entry 1) table)
woken_1 = wakeup_lem 64 (entry 1) table

exits_2 :
    Returns
      (λ calls t. (calls ≡ file_calls 64 16 2 7 table) × Exited 64 16 2 7 table 1 t)
      (exit 64 16 2 7 table)
exits_2 = exit-Exited 64 16 2 7 table 1 (omega arith) refl

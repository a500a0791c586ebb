-- ===== src/Lab4/ProcMemory/Tests.antt =====
-- A fork without memory, and then a kill, on a small kernel.
use hitsz_os.Base.{ℕ, ◌≡◌, refl, true, false, none, some, arith, ◌==◌, ltb, if◌then◌else◌, []}
use hitsz_os.Base.Kernel.{ok}
use hitsz_os.Lab4.Memory.{Allocator, no_pte}
use hitsz_os.Lab4.PageTable.{Platform}
use hitsz_os.Lab4.Proc.{sleeping, unused, runnable, change, allocpid, entry, Proc, find_entry, kill}
use hitsz_os.Lab4.ProcMemory.{Kernel, on_table, fork, allocproc, init_found}
use hitsz_os.Lab4.ProcMemory.Pids.{UniquePids}
use hitsz_os.Lab4.ProcMemory.Steps.{forks, kills, step_on, rest_here, Steps-UniquePids}

-- no page is free
abbrev empty : Allocator ℕ
empty = record { take = λ a. (0, a); give = λ x a. none; free = λ a x. false }

abbrev board : Platform
board = record {
  maxva = 274877906944;
  pground_down = λ x. x;
  pground_up = λ x. x;
  uart0 = 0;
  virtio0 = 0;
  clint = 0;
  plic = 0;
  kernbase = 0;
  etext = 0;
  phystop = 0;
  trampoline = 0;
  trampoline_pa = 0;
  trapframe = 0;
}

abbrev sleeper : ℕ → Proc
sleeper i = record {
  state = if ltb i 2 then sleeping else unused;
  parent = none;
  chan = some (entry 7);
  killed = false;
  xstate = 0;
  pid = if i == 0 then 1 else if i == 1 then 2 else 0;
  kstack = 0;
  kstack_pa = 0;
  sz = 0;
  pagetable = 0;
  k_pagetable = 0;
  trapframe = 0;
  frame = record { epc = 0; sp = 0; a0 = 0; a1 = 0; rest = 0 };
  ra = 0;
  ksp = 0;
  ofile = λ fd. 0;
  cwd = 0;
  name = [];
}

abbrev start : Kernel ℕ
start = record {
  mem = record { tables = λ p i. no_pte; bytes = λ a. 0; alloc = 0 };
  table = record { proc = sleeper; nextpid = 3; initproc = 0 };
}

start-UniquePids : UniquePids 3 start
start-UniquePids = record {
  unique = λ i j ne e. ground (arith, ne, e);
  used = λ i. ground arith;
  bounded = omega arith;
}

-- `fork` finds entry 2, gives it a pid, and finds no page for the trapframe.
abbrev tried : Kernel ℕ
tried = record start {
  table = record start.table {
    proc =
        change (change sleeper 2 (λ q. record q { pid = 3 })) 2 (λ q. record q { trapframe = 0 });
    nextpid = 4;
  };
}

-- Then the process with pid 2, which sleeps, is killed.
abbrev struck : Kernel ℕ
struck = record tried {
  table = record tried.table {
    proc = change tried.table.proc 1 (λ q. record q { killed = true; state = runnable });
  };
}

tries : fork empty board 4 16 0 0 start ≡ ok (none, tried)
unfolding fork allocproc init_found allocpid find_entry
tries = refl

strikes : on_table (kill 4 2) tried ≡ ok (true, struck)
unfolding kill find_entry
strikes = refl

still_unique : UniquePids 5 struck
still_unique =
    Steps-UniquePids empty board 4 16 0
      (step_on (forks 0 none tries) (step_on (kills 2 true strikes) rest_here)) (omega arith)
      start-UniquePids

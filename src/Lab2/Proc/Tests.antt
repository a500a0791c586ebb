-- ===== src/Lab2/Proc/Tests.antt =====
-- A fork in a small table, and a pass of the scheduler.
use hitsz_os.Base.{
  ℕ, zero, suc, ◌≡◌, refl, true, false, Option, none, some, ◌==◌, if◌then◌else◌, [],
}
use hitsz_os.Base.Kernel.{M, Outcome, ok, panic, Blames}
use hitsz_os.Lab4.Proc.{unused, running, find_entry}
use hitsz_os.Lab2.Proc.{
  Proc, Vm, Kernel, allocpid, proc_pagetable, give_pagetable, freeproc, init_found, allocproc,
  copy_process, fork,
}
use hitsz_os.Lab2.Proc.Children.{VmPanics, Forked}
use hitsz_os.Lab2.Proc.Fork.{fork-Forked}

-- Memory is the number of free pages.
abbrev take : M ℕ ℕ
take zero = ok (0, 0)
take (suc v) = ok (suc v, v)

abbrev counted : Vm ℕ
counted = record {
  kalloc = take;
  kfree = λ pa v. ok (tt, suc v);
  kvmmap = λ va pa sz perm v. ok (tt, v);
  uvmcreate = take;
  mappages = λ pt va size pa perm v. ok (true, v);
  uvmunmap = λ pt va n b v. ok (tt, v);
  uvmfree = λ pt sz v. ok (tt, suc v);
  uvminit = λ pt src sz v. ok (tt, v);
  uvmalloc = λ pt old new v. ok (new, v);
  uvmdealloc = λ pt old new v. ok (new, v);
  uvmcopy = λ old new sz v. ok (true, v);
  copyout = λ pt va src len v. ok (true, v);
  pgsize = 4096;
  trampoline = 274877902848;
  trampoline_pa = 2147511296;
  trapframe = 274877898752;
  kstack = λ i. 0;
}

abbrev entry_of : ℕ → Proc
entry_of i = record {
  state = if i == 0 then running else unused;
  parent = none;
  chan = none;
  killed = false;
  xstate = 0;
  pid = if i == 0 then 1 else 0;
  kstack = 0;
  sz = 8192;
  pagetable = 7;
  trapframe = 8;
  frame = record { epc = 24; sp = 8192; a0 = 5; a1 = 6; rest = 0 };
  ra = 0;
  ksp = 0;
  ofile = λ fd. if fd == 2 then 9 else 0;
  cwd = 3;
  name = [];
  mask = 32;
}

abbrev machine : Kernel ℕ
machine = record { proc = entry_of; nextpid = 2; initproc = 0; current = some 0; vm = 5 }

result : {R : Type 0} → Outcome (R × Kernel ℕ) → Option R
result (ok (r, s)) = some r
result (panic msg) = none

state : {R : Type 0} → Outcome (R × Kernel ℕ) → Kernel ℕ
state (ok (r, s)) = s
state (panic msg) = machine

gives_2 : result (fork counted 64 16 0 0 machine) ≡ some (some 2)
unfolding result fork allocproc find_entry init_found allocpid give_pagetable proc_pagetable
    copy_process
gives_2 = refl

-- With one page left there is a trapframe, but no page table.
lacks_pages : result (fork counted 64 16 0 0 (record machine { vm = 1 })) ≡ some none
unfolding result fork allocproc find_entry init_found allocpid give_pagetable proc_pagetable
    freeproc
lacks_pages = refl

inherits_mask : ((state (fork counted 64 16 0 0 machine)).proc 1).mask ≡ 32
unfolding state fork allocproc find_entry init_found allocpid give_pagetable proc_pagetable
    copy_process
inherits_mask = refl

forks_1 :
    Blames (λ r t. Forked 64 16 0 machine t r) (VmPanics counted) (fork counted 64 16 0 0 machine)
forks_1 = fork-Forked counted 64 16 0 0 machine refl

-- ===== src/Lab2/Proc.antt =====
-- Lab2/kernel/proc.c: the process table. Memory (vm.c, kalloc.c) is a parameter. The states of a process
-- and the scans of the table are those of Lab4/Proc: these lines are the same in both sources.
pub mod Children
pub mod Allocproc
pub mod Fork
pub mod Schedule
pub mod Console
mod Tests
use hitsz_os.Base.{
  ℕ, zero, suc, ◌+◌, ◌-◌, ◌*◌, ◌%◌, ◌^◌, Bool, true, false, Option, none, some, not, ◌&&◌, leb, ltb,
  ◌==◌, if◌then◌else◌, List, [], ◌∷◌,
}
use hitsz_os.Base.Kernel.{
  M, Outcome, ok, panic, pure, fail, ◌>>=◌, ◌>>◌, gets, modify, ensure, update,
}
use hitsz_os.Lab4.Proc.{
  ProcState, unused, sleeping, runnable, running, zombie, is_unused, is_sleeping, is_runnable,
  is_running, is_zombie, Chan, entry, same_chan, is_child, Trapframe, change, find_entry, for_all,
}

-- `struct proc`. A process is its index in the table; pointers that may be 0 are options or addresses.
pub record Proc : Type 0 where
  pub state : ProcState
  pub parent : Option ℕ
  pub chan : Option Chan
  pub killed : Bool
  pub xstate : ℕ
  pub pid : ℕ
  pub kstack : ℕ
  pub sz : ℕ
  pub pagetable : ℕ
  pub trapframe : ℕ  -- the page
  pub frame : Trapframe  -- what is in it
  pub ra : ℕ  -- `context.ra` and `context.sp`
  pub ksp : ℕ
  pub ofile : ℕ → ℕ
  pub cwd : ℕ
  pub name : List ℕ
  pub mask : ℕ

-- PTE_R | PTE_X and PTE_R | PTE_W
abbrev pub perm_rx : ℕ
perm_rx = 10

abbrev pub perm_rw : ℕ
perm_rw = 6

-- The functions on memory that proc.c calls, on a memory `V`, and the addresses of memlayout.h. A Boolean
-- result tells 0 from -1.
pub record Vm (V : Type 0) : Type 0 where
  pub kalloc : M V ℕ
  pub kfree : ℕ → M V (Unit {0})
  pub kvmmap : (va pa sz perm : ℕ) → M V (Unit {0})
  pub uvmcreate : M V ℕ
  pub mappages : (pagetable va size pa perm : ℕ) → M V Bool
  pub uvmunmap : (pagetable va npages : ℕ) → Bool → M V (Unit {0})
  pub uvmfree : (pagetable sz : ℕ) → M V (Unit {0})
  pub uvminit : (pagetable : ℕ) (src : ℕ → ℕ) (sz : ℕ) → M V (Unit {0})
  pub uvmalloc : (pagetable oldsz newsz : ℕ) → M V ℕ
  pub uvmdealloc : (pagetable oldsz newsz : ℕ) → M V ℕ
  pub uvmcopy : (old new sz : ℕ) → M V Bool
  pub copyout : (pagetable dstva : ℕ) (src : ℕ → ℕ) (len : ℕ) → M V Bool
  pub pgsize : ℕ
  pub trampoline : ℕ  -- TRAMPOLINE
  pub trampoline_pa : ℕ  -- the symbol `trampoline`
  pub trapframe : ℕ  -- TRAPFRAME
  pub kstack : ℕ → ℕ

-- The table, with `nextpid`, `initproc`, `c->proc` of the running CPU, and memory.
pub record Kernel (V : Type 0) : Type 0 where
  pub proc : ℕ → Proc
  pub nextpid : ℕ
  pub initproc : ℕ
  pub current : Option ℕ
  pub vm : V

module _ {V : Type 0} where
  -- An operation on memory, as one of the kernel.
  abbrev pub on_vm : {R : Type 0} → M V R → M (Kernel V) R
  on_vm m s = elim (m s.vm) [ ok (r, v) ↦ ok (r, record s { vm = v }) | panic msg ↦ panic msg ]

  abbrev pub the : (p : ℕ) → M (Kernel V) Proc
  the p = gets (λ s. s.proc p)

  abbrev pub edit : (p : ℕ) → (Proc → Proc) → M (Kernel V) (Unit {0})
  edit p f = modify (λ s. record s { proc = change s.proc p f })

  -- The result is the new pid. `int nextpid` wraps around.
  unfoldable pub allocpid : M (Kernel V) ℕ
  allocpid s = ok (s.nextpid, record s { nextpid = suc s.nextpid % 2 ^ 32 })

abbrev pub u32 : ℕ → ℕ
u32 n = n % 2 ^ 32

module _ {V : Type 0} (vm : Vm V) where
  -- The loop of `procinit`, from entry `i` on.
  unfoldable pub procinit_loop : (count i : ℕ) → M (Kernel V) (Unit {0})
  procinit_loop zero i = pure tt
  procinit_loop (suc n) i = do
    pa ← on_vm vm.kalloc
    (if pa == 0 then fail "kalloc" else do
      on_vm (vm.kvmmap (vm.kstack i) pa vm.pgsize perm_rw)
      edit i (λ q. record q { kstack = vm.kstack i })
      procinit_loop n (suc i))

  -- The argument is `p->trapframe`. The result is the new page table, or 0.
  unfoldable pub proc_pagetable : (trapframe : ℕ) → M V ℕ
  proc_pagetable trapframe = do
    pagetable ← vm.uvmcreate
    if pagetable == 0 then pure 0 else do
      mapped ← vm.mappages pagetable vm.trampoline vm.pgsize vm.trampoline_pa perm_rx
      if not mapped then (do vm.uvmfree pagetable 0; pure 0) else do
        framed ← vm.mappages pagetable vm.trapframe vm.pgsize trapframe perm_rw
        if framed
            then pure pagetable
            else do vm.uvmunmap pagetable vm.trampoline 1 false; vm.uvmfree pagetable 0; pure 0

  unfoldable pub proc_freepagetable : (pagetable sz : ℕ) → M V (Unit {0})
  proc_freepagetable pagetable sz = do
    vm.uvmunmap pagetable vm.trampoline 1 false
    vm.uvmunmap pagetable vm.trapframe 1 false
    vm.uvmfree pagetable sz

  -- `freeproc` leaves `mask` and the open files alone.
  unfoldable pub freeproc : (p : ℕ) → M (Kernel V) (Unit {0})
  freeproc p = do
    q ← the p
    (if q.trapframe == 0 then pure tt else on_vm (vm.kfree q.trapframe))
    (if q.pagetable == 0 then pure tt else on_vm (proc_freepagetable q.pagetable q.sz))
    edit p (λ q. record q {
      trapframe = 0;
      pagetable = 0;
      sz = 0;
      pid = 0;
      parent = none;
      name = [];
      chan = none;
      killed = false;
      xstate = 0;
      state = unused;
    })

  -- `allocproc` behind the page for the trapframe.
  unfoldable pub give_pagetable : (forkret p trapframe : ℕ) → M (Kernel V) (Option ℕ)
  give_pagetable forkret p trapframe = do
    pagetable ← on_vm (proc_pagetable trapframe)
    edit p (λ q. record q { pagetable = pagetable })
    if pagetable == 0
        then (do freeproc p; pure none)
        else do edit p (λ q. record q { ra = forkret; ksp = q.kstack + vm.pgsize }); pure (some p)

  -- `allocproc` from the label `found` on.
  unfoldable pub init_found : (forkret p : ℕ) → M (Kernel V) (Option ℕ)
  init_found forkret p = do
    pid ← allocpid
    edit p (λ q. record q { pid = pid })
    trapframe ← on_vm vm.kalloc
    edit p (λ q. record q { trapframe = trapframe })
    if trapframe == 0 then pure none else give_pagetable forkret p trapframe

  -- The result is the index of the process, or none.
  unfoldable pub allocproc : (nproc forkret : ℕ) → M (Kernel V) (Option ℕ)
  allocproc nproc forkret = do
    t ← gets (λ s. s.proc)
    elim (find_entry {A = Proc} (λ q. is_unused q.state) t nproc 0) [
      | none ↦ pure none
      | some p ↦ init_found forkret p
    ]

  -- `userinit`, where `root_dir` is the inode of "/". A failed `allocproc` would write to address 0.
  unfoldable pub userinit :
      (nproc forkret : ℕ) (initcode : ℕ → ℕ) (size : ℕ) (name : List ℕ) (root_dir : ℕ)
      → M (Kernel V) (Unit {0})
  userinit nproc forkret initcode size name root_dir = do
    allocated ← allocproc nproc forkret
    elim allocated [
      | none ↦ fail "fault"
      | some p ↦ do
        modify (λ s. record s { initproc = p })
        q ← the p
        on_vm (vm.uvminit q.pagetable initcode size)
        edit p (λ q. record q {
          sz = vm.pgsize;
          frame = record q.frame { epc = 0; sp = vm.pgsize };
          name = name;
          cwd = root_dir;
          state = runnable;
        })
    ]

  -- `growproc` of process `p`. `n` is an `int` in two's complement, and the result tells 0 from -1.
  unfoldable pub growproc : (p n : ℕ) → M (Kernel V) Bool
  growproc p n = do
    q ← the p
    let sz = u32 q.sz
    if n == 0
        then (do edit p (λ q. record q { sz = sz }); pure true)
        else if ltb n (2 ^ 31)
        then (do
          r ← on_vm (vm.uvmalloc q.pagetable sz (u32 (sz + n)))
          if u32 r == 0 then pure false else do edit p (λ q. record q { sz = u32 r }); pure true)
        else do
          r ← on_vm (vm.uvmdealloc q.pagetable sz (u32 (sz + n)))
          edit p (λ q. record q { sz = u32 r })
          pure true

  -- `fork` behind `allocproc`: `q` is the parent `p`, and `child` the new process `np`. `filedup` and
  -- `idup` give back their argument: they count a reference.
  unfoldable pub copy_process : (nofile p np : ℕ) (q child : Proc) → M (Kernel V) (Option ℕ)
  copy_process nofile p np q child = do
    copied ← on_vm (vm.uvmcopy q.pagetable child.pagetable q.sz)
    if not copied then (do freeproc np; pure none) else do
      edit np (λ c. record c {
        sz = q.sz;
        parent = some p;
        mask = q.mask;
        frame = record q.frame { a0 = 0 };
        ofile = λ i. if ltb i nofile && not (q.ofile i == 0) then q.ofile i else c.ofile i;
        cwd = q.cwd;
        name = q.name;
        state = runnable;
      })
      pure (some child.pid)

  -- `fork` by process `p`. The result is the pid, or none for -1.
  unfoldable pub fork : (nproc nofile forkret p : ℕ) → M (Kernel V) (Option ℕ)
  fork nproc nofile forkret p = do
    allocated ← allocproc nproc forkret
    elim allocated [
      | none ↦ pure none
      | some np ↦ do q ← the p; child ← the np; copy_process nofile p np q child
    ]

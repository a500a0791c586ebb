-- ===== src/Lab4/ProcMemory.antt =====
-- Lab4/kernel/proc.c: the operations on a process that allocate, copy and free its memory.
pub mod Pids
pub mod Steps
pub mod InStep
pub mod Resize
pub mod Console
pub mod Stacks
mod Tests
use hitsz_os.Base.{
  ℕ, zero, suc, ◌+◌, ◌-◌, ◌/◌, ◌%◌, ◌^◌, Bool, true, false, Option, none, some, not, ◌&&◌, leb, ltb,
  ◌==◌, if◌then◌else◌, List, [],
}
use hitsz_os.Base.Kernel.{M, ok, panic, pure, fail, ◌>>=◌, ◌>>◌, gets, modify}
use hitsz_os.Lab4.Memory.{page_size, Allocator, Memory}
use hitsz_os.Lab4.Memory
use hitsz_os.Lab4.PageTable.{Platform, mappages, uvmunmap, proc_kvmmap}
use hitsz_os.Lab4.UserMemory.{
  uvmcreate, uvminit, uvmalloc, uvmdealloc, uvmfree, uvmcopy, copyout, proc_freewalk,
}
use hitsz_os.Lab4.KernelMemory.{data_perm, text_perm, proc_kvminit, vmcopypage}
use hitsz_os.Lab4.Proc.{
  unused, runnable, is_unused, is_zombie, is_child, Proc, Table, edit, allocpid, find_entry,
}

-- The kernel: memory and the process table.
pub record Kernel (A : Type 0) : Type 0 where
  pub mem : Memory A
  pub table : Table

module _ {A R : Type 0} where
  -- An operation on memory, or on the table, as one of the kernel.
  abbrev pub on_memory : M (Memory A) R → M (Kernel A) R
  on_memory m s = elim (m s.mem) [
    | ok (r, mem) ↦ ok (r, record s { mem = mem })
    | panic msg ↦ panic msg
  ]

  abbrev pub on_table : M Table R → M (Kernel A) R
  on_table m s = elim (m s.table) [
    | ok (r, table) ↦ ok (r, record s { table = table })
    | panic msg ↦ panic msg
  ]

module _ {A : Type 0} where
  abbrev pub the : (p : ℕ) → M (Kernel A) Proc
  the p = gets (λ s. s.table.proc p)

  abbrev pub set : (p : ℕ) → (Proc → Proc) → M (Kernel A) (Unit {0})
  set p f = on_table (edit p f)

-- `uint`, and a `uint` read as an `int`
abbrev pub u32 : ℕ → ℕ
u32 n = n % 2 ^ 32

abbrev pub is_negative : ℕ → Bool
is_negative n = leb (2 ^ 31) n

module _ {A : Type 0} (al : Allocator A) (pl : Platform) where
  -- The argument is `p->trapframe`. The result is the new page table, or 0.
  unfoldable pub proc_pagetable : (trapframe : ℕ) → M (Memory A) ℕ
  proc_pagetable trapframe = do
    pagetable ← uvmcreate al
    if pagetable == 0 then pure 0 else do
      mapped ← mappages al pl pagetable pl.trampoline page_size pl.trampoline_pa text_perm
      if not mapped then (do uvmfree al pl pagetable 0; pure 0) else do
        framed ← mappages al pl pagetable pl.trapframe page_size trapframe data_perm
        if framed then pure pagetable else do
          uvmunmap al pl pagetable pl.trampoline 1 false
          uvmfree al pl pagetable 0
          pure 0

  unfoldable pub proc_freepagetable : (pagetable sz : ℕ) → M (Memory A) (Unit {0})
  proc_freepagetable pagetable sz = do
    uvmunmap al pl pagetable pl.trampoline 1 false
    uvmunmap al pl pagetable pl.trapframe 1 false
    uvmfree al pl pagetable sz

  unfoldable pub freeproc : (p : ℕ) → M (Kernel A) (Unit {0})
  freeproc p = do
    q ← the p
    (if q.trapframe == 0 then pure tt else on_memory (Memory.kfree al q.trapframe))
    (if q.pagetable == 0 then pure tt else on_memory (proc_freepagetable q.pagetable q.sz))
    (if q.k_pagetable == 0 then pure tt else on_memory (proc_freewalk al 3 q.k_pagetable))
    set p (λ q. record q {
      trapframe = 0;
      pagetable = 0;
      k_pagetable = 0;
      sz = 0;
      pid = 0;
      parent = none;
      name = [];
      chan = none;
      killed = false;
      xstate = 0;
      state = unused;
    })

  -- The last part of `allocproc`: the kernel page table and the context. `forkret` is the address of that
  -- function.
  unfoldable pub give_kernel_table : (forkret p : ℕ) → M (Kernel A) (Option ℕ)
  give_kernel_table forkret p = do
    k_pagetable ← on_memory (proc_kvminit al pl)
    set p (λ q. record q { k_pagetable = k_pagetable })
    if k_pagetable == 0 then (do freeproc p; pure none) else do
      q ← the p
      on_memory (proc_kvmmap al pl k_pagetable q.kstack q.kstack_pa page_size data_perm)
      set p (λ q. record q { ra = forkret; ksp = q.kstack + page_size })
      pure (some p)

  -- The middle part: the user page table.
  unfoldable pub give_tables : (forkret p trapframe : ℕ) → M (Kernel A) (Option ℕ)
  give_tables forkret p trapframe = do
    pagetable ← on_memory (proc_pagetable trapframe)
    set p (λ q. record q { pagetable = pagetable })
    if pagetable == 0 then (do freeproc p; pure none) else give_kernel_table forkret p

  -- `allocproc` from the label `found` on.
  unfoldable pub init_found : (forkret p : ℕ) → M (Kernel A) (Option ℕ)
  init_found forkret p = do
    pid ← on_table allocpid
    set p (λ q. record q { pid = pid })
    trapframe ← on_memory (Memory.kalloc al)
    set p (λ q. record q { trapframe = trapframe })
    if trapframe == 0 then pure none else give_tables forkret p trapframe

  -- The result is the index of the process, or none.
  unfoldable pub allocproc : (nproc forkret : ℕ) → M (Kernel A) (Option ℕ)
  allocproc nproc forkret = do
    t ← gets (λ s. s.table.proc)
    elim (find_entry {A = Proc} (λ q. is_unused q.state) t nproc 0) [
      | none ↦ pure none
      | some p ↦ init_found forkret p
    ]

  -- `userinit`, where `root_dir` is the inode of "/". A failed `allocproc` would write to address 0.
  unfoldable pub userinit :
      (nproc forkret : ℕ) (initcode : ℕ → ℕ) (size : ℕ) (name : List ℕ) (root_dir : ℕ)
      → M (Kernel A) (Unit {0})
  userinit nproc forkret initcode size name root_dir = do
    allocated ← allocproc nproc forkret
    elim allocated [
      | none ↦ fail "fault"
      | some p ↦ do
        modify (λ s. record s { table = record s.table { initproc = p } })
        q ← the p
        on_memory (uvminit al pl q.pagetable initcode size)
        set p (λ q. record q { sz = page_size })
        on_memory (vmcopypage al pl q.pagetable q.k_pagetable 0 page_size)
        set p (λ q. record q {
          frame = record q.frame { epc = 0; sp = page_size };
          name = name;
          cwd = root_dir;
          state = runnable;
        })
    ]

  -- The loop of `growproc` that takes pages out of the kernel's table.
  unfoldable pub shrink_loop : (fuel k_pagetable j stop : ℕ) → M (Memory A) (Unit {0})
  shrink_loop zero k_pagetable j stop = fail "out of fuel"
  shrink_loop (suc n) k_pagetable j stop =
      if not (ltb j stop)
      then pure tt
      else do uvmunmap al pl k_pagetable j 1 false; shrink_loop n k_pagetable (j + page_size) stop

  -- `growproc` of process `p`. `n` is an `int` in two's complement, and the result tells 0 from -1.
  unfoldable pub growproc : (p n : ℕ) → M (Kernel A) Bool
  growproc p n = do
    q ← the p
    let sz = u32 q.sz
    if leb pl.plic (u32 (sz + n))
        then pure false
        else if not (is_negative n) && not (n == 0)
        then (do
          r ← on_memory (uvmalloc al pl q.pagetable sz (u32 (sz + n)))
          if u32 r == 0 then pure false else do
            on_memory (vmcopypage al pl q.pagetable q.k_pagetable (u32 (u32 r + 2 ^ 32 - n)) n)
            set p (λ q. record q { sz = u32 r })
            pure true)
        else if is_negative n
        then (do
          r ← on_memory (uvmdealloc al pl q.pagetable sz (u32 (sz + n)))
          let stop = pl.pground_up (u32 (u32 r + 2 ^ 32 - n))
          on_memory (shrink_loop (stop / page_size + 2) q.k_pagetable (pl.pground_up (u32 r)) stop)
          set p (λ q. record q { sz = u32 r })
          pure true)
        else do set p (λ q. record q { sz = sz }); pure true

  -- `fork` behind `allocproc`: `q` is the parent `p`, and `child` the new process `np`. `filedup` and
  -- `idup` give back their argument: they count a reference.
  unfoldable pub copy_process : (nofile p np : ℕ) (q child : Proc) → M (Kernel A) (Option ℕ)
  copy_process nofile p np q child = do
    copied ← on_memory (uvmcopy al pl q.pagetable child.pagetable q.sz)
    if not copied then (do freeproc np; pure none) else do
      set np (λ c. record c {
        sz = q.sz;
        parent = some p;
        frame = record q.frame { a0 = 0 };
        ofile = λ i. if ltb i nofile && not (q.ofile i == 0) then q.ofile i else c.ofile i;
        cwd = q.cwd;
        name = q.name;
        state = runnable;
      })
      on_memory (vmcopypage al pl child.pagetable child.k_pagetable 0 q.sz)
      pure (some child.pid)

  -- `fork` by process `p`. The result is the pid, or none for -1.
  unfoldable pub fork : (nproc nofile forkret p : ℕ) → M (Kernel A) (Option ℕ)
  fork nproc nofile forkret p = do
    allocated ← allocproc nproc forkret
    elim allocated [
      | none ↦ pure none
      | some np ↦ do q ← the p; child ← the np; copy_process nofile p np q child
    ]

-- How a scan of `wait` ends: a child is reaped, `copyout` fails, or none has exited.
pub data Waited : Type 0 where
  reaped : (pid : ℕ) → Waited
  failed : Waited
  sleeps : Waited

module _ {A : Type 0} (al : Allocator A) (pl : Platform) where
  -- One scan of `wait` by process `p`, up to the call of `sleep`. `bytes` are those of `xstate`.
  unfoldable pub wait : (nproc : ℕ) (bytes : ℕ → ℕ → ℕ) (p addr : ℕ) → M (Kernel A) Waited
  wait nproc bytes p addr = do
    t ← gets (λ s. s.table.proc)
    elim (find_entry {A = Proc} (λ q. is_child p q.parent && is_zombie q.state) t nproc 0) [
      | some np ↦ do
        let pid = (t np).pid
        copied ←
            (if addr == 0
              then pure true
              else on_memory (copyout al pl (t p).pagetable addr (bytes (t np).xstate) 4))
        if not copied then pure failed else do freeproc al pl np; pure (reaped pid)
      | none ↦
          let havekids = find_entry {A = Proc} (λ q. is_child p q.parent) t nproc 0 in
          elim havekids [
            | none ↦ pure failed
            | some _ ↦ if (t p).killed then pure failed else pure sleeps
          ]
    ]

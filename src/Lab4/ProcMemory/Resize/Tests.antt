-- ===== src/Lab4/ProcMemory/Resize/Tests.antt =====
-- A process with one page in both of its tables, and `growproc` of Lab4/kernel/proc.c by two pages.
use hitsz_os.Base.{
  ℕ, ◌^◌, ◌≡◌, ◌≤◌, ◌<◌, refl, Bool, false, none, some, not, arith, ◌==◌, ltb, if◌then◌else◌, [],
}
use hitsz_os.Base.Kernel.{Ends}
use hitsz_os.Lab4.Memory.{Pte, no_pte, table_pte}
use hitsz_os.Lab4.PageTable.{px}
use hitsz_os.Lab4.PageTable.Tree.{lookup, IsTree}
use hitsz_os.Lab4.KernelMemory.{kernel_pte}
use hitsz_os.Lab4.KernelMemory.Tests.{qemu, qemu-IsLayout}
use hitsz_os.Lab4.UserMemory.Tests.{
  is_frame, frames, frames-IsAllocator, frames-TakesBack, parent_leaf,
}
use hitsz_os.Lab4.Proc.{runnable, Proc}
use hitsz_os.Lab4.ProcMemory.{Kernel, growproc}
use hitsz_os.Lab4.ProcMemory.InStep.{Resized}
use hitsz_os.Lab4.ProcMemory.Resize.{growproc-InStep}

-- Page 1 is the root of the user table, and page 5 that of the kernel table.
abbrev pair_rank : ℕ → ℕ
pair_rank p =
    if p == 4096
    then 3
    else if p == 20480
    then 3
    else if p == 8192
    then 2
    else if p == 24576
    then 2
    else if p == 12288
    then 1
    else if p == 28672
    then 1
    else 0

abbrev pair_tables : ℕ → ℕ → Pte
pair_tables p i =
    if not (i == 0)
    then no_pte
    else if p == 4096
    then table_pte 8192
    else if p == 8192
    then table_pte 12288
    else if p == 12288
    then parent_leaf
    else if p == 20480
    then table_pte 24576
    else if p == 24576
    then table_pte 28672
    else if p == 28672
    then kernel_pte parent_leaf
    else no_pte

abbrev pub grower : Proc
grower = record {
  state = runnable;
  parent = none;
  chan = none;
  killed = false;
  xstate = 0;
  pid = 1;
  kstack = 0;
  kstack_pa = 0;
  sz = 4096;
  pagetable = 4096;
  k_pagetable = 20480;
  trapframe = 0;
  frame = record { epc = 0; sp = 0; a0 = 0; a1 = 0; rest = 0 };
  ra = 0;
  ksp = 0;
  ofile = λ fd. 0;
  cwd = 0;
  name = [];
}

abbrev pair : Kernel (ℕ → Bool)
pair = record {
  mem = record { tables = pair_tables; bytes = λ a. 0; alloc = λ k. ltb 7 k };
  table = record { proc = λ i. grower; nextpid = 2; initproc = 0 };
}

pair-IsTree : IsTree frames pair_rank pair.mem
pair-IsTree = record {
  down = λ k p i e v. ground arith;
  once = λ k p i q j e e' v v' same. ground arith;
  unfree = λ p f. ground arith;
  zero_rank = refl;
}

first_page :
    (va : ℕ)
    → va < 4096
    → (lookup pair_tables 2 4096 va ≡ some parent_leaf)
      × (lookup pair_tables 2 20480 va ≡ some (kernel_pte parent_leaf))
unfolding lookup
first_page va below =
    let top : px 2 va ≡ 0 = omega arith in
    let middle : px 1 va ≡ 0 = omega arith in
    let bottom : px 0 va ≡ 0 = omega arith in rw (top, middle, bottom) (refl, refl)

no_more_pages : (va : ℕ) → 4096 ≤ va → va < 2 ^ 30 → lookup pair_tables 2 4096 va ≡ none
unfolding lookup
no_more_pages va above below = ground arith

grows_by_8192 :
    Ends
      (λ done t. Resized frames pair 0 12288 done t)
      "vmcopypage"
      (growproc frames qemu 0 8192 pair)
grows_by_8192 =
    growproc-InStep frames qemu frames-IsAllocator qemu-IsLayout (omega arith) is_frame
      frames-TakesBack (λ x e. ground arith) (λ x. refl) pair_rank pair pair-IsTree 0 refl refl
      (ground arith) (λ va small less. ground (arith, first_page va))
      (λ va small less. (parent_leaf, (first_page va (omega arith)).0, refl, refl, refl, refl))
      (λ x f. ground arith) (λ x f. ground arith)
      (λ va small above below. no_more_pages va (omega arith) (omega arith)) (omega arith) 8192
      (omega arith) (λ grows. refl)

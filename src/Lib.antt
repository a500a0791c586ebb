-- ===== src/Lib.antt =====
-- Verification of HITSZ_OS_2022: the C programs and kernel parts of Lab1 to Lab4, as functions on
-- explicit state, and theorems on them.
--
-- Parts and files. A module has the name of its directory and its C file.
--   Base, Base/Kernel   shared names; kernel code as state passing (`M`): a run ends in `ok` with a result
--                       and a state, or in `panic`. `Returns` says that a run does not panic, `Ends` that
--                       it may only panic with one message, `EndsUnless` and `Blames` that a panic has a reason. Base/Sets, Base/Lists: lists of pages.
--   Pages               what the linker and riscv.h fix about pages, and chains of free pages in memory.
--   Lab1/Primes         Lab1/primes.c: `primes`, `main`. A pipe is the list of its bytes.
--   Lab1/Find           Lab1/find.c: `fmtname`, `find`, `main`. Spec: which files it is meant to print.
--   Lab1/Xargs          Lab1/xargs.c: the loops of `main` that cut the input.
--   Lab2/Kalloc         Lab2/kernel/kalloc.c: `kinit`, `freerange`, `kfree`, `kalloc`, `check_freemem`.
--   Lab2/Syscall        Lab2/kernel/syscall.c and sysproc.c: `syscall`, `argraw`, `argint`, `fetchaddr`,
--                       `sys_trace`, `sys_sysinfo`, `sys_sbrk`, the loop test of `sys_sleep`; and
--                       `check_nproc`, `check_freefd` of Lab2/kernel/proc.c.
--   Lab2/Proc           Lab2/kernel/proc.c: the process table, with memory as the parameter `Vm`. Schedule: exit,
--                       wait, sleep, wakeup, the pass of `scheduler`. Children, Allocproc, Fork: `fork`;
--                       Console: `either_copyout`, `either_copyin`, `procdump`.
--   Lab3/Kalloc         Lab3/kernel/kalloc.c: the free lists of the CPUs.
--   Lab3/Ring, Lab3/Bio Lab3/kernel/bio.c: rings of pointers, and the buffer cache `binit`, `bget`,
--                       `bread`, `bwrite`, `brelse`, `bpin`, `bunpin`. Sections, Race: two calls of `bget`
--                       that take turns where they hold no lock of a bucket.
--   Lab4/Memory         the memory that Lab4/kernel/vm.c works on, with the page allocator as a parameter.
--   Lab4/PageTable      `walk`, `walkaddr`, `mappages`, `kvmmap`, `proc_kvmmap`, `kvmpa`, `uvmunmap`.
--                       Tree: tables as trees; Access: one slot read or written; Supply: how many pages
--                       the allocator can still give.
--   Lab4/UserMemory     `uvmcreate`, `uvminit`, `uvmalloc`, `uvmdealloc`, `uvmfree`, `uvmcopy`, `uvmclear`,
--                       `copyout`, `freewalk`, `proc_freewalk`. UserBytes: what the user sees.
--                       Extended, Steps: pages are added; Grow: `uvmalloc`; Duplicate: `uvmcopy`.
--   Lab4/KernelMemory   `kvminit`, `proc_kvminit`, `vmcopypage`, `printwalk`, `vmprint`, `test_pagetable`.
--                       Regions, Boot: the tables of the kernel; Copy: `vmcopypage`.
--   Lab4/Proc           Lab4/kernel/proc.c: the process table, from `allocpid` to the scheduler's choice.
--   Lab4/ProcMemory     `proc_pagetable`, `allocproc`, `freeproc`, `userinit`, `growproc`, `fork`, `wait`.
--                       Pids, Steps: pids; InStep, Resize: the two page tables of a process.
--                       Console: `procinit`, `either_copyout`, `either_copyin`, `procdump`; Stacks: the stacks.
--   Lab4/World          the kernel with the file system, for Lab4/kernel/exec.c.
--   Lab4/Exec           Lab4/kernel/exec.c: `exec` in its parts, and `loadseg`. Layout, Stack, Arguments: the
--                       argument stack; Outcome, Commit: the ways out.
--   Lab4/Scheduler      `scheduler` of Lab4/kernel/proc.c, with the switch of page tables.
--   Modules named Tests hold small concrete states and runs.
--
-- State. A page or a buffer is a number; memory, tables and fields are functions on numbers. A page-table
-- entry is a record of its address, its valid bit and its permissions. `rank` of a tree says how high in
-- a page table a page stands; it is a ghost, and no operation reads it. Machine integers keep their
-- wrap-around, written as `% 2 ^ 32` or `% 2 ^ 64`, `nextpid` too. An entry keeps the address of the page in
-- which a physical address lies: its low 12 bits are dropped.
--
-- Interaction. Lab4/ProcMemory lifts operations on memory (UserMemory, KernelMemory) and on the
-- process table (Proc) to the kernel that has both. These use PageTable, which takes pages from the
-- allocator of Memory. In Lab3, Bio keeps its own locks as a trace of calls, and so does Kalloc.
-- `exit` gives the calls into
-- the file system as a list. Lab4/Exec runs operations on memory and on the process table in a world that also lists the calls of
-- the file system.
--
-- Fuel. A loop over addresses in vm.c has as many rounds of fuel as there are pages below MAXVA, and
-- two: from MAXVA on `walk` panics. A walk along a free list or a bucket has one round more than there
-- are pages or buffers. A call of `find` inside another has a longer path, and none from a path of 497
-- bytes on, so 498 calls are enough. The recursion of `freewalk` and `printwalk` has the three levels
-- of a page table. Where a theorem says that a run does not panic, it also says that the fuel is
-- enough.
--
-- Not modelled: spinlock.c, sleeplock.c, virtio_disk.c, string.c and the file system, which stand
-- outside of the repository, and of which the code's use is a parameter or a trace; Lab1/pingpong.c;
-- `forkret`; the calls of `copyin_new` in vm.c; that `kfree` and `kalloc` fill a page with junk in
-- Lab4; the locks of the process table; and the makefiles, header files and usys.pl, which have no
-- behaviour of their own.
pub mod Base
pub mod Pages
pub mod Lab1
pub mod Lab2
pub mod Lab3
pub mod Lab4

-- ===== src/Lab4/Exec/Outcome.antt =====
-- `exec`: the ways out, as they show in the process table and in the calls of the file system.
use hitsz_os.Base.{
  ◌≢◌, ◌+◌, ◌-◌, ◌*◌, ◌^◌, true, refl, ℕ, ◌≡◌, Bool, false, Option, none, some, ◌&&◌, ◌==◌,
  if◌then◌else◌, List, [], ◌∷◌, take,
}
use hitsz_os.Base.Kernel.{M, Outcome, ok, panic, ◌>>=◌, After, after, stopped, Keeps}
use hitsz_os.Lab4.Memory.{page_size, Allocator, Memory}
use hitsz_os.Lab4.PageTable.{Platform, u64}
use hitsz_os.Lab4.UserMemory.{uvmalloc, uvmclear}
use hitsz_os.Lab4.ProcMemory.{u32, proc_pagetable}
use hitsz_os.Lab4.Proc.{Proc, Table}
use hitsz_os.Lab4.World.{
  Text, Disk, elf_size, Call, begin_op, end_op, ilock, iunlockput, printed, World, in_memory,
}
use hitsz_os.Lab4.Exec.{last_part, load_loop, build_stack}

-- The calls of the file system alone.
abbrev pub fs_calls : List Call → List Call
fs_calls [] = []
fs_calls (begin_op ∷ cs) = begin_op ∷ fs_calls cs
fs_calls (end_op ∷ cs) = end_op ∷ fs_calls cs
fs_calls (ilock ip ∷ cs) = ilock ip ∷ fs_calls cs
fs_calls (iunlockput ip ∷ cs) = iunlockput ip ∷ fs_calls cs
fs_calls (printed ls ∷ cs) = fs_calls cs

module _ {A : Type 0} where
  -- The process table and the calls are these.
  abbrev pub At : (table : Table) (cs : List Call) → World A → Type 0
  At table cs t = (t.kernel.table ≡ table) × (fs_calls t.calls ≡ cs)

  pub in_memory-Keeps :
      {R : Type 0} (m : M (Memory A) R) (table : Table) (cs : List Call)
      → Keeps (At table cs) (in_memory m)
  in_memory-Keeps {R = R} m table cs s at = go (m s.kernel.mem)
    where
      go :
          (o : Outcome (R × Memory A))
          → After
              (λ _ t. At table cs t)
              (elim o [
                | ok (r, mem) ↦ ok (r, record s { kernel = record s.kernel { mem = mem } })
                | panic msg ↦ panic msg
              ])
      go (ok (r, mem)) = after at
      go (panic msg) = stopped

module _ {A R B : Type 0} {Q : B → World A → Type 0} where
  pub in_memory-After :
      (m : M (Memory A) R) (f : R → M (World A) B) (table : Table) (cs : List Call) (s : World A)
      → At table cs s
      → ((r : R) (t : World A)
          → m s.kernel.mem ≡ ok (r, t.kernel.mem)
          → At table cs t
          → After Q (f r t))
      → After Q ((in_memory m >>= f) s)
  in_memory-After m f table cs s at next = go (m s.kernel.mem) refl
    where
      go :
          (o : Outcome (R × Memory A))
          → m s.kernel.mem ≡ o
          → After Q
              (elim (elim o as (λ _. Outcome (R × World A)) [
                | ok (r, mem) ↦ ok (r, record s { kernel = record s.kernel { mem = mem } })
                | panic msg ↦ panic msg
              ]) [ ok (r, t) ↦ f r t | panic msg ↦ panic msg ])
      go (ok (r, mem)) run = next r _ run at
      go (panic msg) run = stopped

-- The calls of `bad`: the inode, if it is still locked, is unlocked, and the operation ends.
abbrev pub closed : (held : Option ℕ) → List Call → List Call
closed none cs = cs
closed (some ip) cs = end_op ∷ iunlockput ip ∷ cs

-- What `exec` makes of the process.
abbrev pub image : (path : Text) (entry pagetable sz sp : ℕ) → Proc → Proc
image path entry pagetable sz sp q = record q {
  pagetable = pagetable;
  sz = sz;
  name = take 15 (last_part path path);
  frame = record q.frame { epc = entry; sp = sp; a1 = sp };
}

-- The calls of the file system in a run of `exec`, the last one first.
abbrev pub exec_calls : (inode : Option ℕ) → List Call → List Call
exec_calls none cs = end_op ∷ begin_op ∷ cs
exec_calls (some ip) cs = end_op ∷ iunlockput ip ∷ ilock ip ∷ begin_op ∷ cs

-- The path leads to a file that starts with the header of a program.
abbrev pub is_program : (d : Disk) (path : Text) → Bool
is_program d path = elim (d.namei path) [
  | none ↦ false
  | some ip ↦ (d.count ip 0 elf_size == elf_size) && ((d.elf ip).magic == d.elf_magic)
]

-- The new memory of a process with this trapframe: `exec` makes a page table, loads the program, adds a guard
-- page and a stack above it, and pushes the arguments, one after the other, with these results.
module _ {A : Type 0} (al : Allocator A) (pl : Platform) (d : Disk) (argv : List Text) where
  pub record Built (ip trapframe : ℕ) (m : Memory A) (pagetable sz sp argc : ℕ) : Type 0 where
    pub has_table : pagetable ≢ 0
    pub has_stack : sz ≢ 0
    pub program_end : ℕ
    pub empty_memory : Memory A
    pub program_memory : Memory A
    pub grown_memory : Memory A
    pub guarded_memory : Memory A
    pub stack_memory : Memory A
    pub made : proc_pagetable al pl trapframe m ≡ ok (pagetable, empty_memory)
    pub loaded :
        load_loop al pl d (d.elf ip).phnum pagetable ip (u32 (d.elf ip).phoff) 0 empty_memory
        ≡ ok ((true, program_end), program_memory)
    pub grown :
        uvmalloc al pl pagetable
          (pl.pground_up program_end)
          (u64 (pl.pground_up program_end + 2 * page_size))
          program_memory
        ≡ ok (sz, grown_memory)
    pub guarded :
        uvmclear al pl pagetable (u64 (sz + 2 ^ 64 - 2 * page_size)) grown_memory
        ≡ ok (tt, guarded_memory)
    pub pushed :
        build_stack al pl d pagetable sz argv guarded_memory ≡ ok (some (sp, argc), stack_memory)

-- How a run of `exec` of process `p` ends, if it started with this memory, this process table and these
-- calls. `inode` is what the path leads to.
module _ {A : Type 0} (al : Allocator A) (pl : Platform) (argv : List Text) (m : Memory A)
    (d : Disk) (p : ℕ) (path : Text) (inode : Option ℕ) (table : Table) (cs : List Call) where
  pub data Executed : Option ℕ → World A → Type 0 where
    refused :
        {t : World A}
        → t.kernel.table ≡ table
        → fs_calls t.calls ≡ exec_calls inode cs
        → Executed none t
    replaced :
        {argc : ℕ} {t : World A} (ip pagetable sz sp : ℕ)
        → inode ≡ some ip
        → Built al pl d argv ip (table.proc p).trapframe m pagetable sz sp argc
        → t.kernel.table.nextpid ≡ table.nextpid
        → t.kernel.table.initproc ≡ table.initproc
        → ((i : ℕ)
            → t.kernel.table.proc i ≡ (
                if p == i
                then image path (d.elf ip).entry pagetable sz sp (table.proc i)
                else table.proc i))
        → fs_calls t.calls ≡ exec_calls inode cs
        → Executed (some argc) t

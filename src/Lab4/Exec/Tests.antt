-- ===== src/Lab4/Exec/Tests.antt =====
-- Small runs of `exec` and of its stack.
use hitsz_os.Base.{
  ℕ, suc, ◌+◌, ◌*◌, ◌/◌, ◌^◌, ◌≡◌, refl, false, Option, none, some, ◌&&◌, arith, ◌==◌, ltb,
  if◌then◌else◌, List, [], ◌∷◌,
}
use hitsz_os.Base.Kernel.{After, M, Outcome, ok, panic, ◌>>=◌, Returns}
use hitsz_os.Lab4.Memory.{Pte, no_pte, leaf_pte, table_pte, Allocator, Memory}
use hitsz_os.Lab4.PageTable.{
  Platform, mappages, map_loop, uvmunmap, unmap_loop, walk, walkaddr, walk_from, descend,
}
use hitsz_os.Lab4.PageTable.Tree.{lookup}
use hitsz_os.Lab4.UserMemory.{
  user_perm, uvmcreate, uvmalloc, alloc_loop, uvmclear, uvmfree, freewalk, for_entries, copyout,
  copyout_loop,
}
use hitsz_os.Lab4.UserMemory.UserBytes.{frame, Separate, Written}
use hitsz_os.Lab4.UserMemory.CopyOut.{copyout-Written}
use hitsz_os.Lab4.Proc.{running, Proc}
use hitsz_os.Lab4.ProcMemory.{proc_pagetable, proc_freepagetable}
use hitsz_os.Lab4.KernelMemory.{vmcopypage, vmcopy_loop, copy_entry}
use hitsz_os.Lab4.World.{Text, Disk, World, in_memory, change_process}
use hitsz_os.Lab4.Exec.{
  load_program, make_stack, commit, switch_tables, load_loop, load_segment, loadseg, loadseg_loop,
  last_part, push_args, build_stack, exec,
}
use hitsz_os.Lab4.Exec.Outcome.{fs_calls, exec_calls, is_program, Executed}
use hitsz_os.Lab4.Exec.Commit.{exec-Executed}
use hitsz_os.Lab4.Exec.Arguments.{Outside, Stacked, build_stack-Stacked}

-- no page is free
abbrev empty : Allocator ℕ
empty = record { take = λ a. (0, a); give = λ x a. none; free = λ a x. false }

abbrev board : Platform
board = record {
  maxva = 2 ^ 38;
  pground_down = λ x. x / 4096 * 4096;
  pground_up = λ x. (x + 4095) / 4096 * 4096;
  uart0 = 0;
  virtio0 = 0;
  clint = 0;
  plic = 201326592;
  kernbase = 2147483648;
  etext = 2147516416;
  phystop = 2281701376;
  trampoline = 274877902848;
  trampoline_pa = 2147511296;
  trapframe = 274877898752;
}

-- Page 1 is the root of a user table with two pages.
abbrev tables : ℕ → ℕ → Pte
tables p i =
    if p == 1 && i == 0
    then table_pte 12288
    else if p == 12288 && i == 0
    then table_pte 16384
    else if p == 16384 && i == 0
    then leaf_pte 40960 user_perm
    else if p == 16384 && i == 1
    then leaf_pte 81920 user_perm
    else no_pte

abbrev mem : Memory ℕ
mem = record { tables = tables; bytes = λ a. 7; alloc = 0 }

two_frames :
    (va : ℕ)
    → frame empty board tables 1 va
      ≡ (if ltb va 4096 then 40960 else if ltb va 8192 then 81920 else 0)
unfolding lookup
two_frames va = ground arith

two_frames-Separate : Separate empty board tables 1
two_frames-Separate va va' i j seen seen' other low low' =
    ground (arith, two_frames va, two_frames va', seen, seen', other)

copied_4000 :
    Returns
      (Written empty board mem 1 4000 (λ j. j) 200)
      (copyout empty board 1 4000 (λ j. j) 200 mem)
copied_4000 =
    copyout-Written empty board refl (λ x. refl) 1 4000 (λ j. j) 200 mem two_frames-Separate

abbrev floppy : Disk
floppy = record {
  namei = λ path. none;
  count = λ ip off n. n;
  byte = λ ip off. 0;
  elf = λ ip. record { magic = 0; entry = 0; phoff = 0; phnum = 0 };
  proghdr = λ ip off. record { type = 0; vaddr = 0; memsz = 0; filesz = 0; off = 0 };
  maxarg = 32;
  elf_magic = 1179403647;
  elf_prog_load = 1;
}

-- "echo" and "hi"
echo_hi :
    Returns
      (λ o t.
        Outside empty board 1 mem 8192 t
        × Stacked empty board 1 32 mem 8192
            ((101 ∷ 99 ∷ 104 ∷ 111 ∷ []) ∷ (104 ∷ 105 ∷ []) ∷ [])
            t
            o)
      (build_stack empty board floppy 1 8192
        ((101 ∷ 99 ∷ 104 ∷ 111 ∷ []) ∷ (104 ∷ 105 ∷ []) ∷ [])
        mem)
echo_hi =
    build_stack-Stacked empty board floppy refl (λ x. refl) 1 refl
      ((101 ∷ 99 ∷ 104 ∷ 111 ∷ []) ∷ (104 ∷ 105 ∷ []) ∷ []) 8192 mem two_frames-Separate
      (omega arith) (omega arith) (omega arith)

result : {S A : Type 0} → Outcome (A × S) → Option A
result (ok (a, s)) = some a
result (panic msg) = none

stacks :
    result (
      build_stack empty board floppy 1 8192
        ((101 ∷ 99 ∷ 104 ∷ 111 ∷ []) ∷ (104 ∷ 105 ∷ []) ∷ [])
        mem)
    ≡ some (some (8128, 2))
unfolding result build_stack push_args copyout copyout_loop walkaddr walk walk_from descend
stacks = refl

-- Pages above 2 ^ 31, one after the other, which are never used again.
abbrev endless : Allocator ℕ
endless = record {
  take = λ a. (2147487744 + 4096 * a, suc a);
  give = λ x a. some a;
  free = λ a x. false;
}

-- A program of one segment, of 5000 bytes.
abbrev ramdisk : Disk
ramdisk = record floppy {
  namei = λ path. some 9;
  elf = λ ip. record { magic = 1179403647; entry = 24; phoff = 64; phnum = 1 };
  proghdr = λ ip off. record { type = 1; vaddr = 0; memsz = 5000; filesz = 4500; off = 120 };
}

abbrev process_2 : Proc
process_2 = record {
  state = running;
  parent = none;
  chan = none;
  killed = false;
  xstate = 0;
  pid = 2;
  kstack = 0;
  kstack_pa = 0;
  sz = 0;
  pagetable = 0;
  k_pagetable = 0;
  trapframe = 65536;
  frame = record { epc = 0; sp = 0; a0 = 0; a1 = 0; rest = 0 };
  ra = 0;
  ksp = 0;
  ofile = λ fd. 0;
  cwd = 0;
  name = [];
}

abbrev world : World ℕ
world = record {
  kernel = record {
    mem = record { tables = λ p i. no_pte; bytes = λ a. 0; alloc = 0 };
    table = record { proc = λ i. process_2; nextpid = 3; initproc = 0 };
  };
  calls = [];
}

-- A process with fresh tables.
abbrev fresh : M (World ℕ) (Unit {0})
fresh = do
  old ← in_memory (proc_pagetable endless board 65536)
  k_pagetable ← in_memory (uvmcreate endless)
  change_process 4 (λ q. record q { pagetable = old; k_pagetable = k_pagetable })

after_run : Outcome ((Unit {0}) × World ℕ) → World ℕ
after_run (ok (r, s)) = s
after_run (panic msg) = world

ready : World ℕ
ready = after_run (fresh world)

-- "/e", with the arguments "e" and "hi"
abbrev slash_e : Text
slash_e = 47 ∷ 101 ∷ []

abbrev e_hi : List Text
e_hi = (101 ∷ []) ∷ (104 ∷ 105 ∷ []) ∷ []

runs : result (exec endless board ramdisk 4 slash_e e_hi ready) ≡ some (some 2)
unfolding result exec ready after_run load_program make_stack commit switch_tables load_loop
    load_segment loadseg loadseg_loop build_stack push_args last_part proc_pagetable
    proc_freepagetable uvmcreate uvmalloc alloc_loop uvmclear copyout copyout_loop walkaddr walk
    walk_from descend mappages map_loop uvmunmap unmap_loop uvmfree freewalk for_entries vmcopypage
    vmcopy_loop copy_entry
runs = refl

replaces :
    (is_program ramdisk slash_e ≡ false
      → Returns
          (λ r t.
            (r ≡ none)
            × (t.kernel ≡ ready.kernel)
            × (fs_calls t.calls ≡ exec_calls (some 9) (fs_calls ready.calls)))
          (exec endless board ramdisk 4 slash_e e_hi ready))
    × After
        (Executed endless board e_hi ready.kernel.mem ramdisk 4 slash_e
          (some 9)
          ready.kernel.table
          (fs_calls ready.calls))
        (exec endless board ramdisk 4 slash_e e_hi ready)
replaces = exec-Executed endless board ramdisk 4 slash_e e_hi ready

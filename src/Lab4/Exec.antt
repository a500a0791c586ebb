-- ===== src/Lab4/Exec.antt =====
-- Lab4/kernel/exec.c: `exec`, which replaces the user memory of a process. The file system is a parameter.
pub mod Layout
pub mod Outcome
pub mod Stack
pub mod Arguments
pub mod Commit
mod Tests
use hitsz_os.Base.{
  ℕ, zero, suc, ◌+◌, ◌-◌, ◌*◌, ◌/◌, ◌%◌, ◌^◌, Bool, true, false, Option, none, some, not, ◌&&◌, leb,
  ltb, ◌==◌, if◌then◌else◌, List, [], ◌∷◌, length, get_or, take,
}
use hitsz_os.Base.Kernel.{M, ok, panic, pure, fail, ◌>>=◌, ◌>>◌, gets, modify}
use hitsz_os.Lab4.Memory.{page_size, Allocator, Memory}
use hitsz_os.Lab4.PageTable.{Platform, u64, walkaddr, uvmunmap}
use hitsz_os.Lab4.UserMemory.{memmove, uvmalloc, uvmclear, copyout}
use hitsz_os.Lab4.KernelMemory.{Line, vmcopypage, vmprint}
use hitsz_os.Lab4.Proc.{Proc, edit}
use hitsz_os.Lab4.ProcMemory.{Kernel, on_memory, set, u32, proc_pagetable, proc_freepagetable}
use hitsz_os.Lab4.World.{
  Text, text_byte, word_byte, Elf, Proghdr, Disk, elf_size, ph_size, Call, begin_op, end_op, ilock,
  iunlockput, printed, World, call, in_memory, process, change_process,
}

-- Down by `n` bytes, and then to a multiple of 16.
abbrev pub push_down : (sp n : ℕ) → ℕ
push_down sp n = let low = u64 (sp + 2 ^ 64 - n) in low - low % 16

module _ {A : Type 0} (al : Allocator A) (pl : Platform) (d : Disk) where
  -- `i` is a `uint`: from 2 ^ 32 on it starts again at 0.
  unfoldable pub loadseg_loop : (fuel pagetable va ip offset sz i : ℕ) → M (Memory A) Bool
  loadseg_loop zero pagetable va ip offset sz i = fail "out of fuel"
  loadseg_loop (suc fuel) pagetable va ip offset sz i = if not (ltb i sz) then pure true else do
    pa ← walkaddr al pl pagetable (u64 (va + i))
    if pa == 0 then fail "loadseg: address should exist" else do
      let n = if ltb (sz - i) page_size then sz - i else page_size
      let count = d.count ip (u32 (offset + i)) n
      memmove pa (λ j. d.byte ip (u32 (offset + i) + j)) count
      if count == n
          then loadseg_loop fuel pagetable va ip offset sz (u32 (i + page_size))
          else pure false

  -- The result tells 0 from -1.
  unfoldable pub loadseg : (pagetable va ip offset sz : ℕ) → M (Memory A) Bool
  loadseg pagetable va ip offset sz =
      if not (va % page_size == 0)
      then fail "loadseg: va must be page aligned"
      else loadseg_loop (sz / page_size + 2) pagetable va ip offset sz 0

  -- A round of the loop over the program headers, for one to be loaded: the result tells whether to go on,
  -- and the size of the new memory.
  unfoldable pub load_segment : (pagetable ip sz : ℕ) → Proghdr → M (Memory A) (Bool × ℕ)
  load_segment pagetable ip sz ph =
      if ltb ph.memsz ph.filesz
      then pure (false, sz)
      else if ltb (u64 (ph.vaddr + ph.memsz)) ph.vaddr
      then pure (false, sz)
      else do
        sz1 ← uvmalloc al pl pagetable sz (u64 (ph.vaddr + ph.memsz))
        if sz1 == 0
            then pure (false, sz)
            else if not (ph.vaddr % page_size == 0)
            then pure (false, sz1)
            else do
              loaded ← loadseg pagetable ph.vaddr ip (u32 ph.off) (u32 ph.filesz)
              pure (loaded, sz1)

  -- The loop, with `n` headers left.
  unfoldable pub load_loop : (n pagetable ip off sz : ℕ) → M (Memory A) (Bool × ℕ)
  load_loop zero pagetable ip off sz = pure (true, sz)
  load_loop (suc n) pagetable ip off sz =
      let ph = d.proghdr ip off in
      let rest = load_loop n pagetable ip (u32 (off + ph_size)) in
      if not (d.count ip off ph_size == ph_size)
      then pure (false, sz)
      else if not (ph.type == d.elf_prog_load)
      then rest sz
      else do
        (loaded, sz1) ← load_segment pagetable ip sz ph
        if loaded then rest sz1 else pure (false, sz1)

  -- The argument strings, from number `argc` on. The result is `sp` and the rest of `ustack`, or none where
  -- `exec` fails.
  unfoldable pub push_args :
      (pagetable stackbase argc sp : ℕ) (argv : List Text) → M (Memory A) (Option (ℕ × List ℕ))
  push_args pagetable stackbase argc sp [] = pure (some (sp, []))
  push_args pagetable stackbase argc sp (arg ∷ argv) =
      let low = push_down sp (length arg + 1) in
      let rest = push_args pagetable stackbase (suc argc) low argv in
      if leb d.maxarg argc then pure none else if ltb low stackbase then pure none else do
        copied ← copyout al pl pagetable low (text_byte arg) (length arg + 1)
        if not copied then pure none else do
          pushed ← rest
          elim pushed [ none ↦ pure none | some (sp', ustack) ↦ pure (some (sp', low ∷ ustack)) ]

  -- The strings and the array of pointers to them, with its final 0. The result is `sp` and `argc`.
  unfoldable pub build_stack : (pagetable sz : ℕ) (argv : List Text) → M (Memory A) (Option (ℕ × ℕ))
  build_stack pagetable sz argv = do
    let stackbase = u64 (sz + 2 ^ 64 - page_size)
    pushed ← push_args pagetable stackbase 0 sz argv
    elim pushed [
      | none ↦ pure none
      | some (sp, ustack) ↦
          let low = push_down sp ((length ustack + 1) * 8) in
          if ltb low stackbase then pure none else do
            copied ← copyout al pl pagetable low (word_byte ustack) ((length ustack + 1) * 8)
            if copied then pure (some (low, length ustack)) else pure none
    ]

-- The loop over `path` that finds the program's name: behind the last slash.
unfoldable pub last_part : (path last : Text) → Text
last_part [] last = last
last_part (c ∷ path) last = last_part path (if c == 47 then path else last)

module _ {A : Type 0} (al : Allocator A) (pl : Platform) where
  -- The label `bad`. `held` tells whether the inode is still locked.
  unfoldable pub bad : (pagetable sz : ℕ) (held : Option ℕ) → M (World A) (Option ℕ)
  bad pagetable sz held = do
    (if pagetable == 0 then pure tt else in_memory (proc_freepagetable al pl pagetable sz))
    elim held [ none ↦ pure tt | some ip ↦ do call (iunlockput ip); call end_op ]
    pure none

  -- The end of `exec`, where `q` is the process before: the old user memory goes, and both page tables have
  -- the new one.
  unfoldable pub switch_tables : (q : Proc) (pagetable sz oldsz : ℕ) → M (World A) (Unit {0})
  switch_tables q pagetable sz oldsz = do
    in_memory (proc_freepagetable al pl q.pagetable oldsz)
    in_memory (uvmunmap al pl q.k_pagetable 0 (pl.pground_up oldsz / page_size) false)
    in_memory (vmcopypage al pl pagetable q.k_pagetable 0 sz)
    if q.pid == 1 then (λ s. call (printed (vmprint s.kernel.mem.tables pagetable)) s) else pure tt

  -- `exec`, from the write to `a1` on: it does not fail any more.
  unfoldable pub commit :
      (p : ℕ) (path : Text) (elf : Elf) (pagetable sz sp argc oldsz : ℕ) → M (World A) (Option ℕ)
  commit p path elf pagetable sz sp argc oldsz = do
    change_process p (λ q. record q { frame = record q.frame { a1 = sp } })
    change_process p (λ q. record q { name = take 15 (last_part path path) })
    q ← process p
    change_process p (λ q. record q {
      pagetable = pagetable;
      sz = sz;
      frame = record q.frame { epc = elf.entry; sp = sp };
    })
    switch_tables q pagetable sz oldsz
    pure (some argc)

module _ {A : Type 0} (al : Allocator A) (pl : Platform) (d : Disk) where
  -- `exec`, behind the load of the program: two more pages, with the arguments on the second.
  unfoldable pub make_stack :
      (p : ℕ) (path : Text) (argv : List Text) (elf : Elf) (pagetable sz : ℕ)
      → M (World A) (Option ℕ)
  make_stack p path argv elf pagetable sz = do
    q ← process p
    let start = pl.pground_up sz
    sz1 ← in_memory (uvmalloc al pl pagetable start (u64 (start + 2 * page_size)))
    if sz1 == 0 then bad al pl pagetable start none else do
      in_memory (uvmclear al pl pagetable (u64 (sz1 + 2 ^ 64 - 2 * page_size)))
      built ← in_memory (build_stack al pl d pagetable sz1 argv)
      elim built [
        | none ↦ bad al pl pagetable sz1 none
        | some (sp, argc) ↦ commit al pl p path elf pagetable sz1 sp argc q.sz
      ]

  -- `exec`, behind the test of the header.
  unfoldable pub load_program :
      (p ip : ℕ) (path : Text) (argv : List Text) (elf : Elf) → M (World A) (Option ℕ)
  load_program p ip path argv elf = do
    q ← process p
    pagetable ← in_memory (proc_pagetable al pl q.trapframe)
    if pagetable == 0 then bad al pl 0 0 (some ip) else do
      (loaded, sz) ← in_memory (load_loop al pl d elf.phnum pagetable ip (u32 elf.phoff) 0)
      if not loaded
          then bad al pl pagetable sz (some ip)
          else do call (iunlockput ip); call end_op; make_stack p path argv elf pagetable sz

  -- `exec` of process `p`. The result is `argc`, or none for -1.
  unfoldable pub exec : (p : ℕ) (path : Text) (argv : List Text) → M (World A) (Option ℕ)
  exec p path argv = do
    call begin_op
    elim (d.namei path) [
      | none ↦ do call end_op; pure none
      | some ip ↦ do
        call (ilock ip)
        if not (d.count ip 0 elf_size == elf_size)
            then bad al pl 0 0 (some ip)
            else if not ((d.elf ip).magic == d.elf_magic)
            then bad al pl 0 0 (some ip)
            else load_program p ip path argv (d.elf ip)
    ]

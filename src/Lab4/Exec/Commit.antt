-- ===== src/Lab4/Exec/Commit.antt =====
-- `exec`: what is left of a process, and of the calls of the file system, on each way out.
use mathlib.Core.Path.{subst}
use hitsz_os.Base.{
  ◌≢◌, ℕ, ◌+◌, ◌-◌, ◌*◌, ◌/◌, ◌^◌, ◌≡◌, ◌∙◌, ap, refl, Bool, true, false, Option, none, some, not,
  ◌==◌, if◌then◌else◌, List, ◌∷◌, arith, Bool-cases, Option-cases, inl, inr,
}
use hitsz_os.Base.Kernel.{
  M, ok, pure, ◌>>=◌, ◌>>◌, Returns, returns, After, after, After-bind, Keeps, Keeps-bind, Keeps-if,
  Keeps-pure,
}
use hitsz_os.Lab4.Memory.{page_size, Allocator, Memory}
use hitsz_os.Lab4.PageTable.{Platform, u64, uvmunmap}
use hitsz_os.Lab4.UserMemory.{uvmalloc, uvmclear}
use hitsz_os.Lab4.KernelMemory.{vmcopypage}
use hitsz_os.Lab4.Proc.{Proc, Table}
use hitsz_os.Lab4.ProcMemory.{u32, proc_pagetable, proc_freepagetable}
use hitsz_os.Lab4.World.{
  Text, Disk, elf_size, Call, begin_op, end_op, ilock, iunlockput, World, call, in_memory,
}
use hitsz_os.Lab4.Exec.{
  load_loop, build_stack, bad, switch_tables, commit, make_stack, load_program, exec,
}
use hitsz_os.Lab4.Exec.Outcome.{
  fs_calls, At, in_memory-Keeps, in_memory-After, closed, exec_calls, is_program, Executed, refused,
  replaced, Built,
}

module _ {A : Type 0} (al : Allocator A) (pl : Platform) where
  switch_tables-Keeps :
      (q : Proc) (pagetable sz oldsz : ℕ) (table : Table) (cs : List Call)
      → Keeps (At {A = A} table cs) (switch_tables al pl q pagetable sz oldsz)
  unfolding switch_tables
  switch_tables-Keeps q pagetable sz oldsz table cs =
      Keeps-bind (At table cs) (in_memory (proc_freepagetable al pl q.pagetable oldsz)) _
        (in_memory-Keeps (proc_freepagetable al pl q.pagetable oldsz) table cs)
        (λ _.
          Keeps-bind (At table cs)
            (in_memory (uvmunmap al pl q.k_pagetable 0 (pl.pground_up oldsz / page_size) false)) _
            (in_memory-Keeps
              (uvmunmap al pl q.k_pagetable 0 (pl.pground_up oldsz / page_size) false) table cs)
            (λ _.
              Keeps-bind (At table cs) (in_memory (vmcopypage al pl pagetable q.k_pagetable 0 sz)) _
                (in_memory-Keeps (vmcopypage al pl pagetable q.k_pagetable 0 sz) table cs)
                (λ _.
                  Keeps-if (At table cs) (q.pid == 1) _ (pure tt) (λ s at. after at)
                    (Keeps-pure (At table cs) tt))))

  module _ (argv : List Text) (m : Memory A) (d : Disk) (p : ℕ) (path : Text) (ip : ℕ)
      (table : Table) (cs : List Call) where
    abbrev EndsSo : Option ℕ → World A → Type 0
    EndsSo = Executed al pl argv m d p path (some ip) table cs

    -- Both inode and operation are closed already, or `bad` closes them.
    bad-Executed :
        (pagetable sz : ℕ) (held : Option ℕ) (s : World A)
        → s.kernel.table ≡ table
        → closed held (fs_calls s.calls) ≡ exec_calls (some ip) cs
        → After EndsSo (bad al pl pagetable sz held s)
    unfolding bad
    bad-Executed pagetable sz held s same closes =
        After-bind
          (if pagetable == 0 then pure tt else in_memory (proc_freepagetable al pl pagetable sz))
          (close_up held)
          (Keeps-if (At table (fs_calls s.calls)) (pagetable == 0) (pure tt)
            (in_memory (proc_freepagetable al pl pagetable sz))
            (Keeps-pure (At table (fs_calls s.calls)) tt)
            (in_memory-Keeps (proc_freepagetable al pl pagetable sz) table (fs_calls s.calls)) s
            (same, refl))
          (λ _ t at. shut held t at closes)
      where
        close_up : Option ℕ → Unit {0} → M (World A) (Option ℕ)
        close_up h _ = do
          elim h [ none ↦ pure tt | some ip' ↦ do call (iunlockput ip'); call end_op ]
          pure none

        shut :
            (h : Option ℕ) (t : World A)
            → At table (fs_calls s.calls) t
            → closed h (fs_calls s.calls) ≡ exec_calls (some ip) cs
            → After EndsSo (close_up h tt t)
        shut none t at closes = after (refused at.0 (at.1 ∙ closes))
        shut (some ip') t at closes =
            after (refused at.0 (ap (λ l. end_op ∷ iunlockput ip' ∷ l) at.1 ∙ closes))

    commit-Executed :
        (pagetable sz sp argc oldsz : ℕ) (s : World A)
        → At table (exec_calls (some ip) cs) s
        → Built al pl d argv ip (table.proc p).trapframe m pagetable sz sp argc
        → After EndsSo (commit al pl p path (d.elf ip) pagetable sz sp argc oldsz s)
    unfolding commit
    commit-Executed pagetable sz sp argc oldsz s (same, closes) built =
        After-bind (switch_tables al pl _ pagetable sz oldsz) (λ _. pure (some argc))
          (switch_tables-Keeps _ pagetable sz oldsz _ (exec_calls (some ip) cs) _ (refl, closes))
          (λ _ t (at, rest). after (
            replaced ip pagetable sz sp refl built (ground (arith, at, same))
              (ground (arith, at, same)) (λ i. rw at (ground (arith, same))) rest))

    make_stack-Executed :
        (pagetable sz : ℕ) (s : World A) (ne : pagetable ≢ 0) (empty : Memory A)
        → proc_pagetable al pl (table.proc p).trapframe m ≡ ok (pagetable, empty)
        → load_loop al pl d (d.elf ip).phnum pagetable ip (u32 (d.elf ip).phoff) 0 empty
          ≡ ok ((true, sz), s.kernel.mem)
        → At table (exec_calls (some ip) cs) s
        → After EndsSo (make_stack al pl d p path argv (d.elf ip) pagetable sz s)
    unfolding make_stack
    make_stack-Executed pagetable sz s ne empty made loaded at =
        let start = pl.pground_up sz in
        in_memory-After (uvmalloc al pl pagetable start (u64 (start + 2 * page_size))) grown table
          (exec_calls (some ip) cs) s at
          (λ sz1 t grows at1. elim (Bool-cases (sz1 == 0)) [
            | inl full ↦ rw full (bad-Executed pagetable start none t at1.0 at1.1)
            | inr room ↦ rw room (
                in_memory-After (uvmclear al pl pagetable (u64 (sz1 + 2 ^ 64 - 2 * page_size)))
                  (λ _. built sz1) table (exec_calls (some ip) cs) t at1
                  (λ _ u guards at2.
                    in_memory-After (build_stack al pl d pagetable sz1 argv) (finished sz1) table
                      (exec_calls (some ip) cs) u at2
                      (finished-Executed sz1 (ground arith) t.kernel.mem u.kernel.mem grows
                        guards)))
          ])
      where
        finished : ℕ → Option (ℕ × ℕ) → M (World A) (Option ℕ)
        finished sz1 o = elim o [
          | none ↦ bad al pl pagetable sz1 none
          | some (sp, argc) ↦
              commit al pl p path (d.elf ip) pagetable sz1 sp argc (s.kernel.table.proc p).sz
        ]

        built : ℕ → M (World A) (Option ℕ)
        built sz1 = in_memory (build_stack al pl d pagetable sz1 argv) >>= finished sz1

        grown : ℕ → M (World A) (Option ℕ)
        grown sz1 = if sz1 == 0 then bad al pl pagetable (pl.pground_up sz) none else do
          in_memory (uvmclear al pl pagetable (u64 (sz1 + 2 ^ 64 - 2 * page_size)))
          built sz1

        finished-Executed :
            (sz1 : ℕ)
            → sz1 ≢ 0
            → (grown_mem guarded_mem : Memory A)
            → uvmalloc al pl pagetable
                (pl.pground_up sz)
                (u64 (pl.pground_up sz + 2 * page_size))
                s.kernel.mem
              ≡ ok (sz1, grown_mem)
            → uvmclear al pl pagetable (u64 (sz1 + 2 ^ 64 - 2 * page_size)) grown_mem
              ≡ ok (tt, guarded_mem)
            → (o : Option (ℕ × ℕ)) (v : World A)
            → build_stack al pl d pagetable sz1 argv guarded_mem ≡ ok (o, v.kernel.mem)
            → At table (exec_calls (some ip) cs) v
            → After EndsSo (finished sz1 o v)
        finished-Executed sz1 room grown_mem guarded_mem grows guards none v pushes at3 =
            bad-Executed pagetable sz1 none v at3.0 at3.1
        finished-Executed sz1 room grown_mem guarded_mem grows guards (some (sp, argc)) v pushes
              at3 =
            commit-Executed pagetable sz1 sp argc (s.kernel.table.proc p).sz v at3 (record {
              has_table = ne;
              has_stack = room;
              program_end = sz;
              empty_memory = empty;
              program_memory = s.kernel.mem;
              grown_memory = grown_mem;
              guarded_memory = guarded_mem;
              stack_memory = v.kernel.mem;
              made = made;
              loaded = loaded;
              grown = grows;
              guarded = guards;
              pushed = pushes;
            })

    load_program-Executed :
        (s : World A)
        → s.kernel.mem ≡ m
        → At table (ilock ip ∷ begin_op ∷ cs) s
        → After EndsSo (load_program al pl d p ip path argv (d.elf ip) s)
    unfolding load_program
    load_program-Executed s start at =
        in_memory-After (proc_pagetable al pl (s.kernel.table.proc p).trapframe) made table
          (ilock ip ∷ begin_op ∷ cs) s at
          (λ pagetable t makes at1. elim (Bool-cases (pagetable == 0)) [
            | inl full ↦ rw full (bad-Executed 0 0 (some ip) t at1.0 (held_calls t at1))
            | inr room ↦ rw room (
                in_memory-After
                  (load_loop al pl d (d.elf ip).phnum pagetable ip (u32 (d.elf ip).phoff) 0)
                  (loaded pagetable) table (ilock ip ∷ begin_op ∷ cs) t at1
                  (λ r u loads at2.
                    loaded-Executed pagetable (ground arith) t.kernel.mem
                      (subst
                        (λ n.
                          proc_pagetable al pl (table.proc p).trapframe n
                          ≡ ok (pagetable, t.kernel.mem))
                        start
                        (subst
                          (λ τ.
                            proc_pagetable al pl (τ.proc p).trapframe s.kernel.mem
                            ≡ ok (pagetable, t.kernel.mem))
                          at.0 makes))
                      r.0 r.1 u loads at2))
          ])
      where
        loaded : ℕ → Bool × ℕ → M (World A) (Option ℕ)
        loaded pagetable r = if not r.0 then bad al pl pagetable r.1 (some ip) else do
          call (iunlockput ip)
          call end_op
          make_stack al pl d p path argv (d.elf ip) pagetable r.1

        made : ℕ → M (World A) (Option ℕ)
        made pagetable =
            if pagetable == 0
            then bad al pl 0 0 (some ip)
            else (in_memory
                  (load_loop al pl d (d.elf ip).phnum pagetable ip (u32 (d.elf ip).phoff) 0)
                >>= loaded pagetable)

        held_calls :
            (t : World A)
            → At table (ilock ip ∷ begin_op ∷ cs) t
            → closed (some ip) (fs_calls t.calls) ≡ exec_calls (some ip) cs
        held_calls t at1 = ap (λ l. end_op ∷ iunlockput ip ∷ l) at1.1

        loaded-Executed :
            (pagetable : ℕ) (ne : pagetable ≢ 0) (empty : Memory A)
            → proc_pagetable al pl (table.proc p).trapframe m ≡ ok (pagetable, empty)
            → (good : Bool) (sz : ℕ) (u : World A)
            → load_loop al pl d (d.elf ip).phnum pagetable ip (u32 (d.elf ip).phoff) 0 empty
              ≡ ok ((good, sz), u.kernel.mem)
            → At table (ilock ip ∷ begin_op ∷ cs) u
            → After EndsSo (loaded pagetable (good, sz) u)
        loaded-Executed pagetable ne empty makes false sz u loads at2 =
            bad-Executed pagetable sz (some ip) u at2.0 (held_calls u at2)
        loaded-Executed pagetable ne empty makes true sz u loads at2 =
            make_stack-Executed pagetable sz _ ne empty makes loads (at2.0, held_calls u at2)

  exec_run-Executed :
      (d : Disk) (p : ℕ) (path : Text) (argv : List Text) (s : World A)
      → After
          (Executed al pl argv s.kernel.mem d p path
            (d.namei path)
            s.kernel.table
            (fs_calls s.calls))
          (exec al pl d p path argv s)
  unfolding exec
  exec_run-Executed d p path argv s = elim (Option-cases (d.namei path)) [
    | inl missing ↦ rw missing (after (refused refl refl))
    | inr (ip, there) ↦ rw there (elim (Bool-cases (d.count ip 0 elf_size == elf_size)) [
      | inr short ↦ rw short (
          bad-Executed argv s.kernel.mem d p path ip s.kernel.table (fs_calls s.calls) 0 0 (some ip)
            _ refl refl)
      | inl whole ↦ elim (Bool-cases ((d.elf ip).magic == d.elf_magic)) [
        | inr alien ↦
            rw (whole, alien)
              (bad-Executed argv s.kernel.mem d p path ip s.kernel.table (fs_calls s.calls) 0 0
                (some ip) _ refl refl)
        | inl program ↦
            rw (whole, program)
              (load_program-Executed argv s.kernel.mem d p path ip s.kernel.table (fs_calls s.calls)
                _ refl (refl, refl))
      ]
    ])
  ]

  -- `exec` of a path that leads to no program does not get as far as the memory.
  exec-Refused :
      (d : Disk) (p : ℕ) (path : Text) (argv : List Text) (s : World A)
      → is_program d path ≡ false
      → Returns
          (λ r t.
            (r ≡ none)
            × (t.kernel ≡ s.kernel)
            × (fs_calls t.calls ≡ exec_calls (d.namei path) (fs_calls s.calls)))
          (exec al pl d p path argv s)
  unfolding exec bad
  exec-Refused d p path argv s no_program = elim (Option-cases (d.namei path)) [
    | inl missing ↦ rw missing (returns (refl, refl, refl))
    | inr (ip, there) ↦ rw there (elim (Bool-cases (d.count ip 0 elf_size == elf_size)) [
      | inr short ↦ rw short (returns (refl, refl, refl))
      | inl whole ↦ elim (Bool-cases ((d.elf ip).magic == d.elf_magic)) [
        | inr alien ↦ rw (whole, alien) (returns (refl, refl, refl))
        | inl program ↦ absurd (ground (arith, there, whole, no_program))
      ]
    ])
  ]

  -- Where the path leads to no program, `exec` returns -1 and the kernel is as before. In any other run of
  -- `exec` that does not end in `panic`: where it returns -1 the process table is as before, so the process
  -- goes on with its old memory. Where it returns `argc` the process, and no other, has the new page
  -- table, size, name, entry point and stack pointer, which `a1` holds too, and keeps all else. The page
  -- table, which is not 0, the size, the stack pointer and `argc` are those of the new memory: in the memory
  -- of the start, `proc_pagetable` gives the page table, `load_loop` then loads the program, `uvmalloc` adds two
  -- pages and gives the size, `uvmclear` guards the lower one, and `build_stack` pushes the arguments and
  -- gives the stack pointer and `argc`. On each of
  -- these ways the operation of the file system has ended, and the inode, if there is one, is unlocked
  -- once.
  pub exec-Executed :
      (d : Disk) (p : ℕ) (path : Text) (argv : List Text) (s : World A)
      → (is_program d path ≡ false
          → Returns
              (λ r t.
                (r ≡ none)
                × (t.kernel ≡ s.kernel)
                × (fs_calls t.calls ≡ exec_calls (d.namei path) (fs_calls s.calls)))
              (exec al pl d p path argv s))
        × After
            (Executed al pl argv s.kernel.mem d p path
              (d.namei path)
              s.kernel.table
              (fs_calls s.calls))
            (exec al pl d p path argv s)
  exec-Executed d p path argv s = (exec-Refused d p path argv s, exec_run-Executed d p path argv s)

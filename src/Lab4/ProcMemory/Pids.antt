-- ===== src/Lab4/ProcMemory/Pids.antt =====
-- The pids of the process table, through `allocproc` and `freeproc`.
use hitsz_os.Base.{
  ℕ, ◌+◌, ◌≡◌, ◌≢◌, ◌<◌, ◌≤◌, ◌^◌, ◌%◌, suc, ◌∙◌, sym, refl, false, Option, none, some, ◌==◌,
  if◌then◌else◌, arith, Bool-cases, ==_iff, inl, inr, ◌⊎◌, [],
}
use mathlib.Core.Path.{subst}
use hitsz_os.Base.Kernel.{
  M, Outcome, ok, panic, pure, ◌>>=◌, ◌>>◌, After, after, stopped, After-bind, Keeps, Keeps-bind,
  Keeps-if, Keeps-pure,
}
use hitsz_os.Lab4.Memory.{page_size, Allocator, Memory}
use hitsz_os.Lab4.Memory
use hitsz_os.Lab4.PageTable.{Platform, proc_kvmmap}
use hitsz_os.Lab4.UserMemory.{proc_freewalk}
use hitsz_os.Lab4.KernelMemory.{data_perm, proc_kvminit}
use hitsz_os.Lab4.Proc.{unused, is_unused, Proc, change, allocpid, find_entry}
use hitsz_os.Lab4.ProcMemory.{
  Kernel, on_memory, on_table, the, set, freeproc, give_kernel_table, give_tables, init_found,
  proc_pagetable, allocproc, proc_freepagetable,
}

-- The pids that are not 0 are all different, and the next one, which is at most `b`, is above them.
pub record UniquePids {A : Type 0} (b : ℕ) (s : Kernel A) : Type 0 where
  pub unique :
      (i j : ℕ) → (s.table.proc i).pid ≢ 0 → (s.table.proc i).pid ≡ (s.table.proc j).pid → i ≡ j
  pub used : (i : ℕ) → (s.table.proc i).pid < s.table.nextpid
  pub bounded : s.table.nextpid ≤ b

-- a change of an entry that leaves its pid alone, or clears it
abbrev Lowers : (Proc → Proc) → Type 0
Lowers f = (q : Proc) → ((f q).pid ≡ q.pid) ⊎ ((f q).pid ≡ 0)

lowered :
    (t : ℕ → Proc) (p : ℕ) (f : Proc → Proc)
    → Lowers f
    → (j : ℕ) → ((change t p f j).pid ≡ (t j).pid) ⊎ ((change t p f j).pid ≡ 0)
lowered t p f low j = elim (Bool-cases (p == j)) [
  | inl e ↦ rw e (
      subst (λ k. ((f (t p)).pid ≡ (t k).pid) ⊎ ((f (t p)).pid ≡ 0)) ((==_iff p j).0 e) (low (t p)))
  | inr ne ↦ rw ne (inl refl)
]

given_pid :
    (t : ℕ → Proc) (p pid j : ℕ)
    → (change t p (λ q. record q { pid = pid }) j).pid ≡ (if p == j then pid else (t j).pid)
given_pid t p pid j = elim (Bool-cases (p == j)) [ inl e ↦ rw e refl | inr ne ↦ rw ne refl ]

-- A fresh pid: no entry has it, and it is not the next one.
Fresh : {A : Type 0} → (b pid : ℕ) → Kernel A → Type 0
Fresh b pid t = UniquePids b t × (pid < t.table.nextpid) × ((i : ℕ) → (t.table.proc i).pid ≢ pid)

module _ {A : Type 0} {b : ℕ} where
  pub UniquePids-mono : (c : ℕ) (s : Kernel A) → b ≤ c → UniquePids b s → UniquePids c s
  UniquePids-mono c s le i = record {
    unique = i.unique;
    used = i.used;
    bounded = omega (arith, i.bounded);
  }

  pub Keeps-on_memory :
      {R : Type 0} (m : M (Memory A) R) → Keeps (UniquePids {A = A} b) (on_memory m)
  Keeps-on_memory {R} m s i = by_outcome (m s.mem)
    where
      by_outcome :
          (o : Outcome (R × Memory A))
          → After
              (λ _ t. UniquePids b t)
              ((elim o [ ok (r, mem) ↦ ok (r, record s { mem = mem }) | panic msg ↦ panic msg ]))
      by_outcome (ok (r, mem)) =
          after (record { unique = i.unique; used = i.used; bounded = i.bounded })
      by_outcome (panic msg) = stopped

  pub Keeps-set : (p : ℕ) (f : Proc → Proc) → Lowers f → Keeps (UniquePids {A = A} b) (set p f)
  Keeps-set p f low s i = after (record {
    unique = λ j k ne e.
        one_pid j k ne e (lowered s.table.proc p f low j) (lowered s.table.proc p f low k);
    used = λ j. below j (lowered s.table.proc p f low j);
    bounded = i.bounded;
  })
    where
      one_pid :
          (j k : ℕ)
          → (change s.table.proc p f j).pid ≢ 0
          → (change s.table.proc p f j).pid ≡ (change s.table.proc p f k).pid
          → ((change s.table.proc p f j).pid ≡ (s.table.proc j).pid)
            ⊎ ((change s.table.proc p f j).pid ≡ 0)
          → ((change s.table.proc p f k).pid ≡ (s.table.proc k).pid)
            ⊎ ((change s.table.proc p f k).pid ≡ 0)
          → j ≡ k
      one_pid j k ne e (inl a) (inl b) = i.unique j k (λ z. ne (a ∙ z)) (sym a ∙ e ∙ b)
      one_pid j k ne e (inl a) (inr z) = elim (ne (e ∙ z)) [ ]
      one_pid j k ne e (inr z) b = elim (ne z) [ ]

      below :
          (j : ℕ)
          → ((change s.table.proc p f j).pid ≡ (s.table.proc j).pid)
            ⊎ ((change s.table.proc p f j).pid ≡ 0)
          → (change s.table.proc p f j).pid < s.table.nextpid
      below j (inl a) = rw a (i.used j)
      below j (inr z) = rw z (omega (arith, i.used j))

  Keeps-the : (p : ℕ) → Keeps (UniquePids {A = A} b) (the p)
  Keeps-the p s i = after i

  set-Fresh :
      (pid p : ℕ) (s : Kernel A)
      → Fresh b pid s
      → After (λ _ t. UniquePids b t) (set p (λ q. record q { pid = pid }) s)
  unfolding Fresh
  set-Fresh pid p s (i, below, free) = after (record {
    unique = λ j k ne e.
        let same = sym (given_pid s.table.proc p pid j) ∙ e ∙ given_pid s.table.proc p pid k in
        let nonzero : (if p == j then pid else (s.table.proc j).pid) ≢ 0 =
          λ z. ne (given_pid s.table.proc p pid j ∙ z) in
        ground (arith, same, nonzero, i.unique j k, free j, free k);
    used = λ j. rw (given_pid s.table.proc p pid j) (ground (arith, below, i.used j));
    bounded = i.bounded;
  })

-- The next pid is one more, below the wrap-around.
allocpid-Fresh :
    {A : Type 0} (b : ℕ) (s : Kernel A)
    → UniquePids b s
    → suc b < 2 ^ 31
    → After (Fresh (suc b)) (on_table allocpid s)
unfolding allocpid Fresh
allocpid-Fresh b s i small =
    let wraps_not : suc s.table.nextpid % 2 ^ 32 ≡ suc s.table.nextpid = omega (arith, i.bounded) in
    after (
      record {
        unique = i.unique;
        used = λ j. omega (arith, i.used j, wraps_not);
        bounded = omega (arith, i.bounded, wraps_not);
      },
      omega (arith, wraps_not),
      λ j e. omega (arith, i.used j, e),
    )

module _ {A : Type 0} {b : ℕ} (al : Allocator A) (pl : Platform) where
  -- memory is freed unless the pointer is 0
  Keeps-release :
      (pointer : ℕ) (m : M (Memory A) (Unit {0}))
      → Keeps (UniquePids b) (if pointer == 0 then pure tt else on_memory m)
  Keeps-release pointer m =
      Keeps-if (UniquePids b) (pointer == 0) (pure tt) (on_memory m) (Keeps-pure (UniquePids b) tt)
        (Keeps-on_memory m)

  pub Keeps-freeproc : (p : ℕ) → Keeps (UniquePids b) (freeproc al pl p)
  unfolding freeproc
  Keeps-freeproc p s i = go (s.table.proc p) s i
    where
      clear : Proc → Proc
      clear q = record q {
        trapframe = 0;
        pagetable = 0;
        k_pagetable = 0;
        sz = 0;
        pid = 0;
        parent = none;
        name = [];
        chan = none;
        killed = false;
        xstate = 0;
        state = unused;
      }

      go :
          (q : Proc)
          → Keeps (UniquePids b) (do
            (if q.trapframe == 0 then pure tt else on_memory (Memory.kfree al q.trapframe))
            (if q.pagetable == 0
                then pure tt
                else on_memory (proc_freepagetable al pl q.pagetable q.sz))
            (if q.k_pagetable == 0 then pure tt else on_memory (proc_freewalk al 3 q.k_pagetable))
            set p clear)
      go q =
          Keeps-bind (UniquePids b)
            (if q.trapframe == 0 then pure tt else on_memory (Memory.kfree al q.trapframe))
            (λ _. do
              (if q.pagetable == 0
                  then pure tt
                  else on_memory (proc_freepagetable al pl q.pagetable q.sz))
              (if q.k_pagetable == 0 then pure tt else on_memory (proc_freewalk al 3 q.k_pagetable))
              set p clear)
            (Keeps-release q.trapframe (Memory.kfree al q.trapframe))
            (λ _.
              Keeps-bind (UniquePids b)
                (if q.pagetable == 0
                  then pure tt
                  else on_memory (proc_freepagetable al pl q.pagetable q.sz))
                (λ _. do
                  (if q.k_pagetable == 0
                      then pure tt
                      else on_memory (proc_freewalk al 3 q.k_pagetable))
                  set p clear)
                (Keeps-release q.pagetable (proc_freepagetable al pl q.pagetable q.sz))
                (λ _.
                  Keeps-bind (UniquePids b)
                    (if q.k_pagetable == 0
                      then pure tt
                      else on_memory (proc_freewalk al 3 q.k_pagetable))
                    (λ _. set p clear)
                    (Keeps-release q.k_pagetable (proc_freewalk al 3 q.k_pagetable))
                    (λ _. Keeps-set p clear (λ q. inr refl))))

  -- `freeproc` and no process
  pub given_up : (p : ℕ) → Keeps {A = Option ℕ} (UniquePids b) (do freeproc al pl p; pure none)
  given_up p =
      Keeps-bind (UniquePids b) (freeproc al pl p) (λ _. pure none) (Keeps-freeproc p)
        (λ _. Keeps-pure (UniquePids b) none)

  Keeps-give_kernel_table :
      (forkret p : ℕ) → Keeps (UniquePids b) (give_kernel_table al pl forkret p)
  unfolding give_kernel_table
  Keeps-give_kernel_table forkret p =
      Keeps-bind (UniquePids b) (on_memory (proc_kvminit al pl)) _
        (Keeps-on_memory (proc_kvminit al pl))
        (λ k_pagetable.
          Keeps-bind (UniquePids b) (set p (λ q. record q { k_pagetable = k_pagetable }))
            (λ _.
              if k_pagetable == 0
              then (do freeproc al pl p; pure none)
              else do q ← the p; mapped k_pagetable q)
            (Keeps-set p (λ q. record q { k_pagetable = k_pagetable }) (λ q. inl refl))
            (λ _.
              Keeps-if (UniquePids b) (k_pagetable == 0) (do freeproc al pl p; pure none)
                (do q ← the p; mapped k_pagetable q) (given_up p)
                (λ s i. Keeps-mapped k_pagetable (s.table.proc p) s i)))
    where
      mapped : ℕ → Proc → M (Kernel A) (Option ℕ)
      mapped k_pagetable q = do
        on_memory (proc_kvmmap al pl k_pagetable q.kstack q.kstack_pa page_size data_perm)
        set p (λ r. record r { ra = forkret; ksp = r.kstack + page_size })
        pure (some p)

      Keeps-mapped : (k_pagetable : ℕ) (q : Proc) → Keeps (UniquePids b) (mapped k_pagetable q)
      Keeps-mapped k_pagetable q =
          let m = proc_kvmmap al pl k_pagetable q.kstack q.kstack_pa page_size data_perm in
          Keeps-bind (UniquePids b) (on_memory m)
            (λ _. do
              set p (λ r. record r { ra = forkret; ksp = r.kstack + page_size })
              pure (some p))
            (Keeps-on_memory m)
            (λ _.
              Keeps-bind (UniquePids b)
                (set p (λ r. record r { ra = forkret; ksp = r.kstack + page_size }))
                (λ _. pure (some p))
                (Keeps-set p (λ r. record r { ra = forkret; ksp = r.kstack + page_size })
                  (λ r. inl refl))
                (λ _. Keeps-pure (UniquePids b) (some p)))

  Keeps-give_tables :
      (forkret p trapframe : ℕ) → Keeps (UniquePids b) (give_tables al pl forkret p trapframe)
  unfolding give_tables
  Keeps-give_tables forkret p trapframe =
      Keeps-bind (UniquePids b) (on_memory (proc_pagetable al pl trapframe)) _
        (Keeps-on_memory (proc_pagetable al pl trapframe))
        (λ pagetable.
          Keeps-bind (UniquePids b) (set p (λ q. record q { pagetable = pagetable }))
            (λ _.
              if pagetable == 0
              then (do freeproc al pl p; pure none)
              else give_kernel_table al pl forkret p)
            (Keeps-set p (λ q. record q { pagetable = pagetable }) (λ q. inl refl))
            (λ _.
              Keeps-if (UniquePids b) (pagetable == 0) (do freeproc al pl p; pure none)
                (give_kernel_table al pl forkret p) (given_up p)
                (Keeps-give_kernel_table forkret p)))

module _ {A : Type 0} (b : ℕ) (al : Allocator A) (pl : Platform) (small : suc b < 2 ^ 31) where
  init_found-UniquePids :
      (forkret p : ℕ) (s : Kernel A)
      → UniquePids b s
      → After (λ _ t. UniquePids (suc b) t) (init_found al pl forkret p s)
  unfolding init_found
  init_found-UniquePids forkret p s i =
      After-bind (on_table allocpid) _ (allocpid-Fresh b s i small) (λ pid t fresh.
        After-bind (set p (λ q. record q { pid = pid })) (λ _. traps) {s = t}
          (set-Fresh pid p t fresh)
          (λ _ u j.
            Keeps-bind (UniquePids (suc b)) (on_memory (Memory.kalloc al))
              (λ trapframe. with_frame trapframe) (Keeps-on_memory (Memory.kalloc al))
              (λ trapframe. Keeps-frame trapframe) u j))
    where
      with_frame : ℕ → M (Kernel A) (Option ℕ)
      with_frame trapframe = do
        set p (λ q. record q { trapframe = trapframe })
        if trapframe == 0 then pure none else give_tables al pl forkret p trapframe

      traps : M (Kernel A) (Option ℕ)
      traps = do trapframe ← on_memory (Memory.kalloc al); with_frame trapframe

      Keeps-frame : (trapframe : ℕ) → Keeps (UniquePids (suc b)) (with_frame trapframe)
      Keeps-frame trapframe =
          Keeps-bind (UniquePids (suc b)) (set p (λ q. record q { trapframe = trapframe }))
            (λ _. if trapframe == 0 then pure none else give_tables al pl forkret p trapframe)
            (Keeps-set p (λ q. record q { trapframe = trapframe }) (λ q. inl refl))
            (λ _.
              Keeps-if (UniquePids (suc b)) (trapframe == 0) (pure none)
                (give_tables al pl forkret p trapframe) (Keeps-pure (UniquePids (suc b)) none)
                (Keeps-give_tables al pl forkret p trapframe))

  -- `allocproc` keeps the pids unique, whether it gives a process or fails, wherever it fails. The next
  -- pid grows by at most 1.
  pub allocproc-UniquePids :
      (nproc forkret : ℕ) (s : Kernel A)
      → UniquePids b s
      → After (λ _ t. UniquePids (suc b) t) (allocproc al pl nproc forkret s)
  unfolding allocproc
  allocproc-UniquePids nproc forkret s i =
      chosen (find_entry {A = Proc} (λ q. is_unused q.state) s.table.proc nproc 0)
    where
      chosen :
          (r : Option ℕ)
          → After
              (λ _ t. UniquePids (suc b) t)
              ((elim r as (λ _. M (Kernel A) (Option ℕ)) [
                | none ↦ pure none
                | some p ↦ init_found al pl forkret p
              ])
                s)
      chosen none = after (UniquePids-mono (suc b) s (omega arith) i)
      chosen (some p) = init_found-UniquePids forkret p s i

-- ===== src/Lab4/ProcMemory/Steps.antt =====
-- Runs of fork, wait, kill and wakeup, in any order.
use mathlib.Core.Path.{subst}
use hitsz_os.Base.{
  suc, ◌+◌, ◌^◌, ◌<◌, arith, ℕ, ◌≡◌, ◌∙◌, sym, refl, Bool, true, false, Option, none, some, not,
  ◌&&◌, ltb, ◌==◌, if◌then◌else◌, inl,
}
use hitsz_os.Base.Kernel.{
  M, Outcome, ok, panic, pure, ◌>>=◌, ◌>>◌, After, After-bind, after, stopped, Keeps, Keeps-bind,
  Keeps-if, Keeps-pure,
}
use hitsz_os.Lab4.Memory.{Allocator}
use hitsz_os.Lab4.PageTable.{Platform}
use hitsz_os.Lab4.UserMemory.{uvmcopy, copyout}
use hitsz_os.Lab4.KernelMemory.{vmcopypage}
use hitsz_os.Lab4.Proc.{
  runnable, is_sleeping, is_zombie, is_child, Chan, same_chan, make_runnable, Proc, Table, change,
  find_entry, kill, wakeup,
}
use hitsz_os.Lab4.Proc.Scan.{change-keeps, for_all-keeps}
use hitsz_os.Lab4.ProcMemory.{
  Kernel, on_memory, on_table, the, set, freeproc, allocproc, copy_process, fork, Waited, reaped,
  failed, sleeps, wait,
}
use hitsz_os.Lab4.ProcMemory.Pids.{
  UniquePids-mono, UniquePids, Keeps-on_memory, Keeps-set, Keeps-freeproc, given_up,
  allocproc-UniquePids,
}

module _ {A : Type 0} {b : ℕ} (al : Allocator A) (pl : Platform) where
  wait-UniquePids :
      (nproc : ℕ) (bytes : ℕ → ℕ → ℕ) (p addr : ℕ)
      → Keeps (UniquePids b) (wait al pl nproc bytes p addr)
  unfolding wait
  wait-UniquePids nproc bytes p addr s i =
      scanned
        (find_entry {A = Proc} (λ q. is_child p q.parent && is_zombie q.state) s.table.proc nproc 0)
        (find_entry {A = Proc} (λ q. is_child p q.parent) s.table.proc nproc 0)
    where
      copied_out : ℕ → M (Kernel A) Bool
      copied_out np =
          if addr == 0
          then pure true
          else on_memory
              (copyout al pl (s.table.proc p).pagetable addr (bytes (s.table.proc np).xstate) 4)

      reap : ℕ → Bool → M (Kernel A) Waited
      reap np copied =
          if not copied
          then pure failed
          else do freeproc al pl np; pure (reaped (s.table.proc np).pid)

      Keeps-reap : (np : ℕ) (copied : Bool) → Keeps (UniquePids b) (reap np copied)
      Keeps-reap np copied =
          Keeps-if (UniquePids b) (not copied) (pure failed)
            (do freeproc al pl np; pure (reaped (s.table.proc np).pid))
            (Keeps-pure (UniquePids b) failed)
            (Keeps-bind (UniquePids b) (freeproc al pl np)
              (λ _. pure (reaped (s.table.proc np).pid)) (Keeps-freeproc al pl np)
              (λ _. Keeps-pure (UniquePids b) (reaped (s.table.proc np).pid)))

      childless : Option ℕ → M (Kernel A) Waited
      childless none = pure failed
      childless (some _) = if (s.table.proc p).killed then pure failed else pure sleeps

      Keeps-childless : (r : Option ℕ) → Keeps (UniquePids b) (childless r)
      Keeps-childless none = Keeps-pure (UniquePids b) failed
      Keeps-childless (some _) =
          Keeps-if (UniquePids b) (s.table.proc p).killed (pure failed) (pure sleeps)
            (Keeps-pure (UniquePids b) failed) (Keeps-pure (UniquePids b) sleeps)

      scanned :
          (r havekids : Option ℕ)
          → After
              (λ _ t. UniquePids b t)
              ((elim r as (λ _. M (Kernel A) Waited) [
                | none ↦ elim havekids as (λ _. M (Kernel A) Waited) [
                  | none ↦ pure failed
                  | some _ ↦ if (s.table.proc p).killed then pure failed else pure sleeps
                ]
                | some np ↦ do copied ← copied_out np; reap np copied
              ])
                s)
      scanned none none = after i
      scanned none (some k) = Keeps-childless (some k) s i
      scanned (some np) havekids =
          Keeps-bind (UniquePids b) (copied_out np) (reap np)
            (Keeps-if (UniquePids b) (addr == 0) (pure true)
              (on_memory
                (copyout al pl (s.table.proc p).pagetable addr (bytes (s.table.proc np).xstate) 4))
              (Keeps-pure (UniquePids b) true)
              (Keeps-on_memory
                (copyout al pl (s.table.proc p).pagetable addr (bytes (s.table.proc np).xstate) 4)))
            (Keeps-reap np) s i

  copy_process-UniquePids :
      (nofile p np : ℕ) (q child : Proc)
      → Keeps (UniquePids b) (copy_process al pl nofile p np q child)
  unfolding copy_process
  copy_process-UniquePids nofile p np q child =
      Keeps-bind (UniquePids b) (on_memory (uvmcopy al pl q.pagetable child.pagetable q.sz)) finish
        (Keeps-on_memory (uvmcopy al pl q.pagetable child.pagetable q.sz))
        (λ copied.
          Keeps-if (UniquePids b) (not copied) (do freeproc al pl np; pure none)
            (do set np fill; share) (given_up al pl np)
            (Keeps-bind (UniquePids b) (set np fill) (λ _. share)
              (Keeps-set np fill (λ c. inl refl))
              (λ _.
                Keeps-bind (UniquePids b)
                  (on_memory (vmcopypage al pl child.pagetable child.k_pagetable 0 q.sz))
                  (λ _. pure (some child.pid))
                  (Keeps-on_memory (vmcopypage al pl child.pagetable child.k_pagetable 0 q.sz))
                  (λ _. Keeps-pure (UniquePids b) (some child.pid)))))
    where
      fill : Proc → Proc
      fill c = record c {
        sz = q.sz;
        parent = some p;
        frame = record q.frame { a0 = 0 };
        ofile = λ i. if ltb i nofile && not (q.ofile i == 0) then q.ofile i else c.ofile i;
        cwd = q.cwd;
        name = q.name;
        state = runnable;
      }

      share : M (Kernel A) (Option ℕ)
      share = do
        on_memory (vmcopypage al pl child.pagetable child.k_pagetable 0 q.sz)
        pure (some child.pid)

      finish : Bool → M (Kernel A) (Option ℕ)
      finish copied =
          if not copied then (do freeproc al pl np; pure none) else do set np fill; share

  kill-UniquePids : (nproc pid : ℕ) → Keeps (UniquePids {A = A} b) (on_table (kill nproc pid))
  unfolding kill
  kill-UniquePids nproc pid s i =
      found (find_entry {A = Proc} (λ p. p.pid == pid) s.table.proc nproc 0)
    where
      struck : Proc → Proc
      struck p = record p {
        killed = true;
        state = if is_sleeping p.state then runnable else p.state;
      }

      found :
          (r : Option ℕ)
          → After
              (λ _ t. UniquePids b t)
              (on_table
                (λ s. elim r as (λ _. Outcome (Bool × Table)) [
                  | none ↦ ok (false, s)
                  | some k ↦ ok (true, record s { proc = change s.proc k struck })
                ])
                s)
      found none = after (record { unique = i.unique; used = i.used; bounded = i.bounded })
      found (some k) =
          let same = change-keeps (λ q. q.pid) struck (λ x. refl) s.table.proc k in
          after (record {
            unique = λ j l ne e. i.unique j l (λ z. ne (same j ∙ z)) (sym (same j) ∙ e ∙ same l);
            used = λ j. rw (same j) (i.used j);
            bounded = i.bounded;
          })

  wakeup-UniquePids :
      (nproc : ℕ) (chan : Chan) → Keeps (UniquePids {A = A} b) (on_table (wakeup nproc chan))
  unfolding wakeup
  wakeup-UniquePids nproc chan s i =
      let same =
        for_all-keeps (λ q. q.pid) make_runnable (λ x. refl) s.table.proc
          (λ _ q. is_sleeping q.state && same_chan chan q.chan) nproc in
      after (record {
        unique = λ j k ne e. i.unique j k (λ z. ne (same j ∙ z)) (sym (same j) ∙ e ∙ same k);
        used = λ j. rw (same j) (i.used j);
        bounded = i.bounded;
      })

module _ {A : Type 0} {b : ℕ} (al : Allocator A) (pl : Platform) where
  fork-UniquePids :
      (nproc nofile forkret p : ℕ) (s : Kernel A)
      → suc b < 2 ^ 31
      → UniquePids b s
      → After (λ _ t. UniquePids (suc b) t) (fork al pl nproc nofile forkret p s)
  unfolding fork
  fork-UniquePids nproc nofile forkret p s small i =
      After-bind (allocproc al pl nproc forkret) forked {s = s}
        (allocproc-UniquePids b al pl small nproc forkret s i) (λ r t j. Keeps-forked r t j)
    where
      forked : Option ℕ → M (Kernel A) (Option ℕ)
      forked none = pure none
      forked (some np) = do q ← the p; child ← the np; copy_process al pl nofile p np q child

      Keeps-forked : (r : Option ℕ) → Keeps (UniquePids (suc b)) (forked r)
      Keeps-forked none s i = after i
      Keeps-forked (some np) s i =
          copy_process-UniquePids al pl nofile p np (s.table.proc p) (s.table.proc np) s i

-- One operation of some process, in any order: each holds the locks it needs for its whole step.
pub data Step {A : Type 0} (al : Allocator A) (pl : Platform) (nproc nofile forkret : ℕ)
    : Kernel A → Kernel A → Type 0 where
  forks :
      {s t : Kernel A}
      → (p : ℕ) (r : Option ℕ) → fork al pl nproc nofile forkret p s ≡ ok (r, t)
      → Step al pl nproc nofile forkret s t
  waits :
      {s t : Kernel A}
      → (bytes : ℕ → ℕ → ℕ) (p addr : ℕ) (r : Waited) → wait al pl nproc bytes p addr s ≡ ok (r, t)
      → Step al pl nproc nofile forkret s t
  kills :
      {s t : Kernel A}
      → (pid : ℕ) (r : Bool) → on_table (kill nproc pid) s ≡ ok (r, t)
      → Step al pl nproc nofile forkret s t
  wakes :
      {s t : Kernel A}
      → (chan : Chan) → on_table (wakeup nproc chan) s ≡ ok (tt, t)
      → Step al pl nproc nofile forkret s t

-- A run of `n` such operations.
pub data Steps {A : Type 0} (al : Allocator A) (pl : Platform) (nproc nofile forkret : ℕ)
    : (n : ℕ) → Kernel A → Kernel A → Type 0 where
  rest_here : {s : Kernel A} → Steps al pl nproc nofile forkret 0 s s
  step_on :
      {n : ℕ} {s t u : Kernel A}
      → Step al pl nproc nofile forkret s t
      → Steps al pl nproc nofile forkret n t u
      → Steps al pl nproc nofile forkret (suc n) s u

abbrev Held : {S R : Type 0} → (R → S → Type 0) → Outcome (R × S) → Type 0
Held P (ok (r, s)) = P r s
Held P (panic msg) = Unit

held : {S R : Type 0} (P : R → S → Type 0) {o : Outcome (R × S)} → After P o → Held P o
held P (after p) = p
held P stopped = tt

module _ {A : Type 0} (al : Allocator A) (pl : Platform) (nproc nofile forkret : ℕ) where
  Step-UniquePids :
      {b : ℕ} {s t : Kernel A}
      → Step al pl nproc nofile forkret s t
      → suc b < 2 ^ 31
      → UniquePids b s
      → UniquePids (suc b) t
  Step-UniquePids {b} (forks p r e) small i =
      subst (Held (λ _ t. UniquePids (suc b) t)) e (
        held (λ _ t. UniquePids (suc b) t) (fork-UniquePids al pl nproc nofile forkret p _ small i))
  Step-UniquePids {b} {s} {t} (waits bytes p addr r e) small i =
      UniquePids-mono (suc b) t (omega arith) (
        subst (Held (λ _ t. UniquePids b t)) e
          (held (λ _ t. UniquePids b t) (wait-UniquePids al pl nproc bytes p addr _ i)))
  Step-UniquePids {b} {s} {t} (kills pid r e) small i = UniquePids-mono (suc b) t (omega arith) (
      subst (Held (λ _ t. UniquePids b t)) e
        (held (λ _ t. UniquePids b t) (kill-UniquePids al pl nproc pid _ i)))
  Step-UniquePids {b} {s} {t} (wakes chan e) small i = UniquePids-mono (suc b) t (omega arith) (
      subst (Held (λ _ t. UniquePids b t)) e
        (held (λ _ t. UniquePids b t) (wakeup-UniquePids al pl nproc chan _ i)))

  -- If no two entries of the process table have the same pid, apart from 0, and the next pid is above all
  -- of them and at most `b`, then after any run of `n` operations out of fork, wait, kill and wakeup, by any
  -- processes, in any order and with any outcome but a panic, all this holds again, and the next pid is at
  -- most `b + n`. The condition is that `b + n` is below 2 ^ 31, where `int nextpid` overflows.
  pub Steps-UniquePids :
      {n b : ℕ} {s t : Kernel A}
      → Steps al pl nproc nofile forkret n s t
      → b + n < 2 ^ 31
      → UniquePids b s
      → UniquePids (b + n) t
  Steps-UniquePids {n} {b} {s} rest_here small i = UniquePids-mono (b + 0) s (omega arith) i
  Steps-UniquePids {n} {b} {s} {t} (step_on {n = m} step steps) small i =
      UniquePids-mono (b + suc m) t (omega arith)
        (Steps-UniquePids steps (omega arith) (Step-UniquePids step (omega arith) i))

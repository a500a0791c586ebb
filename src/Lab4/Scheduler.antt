-- ===== src/Lab4/Scheduler.antt =====
-- Lab4/kernel/proc.c: `scheduler`, with the switch of page tables by `kvminithart` and `proc_kvminithart` of
-- Lab4/kernel/vm.c.
mod Tests
use hitsz_os.Base.{
  ℕ, zero, suc, ◌+◌, ◌≡◌, ◌≢◌, ◌≤◌, ◌<◌, ◌↔◌, ◌∙◌, refl, Bool, true, false, Option, none, some,
  if◌then◌else◌, arith, Bool-cases, inl, inr,
}
use hitsz_os.Base.Kernel.{
  M, pure, ◌>>=◌, ◌>>◌, gets, modify, Returns, returns, Returns-bind, Returns-mono,
}
use hitsz_os.Lab4.Proc.{running, is_runnable, is_running, Proc, Table, change}

-- A CPU, with the process table: `c->proc`, and the root of the page table in the register satp.
pub record Hart : Type 0 where
  pub table : Table
  pub current : Option ℕ
  pub satp : ℕ

abbrev pub set_current : Option ℕ → M Hart (Unit {0})
set_current p = modify (λ s. record s { current = p })

unfoldable pub kvminithart : (kernel_pagetable : ℕ) → M Hart (Unit {0})
kvminithart kernel_pagetable = modify (λ s. record s { satp = kernel_pagetable })

unfoldable pub proc_kvminithart : (proc_kernel_pagetable : ℕ) → M Hart (Unit {0})
proc_kvminithart proc_kernel_pagetable = modify (λ s. record s { satp = proc_kernel_pagetable })

module _ (kernel_pagetable : ℕ) (run : ℕ → M Hart (Unit {0})) where
  -- The turn of a process that is runnable. `run p` is what happens from `swtch` to process `p` until the
  -- switch back.
  unfoldable pub turn : (p : ℕ) → M Hart (Unit {0})
  turn p = do
    modify (λ s. record s {
      table = record s.table { proc = change s.table.proc p (λ q. record q { state = running }) };
    })
    set_current (some p)
    k_pagetable ← gets (λ s. (s.table.proc p).k_pagetable)
    proc_kvminithart k_pagetable
    run p
    kvminithart kernel_pagetable
    set_current none

  -- One pass over the table, from entry `i` on, with `count` entries left. The result is `found`.
  unfoldable pub scheduler_pass : (count i : ℕ) (found : Bool) → M Hart Bool
  scheduler_pass zero i found = pure found
  scheduler_pass (suc n) i found =
      let rest = scheduler_pass n (suc i) in
      do
        state ← gets (λ s. (s.table.proc i).state)
        if is_runnable state then (do turn i; rest true) else rest found

  -- As `swtch` to process `p` finds the CPU.
  abbrev pub Switched : (p : ℕ) → Hart → Type 0
  Switched p s =
      (is_running (s.table.proc p).state ≡ true)
      × (s.current ≡ some p)
      × (s.satp ≡ (s.table.proc p).k_pagetable)

  -- As the scheduler has it.
  abbrev pub Idle : Hart → Type 0
  Idle s = (s.satp ≡ kernel_pagetable) × (s.current ≡ none)

  -- No entry from `i` on is runnable.
  abbrev pub NoneReady : (count i : ℕ) → Hart → Type 0
  NoneReady count i s = (j : ℕ) → i ≤ j → j < i + count → is_runnable (s.table.proc j).state ≡ false

  module _
      (returns_there : (p : ℕ) (s : Hart)
        → Switched p s
        → Returns (λ _ _. Unit {0}) (run p s)) where
    turn-Idle : (p : ℕ) (s : Hart) → Returns (λ _ t. Idle t) (turn p s)
    unfolding turn kvminithart proc_kvminithart
    turn-Idle p s =
        Returns-bind (run p) _ (returns_there p _ (ground arith, refl, refl))
          (λ _ t _. returns (refl, refl))

    scheduler_pass-Idle :
        (n i : ℕ) (found : Bool) (s : Hart)
        → Idle s
        → Returns
            (λ f t.
              Idle t
              × (f ≡ false → (found ≡ false) × (t ≡ s) × NoneReady n i s)
              × (found ≡ false → NoneReady n i s → f ≡ false))
            (scheduler_pass n i found s)
    unfolding scheduler_pass
    scheduler_pass-Idle zero i found s idle =
        returns (idle, (λ e. (e, refl, λ j low high. absurd (omega arith))), λ e h. e)
    scheduler_pass-Idle (suc n) i found s idle =
        elim (Bool-cases (is_runnable (s.table.proc i).state)) [
          | inl ready ↦ rw ready (
              Returns-bind (turn i) _ (turn-Idle i s) (λ _ t idle'.
                Returns-mono (scheduler_pass-Idle n (suc i) true t idle')
                  (λ f u (last, missed, quiet). (
                    last,
                    (λ e. cc ((missed e).0)),
                    (λ e h. cc (h i (omega arith) (omega arith))),
                  ))))
          | inr busy ↦ rw busy (
              Returns-mono (scheduler_pass-Idle n (suc i) found s idle)
                (λ f u (last, missed, quiet). (
                  last,
                  (λ e. ((missed e).0, (missed e).1, more busy (missed e).2)),
                  (λ e h. quiet e (λ j low high. h j (omega arith) (omega arith))),
                )))
        ]
      where
        more :
            is_runnable (s.table.proc i).state ≡ false
            → NoneReady n (suc i) s
            → NoneReady (suc n) i s
        more busy rest j low high = ground (arith, busy, rest j)

    -- In a pass of `scheduler` over the table a process gets the CPU only with state RUNNING, as the current
    -- process, and with its own kernel page table in satp. If every such run comes back, the pass ends,
    -- with the page table of the kernel in satp and no current process. It has found no process exactly if
    -- none was runnable, and then nothing has changed.
    pub scheduler_pass-Switched :
        (nproc : ℕ) (s : Hart)
        → Idle s
        → Returns
            (λ found t.
              Idle t
              × ((found ≡ false)
                  ↔ ((j : ℕ) → j < nproc → is_runnable (s.table.proc j).state ≡ false))
              × (found ≡ false → t ≡ s))
            (scheduler_pass nproc 0 false s)
    scheduler_pass-Switched nproc s idle =
        Returns-mono (scheduler_pass-Idle nproc 0 false s idle) (λ found t (last, missed, quiet). (
          last,
          (
            λ e j below. (missed e).2 j (omega arith) (omega arith),
            λ h. quiet refl (λ j low high. h j (omega arith)),
          ),
          λ e. (missed e).1,
        ))

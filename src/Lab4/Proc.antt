-- ===== src/Lab4/Proc.antt =====
-- Lab4/kernel/proc.c: the process table, and the operations on it that leave memory alone. Each is one
-- critical section: the locks of the table are left out.
pub mod Scan
pub mod Wake
pub mod CloseFiles
pub mod Exit
mod Tests
use hitsz_os.Base.{
  ◌++◌, ℕ, zero, suc, ◌+◌, ◌-◌, ◌*◌, ◌%◌, ◌^◌, Bool, true, false, Option, none, some, not, ◌&&◌,
  leb, ltb, ◌==◌, if◌then◌else◌, List, [], ◌∷◌,
}
use hitsz_os.Base.Kernel.{
  M, Outcome, ok, panic, pure, fail, ◌>>=◌, ◌>>◌, gets, modify, ensure, update,
}

-- `enum procstate`
pub data ProcState : Type 0 where
  unused : ProcState
  sleeping : ProcState
  runnable : ProcState
  running : ProcState
  zombie : ProcState

abbrev pub is_unused : ProcState → Bool
is_unused unused = true
is_unused _ = false

abbrev pub is_sleeping : ProcState → Bool
is_sleeping sleeping = true
is_sleeping _ = false

abbrev pub is_runnable : ProcState → Bool
is_runnable runnable = true
is_runnable _ = false

abbrev pub is_running : ProcState → Bool
is_running running = true
is_running _ = false

abbrev pub is_zombie : ProcState → Bool
is_zombie zombie = true
is_zombie _ = false

-- The address that a process sleeps on: that of a table entry, or another one.
pub data Chan : Type 0 where
  entry : ℕ → Chan
  other : ℕ → Chan

abbrev pub same_chan : Chan → Option Chan → Bool
same_chan (entry i) (some (entry j)) = i == j
same_chan (other i) (some (other j)) = i == j
same_chan _ _ = false

-- `parent == p`, where `parent` may be 0
abbrev pub is_child : (p : ℕ) → Option ℕ → Bool
is_child p (some q) = q == p
is_child p none = false

-- The saved user registers that proc.c and exec.c name, and all others.
pub record Trapframe : Type 0 where
  pub epc : ℕ
  pub sp : ℕ
  pub a0 : ℕ
  pub a1 : ℕ
  pub rest : ℕ

-- `struct proc`. A process is its index in the table; pointers that may be 0 are options or addresses.
pub record Proc : Type 0 where
  pub state : ProcState
  pub parent : Option ℕ
  pub chan : Option Chan
  pub killed : Bool
  pub xstate : ℕ
  pub pid : ℕ
  pub kstack : ℕ
  pub kstack_pa : ℕ
  pub sz : ℕ
  pub pagetable : ℕ
  pub k_pagetable : ℕ
  pub trapframe : ℕ  -- the page
  pub frame : Trapframe  -- what is in it
  pub ra : ℕ  -- `context.ra` and `context.sp`
  pub ksp : ℕ
  pub ofile : ℕ → ℕ
  pub cwd : ℕ
  pub name : List ℕ

-- `struct cpu`, as far as `sched` reads it, and whether device interrupts are on.
pub record Cpu : Type 0 where
  pub proc : Option ℕ
  pub noff : ℕ
  pub intena : Bool
  pub intr : Bool

-- The table, with `nextpid` and `initproc`.
pub record Table : Type 0 where
  pub proc : ℕ → Proc
  pub nextpid : ℕ
  pub initproc : ℕ

-- An entry is changed by `f`.
abbrev pub change : {A : Type 0} → (ℕ → A) → (i : ℕ) → (A → A) → ℕ → A
change t i f = update t i (f (t i))

abbrev pub edit : (i : ℕ) → (Proc → Proc) → M Table (Unit {0})
edit i f = modify (λ s. record s { proc = change s.proc i f })

-- The result is the new pid. `int nextpid` wraps around.
unfoldable pub allocpid : M Table ℕ
allocpid s = ok (s.nextpid, record s { nextpid = suc s.nextpid % 2 ^ 32 })

-- The first entry from `i` on that passes `test`, among `count` entries: the scans of the table.
unfoldable pub find_entry : {A : Type 0} → (test : A → Bool) (t : ℕ → A) (count i : ℕ) → Option ℕ
find_entry test t zero i = none
find_entry test t (suc n) i =
    let rest = find_entry test t n (suc i) in if test (t i) then some i else rest

-- `f` is applied to the entries `i`, ..., `i + count - 1` that pass `test`.
unfoldable pub for_all :
    {A : Type 0} → (test : ℕ → A → Bool) (f : A → A) (t : ℕ → A) (count i : ℕ) → ℕ → A
for_all test f t zero i = t
for_all test f t (suc n) i = for_all test f (if test i (t i) then change t i f else t) n (suc i)

abbrev pub make_runnable : Proc → Proc
make_runnable p = record p { state = runnable }

module _ (nproc : ℕ) where
  unfoldable pub wakeup : Chan → M Table (Unit {0})
  wakeup chan = modify (λ s. record s {
    proc =
        for_all (λ _ p. is_sleeping p.state && same_chan chan p.chan) make_runnable s.proc nproc 0;
  })

  -- The result tells 0 from -1.
  unfoldable pub kill : (pid : ℕ) → M Table Bool
  kill pid s = elim (find_entry (λ p. p.pid == pid) s.proc nproc 0) [
    | none ↦ ok (false, s)
    | some i ↦ ok (
      true,
      record s {
        proc = change s.proc i (λ p. record p {
          killed = true;
          state = if is_sleeping p.state then runnable else p.state;
        });
      },
    )
  ]

  unfoldable pub reparent : (p : ℕ) → M Table (Unit {0})
  reparent p = modify (λ s. record s {
    proc =
        for_all (λ _ pp. is_child p pp.parent) (λ pp. record pp { parent = some s.initproc }) s.proc
          nproc 0;
  })

-- `wakeup1`. Its caller holds the lock of `p`.
unfoldable pub wakeup1 : (p : ℕ) → M Table (Unit {0})
wakeup1 p = do
  t ← gets (λ s. s.proc)
  if same_chan (entry p) (t p).chan && is_sleeping (t p).state
      then edit p make_runnable
      else pure tt

-- A call into the file system, which stands elsewhere: a file and a directory are numbers.
pub data FileCall : Type 0 where
  fileclose : ℕ → FileCall
  begin_op : FileCall
  iput : ℕ → FileCall
  end_op : FileCall

-- The first loop of `exit`, from `fd` on, for `count` descriptors: its calls, and the table after it.
unfoldable pub close_loop : (ofile : ℕ → ℕ) (count fd : ℕ) → List FileCall × (ℕ → ℕ)
close_loop ofile zero fd = ([], ofile)
close_loop ofile (suc n) fd =
    let kept = close_loop ofile n (suc fd) in
    let closed = close_loop (update ofile fd 0) n (suc fd) in
    if ofile fd == 0 then kept else (fileclose (ofile fd) ∷ closed.0, closed.1)

module _ (nproc nofile : ℕ) where
  -- `exit` of process `p`, up to `sched`, which does not come back. The result are the calls into the
  -- file system, in order. A process without a parent would read a lock at address 0.
  unfoldable pub exit : (p status : ℕ) → M Table (List FileCall)
  exit p status = do
    initproc ← gets (λ s. s.initproc)
    if p == initproc then fail "init exiting" else do
      r ← gets (λ s. s.proc p)
      let closed = close_loop r.ofile nofile 0
      edit p (λ q. record q { ofile = closed.1; cwd = 0 })
      wakeup1 initproc
      original_parent ← gets (λ s. (s.proc p).parent)
      reparent nproc p
      elim original_parent [ none ↦ fail "fault" | some q ↦ wakeup1 q ]
      edit p (λ q. record q { xstate = status; state = zombie })
      pure (closed.0 ++ (begin_op ∷ iput r.cwd ∷ end_op ∷ []))

-- The part of `sched` before the switch. `holding_lock` is `holding(&p->lock)`.
unfoldable pub sched : (holding_lock : Bool) → Cpu → (p : ℕ) → M Table (Unit {0})
sched holding_lock cpu p = do
  state ← gets (λ s. (s.proc p).state)
  ensure holding_lock "sched p->lock"
  ensure (cpu.noff == 1) "sched locks"
  ensure (not (is_running state)) "sched running"
  ensure (not cpu.intr) "sched interruptible"

-- `yield`, up to the switch: the process holds its lock, and no other.
unfoldable pub yield : Cpu → (p : ℕ) → M Table (Unit {0})
yield cpu p = do edit p make_runnable; sched true cpu p

-- `sleep`, up to the switch.
unfoldable pub sleep : Cpu → (p : ℕ) → Chan → M Table (Unit {0})
sleep cpu p chan = do
  edit p (λ q. record q { chan = some chan; state = sleeping })
  sched true cpu p

-- `sleep`, behind the switch
unfoldable pub awake : (p : ℕ) → M Table (Unit {0})
awake p = edit p (λ q. record q { chan = none })

-- A turn of the inner loop of `scheduler` for entry `p`, up to the switch to it. The result tells
-- whether the CPU switches.
unfoldable pub dispatch : Cpu → (p : ℕ) → M Table (Bool × Cpu)
dispatch cpu p = do
  state ← gets (λ s. (s.proc p).state)
  if is_runnable state
      then (do
        edit p (λ q. record q { state = running })
        pure (true, record cpu { proc = some p }))
      else pure (false, cpu)

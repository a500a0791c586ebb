-- ===== src/Lab2/Syscall.antt =====
-- Lab2/kernel/syscall.c and sysproc.c: arguments, dispatch and trace of system calls, sysinfo and sleep;
-- and the counts of Lab2/kernel/proc.c.
pub mod Trace
mod Tests
use Prim.Native.String.{String}
use hitsz_os.Base.{
  ℕ, zero, suc, ◌+◌, ◌-◌, ◌*◌, ◌/◌, ◌%◌, ◌^◌, Bool, true, false, Option, none, some, not, ◌&&◌,
  ◌||◌, leb, ltb, ◌==◌, if◌then◌else◌, List, [], ◌∷◌, ◌++◌,
}
use hitsz_os.Base.Kernel.{M, Outcome, ok, panic, pure, fail, ◌>>=◌, ◌>>◌, gets, modify, update}

-- `enum procstate`
pub data ProcState : Type 0 where
  unused : ProcState
  sleeping : ProcState
  runnable : ProcState
  running : ProcState
  zombie : ProcState

abbrev pub is_unused : ProcState → Bool
is_unused unused = true
is_unused _ = false

-- What the system calls use of `struct proc`. `a` are the saved registers a0, ..., a7.
pub record Proc : Type 0 where
  pub state : ProcState
  pub pid : ℕ
  pub sz : ℕ
  pub pagetable : ℕ
  pub mask : ℕ
  pub a : ℕ → ℕ
  pub killed : Bool
  pub ofile : ℕ → ℕ

-- A line that `syscall` prints.
pub data Line : Type 0 where
  traced : (pid : ℕ) (name : String) (arg0 ret : ℕ) → Line
  unknown : (pid num : ℕ) → Line

-- The table of processes, the running one, and the console, the latest line last. `V` is the rest of the
-- kernel.
pub record Kernel (V : Type 0) : Type 0 where
  pub proc : ℕ → Proc
  pub current : ℕ
  pub console : List Line
  pub rest : V

-- `int`, in two's complement, and `uint64`
abbrev pub i32 : ℕ → ℕ
i32 n = n % 2 ^ 32

abbrev pub u64 : ℕ → ℕ
u64 n = n % 2 ^ 64

-- an `int` that becomes a `uint64`
abbrev pub i32_to_u64 : ℕ → ℕ
i32_to_u64 n = if ltb n (2 ^ 31) then n else n + 2 ^ 64 - 2 ^ 32

-- `m & 1 << n`
abbrev pub bit : (m n : ℕ) → Bool
bit m n = m / 2 ^ n % 2 == 1

-- NELEM(syscalls)
abbrev pub nelem : ℕ
nelem = 24

abbrev pub sys_trace_num : ℕ
sys_trace_num = 22

abbrev pub syscall_names : List String
syscall_names =
    "sys_fork" ∷ "sys_exit" ∷ "sys_wait" ∷ "sys_pipe" ∷ "sys_read" ∷ "sys_kill" ∷ "sys_exec"
    ∷ "sys_fstat" ∷ "sys_chdir" ∷ "sys_dup" ∷ "sys_getpid" ∷ "sys_sbrk" ∷ "sys_sleep" ∷ "sys_uptime"
    ∷ "sys_open" ∷ "sys_write" ∷ "sys_mknod" ∷ "sys_unlink" ∷ "sys_link" ∷ "sys_mkdir" ∷ "sys_close"
    ∷ "sys_trace" ∷ "sys_sysinfo" ∷ []

-- `syscall_name[i]`
unfoldable pub name_at : (names : List String) (i : ℕ) → String
name_at [] i = ""
name_at (n ∷ names) zero = n
name_at (n ∷ names) (suc i) = name_at names i

module _ {V : Type 0} where
  abbrev pub myproc : M (Kernel V) Proc
  myproc = gets (λ s. s.proc s.current)

  abbrev pub edit : (p : ℕ) → (Proc → Proc) → M (Kernel V) (Unit {0})
  edit p f = modify (λ s. record s { proc = update s.proc p (f (s.proc p)) })

  abbrev pub printf : Line → M (Kernel V) (Unit {0})
  printf l = modify (λ s. record s { console = s.console ++ (l ∷ []) })

  unfoldable pub argraw : (n : ℕ) → M (Kernel V) ℕ
  argraw n = do p ← myproc; if ltb n 6 then pure (p.a n) else fail "argraw"

  unfoldable pub argint : (n : ℕ) → M (Kernel V) ℕ
  argint n = do v ← argraw n; pure (i32 v)

  unfoldable pub argaddr : (n : ℕ) → M (Kernel V) ℕ
  argaddr n = argraw n

  -- `copyin` gives the eight bytes at an address as a number, or fails. The result is none for -1.
  unfoldable pub fetchaddr : (copyin : ℕ → ℕ → V → Option ℕ) (addr : ℕ) → M (Kernel V) (Option ℕ)
  fetchaddr copyin addr = do
    p ← myproc
    if leb p.sz addr || ltb p.sz (u64 (addr + 8))
        then pure none
        else gets (λ s. copyin p.pagetable addr s.rest)

  -- `handler num` is `syscalls[num]()`. `p` is the entry of the process that makes the call.
  unfoldable pub syscall : (handler : ℕ → M (Kernel V) ℕ) → M (Kernel V) (Unit {0})
  syscall handler = do
    p ← gets (λ s. s.current)
    q ← gets (λ s. s.proc p)
    let num = i32 (q.a 7)
    if ltb 0 num && ltb num (2 ^ 31) && ltb num nelem
        then (do
          arg0 ← argint 0
          ret ← handler num
          edit p (λ q. record q { a = update q.a 0 ret })
          q ← gets (λ s. s.proc p)
          if bit q.mask num
              then printf (traced q.pid (name_at syscall_names (num - 1)) arg0 (i32 ret))
              else pure tt)
        else do printf (unknown q.pid num); edit p (λ q. record q { a = update q.a 0 (2 ^ 64 - 1) })

  unfoldable pub sys_trace : M (Kernel V) ℕ
  sys_trace = do
    mask ← argint 0
    p ← gets (λ s. s.current)
    edit p (λ p. record p { mask = mask })
    pure 0

  unfoldable pub sys_getpid : M (Kernel V) ℕ
  sys_getpid = do p ← myproc; pure p.pid

-- The loops of `check_nproc` and `check_freefd`, from `i` on: how many entries pass the test.
unfoldable pub count_from : {A : Type 0} → (test : A → Bool) (t : ℕ → A) (count i : ℕ) → ℕ
count_from test t zero i = 0
count_from test t (suc n) i =
    let rest = count_from test t n (suc i) in if test (t i) then suc rest else rest

unfoldable pub check_nproc : (nproc : ℕ) (t : ℕ → Proc) → ℕ
check_nproc nproc t = count_from (λ p. is_unused p.state) t nproc 0

unfoldable pub check_freefd : (nofile : ℕ) (p : Proc) → ℕ
check_freefd nofile p = count_from (λ f. f == 0) p.ofile nofile 0

-- `struct sysinfo`
pub record Sysinfo : Type 0 where
  pub freemem : ℕ
  pub nproc : ℕ
  pub freefd : ℕ

module _ {V : Type 0} (check_freemem : V → ℕ)
    (copyout : (pagetable addr : ℕ) → Sysinfo → V → Option V) where
  -- `copyout` writes the struct to user memory, or fails.
  unfoldable pub sys_sysinfo : (nproc nofile : ℕ) → M (Kernel V) ℕ
  sys_sysinfo nproc nofile = do
    sysinfo_addr ← argaddr 0
    s ← gets (λ s. s)
    let p = s.proc s.current
    let info : Sysinfo = record {
      freemem = check_freemem s.rest;
      nproc = check_nproc nproc s.proc;
      freefd = check_freefd nofile p;
    }
    elim (copyout p.pagetable sysinfo_addr info s.rest) [
      | none ↦ pure (2 ^ 64 - 1)
      | some v ↦ do modify (λ s. record s { rest = v }); pure 0
    ]

-- How a turn of the loop of `sys_sleep` goes.
pub data Turn : Type 0 where
  done : Turn
  interrupted : Turn
  sleeps : Turn

-- `ticks - ticks0 < n`, as `uint`s
unfoldable pub sleep_turn : (ticks ticks0 n : ℕ) (killed : Bool) → Turn
sleep_turn ticks ticks0 n killed =
    if not (ltb (i32 (ticks + 2 ^ 32 - ticks0)) n)
    then done
    else if killed
    then interrupted
    else sleeps

module _ {V : Type 0} where
  -- `growproc` gives whether it succeeds.
  unfoldable pub sys_sbrk : (growproc : ℕ → M (Kernel V) Bool) → M (Kernel V) ℕ
  sys_sbrk growproc = do
    n ← argint 0
    p ← myproc
    let addr = i32 p.sz
    grown ← growproc n
    if grown then pure (i32_to_u64 addr) else pure (2 ^ 64 - 1)

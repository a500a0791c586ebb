-- ===== src/Lab4/ProcMemory/Console.antt =====
-- Lab4/kernel/proc.c: `procinit`, `either_copyout`, `either_copyin` and `procdump`.
use hitsz_os.Base.{
  ℕ, zero, suc, ◌+◌, ◌≡◌, ◌≤◌, ◌<◌, Bool, true, false, arith, ◌==◌, if◌then◌else◌, Bool-cases, inl,
  inr, List, [], ◌∷◌,
}
use Prim.Native.String.{String}
use mathlib.Core.List.{Mem, mem-cons_self, mem-cons_of_mem}
use hitsz_os.Base.Kernel.{M, pure, fail, ◌>>=◌, ◌>>◌, modify}
use hitsz_os.Lab4.Memory.{page_size, Allocator, Memory}
use hitsz_os.Lab4.Memory
use hitsz_os.Lab4.PageTable.{Platform, kvmmap}
use hitsz_os.Lab4.UserMemory.{moved, copyout, memmove}
use hitsz_os.Lab4.KernelMemory.{data_perm}
use hitsz_os.Lab4.Proc.{ProcState, unused, sleeping, runnable, running, zombie, is_unused, Proc}
use hitsz_os.Lab4.ProcMemory.{Kernel, on_memory, the, set}

-- `kstack i` is KSTACK(i) of memlayout.h.
module _ {A : Type 0} (al : Allocator A) (pl : Platform) (kernel_pagetable : ℕ)
    (kstack : ℕ → ℕ) where
  -- The loop of `procinit`, from entry `i` on, with `count` entries left.
  unfoldable pub init_stacks : (count i : ℕ) → M (Kernel A) (Unit {0})
  init_stacks zero i = pure tt
  init_stacks (suc n) i = do
    pa ← on_memory (Memory.kalloc al)
    if pa == 0 then fail "kalloc" else do
      set i (λ q. record q { kstack_pa = pa })
      on_memory (kvmmap al pl kernel_pagetable (kstack i) pa page_size data_perm)
      set i (λ q. record q { kstack = kstack i })
      init_stacks n (suc i)

  -- The result is the table that the last call, of `kvminithart`, puts into satp.
  unfoldable pub procinit : (nproc : ℕ) → M (Kernel A) ℕ
  procinit nproc = do init_stacks nproc 0; pure kernel_pagetable

module _ {A : Type 0} (al : Allocator A) (pl : Platform) where
  -- Process `p` is `myproc()`, and the bytes come from `src` of the kernel. The result tells 0 from -1.
  unfoldable pub either_copyout :
      (p : ℕ) (user_dst : Bool) (dst : ℕ) (src : ℕ → ℕ) (len : ℕ) → M (Kernel A) Bool
  either_copyout p user_dst dst src len =
      if user_dst
      then (do q ← the p; on_memory (copyout al pl q.pagetable dst src len))
      else do on_memory (memmove dst src len); pure true

  -- `copyin` is a call of `copyin_new`, which stands elsewhere.
  unfoldable pub either_copyin :
      (copyin : (pagetable dst srcva len : ℕ) → M (Memory A) Bool)
      → (p dst : ℕ) (user_src : Bool) (src len : ℕ) → M (Kernel A) Bool
  either_copyin copyin p dst user_src src len =
      if user_src then (do q ← the p; on_memory (copyin q.pagetable dst src len)) else do
        on_memory
            (modify (λ s. record s { bytes = moved s.bytes dst (λ j. s.bytes (src + j)) len }))
        pure true

-- A line of `procdump`.
pub record Listing : Type 0 where
  pub pid : ℕ
  pub state : String
  pub name : List ℕ

-- the array `states`
abbrev pub state_name : ProcState → String
state_name unused = "unused"
state_name sleeping = "sleep "
state_name runnable = "runble"
state_name running = "run   "
state_name zombie = "zombie"

abbrev pub listing : Proc → Listing
listing q = record { pid = q.pid; state = state_name q.state; name = q.name }

-- The lines of `procdump` from entry `i` on, with `count` entries left.
unfoldable pub procdump : (proc : ℕ → Proc) (count i : ℕ) → List Listing
procdump proc zero i = []
procdump proc (suc n) i =
    let rest = procdump proc n (suc i) in
    if is_unused (proc i).state then rest else listing (proc i) ∷ rest

-- `procdump` prints a line for every entry that is in use.
pub procdump-listing :
    (proc : ℕ → Proc) (n i p : ℕ)
    → i ≤ p
    → p < i + n
    → is_unused (proc p).state ≡ false
    → Mem (listing (proc p)) (procdump proc n i)
unfolding procdump
procdump-listing proc zero i p from to used = ground arith
procdump-listing proc (suc n) i p from to used = elim (Bool-cases (i == p)) [
  | inl same ↦ let here : i ≡ p = ground arith in rw (here, used) mem-cons_self
  | inr other ↦
      let later = procdump-listing proc n (suc i) p (ground arith) (ground arith) used in
      elim (Bool-cases (is_unused (proc i).state)) [
        | inl skipped ↦ rw skipped later
        | inr listed ↦ rw listed (mem-cons_of_mem _ later)
      ]
]

-- ===== src/Lab2/Proc/Console.antt =====
-- Lab2/kernel/proc.c: `either_copyout`, `either_copyin` and `procdump`.
use hitsz_os.Base.{ℕ, zero, suc, Bool, true, if◌then◌else◌, List, [], ◌∷◌}
use hitsz_os.Base.Kernel.{M, pure, ◌>>=◌, ◌>>◌}
use hitsz_os.Lab4.Proc.{is_unused}
use hitsz_os.Lab4.ProcMemory.Console.{Listing, state_name}
use hitsz_os.Lab2.Proc.{Proc, Vm, Kernel, on_vm, the}

module _ {V : Type 0} (vm : Vm V) where
  -- Process `p` is `myproc()`. `memmove` is that of string.c, from an object of the kernel with the bytes
  -- `src`.
  unfoldable pub either_copyout :
      (memmove : (dst : ℕ) (src : ℕ → ℕ) (len : ℕ) → M V (Unit {0}))
      → (p : ℕ) (user_dst : Bool) (dst : ℕ) (src : ℕ → ℕ) (len : ℕ) → M (Kernel V) Bool
  either_copyout memmove p user_dst dst src len =
      if user_dst
      then (do q ← the p; on_vm (vm.copyout q.pagetable dst src len))
      else do on_vm (memmove dst src len); pure true

  -- `copyin` is that of vm.c, and `memmove` is between two places of memory.
  unfoldable pub either_copyin :
      (copyin : (pagetable dst srcva len : ℕ) → M V Bool)
      → (memmove : (dst src len : ℕ) → M V (Unit {0})) → (p dst : ℕ) (user_src : Bool) (src len : ℕ)
      → M (Kernel V) Bool
  either_copyin copyin memmove p dst user_src src len =
      if user_src
      then (do q ← the p; on_vm (copyin q.pagetable dst src len))
      else do on_vm (memmove dst src len); pure true

-- The lines of `procdump` from entry `i` on, with `count` entries left.
unfoldable pub procdump : (proc : ℕ → Proc) (count i : ℕ) → List Listing
procdump proc zero i = []
procdump proc (suc n) i =
    let q = proc i in
    let rest = procdump proc n (suc i) in
    if is_unused q.state
    then rest
    else record { pid = q.pid; state = state_name q.state; name = q.name } ∷ rest

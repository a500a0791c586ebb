-- ===== src/Lab4/ProcMemory/Stacks/Tests.antt =====
-- `procinit` of Lab4/kernel/proc.c for two processes.
use hitsz_os.Base.{ℕ, suc, ◌-◌, ◌*◌, refl, Bool, arith}
use hitsz_os.Base.Kernel.{Blames}
use hitsz_os.Lab4.PageTable.Tree.{lookup}
use hitsz_os.Lab4.KernelMemory.Tests.{qemu}
use hitsz_os.Lab4.UserMemory.Tests.{frames, frames-IsAllocator, bare, bare-IsTree, root_rank}
use hitsz_os.Lab4.ProcMemory.{Kernel}
use hitsz_os.Lab4.ProcMemory.Resize.Tests.{grower}
use hitsz_os.Lab4.ProcMemory.Console.{procinit}
use hitsz_os.Lab4.ProcMemory.Stacks.{NoPage, Stacks, procinit-Stacks}

-- KSTACK(i) is TRAMPOLINE - (i + 1) * 2 * PGSIZE.
abbrev stack_page : ℕ → ℕ
stack_page i = 67108863 - suc i * 2

abbrev at_boot : Kernel (ℕ → Bool)
at_boot = record { mem = bare; table = record { proc = λ i. grower; nextpid = 1; initproc = 0 } }

stacked_2 :
    Blames
      (λ _ t. Stacks frames at_boot 4096 stack_page 2 t)
      (NoPage frames 2 bare.alloc)
      (procinit frames qemu 4096 (λ i. stack_page i * 4096) 2 at_boot)
unfolding lookup
stacked_2 =
    procinit-Stacks frames qemu frames-IsAllocator (omega arith) (λ x. refl) at_boot
      (λ x free. ground arith) 4096 stack_page 2 (λ i j below below' same. omega arith)
      (λ i below. omega arith) (λ va i small below at. refl) root_rank bare-IsTree refl

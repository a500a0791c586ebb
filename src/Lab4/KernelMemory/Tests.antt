-- ===== src/Lab4/KernelMemory/Tests.antt =====
-- The memory layout of the qemu board, and `proc_kvminit` of Lab4/kernel/vm.c on it.
use hitsz_os.Base.{◌+◌, ◌*◌, ◌/◌, ◌^◌, ◌≡◌, refl, arith}
use hitsz_os.Base.Kernel.{Ends}
use hitsz_os.Lab4.PageTable.{Platform}
use hitsz_os.Lab4.KernelMemory.{proc_kvminit}
use hitsz_os.Lab4.KernelMemory.Regions.{MapsRegions}
use hitsz_os.Lab4.KernelMemory.Boot.{IsLayout, process_regions, proc_kvminit-MapsRegions}
use hitsz_os.Lab4.Tests.{first_free_15}
use hitsz_os.Lab4.UserMemory.Tests.{frames, frames-IsAllocator, bare, bare-IsTree, root_rank}

abbrev pub qemu : Platform
qemu = record {
  maxva = 2 ^ 38;
  pground_down = λ x. x / 4096 * 4096;
  pground_up = λ x. (x + 4095) / 4096 * 4096;
  uart0 = 268435456;
  virtio0 = 268439552;
  clint = 33554432;
  plic = 201326592;
  kernbase = 2147483648;
  etext = 2147516416;
  phystop = 2281701376;
  trampoline = 274877902848;
  trampoline_pa = 2147511296;
  trapframe = 274877898752;
}

pub qemu-IsLayout : IsLayout qemu
qemu-IsLayout = record {
  clint = (refl, omega arith);
  plic = (refl, omega arith);
  uart0 = (refl, omega arith);
  virtio0 = (refl, omega arith);
  text = (refl, omega arith);
  ram = (refl, omega arith);
  top = (refl, omega arith);
  trampoline = (refl, omega arith);
  trampoline_pa = omega arith;
  maxva = omega arith;
  down = λ x. refl;
}

boots :
    Ends
      (λ root t.
        (root ≡ (frames.take bare.alloc).0)
        × MapsRegions frames root_rank bare (process_regions qemu) root t)
      "proc_kvmmap"
      (proc_kvminit frames qemu bare)
boots =
    proc_kvminit-MapsRegions frames qemu qemu-IsLayout root_rank bare frames-IsAllocator bare-IsTree
      (omega (arith, first_free_15))

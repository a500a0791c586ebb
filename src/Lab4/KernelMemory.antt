-- ===== src/Lab4/KernelMemory.antt =====
-- Lab4/kernel/vm.c: kernel page tables, the copy of user mappings into them, and the print of a table.
pub mod Copy
pub mod Print
pub mod Regions
pub mod Boot
pub mod Tests
use hitsz_os.Base.{
  ℕ, zero, suc, ◌+◌, ◌-◌, ◌*◌, ◌/◌, ◌%◌, ◌^◌, Bool, true, false, Option, none, some, not, ◌&&◌, leb,
  ltb, ◌==◌, if◌then◌else◌, List, [], ◌∷◌, ◌++◌,
}
use hitsz_os.Base.Kernel.{M, pure, fail, ◌>>=◌, ◌>>◌}
use hitsz_os.Lab4.Memory.{
  page_size, Perm, Pte, is_table, Allocator, Memory, load_pte, store_pte, zero_page, kalloc,
}
use hitsz_os.Lab4.PageTable.{Platform, u64, given, PtePtr, walk, kvmmap, proc_kvmmap}

-- PTE_R | PTE_W and PTE_R | PTE_X
abbrev pub data_perm : Perm
data_perm = record { r = true; w = true; x = false; u = false; rest = 0 }

abbrev pub text_perm : Perm
text_perm = record { r = true; w = false; x = true; u = false; rest = 0 }

-- `(*pte) & ~(PTE_U)`
abbrev pub kernel_pte : Pte → Pte
kernel_pte e = record e { perm = record e.perm { u = false } }

module _ {A : Type 0} where
  -- The end of a round of `vmcopypage`: the entry at `pte` goes into the slot `kpte`.
  unfoldable pub copy_entry : (pte kpte : PtePtr) → M (Memory A) (Unit {0})
  copy_entry pte kpte =
      given pte
        (λ (p, i).
          given kpte (λ (q, j). do e ← load_pte p i; store_pte q j (kernel_pte e))
            (fail "vmcopypage"))
        (fail "vmcopypage")

module _ {A : Type 0} (al : Allocator A) (pl : Platform) where
  -- The result is the new `kernel_pagetable`.
  unfoldable pub kvminit : M (Memory A) ℕ
  kvminit = do
    kernel_pagetable ← kalloc al
    zero_page kernel_pagetable
    kvmmap al pl kernel_pagetable pl.uart0 pl.uart0 page_size data_perm
    kvmmap al pl kernel_pagetable pl.virtio0 pl.virtio0 page_size data_perm
    kvmmap al pl kernel_pagetable pl.clint pl.clint (2 ^ 16) data_perm
    kvmmap al pl kernel_pagetable pl.plic pl.plic (2 ^ 22) data_perm
    kvmmap al pl kernel_pagetable pl.kernbase pl.kernbase (u64 (pl.etext + 2 ^ 64 - pl.kernbase))
        text_perm
    kvmmap al pl kernel_pagetable pl.etext pl.etext (u64 (pl.phystop + 2 ^ 64 - pl.etext)) data_perm
    kvmmap al pl kernel_pagetable pl.trampoline pl.trampoline_pa page_size text_perm
    pure kernel_pagetable

  unfoldable pub proc_kvminit : M (Memory A) ℕ
  proc_kvminit = do
    proc_kernel_pagetable ← kalloc al
    zero_page proc_kernel_pagetable
    proc_kvmmap al pl proc_kernel_pagetable pl.uart0 pl.uart0 page_size data_perm
    proc_kvmmap al pl proc_kernel_pagetable pl.virtio0 pl.virtio0 page_size data_perm
    proc_kvmmap al pl proc_kernel_pagetable pl.plic pl.plic (2 ^ 22) data_perm
    proc_kvmmap al pl proc_kernel_pagetable pl.kernbase pl.kernbase
        (u64 (pl.etext + 2 ^ 64 - pl.kernbase)) text_perm
    proc_kvmmap al pl proc_kernel_pagetable pl.etext pl.etext (u64 (pl.phystop + 2 ^ 64 - pl.etext))
        data_perm
    proc_kvmmap al pl proc_kernel_pagetable pl.trampoline pl.trampoline_pa page_size text_perm
    pure proc_kernel_pagetable

  -- The loop of `vmcopypage`. Each round but the last grows `i` by a page, and above `maxva` the walk
  -- panics: `maxva / page_size + 2` rounds of fuel are enough.
  unfoldable pub vmcopy_loop : (fuel pagetable k_pagetable i stop : ℕ) → M (Memory A) (Unit {0})
  vmcopy_loop zero pagetable k_pagetable i stop = fail "out of fuel"
  vmcopy_loop (suc n) pagetable k_pagetable i stop = if not (ltb i stop) then pure tt else do
    pte ← walk al pl pagetable i false
    kpte ← walk al pl k_pagetable i true
    copy_entry pte kpte
    vmcopy_loop n pagetable k_pagetable (u64 (i + page_size)) stop

  unfoldable pub vmcopypage : (pagetable k_pagetable start sz : ℕ) → M (Memory A) (Unit {0})
  vmcopypage pagetable k_pagetable start sz =
      vmcopy_loop (pl.maxva / page_size + 2) pagetable k_pagetable start (u64 (start + sz))

-- A line of `vmprint`: how many `||` come first, then the index, the entry and the address in it.
pub record Line : Type 0 where
  pub bars : ℕ
  pub index : ℕ
  pub pte : Pte
  pub pa : ℕ

-- The lines for the entries from `i` on, where `below` gives the lines of a lower table.
unfoldable pub print_entries :
    (below : ℕ → List Line) (entries : ℕ → Pte) (depth count i : ℕ) → List Line
print_entries below entries depth zero i = []
print_entries below entries depth (suc n) i =
    let pte = entries i in
    let line : Line = record { bars = depth; index = i; pte = pte; pa = pte.pa } in
    let rest = print_entries below entries depth n (suc i) in
    if is_table pte then line ∷ below pte.pa ++ rest else if pte.valid then line ∷ rest else rest

-- `levels` is how deep the recursion may go. A page table has 3 levels.
unfoldable pub printwalk : (levels : ℕ) (tables : ℕ → ℕ → Pte) (pagetable depth : ℕ) → List Line
printwalk zero tables pagetable depth = []
printwalk (suc n) tables pagetable depth =
    print_entries (λ child. printwalk n tables child (suc depth)) (tables pagetable) depth 512 0

-- The lines that follow the first one.
unfoldable pub vmprint : (tables : ℕ → ℕ → Pte) (pagetable : ℕ) → List Line
vmprint tables pagetable = printwalk 3 tables pagetable 1

-- The `satp` of the running CPU is the root of its table: `kvminithart` and `proc_kvminithart` set it.
unfoldable pub test_pagetable : (satp kernel_pagetable : ℕ) → Bool
test_pagetable satp kernel_pagetable = not (satp == kernel_pagetable)

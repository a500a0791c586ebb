-- ===== src/Lab4/PageTable.antt =====
-- Lab4/kernel/vm.c: the walk through the three levels of a page table, and mappings.
pub mod Tree
pub mod Supply
pub mod Walk
pub mod Write
pub mod Access
pub mod Map
pub mod OnePage
pub mod Unmap
use hitsz_os.Base.{
  ℕ, zero, suc, ◌+◌, ◌-◌, ◌*◌, ◌/◌, ◌%◌, ◌^◌, Bool, true, false, Option, none, some, not, leb, ltb,
  ◌==◌, if◌then◌else◌,
}
use hitsz_os.Base.Kernel.{M, pure, fail, ◌>>=◌, ◌>>◌}
use hitsz_os.Lab4.Memory.{
  page_size, Perm, no_pte, leaf_pte, table_pte, only_valid, Allocator, Memory, load_pte, store_pte,
  zero_page, kalloc, kfree,
}

-- What riscv.h, memlayout.h and kernel.ld define.
pub record Platform : Type 0 where
  pub maxva : ℕ
  pub pground_down : ℕ → ℕ
  pub pground_up : ℕ → ℕ
  pub uart0 : ℕ
  pub virtio0 : ℕ
  pub clint : ℕ
  pub plic : ℕ
  pub kernbase : ℕ
  pub etext : ℕ
  pub phystop : ℕ
  pub trampoline : ℕ  -- TRAMPOLINE, the virtual address
  pub trampoline_pa : ℕ  -- the symbol `trampoline`
  pub trapframe : ℕ  -- TRAPFRAME

-- 9 bits of index for each level, above 12 bits of offset
abbrev pub px : (level va : ℕ) → ℕ
px level va = va / 2 ^ (12 + 9 * level) % 512

abbrev pub u64 : ℕ → ℕ
u64 n = n % 2 ^ 64

module _ {ℓ} {A : Type 0} {R : Type ℓ} where
  -- Goes on with `f` if there is a value, and with `m` if there is none.
  abbrev pub given : Option A → (A → R) → R → R
  given (some a) f m = f a
  given none f m = m

-- A pointer to an entry: the page and the index. 0 is `none`.
abbrev pub PtePtr : Type 0
PtePtr = Option (ℕ × ℕ)

module _ {A : Type 0} (al : Allocator A) where
  -- One round of the loop of `walk`: the next page-table page, made if `alloc` is set.
  unfoldable pub descend : (alloc : Bool) (p i : ℕ) → M (Memory A) (Option ℕ)
  descend alloc p i = do
    pte ← load_pte p i
    if pte.valid then pure (some pte.pa) else if not alloc then pure none else do
      c ← kalloc al
      if c == 0 then pure none else do zero_page c; store_pte p i (table_pte c); pure (some c)

  -- The loop, from `level` down.
  unfoldable pub walk_from : (level : ℕ) (alloc : Bool) (p va : ℕ) → M (Memory A) PtePtr
  walk_from zero alloc p va = pure (some (p, px 0 va))
  walk_from (suc k) alloc p va = do
    child ← descend alloc p (px (suc k) va)
    given child (λ c. walk_from k alloc c va) (pure none)

module _ {A : Type 0} (al : Allocator A) (pl : Platform) where
  unfoldable pub walk : (pagetable va : ℕ) (alloc : Bool) → M (Memory A) PtePtr
  walk pagetable va alloc =
      if leb pl.maxva va then fail "walk" else walk_from al 2 alloc pagetable va

  -- the physical address, or 0
  unfoldable pub walkaddr : (pagetable va : ℕ) → M (Memory A) ℕ
  walkaddr pagetable va = if leb pl.maxva va then pure 0 else do
    slot ← walk pagetable va false
    given slot
        (λ (p, i). do
          pte ← load_pte p i
          pure (if not pte.valid then 0 else if not pte.perm.u then 0 else pte.pa))
        (pure 0)

  -- The loop of `mappages`. Each round ends it or grows `a` by a page, and above `maxva` the walk
  -- panics: `maxva / page_size + 2` rounds of fuel are enough. The result tells 0 from -1.
  unfoldable pub map_loop : (fuel pagetable a last pa : ℕ) (perm : Perm) → M (Memory A) Bool
  map_loop zero pagetable a last pa perm = fail "out of fuel"
  map_loop (suc n) pagetable a last pa perm = do
    slot ← walk pagetable a true
    given slot
        (λ (p, i). do
          pte ← load_pte p i
          if pte.valid then fail "remap" else do
            store_pte p i (leaf_pte pa perm)
            if a == last
                then pure true
                else map_loop n pagetable (u64 (a + page_size)) last (u64 (pa + page_size)) perm)
        (pure false)

  unfoldable pub mappages : (pagetable va size pa : ℕ) (perm : Perm) → M (Memory A) Bool
  mappages pagetable va size pa perm =
      map_loop (pl.maxva / page_size + 2) pagetable (pl.pground_down va)
        (pl.pground_down (u64 (va + size + 2 ^ 64 - 1))) pa perm

  -- `kvmmap`, with `kernel_pagetable` as an argument, and `proc_kvmmap`, which differ in the message
  unfoldable pub kvmmap : (kernel_pagetable va pa sz : ℕ) (perm : Perm) → M (Memory A) (Unit {0})
  kvmmap kernel_pagetable va pa sz perm = do
    done ← mappages kernel_pagetable va sz pa perm
    if done then pure tt else fail "kvmmap"

  unfoldable pub proc_kvmmap : (pagetable va pa sz : ℕ) (perm : Perm) → M (Memory A) (Unit {0})
  proc_kvmmap pagetable va pa sz perm = do
    done ← mappages pagetable va sz pa perm
    if done then pure tt else fail "proc_kvmmap"

  unfoldable pub kvmpa : (kernel_pagetable va : ℕ) → M (Memory A) ℕ
  kvmpa kernel_pagetable va = do
    slot ← walk kernel_pagetable va false
    given slot
        (λ (p, i). do
          pte ← load_pte p i
          if not pte.valid then fail "kvmpa" else pure (u64 (pte.pa + va % page_size)))
        (fail "kvmpa")

  -- The loop of `uvmunmap`, with `n` rounds of fuel: at most one for each of the `npages` pages.
  unfoldable pub unmap_loop : (n pagetable a stop : ℕ) (do_free : Bool) → M (Memory A) (Unit {0})
  unmap_loop zero pagetable a stop do_free = pure tt
  unmap_loop (suc n) pagetable a stop do_free = if not (ltb a stop) then pure tt else do
    slot ← walk pagetable a false
    given slot
        (λ (p, i). do
          pte ← load_pte p i
          if not pte.valid
              then fail "uvmunmap: not mapped"
              else if only_valid pte
              then fail "uvmunmap: not a leaf"
              else do
                (if do_free then kfree al pte.pa else pure tt)
                store_pte p i no_pte
                unmap_loop n pagetable (u64 (a + page_size)) stop do_free)
        (fail "uvmunmap: walk")

  unfoldable pub uvmunmap : (pagetable va npages : ℕ) (do_free : Bool) → M (Memory A) (Unit {0})
  uvmunmap pagetable va npages do_free =
      if not (va % page_size == 0)
      then fail "uvmunmap: not aligned"
      else unmap_loop npages pagetable va (u64 (va + npages * page_size)) do_free

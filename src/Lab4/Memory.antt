-- ===== src/Lab4/Memory.antt =====
-- The memory that Lab4/kernel/vm.c works on: page-table pages, bytes, and the page allocator.
use hitsz_os.Base.{
  ℕ, ◌+◌, ◌*◌, ◌/◌, Bool, true, false, Option, none, some, not, ◌&&◌, ◌||◌, leb, ltb, ◌==◌,
  if◌then◌else◌,
}
use hitsz_os.Base.Kernel.{M, ok, panic, gets, modify}

abbrev pub page_size : ℕ
page_size = 4096

-- The permission bits of an entry. `rest` stands for the bits of PTE_FLAGS that vm.c does not name.
pub record Perm : Type 0 where
  pub r : Bool
  pub w : Bool
  pub x : Bool
  pub u : Bool
  pub rest : ℕ

-- An entry, taken apart: PTE2PA, PTE_V, and the other bits of PTE_FLAGS. PTE2PA has the low 12 bits 0.
pub record Pte : Type 0 where
  pub pa : ℕ
  pub valid : Bool
  pub perm : Perm

abbrev pub no_perm : Perm
no_perm = record { r = false; w = false; x = false; u = false; rest = 0 }

-- the entry 0
abbrev pub no_pte : Pte
no_pte = record { pa = 0; valid = false; perm = no_perm }

-- `PTE2PA(PA2PTE(pa))`: the low 12 bits are lost.
abbrev pub pte_addr : ℕ → ℕ
pte_addr pa = pa / 4096 * 4096

-- `PA2PTE(pa) | perm | PTE_V`
abbrev pub leaf_pte : ℕ → Perm → Pte
leaf_pte pa perm = record { pa = pte_addr pa; valid = true; perm = perm }

-- `PA2PTE(pa) | PTE_V`
abbrev pub table_pte : ℕ → Pte
table_pte pa = leaf_pte pa no_perm

-- `(pte & PTE_V) && (pte & (PTE_R|PTE_W|PTE_X)) == 0`
abbrev pub is_table : Pte → Bool
is_table e = e.valid && not (e.perm.r || e.perm.w || e.perm.x)

-- `PTE_FLAGS(pte) == PTE_V`
abbrev pub only_valid : Pte → Bool
only_valid e = e.valid && not (e.perm.r || e.perm.w || e.perm.x || e.perm.u) && e.perm.rest == 0

-- `kalloc` and `kfree`, which stand in a file of their own: `take` gives a page, or 0, `give` takes one
-- back, or refuses it by a panic, and `free` says which pages are free.
pub record Allocator (A : Type 0) : Type 0 where
  pub take : A → ℕ × A
  pub give : ℕ → A → Option A
  pub free : A → ℕ → Bool

-- `tables p i` is entry `i` of the page-table page at `p`.
pub record Memory (A : Type 0) : Type 0 where
  pub tables : ℕ → ℕ → Pte
  pub bytes : ℕ → ℕ
  pub alloc : A

-- `*pte = e`
abbrev pub write : (ℕ → ℕ → Pte) → (p i : ℕ) → Pte → ℕ → ℕ → Pte
write t p i e q j = if p == q && i == j then e else t q j

-- `memset(pa, 0, PGSIZE)`, on both views of the page
abbrev pub zero_table : (ℕ → ℕ → Pte) → ℕ → ℕ → ℕ → Pte
zero_table t pa q j = if pa == q then no_pte else t q j

abbrev pub zero_bytes : (ℕ → ℕ) → ℕ → ℕ → ℕ
zero_bytes f pa a = if leb pa a && ltb a (pa + page_size) then 0 else f a

module _ {A : Type 0} where
  abbrev pub load_pte : (p i : ℕ) → M (Memory A) Pte
  load_pte p i = gets (λ s. s.tables p i)

  abbrev pub store_pte : (p i : ℕ) → Pte → M (Memory A) (Unit {0})
  store_pte p i e = modify (λ s. record s { tables = write s.tables p i e })

  abbrev pub zero_page : ℕ → M (Memory A) (Unit {0})
  zero_page pa =
      modify (λ s. record s { tables = zero_table s.tables pa; bytes = zero_bytes s.bytes pa })

  abbrev pub kalloc : Allocator A → M (Memory A) ℕ
  kalloc al s = let (r, a) = al.take s.alloc in ok (r, record s { alloc = a })

  abbrev pub kfree : Allocator A → ℕ → M (Memory A) (Unit {0})
  kfree al pa s = elim (al.give pa s.alloc) [
    | none ↦ panic "kfree"
    | some a ↦ ok (tt, record s { alloc = a })
  ]

-- ===== src/Lab4/PageTable/Tree.antt =====
-- Page tables as trees in memory, and the translation that they stand for.
use hitsz_os.Base.{
  ℕ, zero, suc, ◌%◌, ◌≡◌, ◌≢◌, true, false, Option, none, some, not, ◌&&◌, arith, ◌==◌,
  if◌then◌else◌,
}
use hitsz_os.Base.Kernel.{update}
use hitsz_os.Lab4.Memory.{Pte, table_pte, Allocator, Memory, write, zero_table}
use hitsz_os.Lab4.PageTable.{px}

-- The slot for `va` below page `p` of level `k`, if all tables on the way are there.
unfoldable pub slot : (ℕ → ℕ → Pte) → (k p va : ℕ) → Option (ℕ × ℕ)
slot t zero p va = some (p, px 0 va)
slot t (suc k) p va = let e = t p (px (suc k) va) in if e.valid then slot t k e.pa va else none

-- The entry that translates `va`, if it is valid.
unfoldable pub lookup : (ℕ → ℕ → Pte) → (k p va : ℕ) → Option Pte
lookup t zero p va = let e = t p (px 0 va) in if e.valid then some e else none
lookup t (suc k) p va = let e = t p (px (suc k) va) in if e.valid then lookup t k e.pa va else none

-- Tables with another root than `root` translate as before.
abbrev pub OthersKept : (rank : ℕ → ℕ) (root : ℕ) (t t' : ℕ → ℕ → Pte) → Type 0
OthersKept rank root t t' = (p va : ℕ) → rank p ≡ 3 → p ≢ root → lookup t' 2 p va ≡ lookup t 2 p va

-- `rank p` is one more than the level of the page-table page `p`, and 0 for all other pages. Every
-- valid entry above level 0 leads to a page one level down, each page-table page hangs on one entry
-- only, and a free page is no page-table page.
pub record IsTree {A : Type 0} (al : Allocator A) (rank : ℕ → ℕ) (s : Memory A) : Type 0 where
  pub down :
      (k p i : ℕ)
      → rank p ≡ suc (suc k)
      → (s.tables p i).valid ≡ true
      → rank (s.tables p i).pa ≡ suc k
  pub once :
      (k p i q j : ℕ)
      → rank p ≡ suc (suc k)
      → rank q ≡ suc (suc k)
      → (s.tables p i).valid ≡ true
      → (s.tables q j).valid ≡ true
      → (s.tables p i).pa ≡ (s.tables q j).pa
      → (p ≡ q) × (i ≡ j)
  pub unfree : (p : ℕ) → al.free s.alloc p ≡ true → rank p ≡ 0
  pub zero_rank : rank 0 ≡ 0

-- What the code relies on of the allocator.
pub record IsAllocator {A : Type 0} (al : Allocator A) : Type 0 where
  pub taken : (a : A) → (al.take a).0 ≢ 0 → al.free a (al.take a).0 ≡ true
  pub aligned : (a : A) → (al.take a).0 % 4096 ≡ 0
  pub rest : (a : A) (x : ℕ) → al.free (al.take a).1 x ≡ (al.free a x && not ((al.take a).0 == x))

-- Where a page of rank `suc (suc k)` has an invalid entry, a zeroed page `c` is hung in.
abbrev pub hung : (ℕ → ℕ → Pte) → (p i c : ℕ) → ℕ → ℕ → Pte
hung t p i c = write (zero_table t c) p i (table_pte c)

module _ {A : Type 0} (al : Allocator A) (rank : ℕ → ℕ) (s : Memory A) (tree : IsTree al rank s)
    (p i c m : ℕ) (level : rank p ≡ suc (suc m)) (empty : (s.tables p i).valid ≡ false)
    (new : rank c ≡ 0) (whole : c % 4096 ≡ 0) where
  -- Below the new page nothing is mapped.
  lookup-new : (k va : ℕ) → lookup (hung s.tables p i c) k c va ≡ none
  unfolding lookup
  lookup-new zero va = ground arith
  lookup-new (suc k) va = ground arith

  -- No translation changes, in any table.
  pub lookup-hung :
      (k q va : ℕ) → rank q ≡ suc k → lookup (hung s.tables p i c) k q va ≡ lookup s.tables k q va
  unfolding lookup
  lookup-hung zero q va e = ground arith
  lookup-hung (suc k) q va e = ground (
    arith,
    lookup-new k va,
    lookup-hung k (s.tables q (px (suc k) va)).pa va,
    tree.down k q (px (suc k) va) e,
  )

  -- The page tables are a tree again, with `c` one level below `p`.
  pub hung-IsTree :
      IsAllocator al
      → al.free s.alloc c ≡ true
      → (a : A) → ((x : ℕ) → al.free a x ≡ (al.free s.alloc x && not (c == x)))
      → c ≢ 0
      → (b : ℕ → ℕ)
      → IsTree al
          (update rank c (suc m))
          (record { tables = hung s.tables p i c; bytes = b; alloc = a })
  hung-IsTree good free a rest ne b = record {
    down = λ k q j e v. ground (arith, tree.down k q j);
    once = λ k q j q' j' e e' v v' same.
        ground (arith, tree.once k q j q' j', tree.down k q j, tree.down k q' j');
    unfree = λ x f. ground (arith, tree.unfree x, rest x);
    zero_rank = ground (arith, tree.zero_rank);
  }

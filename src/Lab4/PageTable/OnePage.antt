-- ===== src/Lab4/PageTable/OnePage.antt =====
-- `mappages` of a single page.
use hitsz_os.Base.{ℕ, suc, ◌+◌, ◌*◌, ◌/◌, ◌^◌, ◌≡◌, ◌≤◌, ◌<◌, none, arith}
use mathlib.Core.Path.{subst}
use hitsz_os.Base.Kernel.{Returns}
use hitsz_os.Lab4.Memory.{page_size, Perm, Allocator, Memory}
use hitsz_os.Lab4.PageTable.{Platform, mappages}
use hitsz_os.Lab4.PageTable.Tree.{lookup, IsTree, IsAllocator}
use hitsz_os.Lab4.PageTable.Map.{Mapping, mappages-Mapping, span}

pub mappages_page :
    {A : Type 0} (al : Allocator A) (pl : Platform)
    → IsAllocator al
    → pl.maxva ≤ 2 ^ 39
    → ((x : ℕ) → pl.pground_down x ≡ x / 4096 * 4096)
    → (rank : ℕ → ℕ) (s : Memory A) → IsTree al rank s
    → (root : ℕ) → rank root ≡ 3
    → (k pa : ℕ) (perm : Perm) → suc k * 4096 ≤ pl.maxva
    → pa + 4096 ≤ 2 ^ 64
    → ((x : ℕ) → x < 2 ^ 39 → x / 4096 ≡ k → lookup s.tables 2 root x ≡ none)
    → Returns
        (Mapping al rank s root k 1 pa perm)
        (mappages al pl root (k * 4096) page_size pa perm s)
mappages_page al pl good bound down rank s tree root top k pa perm inside phys empty =
    let start : k * 4096 / 4096 ≡ k = omega arith in
    let one : span al pl good bound (k * 4096) 4096 ≡ 1 = omega arith in
    subst
      (λ n.
        Returns (Mapping al rank s root k n pa perm)
          (mappages al pl root (k * 4096) page_size pa perm s))
      one
      (subst
        (λ f.
          Returns (Mapping al rank s root f (span al pl good bound (k * 4096) 4096) pa perm)
            (mappages al pl root (k * 4096) page_size pa perm s))
        start
        (mappages-Mapping al pl good bound down rank s tree root top (k * 4096) 4096 pa perm
          (omega arith) (omega arith) (omega arith)
          (λ x below from to. empty x below (omega arith))))

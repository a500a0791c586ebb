-- ===== src/Lab4/UserMemory/Shrink.antt =====
-- `uvmdealloc` and `uvmclear`: what they take from a user.
use hitsz_os.Base.{
  ℕ, ◌+◌, ◌*◌, ◌/◌, ◌^◌, ◌-◌, ◌≡◌, ◌≤◌, ◌<◌, ◌∙◌, refl, Bool, true, false, some, arith, ◌==◌, leb,
  ltb, if◌then◌else◌, Bool-cases, Option-cases, inl, inr,
}
use mathlib.Core.Path.{subst}
use hitsz_os.Base.Kernel.{M, pure, fail, ◌>>=◌, bind-ok, Returns, returns, Returns-bind}
use hitsz_os.Lab4.Memory.{page_size, Pte, Allocator, Memory, load_pte, store_pte}
use hitsz_os.Lab4.PageTable.{Platform, walk_from, walk, uvmunmap, PtePtr, given}
use hitsz_os.Lab4.PageTable.Tree.{slot, lookup, IsTree, OthersKept}
use hitsz_os.Lab4.PageTable.Write.{lookup-slot, lookup-no_slot, slot-leaf, write-IsTree}
use hitsz_os.Lab4.PageTable.Access.{walk_from-read, lookup-store}
use hitsz_os.Lab4.PageTable.Unmap.{TakesBack, Unmapped, AllRemovable, uvmunmap-Unmapping}
use hitsz_os.Lab4.UserMemory.{int_to_u64, uvmdealloc, uvmclear}

module _ {A : Type 0} (al : Allocator A) (pl : Platform) (bound : pl.maxva ≤ 2 ^ 39) (rank : ℕ → ℕ)
    (root : ℕ) (top : rank root ≡ 3) where
  -- the number of the first page that does not hold one of the first `sz` bytes
  abbrev pub page_above : ℕ → ℕ
  page_above sz = (sz + 4095) / 4096

  module _ (page : ℕ → Bool) (good : TakesBack al page)
      (up : (x : ℕ) → pl.pground_up x ≡ page_above x * 4096) where
    -- `uvmdealloc` from a size of at most MAXVA, where the pages that only the old size reaches are leaves,
    -- each to a page that `kfree` takes and that is no page-table page, does not panic. It gives the smaller
    -- size. Those pages are unmapped and free, and no other page has become free. All other translations are
    -- as before, and the page tables are a tree.
    pub uvmdealloc-Unmapped :
        (s : Memory A)
        → IsTree al rank s
        → (oldsz newsz : ℕ) → page_above oldsz * 4096 ≤ pl.maxva
        → AllRemovable al page pl good bound rank root top true s
            (page_above newsz * 4096)
            (page_above oldsz - page_above newsz)
        → Returns
            (λ r t.
              (r ≡ (if leb oldsz newsz then oldsz else newsz))
              × IsTree al rank t
              × Unmapped al s root (page_above newsz) (page_above oldsz - page_above newsz) true t
              × OthersKept rank root s.tables t.tables)
            (uvmdealloc al pl root oldsz newsz s)
    unfolding uvmdealloc
    uvmdealloc-Unmapped s tree oldsz newsz inside all =
        let n = page_above oldsz - page_above newsz in
        let count : int_to_u64 ((page_above oldsz * 4096 - page_above newsz * 4096) / page_size)
            ≡ n =
          ground arith in
        let start : page_above newsz * 4096 / 4096 ≡ page_above newsz = omega arith in
        elim (Bool-cases (leb oldsz newsz)) [
          | inl grows ↦ rw grows (
              returns (
                refl,
                tree,
                nothing s (page_above newsz) n (ground arith),
                (λ p va three ne. refl),
              ))
          | inr shrinks ↦
              rw (shrinks, up newsz, up oldsz)
                (elim (Bool-cases (ltb (page_above newsz * 4096) (page_above oldsz * 4096))) [
                  | inr same ↦ rw same (
                      returns (
                        refl,
                        tree,
                        nothing s (page_above newsz) n (ground arith),
                        (λ p va three ne. refl),
                      ))
                  | inl fewer ↦
                      rw (fewer, count)
                        (Returns-bind (uvmunmap al pl root (page_above newsz * 4096) n true)
                          (λ _. pure newsz)
                          (uvmunmap-Unmapping al page pl good bound rank root top true s tree
                            (page_above newsz * 4096) n (omega arith) (ground arith) all)
                          (λ _ t (tree', gone, others). returns (
                            refl,
                            tree',
                            subst (λ f. Unmapped al s root f n true t) start gone,
                            others,
                          )))
                ])
        ]
      where
        nothing : (t : Memory A) (first n : ℕ) → n ≡ 0 → Unmapped al t root first n true t
        nothing t first n z = (
          (λ va below. ground arith),
          (λ y f. f),
          (λ va e below yes low high found. ground arith),
          (λ y f. inl f),
        )

  -- `uvmclear` of a mapped page below MAXVA takes the page from the user and changes no other translation:
  -- the page keeps its address and its other permissions.
  pub uvmclear_lem :
      (s : Memory A)
      → IsTree al rank s
      → (va : ℕ) (e : Pte) → va < pl.maxva
      → lookup s.tables 2 root va ≡ some e
      → Returns
          (λ _ t.
            IsTree al rank t
            × ((x : ℕ)
                → x < 2 ^ 39
                → lookup t.tables 2 root x ≡ (
                    if x / 4096 == va / 4096
                    then some (record e { perm = record e.perm { u = false } })
                    else lookup s.tables 2 root x)))
          (uvmclear al pl root va s)
  unfolding uvmclear walk
  uvmclear_lem s tree va e inside mapped =
      let (x, at) = found_slot in
      let same : s.tables x.0 x.1 ≡ e = ground (arith, lookup-slot s.tables 2 root va x.0 x.1 at) in
      let valid : e.valid ≡ true = ground (arith, lookup-slot s.tables 2 root va x.0 x.1 at) in
      let leaf = slot-leaf al rank s tree 2 root va x.0 x.1 top at in
      let cleared : Pte = record e { perm = record e.perm { u = false } } in
      let low : leb pl.maxva va ≡ false = ground arith in
      rw low (
        rw (bind-ok (walk_from al 2 false root va) clear_rest (walk_from-read al 2 root va s)) (
          rw (at, same)
            (returns (
              write-IsTree al rank s tree x.0 x.1 cleared leaf,
              (λ y below.
                  lookup-store al rank s tree root top va x.0 x.1 cleared at leaf (omega arith) y
                    below
                  ∙ rw valid refl),
            ))))
    where
      clear_rest : PtePtr → M (Memory A) (Unit {0})
      clear_rest found =
          given found
            (λ (p, i). do
              pte ← load_pte p i
              store_pte p i (record pte { perm = record pte.perm { u = false } }))
            (fail "uvmclear")

      found_slot : (x : ℕ × ℕ) × (slot s.tables 2 root va ≡ some x)
      found_slot = elim (Option-cases (slot s.tables 2 root va)) [
        | inl missing ↦ ground (arith, lookup-no_slot s.tables 2 root va missing, mapped)
        | inr found ↦ found
      ]

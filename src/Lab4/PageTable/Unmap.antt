-- ===== src/Lab4/PageTable/Unmap.antt =====
-- `uvmunmap`: what it takes out of the page tables and what it gives back to the allocator.
use hitsz_os.Base.{
  ℕ, zero, suc, ◌+◌, ◌*◌, ◌/◌, ◌%◌, ◌^◌, ◌≡◌, ◌≢◌, ◌≤◌, ◌<◌, ◌∙◌, refl, Bool, true, false, none,
  some, not, ◌&&◌, ◌||◌, arith, ◌==◌, leb, ltb, if◌then◌else◌, Option-cases, inl, inr, ◌⊎◌,
  Bool-cases, ==_iff,
}
use hitsz_os.Base.Kernel.{M, ok, pure, fail, ◌>>=◌, ◌>>◌, bind-ok, Returns, returns, Returns-mono}
use hitsz_os.Lab4.Memory.{
  page_size, Pte, no_pte, only_valid, Allocator, Memory, write, load_pte, store_pte, kfree,
}
use hitsz_os.Lab4.PageTable.{Platform, u64, given, PtePtr, walk_from, walk, unmap_loop, uvmunmap}
use hitsz_os.Lab4.PageTable.Tree.{slot, lookup, IsTree, OthersKept}
use hitsz_os.Lab4.PageTable.Write.{lookup-slot, lookup-no_slot, write-IsTree, slot-leaf}
use hitsz_os.Lab4.PageTable.Access.{walk_from-read, lookup-store, lookup-store_other, lookup-page}

-- What the code relies on of `kfree`: it takes back the pages that pass `page`.
pub record TakesBack {A : Type 0} (al : Allocator A) (page : ℕ → Bool) : Type 0 where
  pub back :
      (x : ℕ) (a : A)
      → page x ≡ true
      → (a' : A) × (al.give x a ≡ some a') × ((y : ℕ) → al.free a' y ≡ (x == y || al.free a y))

module _ {A : Type 0} (al : Allocator A) where
  -- `va` lies in the range and leads to the page at `y`.
  abbrev pub LedTo : Memory A → (root first n y : ℕ) → Type 0
  LedTo s root first n y =
      (va : ℕ) × (e : Pte) × (va < 2 ^ 39)
      × (first ≤ va / 4096)
      × (va / 4096 < first + n)
      × (lookup s.tables 2 root va ≡ some e)
      × (e.pa ≡ y)

  -- The `n` pages from page `first` on are unmapped, and all other translations have stayed. With
  -- `do_free` their physical pages are free. No other page has become free.
  abbrev pub Unmapped : Memory A → (root first n : ℕ) (do_free : Bool) → Memory A → Type 0
  Unmapped s root first n do_free t =
      ((va : ℕ)
        → va < 2 ^ 39
        → lookup t.tables 2 root va ≡ (
            if leb first (va / 4096) && ltb (va / 4096) (first + n)
            then none
            else lookup s.tables 2 root va))
      × ((y : ℕ) → al.free s.alloc y ≡ true → al.free t.alloc y ≡ true)
      × ((va : ℕ) (e : Pte)
          → va < 2 ^ 39
          → do_free ≡ true
          → first ≤ va / 4096
          → va / 4096 < first + n
          → lookup s.tables 2 root va ≡ some e
          → al.free t.alloc e.pa ≡ true)
      × ((y : ℕ)
          → al.free t.alloc y ≡ true
          → (al.free s.alloc y ≡ true) ⊎ ((do_free ≡ true) × LedTo s root first n y))

  module _ (page : ℕ → Bool) where
    -- The page of an address that may be unmapped: a leaf, and with `do_free` a page of memory that is no
    -- page-table page.
    abbrev pub Removable : (rank : ℕ → ℕ) (do_free : Bool) → Pte → Type 0
    Removable rank do_free e =
        (e.valid ≡ true)
        × (only_valid e ≡ false)
        × (do_free ≡ true → (page e.pa ≡ true) × (rank e.pa ≡ 0))

    abbrev Released : (rank : ℕ → ℕ) (do_free : Bool) → Pte → Memory A → Type 0
    Released rank do_free e t =
        (a : A) × ((if do_free then kfree al e.pa else pure tt) t ≡ ok (tt, record t { alloc = a }))
        × ((y : ℕ) → rank y ≢ 0 → al.free a y ≡ true → al.free t.alloc y ≡ true)
        × ((y : ℕ) → al.free t.alloc y ≡ true → al.free a y ≡ true)
        × (do_free ≡ true → al.free a e.pa ≡ true)
        × ((y : ℕ)
            → al.free a y ≡ true
            → (al.free t.alloc y ≡ true) ⊎ ((do_free ≡ true) × (e.pa ≡ y)))

    released :
        TakesBack al page
        → (rank : ℕ → ℕ) (do_free : Bool) (e : Pte) (t : Memory A) → Removable rank do_free e
        → Released rank do_free e t
    released good rank false e t ok_entry =
        (t.alloc, refl, (λ y ne f. f), (λ y f. f), (λ no. ground (arith, no)), (λ y f. inl f))
    released good rank true e t (v, leaf, returnable) =
        let (a, given_back, free) = good.back e.pa t.alloc (returnable refl).0 in
        (
          a,
          rw (given_back, kfree) refl,
          (λ y ne f. ground (arith, free y, (returnable refl).1)),
          (λ y f. ground (arith, free y)),
          (λ yes. ground (arith, free e.pa)),
          (λ y f. elim (Bool-cases (e.pa == y)) [
            | inl same ↦ inr (refl, (==_iff e.pa y).0 same)
            | inr other ↦ inl (ground (arith, free y))
          ]),
        )

    -- the part of a round behind the walk
    abbrev unmap_rest :
        Platform → (n root a stop : ℕ) (do_free : Bool) → PtePtr → M (Memory A) (Unit {0})
    unmap_rest pl n root a stop do_free found =
        given found
          (λ (p, i). do
            pte ← load_pte p i
            if not pte.valid
                then fail "uvmunmap: not mapped"
                else if only_valid pte
                then fail "uvmunmap: not a leaf"
                else do
                  (if do_free then kfree al pte.pa else pure tt)
                  store_pte p i no_pte
                  unmap_loop al pl n root (u64 (a + page_size)) stop do_free)
          (fail "uvmunmap: walk")

    module _ (pl : Platform) (good : TakesBack al page) (bound : pl.maxva ≤ 2 ^ 39) (rank : ℕ → ℕ)
        (root : ℕ) (top : rank root ≡ 3) (do_free : Bool) where
      abbrev pub AllRemovable : Memory A → (a n : ℕ) → Type 0
      AllRemovable s a n =
          (va : ℕ)
          → va < 2 ^ 39
          → a ≤ va
          → va < a + n * 4096
          → (e : Pte) × (lookup s.tables 2 root va ≡ some e) × Removable rank do_free e

      abbrev Unmapping : Memory A → (first n : ℕ) → Unit {0} → Memory A → Type 0
      Unmapping s first n _ t =
          IsTree al rank t
          × Unmapped s root first n do_free t
          × OthersKept rank root s.tables t.tables

      Unmapped-more :
          (s t u : Memory A) (a n : ℕ) (e : Pte)
          → a % 4096 ≡ 0
          → ((va : ℕ)
              → va < 2 ^ 39
              → lookup t.tables 2 root va
                ≡ (if va / 4096 == a / 4096 then none else lookup s.tables 2 root va))
          → ((y : ℕ) → al.free s.alloc y ≡ true → al.free t.alloc y ≡ true)
          → (do_free ≡ true → al.free t.alloc e.pa ≡ true)
          → ((va : ℕ) → va < 2 ^ 39 → va / 4096 ≡ a / 4096 → lookup s.tables 2 root va ≡ some e)
          → ((y : ℕ)
              → al.free t.alloc y ≡ true
              → (al.free s.alloc y ≡ true) ⊎ ((do_free ≡ true) × (e.pa ≡ y)))
          → a < 2 ^ 39
          → Unmapped t root ((a + 4096) / 4096) n do_free u
          → Unmapped s root (a / 4096) (suc n) do_free u
      Unmapped-more s t u a n e aligned one stays now at one_more small
            (gone, kept, given_back, no_more) =
          (
            (λ va below. ground (arith, one va, gone va)),
            (λ y f. kept y (stays y f)),
            (λ va e' below yes low high found. ground (
              arith,
              now yes,
              kept e'.pa,
              at va below,
              one va below,
              given_back va e' below yes,
            )),
            (λ y f. elim (no_more y f) [
              | inr (frees, (va, e', below, low, high, found, same)) ↦ inr (
                frees,
                (
                  va,
                  e',
                  below,
                  omega arith,
                  omega arith,
                  ground (arith, one va below, found),
                  same,
                ),
              )
              | inl earlier ↦ elim (one_more y earlier) [
                | inl before ↦ inl before
                | inr (frees, same) ↦
                    inr (frees, (a, e, small, omega arith, omega arith, at a small refl, same))
              ]
            ]),
          )

      -- the slot of a mapped address
      entry :
          (s : Memory A)
          → IsTree al rank s
          → (a : ℕ) (e : Pte) → lookup s.tables 2 root a ≡ some e
          → (q : ℕ) × (i : ℕ) × (slot s.tables 2 root a ≡ some (q, i))
            × (rank q ≡ 1)
            × (s.tables q i ≡ e)
      entry s tree a e found = elim (Option-cases (slot s.tables 2 root a)) [
        | inl missing ↦ ground (arith, lookup-no_slot s.tables 2 root a missing)
        | inr ((q, i), at) ↦ (
          q,
          i,
          at,
          slot-leaf al rank s tree 2 root a q i top at,
          ground (arith, lookup-slot s.tables 2 root a q i at),
        )
      ]

      unmap_loop-Unmapping :
          (n a : ℕ) (s : Memory A)
          → IsTree al rank s
          → a % 4096 ≡ 0
          → a + n * 4096 ≤ pl.maxva
          → AllRemovable s a n
          → Returns (Unmapping s (a / 4096) n) (unmap_loop al pl n root a (a + n * 4096) do_free s)
      unfolding unmap_loop walk
      unmap_loop-Unmapping zero a s tree aligned inside all = returns (
        tree,
        (
          (λ va below. ground arith),
          (λ y f. f),
          (λ va e below yes low high found. ground arith),
          (λ y f. inl f),
        ),
        (λ p va three ne. refl),
      )
      unmap_loop-Unmapping (suc n) a s tree aligned inside all =
          let (e, found, removable) = all a (omega arith) (omega arith) (omega arith) in
          let (q, i, at, leaf, is_e) = entry s tree a e found in
          let below : leb pl.maxva a ≡ false = ground arith in
          let more : not (ltb a (a + suc n * 4096)) ≡ false = ground arith in
          let read = walk_from-read al 2 root a s in
          rw more (
            rw below (
              rw
                (bind-ok (walk_from al 2 false root a)
                  (unmap_rest pl n root a (a + suc n * 4096) do_free) read)
                (rw at (
                  rw is_e (
                    removed e found removable q i at leaf (released good rank do_free e s removable)
                      (unmap_loop-Unmapping n (a + 4096)))))))
        where
          removed :
              (e : Pte)
              → lookup s.tables 2 root a ≡ some e
              → Removable rank do_free e
              → (q i : ℕ) → slot s.tables 2 root a ≡ some (q, i)
              → rank q ≡ 1
              → Released rank do_free e s
              → ((u : Memory A)
                  → IsTree al rank u
                  → (a + 4096) % 4096 ≡ 0
                  → a + 4096 + n * 4096 ≤ pl.maxva
                  → AllRemovable u (a + 4096) n
                  → Returns
                      (Unmapping u ((a + 4096) / 4096) n)
                      (unmap_loop al pl n root (a + 4096) (a + 4096 + n * 4096) do_free u))
              → Returns (Unmapping s (a / 4096) (suc n)) (
                  (if not e.valid
                      then fail "uvmunmap: not mapped"
                      else if only_valid e
                      then fail "uvmunmap: not a leaf"
                      else do
                        (if do_free then kfree al e.pa else pure tt)
                        store_pte q i no_pte
                        unmap_loop al pl n root (u64 (a + page_size)) (a + suc n * 4096) do_free)
                    s)
          removed e found removable q i at leaf (alloc, done, no_table, kept, now, one_more)
                rounds =
              let up : u64 (a + page_size) ≡ a + 4096 = omega arith in
              let same_stop : a + suc n * 4096 ≡ a + 4096 + n * 4096 = omega arith in
              rw removable.1 (
                rw removable.0 (
                  rw
                    (bind-ok (if do_free then kfree al e.pa else pure tt)
                      (λ _. do
                        store_pte q i no_pte
                        unmap_loop al pl n root (u64 (a + page_size)) (a + suc n * 4096) do_free)
                      done)
                    (rw up (
                      rw same_stop (
                        Returns-mono (rounds u u-IsTree (omega arith) (omega arith) rest)
                          (λ _ v (tree', gone, others). (
                            tree',
                            Unmapped-more s u v a n e aligned one kept now whole one_more
                                (omega arith) gone,
                            (λ p va three ne.
                                others p va three ne
                                ∙ lookup-store_other al rank s tree root top p three ne a q i no_pte
                                    at leaf va),
                          )))))))
            where
              u : Memory A
              u = record s { tables = write s.tables q i no_pte; alloc = alloc }

              u-IsTree :
                  IsTree al rank (record s { tables = write s.tables q i no_pte; alloc = alloc })
              u-IsTree =
                  let t = write-IsTree al rank s tree q i no_pte leaf in
                  record {
                    down = t.down;
                    once = t.once;
                    unfree = λ y f. ground (arith, no_table y, tree.unfree y);
                    zero_rank = t.zero_rank;
                  }

              one :
                  (va : ℕ)
                  → va < 2 ^ 39
                  → lookup (write s.tables q i no_pte) 2 root va
                    ≡ (if va / 4096 == a / 4096 then none else lookup s.tables 2 root va)
              one = lookup-store al rank s tree root top a q i no_pte at leaf (omega arith)

              whole :
                  (va : ℕ) → va < 2 ^ 39 → va / 4096 ≡ a / 4096 → lookup s.tables 2 root va ≡ some e
              whole va below same = lookup-page s.tables root va a same ∙ found

              rest :
                  AllRemovable
                    (record s { tables = write s.tables q i no_pte; alloc = alloc })
                    (a + 4096)
                    n
              rest va below low high =
                  let (e', found, removable') = all va below (omega arith) (omega arith) in
                  (e', ground (arith, one va below, found), removable')

      -- `uvmunmap` of an aligned range below MAXVA, each page of which is mapped by a leaf (with do_free,
      -- to a page that `kfree` takes and that is no page-table page), does not panic. Afterwards the range
      -- is not mapped, every other translation, of this and of other tables, is as before, the page tables are a tree, free pages have
      -- stayed free, and with do_free every page that the range led to is free. No other page has become free.
      pub uvmunmap-Unmapping :
          (s : Memory A)
          → IsTree al rank s
          → (va npages : ℕ) → va % 4096 ≡ 0
          → va + npages * 4096 ≤ pl.maxva
          → AllRemovable s va npages
          → Returns (Unmapping s (va / 4096) npages) (uvmunmap al pl root va npages do_free s)
      unfolding uvmunmap
      uvmunmap-Unmapping s tree va npages aligned inside all =
          let stop : u64 (va + npages * page_size) ≡ va + npages * 4096 = omega arith in
          rw aligned (rw stop (unmap_loop-Unmapping npages va s tree aligned inside all))

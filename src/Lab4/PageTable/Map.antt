-- ===== src/Lab4/PageTable/Map.antt =====
-- What `mappages` makes of a range of pages.
use hitsz_os.Base.{
  ℕ, zero, suc, ◌+◌, ◌*◌, ◌/◌, ◌%◌, ◌^◌, ◌-◌, ◌≡◌, ◌≢◌, ◌≤◌, ◌<◌, ◌∙◌, refl, Bool, true, false,
  none, some, ◌&&◌, arith, ◌==◌, leb, ltb, if◌then◌else◌, inl, inr,
}
use mathlib.Core.Path.{subst}
use hitsz_os.Base.Kernel.{M, pure, fail, ◌>>=◌, ◌>>◌, Returns, returns, Returns-bind, Returns-mono}
use hitsz_os.Lab4.Memory.{page_size, Perm, leaf_pte, Allocator, Memory, write, load_pte, store_pte}
use hitsz_os.Lab4.PageTable.{Platform, px, u64, given, PtePtr, walk_from, walk, map_loop, mappages}
use hitsz_os.Lab4.PageTable.Supply.{Supply, Supplied, Supplied-more, Supply-mono, cannot_more}
use hitsz_os.Lab4.PageTable.Tree.{slot, lookup, IsTree, IsAllocator, OthersKept}
use hitsz_os.Lab4.PageTable.Walk.{Drew, Drew-trans, Found, walk_from-Found}
use hitsz_os.Lab4.PageTable.Write.{lookup-slot, write-IsTree}
use hitsz_os.Lab4.PageTable.Access.{lookup-store, lookup-store_other}

module _ {A : Type 0} (al : Allocator A) where
  -- From `s` to `t`, the `n` pages from page `first` on are mapped to the pages from `pa` on. All
  -- other translations have stayed.
  abbrev pub Mapped : Memory A → (root first n pa : ℕ) → Perm → Memory A → Type 0
  Mapped s root first n pa perm t =
      (va : ℕ)
      → va < 2 ^ 39
      → lookup t.tables 2 root va ≡ (
          if leb first (va / 4096) && ltb (va / 4096) (first + n)
          then some (leaf_pte (pa + (va / 4096 - first) * 4096) perm)
          else lookup s.tables 2 root va)

  -- The result tells whether all `n` pages are mapped. If not, the first `m` are, and the allocator could
  -- not give two pages for each of the `n`.
  abbrev pub Mapping : (ℕ → ℕ) → Memory A → (root first n pa : ℕ) → Perm → Bool → Memory A → Type 0
  Mapping rank s root first n pa perm r t =
      (rank' : ℕ → ℕ) × IsTree al rank' t
      × (rank' root ≡ 3)
      × Drew al rank s.alloc s.bytes rank' t.alloc t.bytes
      × ((q : ℕ) → rank q ≢ 0 → rank' q ≡ rank q)
      × OthersKept rank root s.tables t.tables
      × ((m : ℕ) × Mapped s root first m pa perm t × (if r then m ≡ n else m < n))
      × Supplied al (2 * n) r s.alloc t.alloc

  -- One page, and then the rest.
  Mapped-more :
      (s t u : Memory A) (root a n pa : ℕ) (perm : Perm)
      → a % 4096 ≡ 0
      → ((va : ℕ)
          → va < 2 ^ 39
          → lookup t.tables 2 root va ≡ (
              if va / 4096 == a / 4096 then some (leaf_pte pa perm) else lookup s.tables 2 root va))
      → Mapped t root ((a + 4096) / 4096) n (pa + 4096) perm u
      → Mapped s root (a / 4096) (suc n) pa perm u
  Mapped-more s t u root a n pa perm aligned one more va below = ground (arith, one va, more va)

  module _ (pl : Platform) (good : IsAllocator al) (bound : pl.maxva ≤ 2 ^ 39) where
    -- the part of a round behind the walk
    abbrev map_rest : (fuel root a last pa : ℕ) → Perm → PtePtr → M (Memory A) Bool
    map_rest fuel root a last pa perm found =
        given found
          (λ (p, i). do
            pte ← load_pte p i
            if pte.valid then fail "remap" else do
              store_pte p i (leaf_pte pa perm)
              if a == last
                  then pure true
                  else map_loop al pl fuel root (u64 (a + page_size)) last (u64 (pa + page_size))
                      perm)
          (pure false)

    -- the rounds that follow
    abbrev Rounds : (fuel root : ℕ) → Perm → Type 0
    Rounds fuel root perm =
        (rank : ℕ → ℕ) (s : Memory A)
        → IsTree al rank s
        → rank root ≡ 3
        → (n a pa : ℕ) → n < fuel
        → a % 4096 ≡ 0
        → a + n * 4096 < pl.maxva
        → pa + n * 4096 < 2 ^ 64
        → ((va : ℕ)
            → va < 2 ^ 39
            → a ≤ va
            → va < a + suc n * 4096
            → lookup s.tables 2 root va ≡ none)
        → Returns (Mapping rank s root (a / 4096) (suc n) pa perm)
            (map_loop al pl fuel root a (a + n * 4096) pa perm s)

    module _ (fuel root : ℕ) (perm : Perm) (rounds : Rounds fuel root perm) (s : Memory A) where
      -- One page is stored.
      stored :
          (rank0 rank : ℕ → ℕ) (t : Memory A)
          → Drew al rank0 s.alloc s.bytes rank t.alloc t.bytes
          → ((q : ℕ) → rank0 q ≢ 0 → rank q ≡ rank0 q)
          → OthersKept rank0 root s.tables t.tables
          → IsTree al rank t
          → rank root ≡ 3
          → (n a pa q i : ℕ) → n < suc fuel
          → a % 4096 ≡ 0
          → a + n * 4096 < pl.maxva
          → pa + n * 4096 < 2 ^ 64
          → ((va : ℕ) → va < 2 ^ 39 → lookup t.tables 2 root va ≡ lookup s.tables 2 root va)
          → ((va : ℕ)
              → va < 2 ^ 39
              → a ≤ va
              → va < a + suc n * 4096
              → lookup s.tables 2 root va ≡ none)
          → slot t.tables 2 root a ≡ some (q, i)
          → rank q ≡ 1
          → Supply al 2 s.alloc t.alloc
          → Returns
              (Mapping rank0 s root (a / 4096) (suc n) pa perm)
              (map_rest fuel root a (a + n * 4096) pa perm (some (q, i)) t)
      stored rank0 rank t drew keeps others tree top n a pa q i enough aligned inside phys same
            empty at leaf supply =
          rw vacant (go n enough inside phys empty)
        where
          vacant : (t.tables q i).valid ≡ false
          vacant = ground (arith, lookup-slot t.tables 2 root a q i at, same a, empty a)

          u : Memory A
          u = record t { tables = write t.tables q i (leaf_pte pa perm) }

          one :
              (va : ℕ)
              → va < 2 ^ 39
              → lookup (write t.tables q i (leaf_pte pa perm)) 2 root va ≡ (
                  if va / 4096 == a / 4096
                  then some (leaf_pte pa perm)
                  else lookup s.tables 2 root va)
          one va below = ground (
            arith,
            lookup-store al rank t tree root top a q i (leaf_pte pa perm) at leaf (omega arith) va
                below,
            same va below,
          )

          other_tables : OthersKept rank0 root s.tables (write t.tables q i (leaf_pte pa perm))
          other_tables p va three ne =
              lookup-store_other al rank t tree root top p (keeps p (ground arith) ∙ three) ne a q i
                (leaf_pte pa perm) at leaf va
              ∙ others p va three ne

          go :
              (n : ℕ)
              → n < suc fuel
              → a + n * 4096 < pl.maxva
              → pa + n * 4096 < 2 ^ 64
              → ((va : ℕ)
                  → va < 2 ^ 39
                  → a ≤ va
                  → va < a + suc n * 4096
                  → lookup s.tables 2 root va ≡ none)
              → Returns (Mapping rank0 s root (a / 4096) (suc n) pa perm) (
                  (if a == a + n * 4096
                      then pure true
                      else map_loop al pl fuel root
                          (u64 (a + page_size))
                          (a + n * 4096)
                          (u64 (pa + page_size))
                          perm)
                    (record t { tables = write t.tables q i (leaf_pte pa perm) }))
          go zero enough inside phys empty =
              let self : (a == a + 0 * 4096) ≡ true = ground arith in
              rw self (
                returns (
                  rank,
                  write-IsTree al rank t tree q i (leaf_pte pa perm) leaf,
                  top,
                  drew,
                  keeps,
                  other_tables,
                  (
                    1,
                    Mapped-more s u u root a 0 pa perm aligned one (λ va below. ground arith),
                    refl,
                  ),
                  Supply-mono al 2 (2 * 1) s.alloc t.alloc (omega arith) supply,
                ))
          go (suc n) enough inside phys empty =
              let differs : (a == a + suc n * 4096) ≡ false = ground arith in
              let up : u64 (a + page_size) ≡ a + 4096 = omega arith in
              let phys_up : u64 (pa + page_size) ≡ pa + 4096 = omega arith in
              let same_last : a + suc n * 4096 ≡ a + 4096 + n * 4096 = omega arith in
              rw differs (
                rw up (
                  rw phys_up (
                    rw same_last (
                      Returns-mono
                        (rounds rank u (write-IsTree al rank t tree q i (leaf_pte pa perm) leaf) top
                          n (a + 4096) (pa + 4096) (omega arith) (omega arith) (omega arith)
                          (omega arith)
                          (λ va below low high. ground (arith, one va below, empty va below)))
                        (λ r v
                            (rank', tree', top', drew', keeps', others', (m, mapped, e), supplied).
                          (
                            rank',
                            tree',
                            top',
                            Drew-trans keeps' drew drew',
                            (λ q ne. ground (arith, keeps q, keeps' q)),
                            (λ p va three ne.
                                others' p va (keeps p (ground arith) ∙ three) ne
                                ∙ other_tables p va three ne),
                            (
                              suc m,
                              Mapped-more s u v root a m pa perm aligned one mapped,
                              ground arith,
                            ),
                            subst (λ k. Supplied al k r s.alloc v.alloc) {x = 2 + 2 * suc n}
                                (omega arith)
                                (Supplied-more al 2 (2 * suc n) r s.alloc t.alloc v.alloc supply
                                  supplied),
                          ))))))

    pub map_loop-Mapping : (fuel root : ℕ) (perm : Perm) → Rounds fuel root perm
    unfolding map_loop walk
    map_loop-Mapping zero root perm rank s tree top n a pa enough aligned inside phys empty =
        ground arith
    map_loop-Mapping (suc fuel) root perm rank s tree top n a pa enough aligned inside phys empty =
        rw outside_lem (
          Returns-bind (walk_from al 2 true root a) (map_rest fuel root a (a + n * 4096) pa perm)
            (walk_from-Found al good rank s 2 root a tree top)
            (λ r t d. next r t d (map_loop-Mapping fuel root perm)))
      where
        outside_lem : leb pl.maxva a ≡ false
        outside_lem = ground arith

        next :
            (r : PtePtr) (t : Memory A)
            → Found al good rank s 2 root a r t
            → Rounds fuel root perm
            → Returns
                (Mapping rank s root (a / 4096) (suc n) pa perm)
                (map_rest fuel root a (a + n * 4096) pa perm r t)
        next r t (rank', g, inl (e, cannot)) rounds = rw e (
            returns (
              rank',
              g.tree,
              g.keeps root (ground (arith, top)) ∙ top,
              g.drew,
              g.keeps,
              (λ p va three ne. g.same 2 p va three),
              (0, (λ va below. ground (arith, g.same 2 root va top)), ground arith),
              cannot_more al 2 (2 * suc n) s.alloc (omega arith) cannot,
            ))
        next r t (rank', g, inr (q, e, at, leaf, supply)) rounds = rw e (
            stored fuel root perm rounds s rank rank' t g.drew g.keeps
              (λ p va three ne. g.same 2 p va three) g.tree
              (g.keeps root (ground (arith, top)) ∙ top) n a pa q (px 0 a) enough aligned inside
              phys (λ va below. g.same 2 root va top) empty (at ∙ e) leaf supply)

    -- the pages that `va`, ..., `va + size - 1` touch
    abbrev pub span : (va size : ℕ) → ℕ
    span va size = suc ((va + size - 1) / 4096 - va / 4096)

    -- `mappages` on a tree of page tables, where the range is not empty, ends below MAXVA, and none of
    -- its pages is mapped, does not panic and ends within its fuel. If it gives 0, each page of the range
    -- leads to its page of the physical range, with the permissions asked for: an entry keeps the address of
    -- the page in which the physical address lies. If it gives -1, this holds
    -- of the first m pages, m below their number, and the allocator could not give two pages for each page
    -- of the range, one after the other. In both cases no other translation has changed, the
    -- page tables are a tree again, and the only pages that are no longer free are page-table pages, and no byte
    -- outside the free pages has changed.
    pub mappages-Mapping :
        ((x : ℕ) → pl.pground_down x ≡ x / 4096 * 4096)
        → (rank : ℕ → ℕ) (s : Memory A) → IsTree al rank s
        → (root : ℕ) → rank root ≡ 3
        → (va size pa : ℕ) (perm : Perm) → 0 < size
        → va + size ≤ pl.maxva
        → pa + span va size * 4096 ≤ 2 ^ 64
        → ((x : ℕ)
            → x < 2 ^ 39
            → va / 4096 ≤ x / 4096
            → x / 4096 ≤ (va + size - 1) / 4096
            → lookup s.tables 2 root x ≡ none)
        → Returns
            (Mapping rank s root (va / 4096) (span va size) pa perm)
            (mappages al pl root va size pa perm s)
    unfolding mappages
    mappages-Mapping down rank s tree root top va size pa perm some_size inside phys empty =
        let n = (va + size - 1) / 4096 - va / 4096 in
        let first : pl.pground_down va ≡ va / 4096 * 4096 = down va in
        let last : pl.pground_down (u64 (va + size + 2 ^ 64 - 1)) ≡ va / 4096 * 4096 + n * 4096 =
          down (u64 (va + size + 2 ^ 64 - 1)) ∙ omega arith in
        let start : va / 4096 * 4096 / 4096 ≡ va / 4096 = omega arith in
        let run =
          map_loop-Mapping (pl.maxva / page_size + 2) root perm rank s tree top n (va / 4096 * 4096)
            pa (omega arith) (omega arith) (omega arith) (omega arith)
            (λ x below low high. empty x below (omega arith) (omega arith)) in
        rw first (
          rw last (
            subst
              (λ p. Returns (Mapping rank s root p (suc n) pa perm) (
                map_loop al pl (pl.maxva / page_size + 2) root (va / 4096 * 4096)
                  (va / 4096 * 4096 + n * 4096) pa perm s))
              start run))

-- ===== src/Lab4/PageTable/Walk.antt =====
-- `walk`: the entry that it finds or makes, and what it leaves alone.
use hitsz_os.Base.{
  ℕ, zero, suc, ◌≡◌, ◌≢◌, refl, Bool, true, false, Option, none, some, arith, ◌==◌, leb,
  if◌then◌else◌, ltb, ◌&&◌, ◌+◌, ◌∙◌, Bool-cases, inl, inr, ◌⊎◌,
}
use hitsz_os.Base.Kernel.{ok, panic, pure, update, Returns, returns, Returns-bind, Returns-mono}
use hitsz_os.Lab4.Memory.{Allocator, Memory, zero_bytes}
use hitsz_os.Lab4.PageTable.{Platform, px, given, PtePtr, descend, walk_from, walk}
use hitsz_os.Lab4.PageTable.Access.{walk_from-read}
use hitsz_os.Lab4.PageTable.Supply.{
  CanTake, Supply, Supply-refl, Supply-trans, Supply-mono, Supply-take, cannot_take, cannot_more,
  cannot_then,
}
use hitsz_os.Lab4.PageTable.Tree.{slot, lookup, IsTree, IsAllocator, hung, lookup-hung, hung-IsTree}

-- The byte at `x` lies in a page at `q`.
abbrev pub covers : (q x : ℕ) → Bool
covers q x = leb q x && ltb x (q + 4096)

-- From `a` and `f` to `b` and `g`, pages may have become page-table pages, each of which was free. A page
-- that was free and is no page-table page is free still, but for 0, which is no page. The bytes outside
-- the free pages have stayed.
pub record Drew {A : Type 0} (al : Allocator A) (rank : ℕ → ℕ) (a : A) (f : ℕ → ℕ) (rank' : ℕ → ℕ)
    (b : A) (g : ℕ → ℕ) : Type 0 where
  pub fewer : (q : ℕ) → al.free a q ≡ false → al.free b q ≡ false
  pub spares : (q : ℕ) → al.free a q ≡ false → rank q ≡ 0 → rank' q ≡ 0
  pub used : (q : ℕ) → q ≢ 0 → al.free a q ≡ true → rank' q ≡ 0 → al.free b q ≡ true
  pub content : (x : ℕ) → ((q : ℕ) → al.free a q ≡ true → covers q x ≡ false) → g x ≡ f x

-- From `s` to `t` the page tables may have grown, but no translation has changed.
pub record Grown {A : Type 0} (al : Allocator A) (rank : ℕ → ℕ) (s : Memory A) (rank' : ℕ → ℕ)
    (t : Memory A) : Type 0 where
  pub tree : IsTree al rank' t
  pub keeps : (q : ℕ) → rank q ≢ 0 → rank' q ≡ rank q
  pub entries : (q i : ℕ) → rank q ≢ 0 → (s.tables q i).valid ≡ true → t.tables q i ≡ s.tables q i
  pub same : (k q va : ℕ) → rank q ≡ suc k → lookup t.tables k q va ≡ lookup s.tables k q va
  pub drew : Drew al rank s.alloc s.bytes rank' t.alloc t.bytes

module _ {A : Type 0} {al : Allocator A} where
  pub Drew-refl : {rank : ℕ → ℕ} {a : A} {f : ℕ → ℕ} → Drew al rank a f rank a f
  Drew-refl = record {
    fewer = λ q f. f;
    spares = λ q f z. z;
    used = λ q ne f z. f;
    content = λ x out. refl;
  }

  pub Drew-trans :
      {rank rank' rank'' : ℕ → ℕ} {a b c : A} {f g h : ℕ → ℕ}
      → ((q : ℕ) → rank' q ≢ 0 → rank'' q ≡ rank' q)
      → Drew al rank a f rank' b g
      → Drew al rank' b g rank'' c h
      → Drew al rank a f rank'' c h
  Drew-trans keeps d e = record {
    fewer = λ q f. e.fewer q (d.fewer q f);
    spares = λ q f z. e.spares q (d.fewer q f) (d.spares q f z);
    used = λ q ne f z. ground (arith, keeps q, d.used q ne f, e.used q ne);
    content = λ x out. e.content x (λ q f. ground (arith, out q, d.fewer q)) ∙ d.content x out;
  }

  Grown-refl : {rank : ℕ → ℕ} {s : Memory A} → IsTree al rank s → Grown al rank s rank s
  Grown-refl tree = record {
    tree = tree;
    keeps = λ q ne. refl;
    entries = λ q i ne v. refl;
    same = λ k q va e. refl;
    drew = Drew-refl;
  }

  Grown-trans :
      {rank rank' rank'' : ℕ → ℕ} {s t u : Memory A}
      → Grown al rank s rank' t
      → Grown al rank' t rank'' u
      → Grown al rank s rank'' u
  Grown-trans g h = record {
    tree = h.tree;
    keeps = λ q ne. ground (arith, g.keeps q, h.keeps q);
    entries = λ q i ne v. ground (arith, g.keeps q, g.entries q i, h.entries q i);
    same = λ k q va e. ground (arith, g.keeps q, g.same k q va, h.same k q va);
    drew = Drew-trans h.keeps g.drew h.drew;
  }

module _ {A : Type 0} (al : Allocator A) (good : IsAllocator al) where
  -- the child that a round of the walk finds or makes
  abbrev Descended : (rank : ℕ → ℕ) → Memory A → (m p i : ℕ) → Option ℕ → Memory A → Type 0
  Descended rank s m p i r t =
      (rank' : ℕ → ℕ) × Grown al rank s rank' t
      × (((r ≡ none) × ¬ (CanTake al 1 s.alloc))
          ⊎ ((c : ℕ) × (r ≡ some c)
              × Supply al 1 s.alloc t.alloc
              × ((t.tables p i).valid ≡ true)
              × ((t.tables p i).pa ≡ c)
              × (rank' c ≡ suc m)))

  module _ (rank : ℕ → ℕ) (s : Memory A) (m p i : ℕ) (tree : IsTree al rank s)
      (level : rank p ≡ suc (suc m)) where
    abbrev out_of_memory : Memory A
    out_of_memory = record s { alloc = (al.take s.alloc).1 }

    abbrev grown : Memory A
    grown = record {
      tables = hung s.tables p i (al.take s.alloc).0;
      bytes = zero_bytes s.bytes (al.take s.alloc).0;
      alloc = (al.take s.alloc).1;
    }

    out_of_memory-Grown : (al.take s.alloc).0 ≡ 0 → Grown al rank s rank out_of_memory
    out_of_memory-Grown full = record {
      tree = record {
        down = tree.down;
        once = tree.once;
        unfree = λ x f. ground (arith, tree.unfree x, good.rest s.alloc x);
        zero_rank = tree.zero_rank;
      };
      keeps = λ q ne. refl;
      entries = λ q i ne v. refl;
      same = λ k q va e. refl;
      drew = record {
        fewer = λ q f. ground (arith, good.rest s.alloc q);
        spares = λ q f z. z;
        used = λ q ne f z. ground (arith, good.rest s.alloc q, full);
        content = λ x out. refl;
      };
    }

    grown-Grown :
        (s.tables p i).valid ≡ false
        → (al.take s.alloc).0 ≢ 0
        → Grown al rank s (update rank (al.take s.alloc).0 (suc m)) grown
    grown-Grown empty ne =
        let free = good.taken s.alloc ne in
        let whole = good.aligned s.alloc in
        let new = tree.unfree (al.take s.alloc).0 free in
        record {
          tree =
              hung-IsTree al rank s tree p i (al.take s.alloc).0 m level empty new whole good free
                (al.take s.alloc).1 (good.rest s.alloc) ne _;
          keeps = λ q nz. ground arith;
          entries = λ q j nz v. ground (arith, new);
          same = λ k q va e.
              lookup-hung al rank s tree p i (al.take s.alloc).0 m level empty new whole k q va e;
          drew = record {
            fewer = λ q f. ground (arith, good.rest s.alloc q);
            spares = λ q f z. ground (arith, free);
            used = λ q nz f z. ground (arith, good.rest s.alloc q);
            content = λ x out. ground (arith, out (al.take s.alloc).0 free);
          };
        }

    descend-Grown : Returns (Descended rank s m p i) (descend al true p i s)
    unfolding descend
    descend-Grown = elim (Bool-cases (s.tables p i).valid) [
      | inl v ↦ rw v (
          returns (
            rank,
            Grown-refl tree,
            inr (
              (s.tables p i).pa,
              refl,
              Supply-refl al 1 s.alloc,
              v,
              refl,
              tree.down m p i level v,
            ),
          ))
      | inr nv ↦ elim (Bool-cases ((al.take s.alloc).0 == 0)) [
        | inl full ↦ rw nv (
            rw full (
              returns (
                rank,
                out_of_memory-Grown (ground arith),
                inl (refl, cannot_take al s.alloc (ground arith)),
              )))
        | inr got ↦ rw nv (
            rw got (
              returns (
                update rank (al.take s.alloc).0 (suc m),
                grown-Grown nv (ground arith),
                inr (
                  (al.take s.alloc).0,
                  refl,
                  Supply-take al s.alloc (ground arith),
                  ground arith,
                  ground (arith, good.aligned s.alloc),
                  ground arith,
                ),
              )))
      ]
    ]

  -- The slot that the walk from page `p` of level `k` finds or makes. It needs at most `k` pages, and gives
  -- none only if there are not that many.
  abbrev pub Found : (rank : ℕ → ℕ) → Memory A → (k p va : ℕ) → PtePtr → Memory A → Type 0
  Found rank s k p va r t =
      (rank' : ℕ → ℕ) × Grown al rank s rank' t
      × (((r ≡ none) × ¬ (CanTake al k s.alloc))
          ⊎ ((q : ℕ) × (r ≡ some (q, px 0 va))
              × (slot t.tables k p va ≡ r)
              × (rank' q ≡ 1)
              × Supply al k s.alloc t.alloc))

  pub walk_from-Found :
      (rank : ℕ → ℕ) (s : Memory A) (k p va : ℕ)
      → IsTree al rank s
      → rank p ≡ suc k
      → Returns (Found rank s k p va) (walk_from al k true p va s)
  unfolding walk_from slot
  walk_from-Found rank s zero p va tree level =
      returns (rank, Grown-refl tree, inr (p, refl, refl, level, Supply-refl al 0 s.alloc))
  walk_from-Found rank s (suc k) p va tree level =
      Returns-bind (descend al true p (px (suc k) va)) _
        (descend-Grown rank s k p (px (suc k) va) tree level)
        (λ r t d. next r t d (λ rank' c. walk_from-Found rank' t k c va))
    where
      next :
          (r : Option ℕ) (t : Memory A)
          → Descended rank s k p (px (suc k) va) r t
          → ((rank' : ℕ → ℕ) (c : ℕ)
              → IsTree al rank' t
              → rank' c ≡ suc k
              → Returns (Found rank' t k c va) (walk_from al k true c va t))
          → Returns
              (Found rank s (suc k) p va)
              (given r (λ c. walk_from al k true c va) (pure none) t)
      next r t (rank', g, inl (failed, cannot)) deeper =
          rw failed
            (returns (rank', g, inl (refl, cannot_more al 1 (suc k) s.alloc (omega arith) cannot)))
      next r t (rank', g, inr (c, e, supply, v, to, below)) deeper =
          rw e (Returns-mono (deeper rank' c g.tree below) (found rank' g c supply v to below))
        where
          found :
              (rank' : ℕ → ℕ) (g : Grown al rank s rank' t) (c : ℕ)
              → Supply al 1 s.alloc t.alloc
              → (t.tables p (px (suc k) va)).valid ≡ true
              → (t.tables p (px (suc k) va)).pa ≡ c
              → rank' c ≡ suc k
              → (a : PtePtr) (u : Memory A) → Found rank' t k c va a u
              → Found rank s (suc k) p va a u
          found rank' g c supply v to below a u (rank'', h, inl (e, cannot)) = (
            rank'',
            Grown-trans g h,
            inl (
              e,
              cannot_more al (1 + k) (suc k) s.alloc (omega arith)
                  (cannot_then al 1 k s.alloc t.alloc supply cannot),
            ),
          )
          found rank' g c supply v to below a u (rank'', h, inr (q, e, at, one, more)) =
              let kept = h.entries p (px (suc k) va) (ground (arith, g.keeps p)) v in
              (
                rank'',
                Grown-trans g h,
                inr (
                  q,
                  e,
                  ground (arith, kept),
                  one,
                  Supply-mono al (1 + k) (suc k) s.alloc u.alloc (omega arith)
                      (Supply-trans al 1 k s.alloc t.alloc u.alloc supply more),
                ),
              )

  -- `walk` panics exactly from MAXVA on. Below, without `alloc`, it changes nothing and gives the slot that
  -- the three levels of the table lead to, or 0 if one of them is missing. With `alloc`, on a tree of page
  -- tables, it does not panic: it gives the slot of `va`, the entry of a level-0 page that a second walk
  -- finds too, or 0, and that only if the allocator cannot give two pages one after the other. It takes
  -- at most two pages. No translation of any table has changed, and the page tables are a tree again.
  pub walk-Found :
      (pl : Platform) (alloc : Bool) (rank : ℕ → ℕ) (s : Memory A) (pagetable va : ℕ)
      → IsTree al rank s
      → rank pagetable ≡ 3
      → if leb pl.maxva va
        then walk al pl pagetable va alloc s ≡ panic "walk"
        else if alloc
        then Returns (Found rank s 2 pagetable va) (walk al pl pagetable va alloc s)
        else walk al pl pagetable va alloc s ≡ ok (slot s.tables 2 pagetable va, s)
  unfolding walk
  walk-Found pl alloc rank s pagetable va tree top = elim (Bool-cases (leb pl.maxva va)) [
    | inl out ↦ rw out refl
    | inr inside ↦ rw inside (elim (Bool-cases alloc) [
      | inl asked ↦ rw asked (walk_from-Found rank s 2 pagetable va tree top)
      | inr not_asked ↦ rw not_asked (walk_from-read al 2 pagetable va s)
    ])
  ]

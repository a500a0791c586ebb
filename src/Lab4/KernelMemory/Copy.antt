-- ===== src/Lab4/KernelMemory/Copy.antt =====
-- `vmcopypage`: the user mappings that a kernel page table gets.
use hitsz_os.Base.{
  ℕ, zero, suc, ◌+◌, ◌*◌, ◌/◌, ◌%◌, ◌^◌, ◌-◌, ◌≡◌, ◌≢◌, ◌≤◌, ◌<◌, ◌∙◌, ap, refl, true, false,
  Option, none, some, not, ◌&&◌, arith, ◌==◌, leb, ltb, if◌then◌else◌, Option-cases, inl, inr,
}
use hitsz_os.Base.Kernel.{
  ◌>>=◌, ◌>>◌, bind-ok, EndsUnless, came_back, gave_up, EndsUnless-bind, EndsUnless-Returns,
  EndsUnless-mono,
}
use hitsz_os.Lab4.Memory.{page_size, Pte, Allocator, Memory}
use hitsz_os.Lab4.PageTable.{Platform, px, u64, PtePtr, walk_from, walk}
use hitsz_os.Lab4.PageTable.Supply.{CanTake, Supply, cannot_more, cannot_then}
use hitsz_os.Lab4.PageTable.Tree.{slot, lookup, IsTree, IsAllocator}
use hitsz_os.Lab4.PageTable.Walk.{Found, walk_from-Found}
use hitsz_os.Lab4.PageTable.Write.{lookup-slot, lookup-no_slot, write-IsTree, slot-leaf}
use hitsz_os.Lab4.PageTable.Access.{walk_from-read, lookup-store, lookup-store_other, lookup-page}
use hitsz_os.Lab4.KernelMemory.{kernel_pte, copy_entry, vmcopy_loop, vmcopypage}

-- The kernel's view of a user translation.
abbrev pub shared : Option Pte → Option Pte
shared none = none
shared (some e) = some (kernel_pte e)

module _ {A : Type 0} (al : Allocator A) (good : IsAllocator al) (pl : Platform)
    (bound : pl.maxva ≤ 2 ^ 39) (user kern : ℕ) (apart : user ≢ kern) where
  -- In `kern`, the `n` pages from page `first` on translate as they do in `user`, but not for user
  -- code. No other translation of `kern` has changed, and none of `user`.
  abbrev pub Copied : Memory A → (first n : ℕ) → Memory A → Type 0
  Copied s first n t =
      ((va : ℕ)
        → va < 2 ^ 39
        → lookup t.tables 2 kern va ≡ (
            if leb first (va / 4096) && ltb (va / 4096) (first + n)
            then shared (lookup s.tables 2 user va)
            else lookup s.tables 2 kern va))
      × ((va : ℕ) → va < 2 ^ 39 → lookup t.tables 2 user va ≡ lookup s.tables 2 user va)

  abbrev pub Copying : Memory A → (first n : ℕ) → Unit {0} → Memory A → Type 0
  Copying s first n _ t =
      (rank : ℕ → ℕ) × IsTree al rank t × (rank user ≡ 3) × (rank kern ≡ 3) × Copied s first n t

  -- the page of every address that the loop visits is mapped in `user`
  abbrev pub Present : Memory A → (i n : ℕ) → Type 0
  Present s i n = (j : ℕ) → j < n → (e : Pte) × (lookup s.tables 2 user (i + j * 4096) ≡ some e)

  -- One page is copied.
  abbrev CopiedOne : (s t : Memory A) (i : ℕ) → Type 0
  CopiedOne s t i =
      ((va : ℕ)
        → va < 2 ^ 39
        → lookup t.tables 2 kern va ≡ (
            if va / 4096 == i / 4096
            then shared (lookup s.tables 2 user va)
            else lookup s.tables 2 kern va))
      × ((va : ℕ) → va < 2 ^ 39 → lookup t.tables 2 user va ≡ lookup s.tables 2 user va)

  Copied-more :
      (s t u : Memory A) (i n : ℕ)
      → CopiedOne s t i
      → Copied t ((i + 4096) / 4096) n u
      → Copied s (i / 4096) (suc n) u
  Copied-more s t u i n (one, user_one) (more, user_more) = (
    (λ va below. ground (arith, one va, more va, user_one va)),
    (λ va below. user_more va below ∙ user_one va below),
  )

  abbrev Round : Memory A → ℕ → Unit {0} → Memory A → Type 0
  Round s i _ t =
      (rank : ℕ → ℕ) × IsTree al rank t
      × (rank user ≡ 3)
      × (rank kern ≡ 3)
      × CopiedOne s t i
      × Supply al 2 s.alloc t.alloc

  -- A round behind the walk in `user`.
  round :
      (rank : ℕ → ℕ) (s : Memory A)
      → IsTree al rank s
      → rank user ≡ 3
      → rank kern ≡ 3
      → (i p j : ℕ) (e : Pte) → i < 2 ^ 39
      → lookup s.tables 2 user i ≡ some e
      → slot s.tables 2 user i ≡ some (p, j)
      → (kpte : PtePtr) (t : Memory A) → Found al good rank s 2 kern i kpte t
      → EndsUnless
          (Round s i)
          (¬ (CanTake al 2 s.alloc))
          "vmcopypage"
          (copy_entry (some (p, j)) kpte t)
  unfolding copy_entry
  round rank s tree top ktop i p j e small mapped at kpte t (rank', g, inl (none_found, cannot)) =
      rw none_found (gave_up cannot)
  round rank s tree top ktop i p j e small mapped at kpte t
        (rank', g, inr (q, found, kat, leaf, supply)) =
      let same : s.tables p j ≡ e = ground (arith, lookup-slot s.tables 2 user i p j at) in
      let valid : (s.tables p j).valid ≡ true =
        ground (arith, lookup-slot s.tables 2 user i p j at) in
      let is_valid : e.valid ≡ true = ground (arith, same, valid) in
      let used : rank p ≡ 1 = slot-leaf al rank s tree 2 user i p j top at in
      let kept : t.tables p j ≡ e = g.entries p j (ground (arith, used)) valid ∙ same in
      let top' = g.keeps user (ground (arith, top)) ∙ top in
      let ktop' = g.keeps kern (ground (arith, ktop)) ∙ ktop in
      let store =
        lookup-store al rank' t g.tree kern ktop' i q (px 0 i) (kernel_pte e) (kat ∙ found) leaf
          small in
      let other =
        lookup-store_other al rank' t g.tree kern ktop' user top' apart i q (px 0 i) (kernel_pte e)
          (kat ∙ found) leaf in
      rw found (
        rw kept (
          came_back (
            rank',
            write-IsTree al rank' t g.tree q (px 0 i) (kernel_pte e) leaf,
            top',
            ktop',
            (
              (λ va below. ground (
                arith,
                store va below,
                g.same 2 kern va ktop,
                lookup-page s.tables user va i,
                mapped,
                is_valid,
              )),
              (λ va below. other va ∙ g.same 2 user va top),
            ),
            supply,
          )))

  -- The loop from `i` to `stop` makes `n` rounds.
  vmcopy_loop-Copying :
      (fuel n i stop : ℕ) (rank : ℕ → ℕ) (s : Memory A)
      → IsTree al rank s
      → rank user ≡ 3
      → rank kern ≡ 3
      → n < fuel
      → i + n * 4096 < pl.maxva + 4096
      → stop ≤ i + n * 4096
      → i + n * 4096 < stop + 4096
      → stop ≤ pl.maxva
      → Present s i n
      → EndsUnless
          (Copying s (i / 4096) n)
          (¬ (CanTake al (2 * n) s.alloc))
          "vmcopypage"
          (vmcopy_loop al pl fuel user kern i stop s)
  unfolding vmcopy_loop walk
  vmcopy_loop-Copying zero n i stop rank s tree top ktop enough inside past near below present =
      ground arith
  vmcopy_loop-Copying (suc fuel) zero i stop rank s tree top ktop enough inside past near below
        present =
      let stopped : not (ltb i stop) ≡ true = ground arith in
      rw stopped
        (came_back (rank, tree, top, ktop, ((λ va below. ground arith), (λ va below. refl))))
  vmcopy_loop-Copying (suc fuel) (suc n) i stop rank s tree top ktop enough inside past near below
        present =
      let (e, mapped) = present 0 (omega arith) in
      let (x, at) = mapped_slot e (ground (arith, mapped)) in
      let more : not (ltb i stop) ≡ false = ground arith in
      let low : leb pl.maxva i ≡ false = ground arith in
      let up : u64 (i + page_size) ≡ i + 4096 = omega arith in
      rw more (
        rw low (
          rw
            (bind-ok (walk_from al 2 false user i)
              (λ pte. do
                kpte ← walk_from al 2 true kern i
                copy_entry pte kpte
                vmcopy_loop al pl fuel user kern (u64 (i + page_size)) stop)
              (walk_from-read al 2 user i s))
            (rw (at, up)
              (EndsUnless-bind (walk_from al 2 true kern i)
                (λ kpte. do
                  copy_entry (some x) kpte
                  vmcopy_loop al pl fuel user kern (i + 4096) stop)
                (EndsUnless-Returns (walk_from-Found al good rank s 2 kern i tree ktop))
                (λ kpte t found.
                  EndsUnless-bind (copy_entry (some x) kpte)
                    (λ _. vmcopy_loop al pl fuel user kern (i + 4096) stop)
                    (EndsUnless-mono
                      (round rank s tree top ktop i x.0 x.1 e (omega arith) (ground (arith, mapped))
                        at kpte t found)
                      (λ _ u one. one) (cannot_more al 2 (2 * suc n) s.alloc (omega arith)))
                    (λ _ u (rank', tree', top', ktop', one, supply).
                      EndsUnless-mono
                        (vmcopy_loop-Copying fuel n (i + 4096) stop rank' u tree' top' ktop'
                          (omega arith) (omega arith) (omega arith) (omega arith) below
                          (rest u one))
                        (λ _ v (rank'', tree'', top'', ktop'', all).
                          (rank'', tree'', top'', ktop'', Copied-more s u v i n one all))
                        (λ cannot.
                          cannot_more al (2 + 2 * n) (2 * suc n) s.alloc (omega arith)
                            (cannot_then al 2 (2 * n) s.alloc u.alloc supply cannot))))))))
    where
      mapped_slot :
          (e : Pte)
          → lookup s.tables 2 user i ≡ some e
          → (x : ℕ × ℕ) × (slot s.tables 2 user i ≡ some x)
      mapped_slot e mapped = elim (Option-cases (slot s.tables 2 user i)) [
        | inl missing ↦ ground (arith, lookup-no_slot s.tables 2 user i missing)
        | inr found ↦ found
      ]

      rest : (u : Memory A) → CopiedOne s u i → Present u (i + 4096) n
      rest u (one, same) j less =
          let (e, mapped) = present (suc j) (omega arith) in
          (
            e,
            same (i + 4096 + j * 4096) (omega arith)
                ∙ ap (lookup s.tables 2 user) (omega arith)
                ∙ mapped,
          )

  -- the number of rounds for `sz` bytes
  abbrev pub rounds_for : ℕ → ℕ
  rounds_for sz = (sz + 4095) / 4096

  -- `vmcopypage` on a tree of page tables, for two different tables, where `start + sz` is at most
  -- MAXVA and the page of each address that the loop visits is mapped in the user table, panics only
  -- with "vmcopypage", and only if the allocator cannot give two pages for each of the pages that it visits,
  -- one after the other. Otherwise it ends. Then each page from
  -- the page of `start` on, one per 4096 bytes of `sz`, rounded up, has in the kernel table the
  -- translation that it has in the user table, without PTE_U. All other translations of the kernel
  -- table are as before, as are all of the user table.
  pub vmcopypage-Copying :
      (rank : ℕ → ℕ) (s : Memory A)
      → IsTree al rank s
      → rank user ≡ 3
      → rank kern ≡ 3
      → (start sz : ℕ) → start + sz ≤ pl.maxva
      → Present s start (rounds_for sz)
      → EndsUnless
          (Copying s (start / 4096) (rounds_for sz))
          (¬ (CanTake al (2 * rounds_for sz) s.alloc))
          "vmcopypage"
          (vmcopypage al pl user kern start sz s)
  unfolding vmcopypage
  vmcopypage-Copying rank s tree top ktop start sz below present =
      let same : u64 (start + sz) ≡ start + sz = omega arith in
      rw same (
        vmcopy_loop-Copying (pl.maxva / page_size + 2) (rounds_for sz) start (start + sz) rank s
          tree top ktop (omega arith) (omega arith) (omega arith) (omega arith) below present)

  -- Where `start` is not aligned and `sz` is a multiple of the page size, the page of the last of the `sz`
  -- bytes from `start` on is not reached: `vmcopypage`, under the conditions under which it copies the
  -- pages before, leaves the kernel's translation of that byte as it was, or it panics with "vmcopypage" as
  -- there, if the pages for the page tables cannot be had. `growproc` calls it so when the
  -- old size of the process is not a multiple of the page size.
  pub vmcopypage-last_page :
      (rank : ℕ → ℕ) (s : Memory A)
      → IsTree al rank s
      → rank user ≡ 3
      → rank kern ≡ 3
      → (start sz : ℕ) → start + sz ≤ pl.maxva
      → start % 4096 ≢ 0
      → sz % 4096 ≡ 0
      → 0 < sz
      → Present s start (rounds_for sz)
      → EndsUnless
          (λ _ t. lookup t.tables 2 kern (start + sz - 1) ≡ lookup s.tables 2 kern (start + sz - 1))
          (¬ (CanTake al (2 * rounds_for sz) s.alloc))
          "vmcopypage"
          (vmcopypage al pl user kern start sz s)
  vmcopypage-last_page rank s tree top ktop start sz below odd whole some_size present =
      EndsUnless-mono (vmcopypage-Copying rank s tree top ktop start sz below present)
        (λ _ t (rank', tree', top', ktop', copied).
          ground (arith, copied.0 (start + sz - 1) (omega arith), outside))
        (λ cannot. cannot)
    where
      outside :
          (leb (start / 4096) ((start + sz - 1) / 4096)
            && ltb ((start + sz - 1) / 4096) (start / 4096 + rounds_for sz))
          ≡ false
      outside = ground arith

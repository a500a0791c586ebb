-- ===== src/Lab3/Kalloc/Alloc.antt =====
-- `kalloc` against the lists of free pages.
use hitsz_os.Base.{
  ℕ, ◌<◌, ap, ◌∙◌, ◌≡◌, ◌≢◌, ◌-◌, refl, true, false, List, [], ◌∷◌, arith, ◌==◌, ==_iff, Bool-cases,
  inl, inr,
}
use hitsz_os.Base.Kernel.{ok, ◌>>◌, bind-ok, update, update_self}
use mathlib.Core.Path.{subst, fun_ext}
use hitsz_os.Base.Sets.{has, has-ne, All-has}
use hitsz_os.Lab3.Kalloc.{Kmems, Call, push_off, pop_off, find_page, steal, kfree, kalloc}
use hitsz_os.Pages.{Layout, is_page, fill}
use hitsz_os.Lab3.Kalloc.Pool.{
  Pool, Implements, give, take_first, take_first-nil, take_first-cons, visits,
}
use hitsz_os.Pages.{Chain-frame, fill-other}
use hitsz_os.Lab3.Kalloc.Free.{kfree-ok, freed-Implements}
use hitsz_os.Lab3.Kalloc.Take.{Gives, visit_then, steal-Gives}

-- the order in which `kalloc` on CPU `id` visits the lists
abbrev pub order : Layout → ℕ → List ℕ
order l id = id ∷ visits id l.ncpu (l.ncpu - 1) 1

-- A page that is handed out is on no list any more.
abbrev pub IsOut : Layout → ℕ × Pool → Type 0
IsOut l (r, f) = r ≢ 0 → (is_page l r ≡ true) × ((k : ℕ) → has r (f k) ≡ false)

restored : (id pa : ℕ) (f : Pool) (k : ℕ) → update (give f id pa) id (f id) k ≡ f k
restored id pa f k = elim (Bool-cases (id == k)) [
  | inl here ↦ rw here (ap f ((==_iff id k).0 here))
  | inr away ↦ rw away refl
]

module _ {l : Layout} where
  find_page-Gives :
      {s : Kmems} {f : Pool} (id : ℕ)
      → Implements l s f
      → Gives l (take_first f (order l id)) (find_page l id s)
  unfolding find_page
  find_page-Gives id im =
      visit_then id (visits id l.ncpu (l.ncpu - 1) 1) (steal l id (l.ncpu - 1) 1) im
        (λ t it. steal-Gives id (l.ncpu - 1) 1 it)

  take_first-IsOut :
      {s : Kmems} {f : Pool} (ks : List ℕ) → Implements l s f → IsOut l (take_first f ks)
  unfolding take_first
  take_first-IsOut [] im = λ ne. absurd (ne refl)
  take_first-IsOut {f} (k ∷ ks) im = go (f k) refl (take_first-IsOut ks im)
    where
      go : (xs : List ℕ) → f k ≡ xs → IsOut l (take_first f ks) → IsOut l (take_first f (k ∷ ks))
      go [] e rest = rw (take_first-nil f k ks e) rest
      go (x ∷ xs) e rest =
          let page = rw e at (im.pages k) in
          let fresh = rw e at (im.nodup k) in
          rw (take_first-cons f k ks x xs e) (λ ne. (
            page.0,
            λ j. elim (Bool-cases (k == j)) [
              | inl here ↦ rw here fresh.0
              | inr away ↦ rw away (ground (arith, im.apart x j k))
            ],
          ))

  -- `memset(r, 5, PGSIZE)` spoils no list.
  filled-Implements :
      {s : Kmems} {f : Pool} (r : ℕ)
      → Implements l s f
      → IsOut l (r, f)
      → r ≢ 0
      → Implements l (record s { word = fill s.word r 5 }) f
  filled-Implements {s} {f} r im out ne = record {
    chain = λ k. Chain-frame _ (f k) (im.chain k) (λ x h.
        fill-other l (All-has _ (f k) x (im.pages k) h) (out ne).0
          (has-ne x r (f k) h ((out ne).1 k)) s.word 5);
    pages = im.pages;
    nodup = im.nodup;
    apart = im.apart;
    bounded = im.bounded;
  }

  pub logged-Implements :
      {s : Kmems} {f : Pool} (c : Call)
      → Implements l s f
      → Implements l (record s { calls = c ∷ s.calls }) f
  logged-Implements c im = record {
    chain = im.chain;
    pages = im.pages;
    nodup = im.nodup;
    apart = im.apart;
    bounded = im.bounded;
  }

  -- `kalloc` on CPU `id` ends without a panic. It returns the first page of the first list, in the
  -- order of the visits, that is not empty, or 0 when every visited list is empty, and afterwards
  -- the lists in memory are the old ones without that page.
  pub kalloc-take_first :
      {s : Kmems} {f : Pool} (id : ℕ)
      → Implements l s f
      → Gives l (take_first f (order l id)) (kalloc l id s)
  unfolding kalloc
  kalloc-take_first {s} {f} id im =
      let (t, run, it) = find_page-Gives id (logged-Implements push_off im) in
      let out = take_first-IsOut (order l id) im in
      let done = logged-Implements pop_off it in
      elim (Bool-cases ((take_first f (order l id)).0 == 0)) [
        | inl none_left ↦ (_, rw (bind-ok (find_page l id) _ run) (rw none_left refl), done)
        | inr some_left ↦ (
          _,
          rw (bind-ok (find_page l id) _ run) (rw some_left refl),
          filled-Implements _ done out (ground arith),
        )
      ]

  -- What `kfree` puts back on a CPU, the next `kalloc` on the same CPU hands out, and the lists are
  -- then those of before.
  pub kalloc-kfree :
      {s : Kmems} {f : Pool} (id pa : ℕ)
      → Implements l s f
      → id < l.ncpu
      → 0 < l.kern_end
      → ((k : ℕ) → has pa (f k) ≡ false)
      → is_page l pa ≡ true
      → (t : Kmems) × ((kfree l id pa >> kalloc l id) s ≡ ok (pa, t)) × Implements l t f
  kalloc-kfree {s} {f} id pa im lt pos new page =
      let im' = freed-Implements l im id pa lt pos page new in
      let (t, run, it) = kalloc-take_first id im' in
      let first =
        take_first-cons (give f id pa) id (visits id l.ncpu (l.ncpu - 1) 1) pa (f id)
          (update_self f id (pa ∷ f id)) in
      let back : update (give f id pa) id (f id) ≡ f = fun_ext (λ k. restored id pa f k) in
      (
        t,
        bind-ok (kfree l id pa) (λ _. kalloc l id) (kfree-ok l id pa s page)
            ∙ run
            ∙ ap (λ q. ok (q, t)) (ap (λ r. r.0) first),
        subst (Implements l t) (ap (λ r. r.1) first ∙ back) it,
      )

-- ===== src/Lab3/Kalloc/Take.antt =====
-- `take_head`, one locked visit to a list.
use hitsz_os.Base.{
  ℕ, zero, suc, ◌≡◌, ◌+◌, refl, true, false, List, [], ◌∷◌, arith, ◌==◌, if◌then◌else◌, ◌%◌,
  Bool-cases, inl, inr,
}
use hitsz_os.Base.Kernel.{M, Outcome, ok, pure, ◌>>=◌, bind-ok, update, update_elim}
use hitsz_os.Base.Sets.{All, Distinct}
use hitsz_os.Lab3.Kalloc.{Kmems, acquire, release, take_head, steal}
use hitsz_os.Pages.{Layout, is_page}
use hitsz_os.Lab3.Kalloc.Pool.{
  Pool, Implements, take_first, take_first-nil, take_first-cons, visits,
}
use hitsz_os.Pages.{Chain}

abbrev pub visited : ℕ → Kmems → Kmems
visited k s = record s { calls = release k ∷ acquire k ∷ s.calls }

abbrev pub taken : ℕ → Kmems → Kmems
taken k s = record s {
  freelist = update s.freelist k (s.word (s.freelist k));
  calls = release k ∷ acquire k ∷ s.calls;
}

-- an empty list is left with 0
take_head-nil :
    (k : ℕ) (s : Kmems) → Chain s.word (s.freelist k) [] → take_head k s ≡ ok (0, visited k s)
unfolding take_head
take_head-nil k s c = ground arith

take_head-cons :
    (k x : ℕ) (xs : List ℕ) (s : Kmems)
    → Chain s.word (s.freelist k) (x ∷ xs)
    → take_head k s ≡ ok (x, taken k s)
unfolding take_head
take_head-cons k x xs s c = ground arith

module _ {l : Layout} {s : Kmems} {f : Pool} (im : Implements l s f) (k : ℕ) where
  visited-Implements : Implements l (visited k s) f
  visited-Implements = record {
    chain = im.chain;
    pages = im.pages;
    nodup = im.nodup;
    apart = im.apart;
    bounded = im.bounded;
  }

  taken-Implements : (x : ℕ) (xs : List ℕ) → f k ≡ x ∷ xs → Implements l (taken k s) (update f k xs)
  taken-Implements x xs e = record {
    chain = chain;
    pages = λ j.
        update_elim (λ _ ys. All (λ y. is_page l y ≡ true) ys) f k xs j (rw e at (im.pages k)).1
          (λ _. im.pages j);
    nodup =
        λ j. update_elim (λ _ ys. Distinct ys) f k xs j (rw e at (im.nodup k)).1 (λ _. im.nodup j);
    apart = λ y i j hi hj. ground (arith, im.apart y i j);
    bounded = λ j h. ground (arith, im.bounded j h, im.bounded k);
  }
    where
      here : Chain s.word (s.freelist k) (x ∷ xs)
      here = rw e at (im.chain k)

      chain :
          (j : ℕ) → Chain s.word (update s.freelist k (s.word (s.freelist k)) j) (update f k xs j)
      chain j = elim (Bool-cases (k == j)) [
        | inl eq ↦ rw (eq, here.0) here.2
        | inr ne ↦ rw ne (im.chain j)
      ]

-- The result of a run: it ends, and the state stands for what the specification says.
abbrev pub Gives : Layout → ℕ × Pool → Outcome (ℕ × Kmems) → Type 0
Gives l (r, f) m = (s : Kmems) × (m ≡ ok (r, s)) × Implements l s f

module _ {l : Layout} where
  -- One visit, and what follows when the list was empty.
  pub visit_then :
      {s : Kmems} {f : Pool} (k : ℕ) (ks : List ℕ) (next : M Kmems ℕ)
      → Implements l s f
      → ((t : Kmems) → Implements l t f → Gives l (take_first f ks) (next t))
      → Gives l (take_first f (k ∷ ks)) ((take_head k >>= λ r. if r == 0 then next else pure r) s)
  visit_then {s} {f} k ks next im rest = go (f k) refl
    where
      go :
          (xs : List ℕ)
          → f k ≡ xs
          → Gives l
              (take_first f (k ∷ ks))
              ((take_head k >>= λ r. if r == 0 then next else pure r) s)
      go [] e =
          rw
            (
              take_first-nil f k ks e,
              bind-ok (take_head k) (λ r. if r == 0 then next else pure r)
                  (take_head-nil k s (rw e at (im.chain k))),
            )
            (rest (visited k s) (visited-Implements im k))
      go (x ∷ xs) e =
          let c = rw e at (im.chain k) in
          let full : (x == 0) ≡ false = ground (arith, c.1) in
          rw
            (
              take_first-cons f k ks x xs e,
              bind-ok (take_head k) (λ r. if r == 0 then next else pure r)
                  (take_head-cons k x xs s c),
              full,
            )
            (taken k s, refl, taken-Implements im k x xs e)

  pub steal-Gives :
      {s : Kmems} {f : Pool} (id n i : ℕ)
      → Implements l s f
      → Gives l (take_first f (visits id l.ncpu n i)) (steal l id n i s)
  unfolding steal visits take_first
  steal-Gives {s} id zero i im = (s, refl, im)
  steal-Gives id (suc n) i im =
      visit_then ((id + i) % l.ncpu) (visits id l.ncpu n (i + 1)) (steal l id n (i + 1)) im
        (λ t it. steal-Gives id n (i + 1) it)

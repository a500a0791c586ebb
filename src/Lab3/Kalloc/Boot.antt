-- ===== src/Lab3/Kalloc/Boot.antt =====
-- `freerange` and `kinit`, at boot.
use hitsz_os.Base.{
  ℕ, zero, suc, ◌≡◌, ◌≢◌, ◌+◌, ◌*◌, ◌/◌, ◌%◌, ◌<◌, ◌≤◌, refl, Bool, true, false, [], arith, ◌==◌,
  leb, ◌&&◌, ◌||◌, Bool-cases, inl, inr,
}
use hitsz_os.Base.Kernel.{Returns, returns, Returns-bind, Returns-mono, bind-ok}
use hitsz_os.Base.Sets.{has}
use hitsz_os.Lab3.Kalloc.{Kmems, push_off, pop_off, kfree, freerange_loop, freerange, kinit}
use hitsz_os.Pages.{Layout, page_size, is_page}
use hitsz_os.Lab3.Kalloc.Pool.{Pool, Implements, give}
use hitsz_os.Lab3.Kalloc.Free.{freed, kfree-ok, freed-Implements}
use hitsz_os.Lab3.Kalloc.Alloc.{logged-Implements}

-- What the code relies on of `end`, `PHYSTOP` and `PGROUNDUP`.
pub record IsLayout (l : Layout) : Type 0 where
  pub end_pos : 0 < l.kern_end
  pub end_le : l.kern_end + page_size ≤ l.phystop
  pub round_up : (a : ℕ) → a ≤ l.phystop → l.pground_up a ≡ (a + 4095) / page_size * page_size

-- whole pages from `p` up to `e` that hold the address `x` of a page
abbrev pub in_range : (p e x : ℕ) → Bool
in_range p e x = x % page_size == 0 && leb p x && leb (x + page_size) e

-- A pool that has, on CPU `id`, the pages of `f` and those from `p` up to `e`.
pub record Filled (f g : Pool) (id p e : ℕ) : Type 0 where
  pub own : (x : ℕ) → has x (g id) ≡ (in_range p e x || has x (f id))
  pub others : (k : ℕ) → id ≢ k → g k ≡ f k

-- At boot every list is empty.
pub empty-Implements :
    {l : Layout} (s : Kmems) → ((k : ℕ) → s.freelist k ≡ 0) → Implements l s (λ _. [])
empty-Implements s empty = record {
  chain = empty;
  pages = λ k. tt;
  nodup = λ k. tt;
  apart = λ x i j h. cc;
  bounded = λ k h. refl;
}

module _ (l : Layout) (good : IsLayout l) (id : ℕ) (lt : id < l.ncpu) where
  freerange_loop-Filled :
      (n p e : ℕ) (s : Kmems) (f : Pool)
      → Implements l s f
      → p % page_size ≡ 0
      → l.kern_end ≤ p
      → e ≤ l.phystop
      → ((x k : ℕ) → has x (f k) ≡ true → x < p)
      → e < p + n * page_size
      → Returns
          (λ _ t. (g : Pool) × Implements l t g × Filled f g id p e)
          (freerange_loop l id n p e s)
  unfolding freerange_loop
  freerange_loop-Filled zero p e s f im aligned lo hi below fuel =
      returns (f, im, record { own = λ x. ground arith; others = λ k ne. refl })
  freerange_loop-Filled (suc n) p e s f im aligned lo hi below fuel =
      elim (Bool-cases (leb (p + page_size) e)) [
        | inl more ↦
            let page : is_page l p ≡ true = ground arith in
            let new : (k : ℕ) → has p (f k) ≡ false = λ k. grind (arith, below p k) in
            let im' = freed-Implements l im id p lt good.end_pos page new in
            rw more (
              rw (bind-ok (kfree l id p) _ (kfree-ok l id p s page)) (
                Returns-mono
                  (freerange_loop-Filled n (p + page_size) e (freed id p s) (give f id p) im'
                    (omega arith) (omega arith) hi (λ x k h. ground (arith, below x k))
                    (omega arith))
                  (λ _ t (g, ig, fl). (
                    g,
                    ig,
                    record {
                      own = λ x. ground (arith, fl.own x);
                      others = λ k ne. ground (arith, fl.others k);
                    },
                  ))))
        | inr stop ↦
            rw stop (returns (f, im, record { own = λ x. ground arith; others = λ k ne. refl }))
      ]

  -- `kinit`, run with all lists empty, ends without a panic. It leaves on the list of its own CPU
  -- exactly the pages that lie as a whole between the end of the kernel and the end of memory,
  -- and nothing on the other lists.
  pub kinit-Implements :
      (s : Kmems)
      → ((k : ℕ) → s.freelist k ≡ 0)
      → Returns
          (λ _ t.
            (g : Pool) × Implements l t g
            × ((x : ℕ) → has x (g id) ≡ (is_page l x && leb (x + page_size) l.phystop))
            × ((k : ℕ) → id ≢ k → g k ≡ []))
          (kinit l id s)
  unfolding kinit freerange
  kinit-Implements s empty =
      let up = good.round_up l.kern_end (omega (arith, good.end_le)) in
      Returns-bind
        (freerange_loop l id (l.phystop / page_size + 1) (l.pground_up l.kern_end) l.phystop) _
        (freerange_loop-Filled (l.phystop / page_size + 1) (l.pground_up l.kern_end) l.phystop _
          (λ _. []) (logged-Implements push_off (empty-Implements s empty)) (omega (arith, up))
          (omega (arith, up)) (omega arith) (λ x k h. cc) (omega (arith, up)))
        (λ _ t (g, ig, fl).
          returns (g, logged-Implements pop_off ig, (λ x. ground (arith, fl.own x, up)), fl.others))

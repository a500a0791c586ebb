-- ===== src/Lab2/Kalloc/Count.antt =====
-- `check_freemem` against the free list.
use hitsz_os.Base.{
  ap, ◌∙◌, ℕ, zero, suc, ◌+◌, ◌*◌, ◌/◌, ◌%◌, ◌^◌, ◌≡◌, ◌<◌, ◌≤◌, List, [], ◌∷◌, arith, length,
}
use hitsz_os.Base.Kernel.{ok, bind-ok}
use hitsz_os.Base.Sets.{All-has, length-pages}
use hitsz_os.Pages.{Layout, page_size, Chain}
use hitsz_os.Lab2.Kalloc.{Kmem, count_loop, check_freemem}
use hitsz_os.Lab2.Kalloc.Refine.{Holds}

count_loop-length :
    (n acc p : ℕ) (s : Kmem) (xs : List ℕ)
    → Chain s.word p xs
    → length xs < n
    → count_loop n p acc s ≡ ok (acc + length xs, s)
unfolding count_loop
count_loop-length zero acc p s xs c fuel = absurd (omega arith)
count_loop-length (suc n) acc p s [] c fuel = ground arith
count_loop-length (suc n) acc p s (x ∷ xs) c fuel =
    ground (arith, count_loop-length n (acc + 1) (s.word x) s xs c.2)

module _ (l : Layout) (s : Kmem) (xs : List ℕ) (h : Holds l s xs) where
  few : length xs ≤ l.phystop / page_size + 1
  few =
      length-pages _ xs h.nodup
        (λ x m. let page = All-has _ xs x h.pages m in (ground arith, ground arith))

  -- `check_freemem` ends, changes nothing, and returns the number of free pages times the size of a
  -- page, cut to the 32 bits of its result type.
  pub check_freemem_lem : check_freemem l s ≡ ok (length xs * page_size % 2 ^ 32, s)
  unfolding check_freemem
  check_freemem_lem =
      bind-ok (count_loop (l.phystop / page_size + 2) s.freelist 0) _ (
        count_loop-length (l.phystop / page_size + 2) 0 s.freelist s xs h.chain
          (omega (arith, few)))
      ∙ ap (λ n. ok (n * page_size % 2 ^ 32, s)) (omega arith)

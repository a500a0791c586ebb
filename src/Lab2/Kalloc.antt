-- ===== src/Lab2/Kalloc.antt =====
-- Lab2/kernel/kalloc.c: physical pages on one free list, and the count that `sysinfo` reports.
-- `acquire` and `release` of `kmem.lock` enclose each access and are left out: the functions run one
-- at a time here.
pub mod Refine
pub mod Count
mod Tests
use hitsz_os.Base.{ℕ, zero, suc, ◌+◌, ◌*◌, ◌/◌, ◌%◌, ◌^◌, not, leb, ◌==◌, if◌then◌else◌}
use hitsz_os.Base.Kernel.{M, pure, fail, ◌>>=◌, ◌>>◌, gets, modify, update}
use hitsz_os.Pages.{Layout, page_size, fill, is_page}

-- `word` is the 64-bit word at an address, `freelist` is `kmem.freelist`.
pub record Kmem : Type 0 where
  pub word : ℕ → ℕ
  pub freelist : ℕ

memset : ℕ → ℕ → M Kmem (Unit {0})
memset pa byte = modify (λ s. record s { word = fill s.word pa byte })

next : ℕ → M Kmem ℕ
next r = gets (λ s. s.word r)

set_next : ℕ → ℕ → M Kmem (Unit {0})
set_next r v = modify (λ s. record s { word = update s.word r v })

head : M Kmem ℕ
head = gets (λ s. s.freelist)

set_head : ℕ → M Kmem (Unit {0})
set_head v = modify (λ s. record s { freelist = v })

unfoldable pub kalloc : M Kmem ℕ
unfolding memset next head set_head
kalloc = do
  r ← head
  (if r == 0 then pure tt else do set_head (← next r))
  if r == 0 then pure r else do memset r 5; pure r

-- `while (r)`, with `n` rounds of fuel. `freelist_num` is an int, but there are far fewer pages
-- than 2 ^ 31.
unfoldable pub count_loop : (n r freelist_num : ℕ) → M Kmem ℕ
unfolding next
count_loop zero r freelist_num = fail "out of fuel"
count_loop (suc n) r freelist_num =
    if r == 0 then pure freelist_num else do count_loop n (← next r) (freelist_num + 1)

module _ (l : Layout) where
  unfoldable pub kfree : ℕ → M Kmem (Unit {0})
  unfolding memset set_next head set_head
  kfree pa =
      if not (is_page l pa) then fail "kfree" else do memset pa 1; set_next pa (← head); set_head pa

  -- The loop of `freerange`, with `n` rounds of fuel.
  unfoldable pub freerange_loop : (n p pa_end : ℕ) → M Kmem (Unit {0})
  freerange_loop zero p pa_end = pure tt
  freerange_loop (suc n) p pa_end =
      if leb (p + page_size) pa_end
      then (do kfree p; freerange_loop n (p + page_size) pa_end)
      else pure tt

  unfoldable pub freerange : (pa_start pa_end : ℕ) → M Kmem (Unit {0})
  freerange pa_start pa_end = freerange_loop (pa_end / page_size + 1) (l.pground_up pa_start) pa_end

  unfoldable pub kinit : M Kmem (Unit {0})
  kinit = freerange l.kern_end l.phystop

  -- At most `phystop / page_size + 1` pages can be free. The result is an int: it wraps at 2 ^ 32.
  unfoldable pub check_freemem : M Kmem ℕ
  unfolding head
  check_freemem = do
    freelist_num ← (do count_loop (l.phystop / page_size + 2) (← head) 0)
    pure (freelist_num * page_size % 2 ^ 32)

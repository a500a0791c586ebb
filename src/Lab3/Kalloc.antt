-- ===== src/Lab3/Kalloc.antt =====
-- Lab3/kernel/kalloc.c: physical pages on one free list for each CPU.
pub mod Pool
pub mod Free
pub mod Take
pub mod Alloc
pub mod Exhausted
pub mod Locks
pub mod Boot
mod Tests
use hitsz_os.Base.{
  ℕ, zero, suc, ◌+◌, ◌-◌, ◌*◌, ◌/◌, ◌%◌, Bool, List, ◌∷◌, ◌&&◌, not, ltb, leb, ◌==◌, if◌then◌else◌,
}
use hitsz_os.Pages.{Layout, page_size, fill, is_page}
use hitsz_os.Base.Kernel.{M, pure, fail, ◌>>=◌, ◌>>◌, gets, modify, update}

-- What the allocator asks of other parts of the kernel: interrupts off and on, spin locks.
pub data Call : Type 0 where
  push_off pop_off : Call
  acquire release : ℕ → Call

-- `word` is the 64-bit word at an address, `freelist k` is `kmems[k].freelist`, and `calls` holds
-- the calls made, the last one first.
pub record Kmems : Type 0 where
  pub word : ℕ → ℕ
  pub freelist : ℕ → ℕ
  pub calls : List Call

call : Call → M Kmems (Unit {0})
call c = modify (λ s. record s { calls = c ∷ s.calls })

memset : ℕ → ℕ → M Kmems (Unit {0})
memset pa byte = modify (λ s. record s { word = fill s.word pa byte })

-- `((struct run *)r)->next`
next : ℕ → M Kmems ℕ
next r = gets (λ s. s.word r)

set_next : ℕ → ℕ → M Kmems (Unit {0})
set_next r v = modify (λ s. record s { word = update s.word r v })

head : ℕ → M Kmems ℕ
head id = gets (λ s. s.freelist id)

set_head : ℕ → ℕ → M Kmems (Unit {0})
set_head id v = modify (λ s. record s { freelist = update s.freelist id v })

-- One locked visit of `kalloc` to the list of CPU `k`.
unfoldable pub take_head : ℕ → M Kmems ℕ
unfolding call next head set_head
take_head k = do
  call (acquire k)
  r ← head k
  if r == 0 then call (release k) >> pure r else do set_head k (← next r); call (release k); pure r

module _ (l : Layout) where
  -- `kfree` on CPU `id`
  unfoldable pub kfree : ℕ → ℕ → M Kmems (Unit {0})
  unfolding call memset set_next head set_head
  kfree id pa = if not (is_page l pa) then fail "kfree" else do
    memset pa 1
    call push_off
    call (acquire id)
    set_next pa (← head id)
    set_head id pa
    call (release id)
    call pop_off

  -- `for (i = 1; i < NCPU; i++)`, with `n` rounds left
  unfoldable pub steal : (id n i : ℕ) → M Kmems ℕ
  steal id zero i = pure 0
  steal id (suc n) i = do
    r ← take_head ((id + i) % l.ncpu)
    if r == 0 then steal id n (i + 1) else pure r

  -- The own list first, then those of the other CPUs; 0 when all are empty.
  unfoldable pub find_page : ℕ → M Kmems ℕ
  find_page id = do r ← take_head id; if r == 0 then steal id (l.ncpu - 1) 1 else pure r

  -- `kalloc` on CPU `id`
  unfoldable pub kalloc : ℕ → M Kmems ℕ
  unfolding call memset
  kalloc id = do
    call push_off
    r ← find_page id
    call pop_off
    if r == 0 then pure r else do memset r 5; pure r

  -- The loop of `freerange`, with `n` rounds of fuel.
  unfoldable pub freerange_loop : (id n p pa_end : ℕ) → M Kmems (Unit {0})
  freerange_loop id zero p pa_end = pure tt
  freerange_loop id (suc n) p pa_end =
      if leb (p + page_size) pa_end
      then (do kfree id p; freerange_loop id n (p + page_size) pa_end)
      else pure tt

  -- The loop variable grows by a page in each round, so `pa_end / page_size + 1` rounds end it.
  unfoldable pub freerange : (id pa_start pa_end : ℕ) → M Kmems (Unit {0})
  freerange id pa_start pa_end =
      freerange_loop id (pa_end / page_size + 1) (l.pground_up pa_start) pa_end

  -- `kinit` on CPU `id`; `initlock` leaves the lock free, which is how a run starts.
  unfoldable pub kinit : ℕ → M Kmems (Unit {0})
  unfolding call
  kinit id = do call push_off; freerange id l.kern_end l.phystop; call pop_off

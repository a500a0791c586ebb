-- ===== src/Lab4/UserMemory.antt =====
-- Lab4/kernel/vm.c: user memory. It grows, shrinks, is copied and freed.
pub mod UserBytes
pub mod Shrink
pub mod CopyOut
pub mod Extended
pub mod Steps
pub mod Grow
pub mod Duplicate
pub mod Tests
use hitsz_os.Base.{
  ℕ, zero, suc, ◌+◌, ◌-◌, ◌/◌, ◌%◌, ◌^◌, Bool, true, false, not, ◌&&◌, leb, ltb, ◌==◌,
  if◌then◌else◌,
}
use hitsz_os.Base.Kernel.{M, pure, fail, ◌>>=◌, ◌>>◌, modify}
use hitsz_os.Lab4.Memory.{
  page_size, Perm, no_pte, is_table, Allocator, Memory, load_pte, store_pte, zero_page, kalloc,
  kfree,
}
use hitsz_os.Lab4.PageTable.{Platform, u64, given, walk, walkaddr, mappages, uvmunmap}

-- PTE_W|PTE_R|PTE_X|PTE_U
abbrev pub user_perm : Perm
user_perm = record { r = true; w = true; x = true; u = true; rest = 0 }

-- an `int` that is passed as a `uint64`
abbrev pub int_to_u64 : ℕ → ℕ
int_to_u64 n = let m = n % 2 ^ 32 in if ltb m (2 ^ 31) then m else m + 2 ^ 64 - 2 ^ 32

-- `memmove(dst, src, n)`, where the bytes from `src` on are `src 0`, `src 1`, ...
abbrev pub moved : (ℕ → ℕ) → (dst : ℕ) (src : ℕ → ℕ) (n : ℕ) → ℕ → ℕ
moved f dst src n a = if leb dst a && ltb a (dst + n) then src (a - dst) else f a

module _ {A : Type 0} where
  abbrev pub memmove : (dst : ℕ) (src : ℕ → ℕ) (n : ℕ) → M (Memory A) (Unit {0})
  memmove dst src n = modify (λ s. record s { bytes = moved s.bytes dst src n })

  -- `memmove` between two places of memory
  abbrev pub copy_page : (dst src : ℕ) → M (Memory A) (Unit {0})
  copy_page dst src =
      modify (λ s. record s { bytes = moved s.bytes dst (λ j. s.bytes (src + j)) page_size })

  -- `for(int i = 0; i < 512; i++)`, from `i` on
  unfoldable pub for_entries :
      (count i : ℕ) (body : ℕ → M (Memory A) (Unit {0})) → M (Memory A) (Unit {0})
  for_entries zero i body = pure tt
  for_entries (suc n) i body = do body i; for_entries n (suc i) body

module _ {A : Type 0} (al : Allocator A) where
  unfoldable pub uvmcreate : M (Memory A) ℕ
  uvmcreate = do
    pagetable ← kalloc al
    if pagetable == 0 then pure 0 else do zero_page pagetable; pure pagetable

  -- The recursion goes down one level of the page table each time: `depth` is 3.
  unfoldable pub freewalk : (depth pagetable : ℕ) → M (Memory A) (Unit {0})
  freewalk zero pagetable = fail "out of fuel"
  freewalk (suc n) pagetable = do
    for_entries 512 0 (λ i. do
      pte ← load_pte pagetable i
      if is_table pte
          then (do freewalk n pte.pa; store_pte pagetable i no_pte)
          else if pte.valid
          then fail "freewalk: leaf"
          else pure tt)
    kfree al pagetable

  unfoldable pub proc_freewalk : (depth pagetable : ℕ) → M (Memory A) (Unit {0})
  proc_freewalk zero pagetable = fail "out of fuel"
  proc_freewalk (suc n) pagetable = do
    for_entries 512 0 (λ i. do
      pte ← load_pte pagetable i
      if is_table pte
          then (do proc_freewalk n pte.pa; store_pte pagetable i no_pte)
          else if pte.valid
          then store_pte pagetable i no_pte
          else pure tt)
    kfree al pagetable

module _ {A : Type 0} (al : Allocator A) (pl : Platform) where
  unfoldable pub uvminit : (pagetable : ℕ) (src : ℕ → ℕ) (sz : ℕ) → M (Memory A) (Unit {0})
  uvminit pagetable src sz = if leb page_size sz then fail "inituvm: more than a page" else do
    mem ← kalloc al
    zero_page mem
    done ← mappages al pl pagetable 0 page_size mem user_perm
    memmove mem src sz

  unfoldable pub uvmdealloc : (pagetable oldsz newsz : ℕ) → M (Memory A) ℕ
  uvmdealloc pagetable oldsz newsz = if leb oldsz newsz then pure oldsz else do
    (if ltb (pl.pground_up newsz) (pl.pground_up oldsz)
        then uvmunmap al pl pagetable (pl.pground_up newsz)
            (int_to_u64 ((pl.pground_up oldsz - pl.pground_up newsz) / page_size)) true
        else pure tt)
    pure newsz

  -- The loop of `uvmalloc`. `oldsz` is the rounded one.
  unfoldable pub alloc_loop : (fuel pagetable a oldsz newsz : ℕ) → M (Memory A) ℕ
  alloc_loop zero pagetable a oldsz newsz = fail "out of fuel"
  alloc_loop (suc n) pagetable a oldsz newsz = if not (ltb a newsz) then pure newsz else do
    mem ← kalloc al
    if mem == 0 then (do r ← uvmdealloc pagetable a oldsz; pure 0) else do
      zero_page mem
      done ← mappages al pl pagetable a page_size mem user_perm
      if done
          then alloc_loop n pagetable (u64 (a + page_size)) oldsz newsz
          else do kfree al mem; r ← uvmdealloc pagetable a oldsz; pure 0

  unfoldable pub uvmalloc : (pagetable oldsz newsz : ℕ) → M (Memory A) ℕ
  uvmalloc pagetable oldsz newsz =
      if ltb newsz oldsz
      then pure oldsz
      else alloc_loop (newsz / page_size + 2) pagetable (pl.pground_up oldsz) (pl.pground_up oldsz)
          newsz

  unfoldable pub uvmfree : (pagetable sz : ℕ) → M (Memory A) (Unit {0})
  uvmfree pagetable sz = do
    (if ltb 0 sz then uvmunmap al pl pagetable 0 (pl.pground_up sz / page_size) true else pure tt)
    freewalk al 3 pagetable

  -- The loop of `uvmcopy`. The result tells 0 from -1.
  unfoldable pub copy_loop : (fuel old new i sz : ℕ) → M (Memory A) Bool
  copy_loop zero old new i sz = fail "out of fuel"
  copy_loop (suc n) old new i sz = if not (ltb i sz) then pure true else do
    slot ← walk al pl old i false
    given slot
        (λ (p, j). do
          pte ← load_pte p j
          if not pte.valid then fail "uvmcopy: page not present" else do
            mem ← kalloc al
            if mem == 0 then (do uvmunmap al pl new 0 (i / page_size) true; pure false) else do
              copy_page mem pte.pa
              done ← mappages al pl new i page_size mem pte.perm
              if done
                  then copy_loop n old new (u64 (i + page_size)) sz
                  else do kfree al mem; uvmunmap al pl new 0 (i / page_size) true; pure false)
        (fail "uvmcopy: pte should exist")

  unfoldable pub uvmcopy : (old new sz : ℕ) → M (Memory A) Bool
  uvmcopy old new sz = copy_loop (sz / page_size + 2) old new 0 sz

  unfoldable pub uvmclear : (pagetable va : ℕ) → M (Memory A) (Unit {0})
  uvmclear pagetable va = do
    slot ← walk al pl pagetable va false
    given slot
        (λ (p, i). do
          pte ← load_pte p i
          store_pte p i (record pte { perm = record pte.perm { u = false } }))
        (fail "uvmclear")

  -- The loop of `copyout`: each round copies at least one byte. `done` bytes of `src` are copied already.
  unfoldable pub copyout_loop :
      (fuel pagetable dstva : ℕ) (src : ℕ → ℕ) (done len : ℕ) → M (Memory A) Bool
  copyout_loop zero pagetable dstva src done len = pure true
  copyout_loop (suc n) pagetable dstva src done len = if not (ltb 0 len) then pure true else do
    let va0 = pl.pground_down dstva
    pa0 ← walkaddr al pl pagetable va0
    if pa0 == 0 then pure false else do
      let room = page_size - (dstva - va0)
      let count = if ltb len room then len else room
      memmove (pa0 + (dstva - va0)) (λ j. src (done + j)) count
      copyout_loop n pagetable (u64 (va0 + page_size)) src (done + count) (len - count)

  unfoldable pub copyout : (pagetable dstva : ℕ) (src : ℕ → ℕ) (len : ℕ) → M (Memory A) Bool
  copyout pagetable dstva src len = copyout_loop len pagetable dstva src 0 len

-- ===== src/Lab4/Tests.antt =====
-- A small memory with one mapped page, and what the operations of Lab4/kernel/vm.c do on it.
use hitsz_os.Base.{
  ℕ, zero, suc, ◌+◌, ◌-◌, ◌*◌, ◌/◌, ◌%◌, ◌^◌, ◌≡◌, ◌≢◌, ◌≤◌, ◌<◌, refl, Bool, true, false, none,
  some, not, ◌&&◌, arith, ◌==◌, ltb, if◌then◌else◌, Bool-cases, inl, inr,
}
use hitsz_os.Base.Kernel.{ok, Returns, EndsUnless, update}
use hitsz_os.Lab4.Memory.{Pte, no_pte, leaf_pte, table_pte, Allocator, Memory}
use hitsz_os.Lab4.PageTable.{Platform, px, walk, walkaddr, mappages, uvmunmap}
use hitsz_os.Lab4.PageTable.Tree.{lookup, IsTree, IsAllocator, OthersKept}
use hitsz_os.Lab4.PageTable.Walk.{Found, walk-Found}
use hitsz_os.Lab4.PageTable.Access.{walkaddr_lem}
use hitsz_os.Lab4.PageTable.Map.{Mapping, mappages-Mapping}
use hitsz_os.Lab4.PageTable.Supply.{CanTake}
use hitsz_os.Lab4.PageTable.Unmap.{TakesBack, Unmapped, uvmunmap-Unmapping}
use hitsz_os.Lab4.UserMemory.{user_perm, uvmdealloc}
use hitsz_os.Lab4.UserMemory.Shrink.{uvmdealloc-Unmapped}
use hitsz_os.Lab4.KernelMemory.{vmcopypage}
use hitsz_os.Lab4.KernelMemory.Copy.{Copying, vmcopypage-Copying, vmcopypage-last_page}

-- The pages are 4096, ..., 15 * 4096, and the allocator is the set of the free ones.
pub first_free : ℕ → (ℕ → Bool) → ℕ
first_free zero f = 0
first_free (suc n) f = let rest = first_free n f in if f (suc n) then suc n else rest

pub first_free_15 : first_free 15 (λ k. ltb 1 k) ≡ 15
unfolding first_free
first_free_15 = refl

abbrev pub in_range : ℕ → Bool
in_range x = ltb 0 x && ltb x 16

abbrev is_page : ℕ → Bool
is_page x = x % 4096 == 0 && in_range (x / 4096)

abbrev pages : Allocator (ℕ → Bool)
pages = record {
  take = λ f. (first_free 15 f * 4096, update f (first_free 15 f) false);
  give = λ x f. if is_page x then some (update f (x / 4096) true) else none;
  free = λ f x. is_page x && f (x / 4096);
}

pub first_free-free :
    (n : ℕ) (f : ℕ → Bool)
    → first_free n f ≢ 0
    → (f (first_free n f) ≡ true) × (0 < first_free n f) × (first_free n f ≤ n)
unfolding first_free
first_free-free zero f ne = ground (arith, ne)
first_free-free (suc n) f ne = elim (Bool-cases (f (suc n))) [
  | inl e ↦ rw e (e, omega arith, omega arith)
  | inr taken ↦
      let (free, positive, below) = first_free-free n f (rw taken at ne) in
      rw taken (free, positive, omega arith)
]

pages-IsAllocator : IsAllocator pages
pages-IsAllocator = record {
  taken = λ f ne. ground (arith, first_free-free 15 f);
  aligned = λ f. omega arith;
  rest = λ f x. ground arith;
}

pages-TakesBack : TakesBack pages is_page
pages-TakesBack = record {
  back = λ x f e. (update f (x / 4096) true, rw e refl, λ y. ground (arith, e));
}

abbrev pub board : Platform
board = record {
  maxva = 2 ^ 38;
  pground_down = λ x. x / 4096 * 4096;
  pground_up = λ x. (x + 4095) / 4096 * 4096;
  uart0 = 0;
  virtio0 = 0;
  clint = 0;
  plic = 201326592;
  kernbase = 2147483648;
  etext = 2147516416;
  phystop = 2281701376;
  trampoline = 274877902848;
  trampoline_pa = 2147511296;
  trapframe = 274877898752;
}

-- Page 1 is the root of a user table, in which page 0 is mapped to page 5; page 2 is an empty root.
abbrev rank : ℕ → ℕ
rank p =
    if p == 4096
    then 3
    else if p == 8192
    then 3
    else if p == 12288
    then 2
    else if p == 16384
    then 1
    else 0

abbrev leaf : Pte
leaf = leaf_pte 20480 user_perm

abbrev tables : ℕ → ℕ → Pte
tables p i =
    if not (i == 0)
    then no_pte
    else if p == 4096
    then table_pte 12288
    else if p == 12288
    then table_pte 16384
    else if p == 16384
    then leaf
    else no_pte

abbrev mem : Memory (ℕ → Bool)
mem = record { tables = tables; bytes = λ a. 0; alloc = λ p. ltb 5 p }

mem-IsTree : IsTree pages rank mem
mem-IsTree = record {
  down = λ k p i e v. ground arith;
  once = λ k p i q j e e' v v' same. ground arith;
  unfree = λ p f. ground arith;
  zero_rank = refl;
}

walks_4096 :
    Returns
      (Found pages pages-IsAllocator rank mem 2 4096 4096)
      (walk pages board 4096 4096 true mem)
walks_4096 = walk-Found pages pages-IsAllocator board true rank mem 4096 4096 mem-IsTree refl

walked_5 : walkaddr pages board 4096 0 mem ≡ ok (20480, mem)
unfolding lookup
walked_5 = walkaddr_lem pages board 4096 0 mem

next_page_unmapped :
    (x : ℕ) → x < 2 ^ 39 → 1 ≤ x / 4096 → x / 4096 ≤ 1 → lookup tables 2 4096 x ≡ none
unfolding lookup
next_page_unmapped x small low high =
    let top : px 2 x ≡ 0 = omega arith in
    let middle : px 1 x ≡ 0 = omega arith in
    let bottom : px 0 x ≡ 1 = omega arith in rw (top, middle, bottom) refl

maps_4096 :
    Returns
      (Mapping pages rank mem 4096 1 1 8192 user_perm)
      (mappages pages board 4096 4096 4096 8192 user_perm mem)
maps_4096 =
    mappages-Mapping pages board pages-IsAllocator (omega arith) (λ x. refl) rank mem mem-IsTree
      4096 refl 4096 4096 8192 user_perm (omega arith) (omega arith) (omega arith)
      next_page_unmapped

page_removable : (va : ℕ) → va < 4096 → lookup tables 2 4096 va ≡ some leaf
unfolding lookup
page_removable va below =
    let top : px 2 va ≡ 0 = omega arith in
    let middle : px 1 va ≡ 0 = omega arith in
    let bottom : px 0 va ≡ 0 = omega arith in rw (top, middle, bottom) refl

unmaps_0 :
    Returns
      (λ _ t.
        IsTree pages rank t
        × Unmapped pages mem 4096 0 1 true t
        × OthersKept rank 4096 mem.tables t.tables)
      (uvmunmap pages board 4096 0 1 true mem)
unmaps_0 =
    uvmunmap-Unmapping pages is_page board pages-TakesBack (omega arith) rank 4096 refl true mem
      mem-IsTree 0 1 refl (omega arith)
      (λ va small low high.
        (leaf, page_removable va (omega arith), (refl, refl, λ yes. (refl, refl))))

copies_0 :
    EndsUnless
      (Copying pages pages-IsAllocator board (omega arith) 4096 8192 (omega arith) mem 0 1)
      (¬ (CanTake pages 2 mem.alloc))
      "vmcopypage"
      (vmcopypage pages board 4096 8192 0 4096 mem)
copies_0 =
    vmcopypage-Copying pages pages-IsAllocator board (omega arith) 4096 8192 (omega arith) rank mem
      mem-IsTree refl refl 0 4096 (omega arith)
      (λ j less. (leaf, page_removable (0 + j * 4096) (omega arith)))

missed_1 :
    EndsUnless
      (λ _ t. lookup t.tables 2 8192 (100 + 4096 - 1) ≡ lookup tables 2 8192 (100 + 4096 - 1))
      (¬ (CanTake pages 2 mem.alloc))
      "vmcopypage"
      (vmcopypage pages board 4096 8192 100 4096 mem)
missed_1 =
    vmcopypage-last_page pages pages-IsAllocator board (omega arith) 4096 8192 (omega arith) rank
      mem mem-IsTree refl refl 100 4096 (omega arith) (omega arith) refl (omega arith)
      (λ j less. (leaf, page_removable (100 + j * 4096) (omega arith)))

shrunk_0 :
    Returns
      (λ r t.
        (r ≡ 0)
        × IsTree pages rank t
        × Unmapped pages mem 4096 0 1 true t
        × OthersKept rank 4096 mem.tables t.tables)
      (uvmdealloc pages board 4096 4096 0 mem)
shrunk_0 =
    uvmdealloc-Unmapped pages board (omega arith) rank 4096 refl is_page pages-TakesBack (λ x. refl)
      mem mem-IsTree 4096 0 (omega arith)
      (λ va small low high.
        (leaf, page_removable va (omega arith), (refl, refl, λ yes. (refl, refl))))

-- ===== src/Lab4/UserMemory/Tests.antt =====
-- A memory of aligned pages, and what `uvmalloc` of Lab4/kernel/vm.c does in it.
use hitsz_os.Base.{
  ℕ, ◌*◌, ◌/◌, ◌%◌, ◌≡◌, refl, Bool, true, false, none, some, not, ◌&&◌, arith, ◌==◌, ltb,
  if◌then◌else◌,
}
use hitsz_os.Base.Kernel.{Returns, update}
use hitsz_os.Lab4.Memory.{Pte, no_pte, leaf_pte, table_pte, Allocator, Memory}
use hitsz_os.Lab4.PageTable.Tree.{lookup, IsTree, IsAllocator}
use hitsz_os.Lab4.PageTable.Unmap.{TakesBack}
use hitsz_os.Lab4.UserMemory.{user_perm, uvmalloc, uvmcopy}
use hitsz_os.Lab4.UserMemory.Extended.{Added}
use hitsz_os.Lab4.UserMemory.Grow.{for_user, zeros, uvmalloc-Added}
use hitsz_os.Lab4.UserMemory.Duplicate.{perms_like, bytes_like, uvmcopy-Added}
use hitsz_os.Lab4.Tests.{first_free, first_free-free, in_range, board}

-- The pages start at 4096, 8192, ..., 15 * 4096.
abbrev pub is_frame : ℕ → Bool
is_frame x = x % 4096 == 0 && in_range (x / 4096)

abbrev pub frames : Allocator (ℕ → Bool)
frames = record {
  take = λ f. (first_free 15 f * 4096, update f (first_free 15 f) false);
  give = λ x f. if is_frame x then some (update f (x / 4096) true) else none;
  free = λ f x. is_frame x && f (x / 4096);
}

pub frames-IsAllocator : IsAllocator frames
frames-IsAllocator = record {
  taken = λ f ne. ground (arith, first_free-free 15 f);
  aligned = λ f. omega arith;
  rest = λ f x. ground arith;
}

pub frames-TakesBack : TakesBack frames is_frame
frames-TakesBack = record {
  back = λ x f e. (update f (x / 4096) true, rw e refl, λ y. ground (arith, e));
}

-- Page 1 is an empty root.
abbrev pub root_rank : ℕ → ℕ
root_rank p = if p == 4096 then 3 else 0

abbrev pub bare : Memory (ℕ → Bool)
bare = record { tables = λ p i. no_pte; bytes = λ a. 7; alloc = λ k. ltb 1 k }

pub bare-IsTree : IsTree frames root_rank bare
bare-IsTree = record {
  down = λ k p i e v. ground arith;
  once = λ k p i q j e e' v v' same. ground arith;
  unfree = λ p f. ground arith;
  zero_rank = refl;
}

grows_8192 :
    Returns
      (λ r t.
        (done : Bool) × (r ≡ (if done then 8192 else 0))
        × Added frames root_rank bare 4096 0 for_user zeros 2 done t)
      (uvmalloc frames board 4096 0 8192 bare)
unfolding lookup
grows_8192 =
    uvmalloc-Added frames board frames-IsAllocator (omega arith) is_frame frames-TakesBack
      (λ x e. ground arith) (λ x. refl) (λ x. refl) root_rank bare 4096 bare-IsTree refl
      (λ x f. ground arith) (λ x f. ground arith) 0 8192 (omega arith) (λ va below from to. refl)

-- Page 1 is the root of a table that maps page 0 to page 4; page 5 is an empty root.
abbrev family_rank : ℕ → ℕ
family_rank p =
    if p == 4096
    then 3
    else if p == 20480
    then 3
    else if p == 8192
    then 2
    else if p == 12288
    then 1
    else 0

abbrev pub parent_leaf : Pte
parent_leaf = leaf_pte 16384 user_perm

abbrev family_tables : ℕ → ℕ → Pte
family_tables p i =
    if not (i == 0)
    then no_pte
    else if p == 4096
    then table_pte 8192
    else if p == 8192
    then table_pte 12288
    else if p == 12288
    then parent_leaf
    else no_pte

abbrev family : Memory (ℕ → Bool)
family = record { tables = family_tables; bytes = λ a. a % 256; alloc = λ k. ltb 5 k }

family-IsTree : IsTree frames family_rank family
family-IsTree = record {
  down = λ k p i e v. ground arith;
  once = λ k p i q j e e' v v' same. ground arith;
  unfree = λ p f. ground arith;
  zero_rank = refl;
}

parent_page : lookup family_tables 2 4096 0 ≡ some parent_leaf
unfolding lookup
parent_page = refl

child_page : (va : ℕ) → lookup family_tables 2 20480 va ≡ none
unfolding lookup
child_page va = ground arith

copies_100 :
    Returns
      (λ done t.
        Added frames family_rank family 20480 0
          (perms_like (λ k. parent_leaf))
          (bytes_like family (λ k. parent_leaf))
          1
          done
          t)
      (uvmcopy frames board 4096 20480 100 family)
copies_100 =
    uvmcopy-Added frames board frames-IsAllocator (omega arith) is_frame frames-TakesBack
      (λ x e. ground arith) (λ x. refl) family_rank family family-IsTree 4096 20480 refl refl
      (ground arith) (λ x f. ground arith) (λ x f. ground arith) 100 (omega arith)
      (λ k. parent_leaf) (λ k less. (ground (arith, parent_page), refl, refl, refl))
      (λ va below less. child_page va)

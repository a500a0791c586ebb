-- ===== src/Lab3/Kalloc/Pool.antt =====
-- What the allocator of Lab3/kernel/kalloc.c stands for: a list of free pages for each CPU.
use hitsz_os.Base.{ℕ, zero, suc, ◌+◌, ◌%◌, ◌≤◌, ◌≡◌, true, List, [], ◌∷◌, arith}
use hitsz_os.Pages.{Layout, is_page, Chain}
use hitsz_os.Base.Kernel.{update}
use hitsz_os.Base.Sets.{has, Distinct, All}
use hitsz_os.Lab3.Kalloc.{Kmems}
use hitsz_os.Pages.{Layout, is_page}

abbrev pub Pool : Type 0
Pool = ℕ → List ℕ

-- The state `s` of the code stands for the pool `f`: the lists in memory are those of `f`, every
-- entry is a page, no page is in two places, and there are lists for `ncpu` CPUs alone.
pub record Implements (l : Layout) (s : Kmems) (f : Pool) : Type 0 where
  pub chain : (k : ℕ) → Chain s.word (s.freelist k) (f k)
  pub pages : (k : ℕ) → All (λ x. is_page l x ≡ true) (f k)
  pub nodup : (k : ℕ) → Distinct (f k)
  pub apart : (x i j : ℕ) → has x (f i) ≡ true → has x (f j) ≡ true → i ≡ j
  pub bounded : (k : ℕ) → l.ncpu ≤ k → f k ≡ []

-- The first page of the first list that is not empty, in the order of `ks`; 0 if all are empty.
unfoldable pub take_first : Pool → List ℕ → ℕ × Pool
take_first f [] = (0, f)
take_first f (k ∷ ks) = elim (f k) [ [] ↦ take_first f ks | x ∷ xs ↦ (x, update f k xs) ]

pub take_first-nil :
    (f : Pool) (k : ℕ) (ks : List ℕ) → f k ≡ [] → take_first f (k ∷ ks) ≡ take_first f ks
unfolding take_first
take_first-nil f k ks e = ground arith

pub take_first-cons :
    (f : Pool) (k : ℕ) (ks : List ℕ) (x : ℕ) (xs : List ℕ)
    → f k ≡ x ∷ xs
    → take_first f (k ∷ ks) ≡ (x, update f k xs)
unfolding take_first
take_first-cons f k ks x xs e = rw (e, take_first)

-- The CPUs that `steal` visits.
unfoldable pub visits : (id ncpu n i : ℕ) → List ℕ
visits id ncpu zero i = []
visits id ncpu (suc n) i = ((id + i) % ncpu) ∷ visits id ncpu n (i + 1)

abbrev pub give : Pool → ℕ → ℕ → Pool
give f id pa = update f id (pa ∷ f id)

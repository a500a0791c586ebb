-- ===== src/Lab3/Kalloc/Exhausted.antt =====
-- `kalloc`: when it fails.
use hitsz_os.Base.{
  ℕ, zero, suc, ◌≡◌, ◌≢◌, ◌+◌, ◌-◌, ◌<◌, ◌≤◌, ◌↔◌, refl, true, List, [], ◌∷◌, arith, ◌==◌, ==_iff,
  ◌∙◌, ap, dec_lt, ◌%◌, Bool-cases, inl, inr,
}
use hitsz_os.Base.Sets.{has}
use hitsz_os.Lab3.Kalloc.{Kmems, kalloc}
use hitsz_os.Pages.{Layout}
use hitsz_os.Lab3.Kalloc.Pool.{
  Pool, Implements, take_first, take_first-nil, take_first-cons, visits,
}
use hitsz_os.Pages.{Chain}
use hitsz_os.Lab3.Kalloc.Alloc.{order, kalloc-take_first}
use hitsz_os.Base.Kernel.{ok}
use hitsz_os.Lab3.Kalloc.Take.{Gives}

-- the list of `k` is empty if it was visited
has-visits :
    (id ncpu n i j : ℕ) → i ≤ j → j < i + n → has ((id + j) % ncpu) (visits id ncpu n i) ≡ true
unfolding visits
has-visits id ncpu zero i j lo hi = absurd (omega arith)
has-visits id ncpu (suc n) i j lo hi = elim (Bool-cases (i == j)) [
  | inl e ↦ ground arith
  | inr ne ↦ ground (arith, has-visits id ncpu n (i + 1) j)
]

-- `k` is the CPU that is `k + ncpu - id` places behind `id`
place : (id k ncpu : ℕ) → id < ncpu → k < ncpu → id ≢ k → (id + (k + ncpu - id) % ncpu) % ncpu ≡ k
place id k ncpu hi hk ne = grind arith

distance_pos : (id k ncpu : ℕ) → id < ncpu → k < ncpu → id ≢ k → 1 ≤ (k + ncpu - id) % ncpu
distance_pos id k ncpu hi hk ne = grind arith

has-order : (l : Layout) (id k : ℕ) → id < l.ncpu → k < l.ncpu → has k (order l id) ≡ true
has-order l id k hi hk = elim (Bool-cases (k == id)) [
  | inl own ↦ ground arith
  | inr other ↦
      let d = (k + l.ncpu - id) % l.ncpu in
      let reach : has ((id + d) % l.ncpu) (visits id l.ncpu (l.ncpu - 1) 1) ≡ true =
        has-visits id l.ncpu (l.ncpu - 1) 1 d (distance_pos id k l.ncpu hi hk (ground arith))
          (grind arith) in
      rw other (rw (place id k l.ncpu hi hk (ground arith)) at reach)
]

zero-take_first :
    (f : Pool) (ks : List ℕ) → ((k : ℕ) → has k ks ≡ true → f k ≡ []) → take_first f ks ≡ (0, f)
unfolding take_first
zero-take_first f [] empty = refl
zero-take_first f (k ∷ ks) empty =
    take_first-nil f k ks (empty k (ground arith))
    ∙ zero-take_first f ks (λ j h. empty j (ground arith))

module _ {l : Layout} {s : Kmems} where
  take_first-zero :
      (f : Pool) (ks : List ℕ)
      → Implements l s f
      → (take_first f ks).0 ≡ 0
      → (k : ℕ) → has k ks ≡ true
      → f k ≡ []
  take_first-zero f [] im h k m = cc
  take_first-zero f (j ∷ ks) im h k m = go (f j) refl (take_first-zero f ks im) (im.chain j)
    where
      go :
          (xs : List ℕ)
          → f j ≡ xs
          → ((take_first f ks).0 ≡ 0 → (k : ℕ) → has k ks ≡ true → f k ≡ [])
          → Chain s.word (s.freelist j) (f j)
          → f k ≡ []
      go [] e rest c = elim (Bool-cases (k == j)) [
        | inl here ↦ rw ((==_iff k j).0 here) e
        | inr away ↦ rest (rw (take_first-nil f j ks e) at h) k (rw away at m)
      ]
      go (x ∷ xs) e rest c = absurd ((rw e at c).1 (rw (take_first-cons f j ks x xs e) at h))

  -- From a state that stands for a pool, and on a CPU of the machine, `kalloc` returns 0 exactly
  -- when the lists of all CPUs are empty.
  pub kalloc_exhausted :
      (f : Pool) (id : ℕ)
      → Implements l s f
      → id < l.ncpu
      → ((t : Kmems) × (kalloc l id s ≡ ok (0, t))) ↔ ((k : ℕ) → f k ≡ [])
  kalloc_exhausted f id im lt = (forward, backward)
    where
      result : Gives l (take_first f (order l id)) (kalloc l id s)
      result = kalloc-take_first id im

      forward : ((t : Kmems) × (kalloc l id s ≡ ok (0, t))) → (k : ℕ) → f k ≡ []
      forward (t, run) k = elim (dec_lt k l.ncpu) [
        | yes in_range ↦
            take_first-zero f (order l id) im (cc (result.1)) k (has-order l id k lt in_range)
        | no beyond ↦ im.bounded k (omega arith)
      ]

      backward : ((k : ℕ) → f k ≡ []) → (t : Kmems) × (kalloc l id s ≡ ok (0, t))
      backward empty = (
        result.0,
        result.1
            ∙ ap (λ r. ok (r, result.0))
                (ap (λ q. q.0) (zero-take_first f (order l id) (λ k _. empty k))),
      )

-- ===== src/Lab4/PageTable/Supply.antt =====
-- How many pages the allocator still has for the page tables of Lab4/kernel/vm.c.
use mathlib.Core.Path.{subst}
use hitsz_os.Base.{ℕ, zero, suc, ◌+◌, ◌≡◌, ◌≢◌, ◌≤◌, ◌-◌, Bool, true, false, arith, if◌then◌else◌}
use hitsz_os.Lab4.Memory.{Allocator}

-- `n` pages can be taken, one after the other.
abbrev pub CanTake : {A : Type 0} → Allocator A → (n : ℕ) → A → Type 0
CanTake al zero a = Unit
CanTake al (suc n) a = ((al.take a).0 ≢ 0) × CanTake al n (al.take a).1

-- From `a` to `b`, at most `k` pages are gone.
abbrev pub Supply : {A : Type 0} → Allocator A → (k : ℕ) → A → A → Type 0
Supply al k a b = (n : ℕ) → CanTake al (k + n) a → CanTake al n b

-- An operation that needs at most `k` pages has got them, or else there are not that many.
abbrev pub Supplied : {A : Type 0} → Allocator A → (k : ℕ) (got : Bool) → A → A → Type 0
Supplied al k got a b = if got then Supply al k a b else ¬ (CanTake al k a)

module _ {A : Type 0} (al : Allocator A) where
  CanTake-one_less : (n : ℕ) (a : A) → CanTake al (suc n) a → CanTake al n a
  CanTake-one_less zero a more = tt
  CanTake-one_less (suc n) a (one, more) = (one, CanTake-one_less n (al.take a).1 more)

  CanTake-same : (m n : ℕ) (a : A) → m ≡ n → CanTake al m a → CanTake al n a
  CanTake-same m n a e = subst (λ k. CanTake al k a) e

  CanTake-fewer : (k n : ℕ) (a : A) → CanTake al (k + n) a → CanTake al n a
  CanTake-fewer zero n a more = CanTake-same (zero + n) n a (omega arith) more
  CanTake-fewer (suc k) n a more =
      CanTake-fewer k n a
        (CanTake-one_less (k + n) a (CanTake-same (suc k + n) (suc (k + n)) a (omega arith) more))

  CanTake-less : (m n : ℕ) (a : A) → m ≤ n → CanTake al n a → CanTake al m a
  CanTake-less m n a le more =
      CanTake-fewer (n - m) m a (CanTake-same n (n - m + m) a (omega arith) more)

  pub Supply-refl : (k : ℕ) (a : A) → Supply al k a a
  Supply-refl k a n = CanTake-fewer k n a

  pub Supply-trans :
      (j k : ℕ) (a b c : A) → Supply al j a b → Supply al k b c → Supply al (j + k) a c
  Supply-trans j k a b c first next n can =
      next n (first (k + n) (CanTake-same (j + k + n) (j + (k + n)) a (omega arith) can))

  pub cannot_more : (m n : ℕ) (a : A) → m ≤ n → ¬ (CanTake al m a) → ¬ (CanTake al n a)
  cannot_more m n a le cannot can = cannot (CanTake-less m n a le can)

  pub cannot_then :
      (j k : ℕ) (a b : A) → Supply al j a b → ¬ (CanTake al k b) → ¬ (CanTake al (j + k) a)
  cannot_then j k a b first cannot can = cannot (first k can)

  pub Supply-mono : (j k : ℕ) (a b : A) → j ≤ k → Supply al j a b → Supply al k a b
  Supply-mono j k a b le first n can = first n (CanTake-less (j + n) (k + n) a (omega arith) can)

  pub Supplied-more :
      (j k : ℕ) (got : Bool) (a b c : A)
      → Supply al j a b
      → Supplied al k got b c
      → Supplied al (j + k) got a c
  Supplied-more j k true a b c first next = Supply-trans j k a b c first next
  Supplied-more j k false a b c first next = cannot_then j k a b first next

  -- the allocator gives a page, or 0
  pub Supply-take : (a : A) → (al.take a).0 ≢ 0 → Supply al 1 a (al.take a).1
  Supply-take a ne n can =
      let can' : CanTake al (suc n) a = CanTake-same (1 + n) (suc n) a (omega arith) can in can'.1

  pub cannot_take : (a : A) → (al.take a).0 ≡ 0 → ¬ (CanTake al 1 a)
  cannot_take a full can = can.0 full

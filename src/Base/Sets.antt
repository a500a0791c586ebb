-- ===== src/Base/Sets.antt =====
-- Lists of numbers as sets: membership as a test, lists without repetition, one entry removed.
use Prim.Native.Nat.{ℕ, zero, suc, ◌+◌, ◌*◌, ◌%◌, ◌≤◌, ◌<◌}
use native.Mathlib.Omega.{arith}
use hitsz_os.Base.Lists.{length}
use mathlib.Core.Path.{◌≡◌, refl, sym, subst}
use mathlib.Core.Logic.{◌≢◌, inl, inr}
use mathlib.Core.Bool.{Bool, true, false, not, ◌&&◌, ◌||◌, false≢true}
use mathlib.Core.List.{List, [], ◌∷◌, ◌++◌}
use hitsz_os.Base.Tests.{◌==◌, ==_iff, if◌then◌else◌, Bool-cases}

abbrev pub has : ℕ → List ℕ → Bool
has a [] = false
has a (x ∷ xs) = (a == x) || has a xs

abbrev pub Distinct : List ℕ → Type 0
Distinct [] = Unit
Distinct (x ∷ xs) = (has x xs ≡ false) × Distinct xs

abbrev pub erase : ℕ → List ℕ → List ℕ
erase a [] = []
erase a (x ∷ xs) = if a == x then xs else x ∷ erase a xs

abbrev pub All {ℓ κ} : {A : Type ℓ} → (A → Type κ) → List A → Type κ
All P [] = Unit
All P (x ∷ xs) = P x × All P xs

pub All-has {ℓ} : (P : ℕ → Type ℓ) (xs : List ℕ) (a : ℕ) → All P xs → has a xs ≡ true → P a
All-has P [] a h m = elim (false≢true m) [ ]
All-has P (x ∷ xs) a h m = elim (Bool-cases (a == x)) [
  | inl e ↦ subst P (sym ((==_iff a x).0 e)) h.0
  | inr ne ↦ All-has P xs a h.1 (rw ne at m)
]

pub has-ne : (a b : ℕ) (xs : List ℕ) → has a xs ≡ true → has b xs ≡ false → a ≢ b
has-ne a b xs h k e = cc

pub has-erase :
    (a y : ℕ) (xs : List ℕ) → Distinct xs → has y (erase a xs) ≡ (not (y == a) && has y xs)
has-erase a y [] d = ground arith
has-erase a y (x ∷ xs) d = ground (arith, has-erase a y xs d.1)

pub Distinct-erase : (a : ℕ) (xs : List ℕ) → Distinct xs → Distinct (erase a xs)
Distinct-erase a [] d = tt
Distinct-erase a (x ∷ xs) d = ground (arith, has-erase a x xs d.1, Distinct-erase a xs d.1)

pub length-erase : (a : ℕ) (xs : List ℕ) → length xs ≤ length (erase a xs) + 1
length-erase a [] = omega arith
length-erase a (x ∷ xs) = ground (arith, length-erase a xs)

-- A list without repetition has at most `n` pages below the `n`-th.
pub length-pages :
    (n : ℕ) (xs : List ℕ)
    → Distinct xs
    → ((x : ℕ) → has x xs ≡ true → (x % 4096 ≡ 0) × (x < n * 4096))
    → length xs ≤ n
length-pages zero [] dis low = omega arith
length-pages zero (x ∷ xs) dis low = absurd (omega (arith, low x (ground arith)))
length-pages (suc n) xs dis low = omega (
  arith,
  length-erase (n * 4096) xs,
  length-pages n (erase (n * 4096) xs) (Distinct-erase (n * 4096) xs dis)
      (λ x h. ground (arith, has-erase (n * 4096) x xs dis, low x)),
)

pub has-append : (a : ℕ) (xs ys : List ℕ) → has a (xs ++ ys) ≡ (has a xs || has a ys)
has-append a [] ys = refl
has-append a (x ∷ xs) ys = ground (arith, has-append a xs ys)

-- A list without repetition of numbers below `n` has at most `n` entries.
pub length-below :
    (n : ℕ) (xs : List ℕ) → Distinct xs → ((x : ℕ) → has x xs ≡ true → x < n) → length xs ≤ n
length-below zero [] dis low = omega arith
length-below zero (x ∷ xs) dis low = absurd (omega (arith, low x (ground arith)))
length-below (suc n) xs dis low = omega (
  arith,
  length-erase n xs,
  length-below n (erase n xs) (Distinct-erase n xs dis)
      (λ x h. ground (arith, has-erase n x xs dis, low x)),
)

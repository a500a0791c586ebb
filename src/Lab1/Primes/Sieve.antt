-- ===== src/Lab1/Primes/Sieve.antt =====
-- Lab1/primes.c: which numbers the sieve prints.
use native.Mathlib.Nat.{dvd_trans, mod-eq-zero_of_dvd, dvd_of_mod-eq-zero, zero-mod}
use hitsz_os.Base.{
  ℕ, zero, suc, ◌+◌, ◌%◌, ◌≡◌, ◌≢◌, ◌≤◌, ◌<◌, ap, refl, true, false, not, ◌&&◌, leb, ltb, ◌==◌,
  if◌then◌else◌, List, [], ◌∷◌, ◌++◌, arith, Bool-cases, inl, inr, length, ◌↔◌,
}
use hitsz_os.Base.Sets.{has}
use hitsz_os.Lab1.Primes.{read_low, low_byte, filter_loop, primes, numbers}

-- The numbers grow, from above `lo` on, and each fits into a byte.
pub Ascending : (lo : ℕ) → List ℕ → Type 0
Ascending lo [] = Unit
Ascending lo (x ∷ xs) = (lo < x) × (x < 256) × Ascending x xs

-- what a process writes to its child, without the 0
abbrev kept : (num : ℕ) → List ℕ → List ℕ
kept num [] = []
kept num (x ∷ xs) = let rest = kept num xs in if x % num == 0 then rest else x ∷ rest

-- the 0 behind the numbers
abbrev pub ended : List ℕ → List ℕ
ended xs = xs ++ (0 ∷ [])

mod_trans : (a y x : ℕ) → y % a ≡ 0 → x % y ≡ 0 → x % a ≡ 0
mod_trans a y x h h' =
    mod-eq-zero_of_dvd a (dvd_trans a (dvd_of_mod-eq-zero a h) (dvd_of_mod-eq-zero y h'))

Ascending-lower : (lo lo' : ℕ) (xs : List ℕ) → lo ≤ lo' → Ascending lo' xs → Ascending lo xs
unfolding Ascending
Ascending-lower lo lo' [] less h = tt
Ascending-lower lo lo' (x ∷ xs) less (low, small, rest) = (omega arith, small, rest)

Ascending-kept : (num lo : ℕ) (xs : List ℕ) → Ascending lo xs → Ascending lo (kept num xs)
unfolding Ascending
Ascending-kept num lo [] h = tt
Ascending-kept num lo (x ∷ xs) (low, small, rest) = elim (Bool-cases (x % num == 0)) [
  | inl e ↦ rw e (Ascending-lower lo x (kept num xs) (omega arith) (Ascending-kept num x xs rest))
  | inr ne ↦ rw ne (low, small, Ascending-kept num x xs rest)
]

Ascending-has : (lo x : ℕ) (xs : List ℕ) → Ascending lo xs → has x xs ≡ true → lo < x
unfolding Ascending
Ascending-has lo x [] h m = ground arith
Ascending-has lo x (y ∷ xs) (low, small, rest) m = ground (arith, Ascending-has y x xs rest)

has-kept : (num x : ℕ) (xs : List ℕ) → has x (kept num xs) ≡ (has x xs && not (x % num == 0))
has-kept num x [] = refl
has-kept num x (y ∷ xs) = elim (Bool-cases (y % num == 0)) [
  | inl e ↦ rw e (ground (arith, has-kept num x xs, e))
  | inr ne ↦ rw ne (ground (arith, has-kept num x xs, ne))
]

length-kept : (num : ℕ) (xs : List ℕ) → length (kept num xs) ≤ length xs
length-kept num [] = omega arith
length-kept num (y ∷ xs) = ground (arith, length-kept num xs)

filter_loop-kept :
    (num n lo : ℕ) (xs : List ℕ)
    → 0 < num
    → n < 256
    → Ascending lo xs
    → filter_loop num n (ended xs) ≡ ended (kept num xs)
unfolding filter_loop read_low Ascending
filter_loop-kept num n lo [] positive small h =
    let z : read_low n 0 ≡ 0 = omega arith in rw (z, zero-mod num) refl
filter_loop-kept num n lo (x ∷ xs) positive small (low, byte, rest) =
    let same : read_low n x ≡ x = omega arith in
    let nonzero : (x == 0) ≡ false = ground arith in
    let byte_same : low_byte x ≡ x = omega arith in
    rw (same, nonzero, filter_loop-kept num x x xs positive byte rest)
      (elim (Bool-cases (x % num == 0)) [ inl e ↦ rw e refl | inr ne ↦ rw (ne, byte_same) refl ])

-- What is printed of `xs`: what no smaller number of `xs` divides.
pub record Sieved (xs out : List ℕ) : Type 0 where
  pub printed :
      (x : ℕ)
      → has x out ≡ true
      → (has x xs ≡ true) × ((y : ℕ) → has y xs ≡ true → y < x → x % y ≢ 0)
  pub complete :
      (x : ℕ) → has x xs ≡ true → ((y : ℕ) → has y xs ≡ true → y < x → x % y ≢ 0) → has x out ≡ true

Sieved-more :
    (x : ℕ) (xs out : List ℕ)
    → Ascending 0 (x ∷ xs)
    → Sieved (kept x xs) out
    → Sieved (x ∷ xs) (x ∷ out)
unfolding Ascending
Sieved-more x xs out (positive, small, rest) below = record {
  printed = λ z m. elim (Bool-cases (z == x)) [
    | inl e ↦
        (ground (arith, e), λ y my less divides. ground (arith, e, my, Ascending-has x y xs rest))
    | inr ne ↦
        let in_out : has z out ≡ true = ground (arith, m, ne) in
        let (in_kept, indivisible) = below.printed z in_out in
        (
          ground (arith, has-kept x z xs, in_kept),
          λ y my less divides. ground (
            arith,
            my,
            in_kept,
            has-kept x z xs,
            has-kept x y xs,
            mod_trans x y z,
            indivisible y,
          ),
        )
  ];
  complete = λ z m indivisible. elim (Bool-cases (z == x)) [
    | inl e ↦ rw e refl
    | inr ne ↦
        let in_xs : has z xs ≡ true = ground (arith, m, ne) in
        let above : x < z = Ascending-has x z xs rest in_xs in
        let odd : z % x ≢ 0 = indivisible x (ground arith) above in
        rw ne (
          below.complete z (ground (arith, has-kept x z xs, in_xs, odd))
            (λ y k less. indivisible y (ground (arith, has-kept x y xs, k)) less))
  ];
}

primes-Sieved :
    (fuel junk : ℕ) (xs : List ℕ)
    → length xs < fuel
    → junk < 256
    → Ascending 0 xs
    → Sieved xs (primes fuel junk (ended xs))
unfolding primes read_low Ascending
primes-Sieved zero junk xs enough small h = ground arith
primes-Sieved (suc fuel) junk [] enough small h =
    let z : read_low junk 0 ≡ 0 = omega arith in
    rw z (record { printed = λ x m. ground (arith, m); complete = λ x m i. m })
primes-Sieved (suc fuel) junk (x ∷ xs) enough small (positive, byte, rest) =
    let same : read_low junk x ≡ x = omega arith in
    let nonzero : (x == 0) ≡ false = ground arith in
    rw (same, nonzero, filter_loop-kept x junk x xs positive small rest)
      (Sieved-more x xs (primes fuel junk (ended (kept x xs))) (positive, byte, rest)
        (primes-Sieved fuel junk (kept x xs) (omega (arith, length-kept x xs, enough)) small
          (Ascending-kept x 0 xs (Ascending-lower 0 x xs (omega arith) rest))))

-- i, ..., i + n - 1
abbrev upto : (n i : ℕ) → List ℕ
upto zero i = []
upto (suc n) i = i ∷ upto n (suc i)

numbers-upto : (n i : ℕ) → i + n ≤ 256 → numbers n i ≡ ended (upto n i)
unfolding numbers
numbers-upto zero i below = refl
numbers-upto (suc n) i below =
    let same : low_byte i ≡ i = omega arith in rw (same, numbers-upto n (suc i) (omega arith)) refl

Ascending-upto : (n i lo : ℕ) → lo < i → i + n ≤ 256 → Ascending lo (upto n i)
unfolding Ascending
Ascending-upto zero i lo low high = tt
Ascending-upto (suc n) i lo low high =
    (low, omega arith, Ascending-upto n (suc i) i (omega arith) (omega arith))

has-upto : (x n i : ℕ) → has x (upto n i) ≡ (leb i x && ltb x (i + n))
has-upto x zero i = ground arith
has-upto x (suc n) i = ground (arith, has-upto x n (suc i))

length-upto : (n i : ℕ) → length (upto n i) ≡ n
length-upto zero i = refl
length-upto (suc n) i = ap suc (length-upto n (suc i))

-- The processes print a number x exactly if it is a prime number among 2, ..., n + 1: no number from 2 up
-- to x - 1 divides it. This holds for n up to 254, where each number fits into the byte that is written,
-- and if the upper bytes of `num` and `n` are 0 before the first read.
pub primes-prime :
    (fuel junk n x : ℕ)
    → n < fuel
    → junk < 256
    → n ≤ 254
    → (has x (primes fuel junk (numbers n 2)) ≡ true)
      ↔ ((2 ≤ x) × (x < n + 2) × ((y : ℕ) → 2 ≤ y → y < x → x % y ≢ 0))
primes-prime fuel junk n x enough small few = rw (numbers-upto n 2 (omega arith)) (
  (λ m.
      let (listed, indivisible) = all.printed x m in
      (
        ground (arith, has-upto x n 2),
        ground (arith, has-upto x n 2),
        λ y low less. indivisible y (ground (arith, has-upto y n 2, has-upto x n 2)) less,
      )),
  (λ (low, high, indivisible).
      all.complete x (ground (arith, has-upto x n 2))
        (λ y m less. indivisible y (ground (arith, has-upto y n 2)) less)),
)
  where
    all : Sieved (upto n 2) (primes fuel junk (ended (upto n 2)))
    all =
        primes-Sieved fuel junk (upto n 2) (omega (arith, length-upto n 2)) small
          (Ascending-upto n 2 0 (omega arith) (omega arith))

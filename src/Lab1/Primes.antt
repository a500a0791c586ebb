-- ===== src/Lab1/Primes.antt =====
-- Lab1/primes.c: the sieve of processes that are joined by pipes.
pub mod Sieve
use hitsz_os.Base.{
  ℕ, zero, suc, ◌+◌, ◌*◌, ◌/◌, ◌%◌, ◌^◌, Bool, true, false, Option, none, some, not, leb, ltb, ◌==◌,
  if◌then◌else◌, List, [], ◌∷◌, ◌++◌,
}

-- A pipe as the bytes that are written to it, in order. `read(p[0], &n, 1)` puts one byte into the `int`
-- `n`: its low byte. At the end of the pipe it leaves `n` as it is.
unfoldable pub read_low : (n byte : ℕ) → ℕ
read_low n byte = n / 256 * 256 + byte

-- `write(p[1], &n, 1)` writes the low byte of `n`.
abbrev pub low_byte : ℕ → ℕ
low_byte n = n % 256

-- The `do` loop of `primes`: what it writes to `pp`. `n` is the value before the read, `num` divides.
-- At the end of the pipe the loop would not end: the pipe always ends with a 0, and the rest of the
-- bytes is not read.
unfoldable pub filter_loop : (num n : ℕ) (bytes : List ℕ) → List ℕ
filter_loop num n [] = []
filter_loop num n (b ∷ bytes) =
    let m = read_low n b in
    let rest = filter_loop num m bytes in
    if m == 0
    then (if m % num == 0 then [] else low_byte m ∷ []) ++ (low_byte m ∷ [])
    else if m % num == 0
    then rest
    else low_byte m ∷ rest

-- What a process that runs `primes`, and its child processes, print, in order. `junk` is the number that
-- stands in `num`, and in `n`, before the first read. Each child gets fewer bytes: as many processes as
-- there are bytes are enough.
unfoldable pub primes : (fuel junk : ℕ) (bytes : List ℕ) → List ℕ
primes zero junk bytes = []
primes (suc fuel) junk [] = []
primes (suc fuel) junk (b ∷ bytes) =
    let num = read_low junk b in
    let rest = primes fuel junk (filter_loop num junk bytes) in if num == 0 then [] else num ∷ rest

-- The loop of `main`, from `i` on, and the 0 behind it.
unfoldable pub numbers : (count i : ℕ) → List ℕ
numbers zero i = low_byte 0 ∷ []
numbers (suc n) i = low_byte i ∷ numbers n (suc i)

-- `main`: the numbers that are printed, or none for "wrong argument!" and exit(-1).
unfoldable pub main : (argc junk : ℕ) → Option (List ℕ)
main argc junk = if ltb 1 argc then none else some (primes 36 junk (numbers 34 2))

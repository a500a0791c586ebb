-- ===== src/Lab1/Tests.antt =====
-- Small runs of the programs of Lab1.
use hitsz_os.Base.{
  ℕ, Bool, false, some, ◌==◌, ltb, if◌then◌else◌, ◌%◌, ◌≤◌, ◌<◌, ◌≡◌, ◌≢◌, ◌↔◌, true, refl, arith,
  [], ◌∷◌,
}
use hitsz_os.Base.Sets.{has}
use hitsz_os.Base.Kernel.{ok, Returns}
use hitsz_os.Lab1.Find.{
  Text, slash, period, file, dir, Files, Dirent, found, cannot_open, Run, find, read_entries,
  visit_entry, look_at, fmtname, back_to_slash, same_text, c_text,
}
use hitsz_os.Lab1.Find.Spec.{Prints, Finds}
use hitsz_os.Lab1.Find.Walk.{find-Prints}
use hitsz_os.Lab1.Primes.Sieve.{primes-prime}
use hitsz_os.Lab1.Primes.{read_low, filter_loop, primes, numbers}
use hitsz_os.Lab1.Primes
use hitsz_os.Lab1.Xargs.{newline, read_line, run_lines, Ended, read_line-Ended}

prints : Primes.main 1 0 ≡ some (2 ∷ 3 ∷ 5 ∷ 7 ∷ 11 ∷ 13 ∷ 17 ∷ 19 ∷ 23 ∷ 29 ∷ 31 ∷ [])
unfolding Primes.main primes numbers filter_loop read_low
prints = refl

commands : run_lines 6 32 (97 ∷ 98 ∷ newline ∷ 99 ∷ []) ≡ (97 ∷ 98 ∷ []) ∷ (99 ∷ []) ∷ []
unfolding run_lines read_line
commands = refl

cut : Ended 3 (97 ∷ newline ∷ 99 ∷ []) (97 ∷ []) (99 ∷ [])
unfolding read_line
cut = read_line-Ended 3 (97 ∷ newline ∷ 99 ∷ [])

thirteen :
    (has 13 (primes 36 0 (numbers 34 2)) ≡ true)
    ↔ ((2 ≤ 13) × (13 < 36) × ((y : ℕ) → 2 ≤ y → y < 13 → 13 % y ≢ 0))
thirteen = primes-prime 36 0 34 13 (omega arith) (omega arith) (omega arith)

-- Directories without end: each holds itself, a directory "d" and a file "f".
abbrev ends_in_f : Text → Bool
ends_in_f [] = false
ends_in_f (c ∷ []) = c == 102
ends_in_f (c ∷ d ∷ s) = ends_in_f (d ∷ s)

abbrev entry : ℕ → Dirent
entry c = record { inum = 1; name = c ∷ 0 ∷ [] }

abbrev endless : (files : ℕ) → Files
endless files = record {
  opens = λ k path. ltb k files;
  type_of = λ path. if ends_in_f path then some file else some dir;
  stat = λ path. true;
  entries = λ path. entry period ∷ entry 102 ∷ entry 100 ∷ [];
}

abbrev quiet : Run
quiet = record { open_files = 3; out = [] }

-- With room for three more files, the third directory does not open.
two_files :
    find (endless 6) (102 ∷ []) 498 (97 ∷ []) quiet
    ≡ ok (
      tt,
      record {
        open_files = 3;
        out =
            cannot_open (97 ∷ slash ∷ 100 ∷ slash ∷ 100 ∷ slash ∷ 100 ∷ [])
            ∷ cannot_open (97 ∷ slash ∷ 100 ∷ slash ∷ 100 ∷ slash ∷ 102 ∷ [])
            ∷ found (97 ∷ slash ∷ 100 ∷ slash ∷ 102 ∷ [])
            ∷ found (97 ∷ slash ∷ 102 ∷ [])
            ∷ [];
      },
    )
unfolding find look_at read_entries visit_entry fmtname back_to_slash same_text c_text
two_files = refl

endless_ends :
    Returns
      (λ _ t. Prints (λ q. Finds (endless 1000) (102 ∷ []) q 3 (97 ∷ [])) quiet t)
      (find (endless 1000) (102 ∷ []) 498 (97 ∷ []) quiet)
endless_ends = find-Prints (endless 1000) (102 ∷ []) 498 (97 ∷ []) quiet (omega arith) (omega arith)

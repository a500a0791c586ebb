-- ===== src/Lab1/Find/Walk.antt =====
-- `find`: that it ends, and which files it prints.
use mathlib.Core.Path.{subst}
use hitsz_os.Base.{
  ℕ, zero, suc, ◌+◌, ◌≡◌, ◌≤◌, refl, Bool, true, false, none, some, not, arith, if◌then◌else◌, ◌∷◌,
  length, length-append, take, Bool-cases, Option-cases, inl, inr,
}
use hitsz_os.Base.Kernel.{M, ok, ◌>>◌, bind-ok, Returns, returns, Returns-bind}
use hitsz_os.Lab1.Find.{
  Text, slash, dirsiz, buf_size, c_text, FileType, file, dir, device, Files, cannot_open,
  cannot_fstat, Run, print, close, child, open_file, look_at, find,
}
use hitsz_os.Lab1.Find.Spec.{
  Finds, here, below, Prints, Prints-line, Prints-same, Prints-close, one_more,
}
use hitsz_os.Lab1.Find.Entries.{Visits, Inside, look_at-Prints}

module _ (fs : Files) (filename : Text) where
  -- behind `open`: the rest of `find`
  abbrev inside : (n : ℕ) (path : Text) → M Run (Unit {0})
  inside n path = elim (fs.type_of path) [
    | none ↦ do print (cannot_fstat path); close
    | some type ↦ do look_at fs filename (find fs filename n) path type; close
  ]

  abbrev after_open : (n : ℕ) (path : Text) (opened : Bool) → M Run (Unit {0})
  after_open n path opened = if not opened then print (cannot_open path) else inside n path

  not_Finds_closed :
      (k : ℕ) (path q : Text) → fs.opens k path ≡ false → Finds fs filename q k path → ⊥
  not_Finds_closed k path q closed (here opened at name same) = cc
  not_Finds_closed k path q closed (below opened at short f) = cc

  abbrev FindsAt : ℕ → Text → Text → Type 0
  FindsAt k path q = Finds fs filename q k path

  opens_some :
      (path : Text) (s : Run)
      → fs.opens s.open_files path ≡ true
      → open_file fs path s ≡ ok (true, record s { open_files = suc s.open_files })
  opens_some path s e = rw (e, open_file)

  opens_none :
      (path : Text) (s : Run)
      → fs.opens s.open_files path ≡ false
      → open_file fs path s ≡ ok (false, s)
  opens_none path s e = rw (e, open_file)

  not_Finds_lost : (k : ℕ) (path q : Text) → fs.type_of path ≡ none → Finds fs filename q k path → ⊥
  not_Finds_lost k path q lost (here opened at name same) = cc
  not_Finds_lost k path q lost (below opened at short f) = cc

  -- In an open path of a known type, what is to be found is what `look_at` finds.
  Finds-Inside :
      (k : ℕ) (path q : Text) (type : FileType)
      → fs.opens k path ≡ true
      → fs.type_of path ≡ some type
      → Inside fs filename k path type q
      → Finds fs filename q k path
  Finds-Inside k path q file opened at (name, same) = here opened at name same
  Finds-Inside k path q dir opened at (short, f) = below opened at short f
  Finds-Inside k path q device opened at h = elim h [ ]

  Inside-Finds :
      (k : ℕ) (path q : Text) (type : FileType)
      → fs.type_of path ≡ some type
      → Finds fs filename q k path
      → Inside fs filename k path type q
  Inside-Finds k path q file at (here opened at' name same) = (name, same)
  Inside-Finds k path q dir at (here opened at' name same) = cc
  Inside-Finds k path q device at (here opened at' name same) = cc
  Inside-Finds k path q file at (below opened at' short f) = cc
  Inside-Finds k path q dir at (below opened at' short f) = (short, f)
  Inside-Finds k path q device at (below opened at' short f) = cc

  inside-Prints :
      (n : ℕ) (path : Text) (s : Run)
      → fs.opens s.open_files path ≡ true
      → (length path + 1 + dirsiz + 1 ≤ buf_size
          → Visits fs filename (find fs filename n) (suc s.open_files) path)
      → Returns (λ _ t. Prints (FindsAt s.open_files path) s t) (inside n path (one_more s))
  inside-Prints n path s opened each = elim (Option-cases (fs.type_of path)) [
    | inl lost ↦
        rw (lost, inside)
          (returns (
            Prints-close (FindsAt s.open_files path) s
              (record s { open_files = suc s.open_files; out = cannot_fstat path ∷ s.out })
              (Prints-line (FindsAt s.open_files path) (cannot_fstat path) (one_more s) (λ q h. h)
                (λ q. not_Finds_lost s.open_files path q lost))))
    | inr (type, at) ↦
        rw (at, inside)
          (Returns-bind (look_at fs filename (find fs filename n) path type) (λ _. close)
            (look_at-Prints fs filename (find fs filename n) s.open_files path type (one_more s)
              refl each)
            (λ _ t (same, p). returns (
              Prints-close (FindsAt s.open_files path) s t (
                Prints-same (Inside fs filename s.open_files path type) (FindsAt s.open_files path)
                  (one_more s) t
                  (λ q. (
                    Finds-Inside s.open_files path q type opened at,
                    Inside-Finds s.open_files path q type at,
                  ))
                  (same, p)))))
  ]

  -- Whatever the files are, `find` ends: the length of the paths bounds how deep its calls are. It closes
  -- each file that it opens, and of the files at the path or below it prints exactly those that have the
  -- name and can be reached.
  pub find-Prints :
      (n : ℕ) (path : Text) (s : Run)
      → 1 ≤ n
      → 498 ≤ n + length path
      → Returns
          (λ _ t. Prints (λ q. Finds fs filename q s.open_files path) s t)
          (find fs filename n path s)
  unfolding find
  find-Prints zero path s pos enough = absurd (omega arith)
  find-Prints (suc n) path s pos enough = elim (Bool-cases (fs.opens s.open_files path)) [
    | inr closed ↦ rw (bind-ok (open_file fs path) (after_open n path) (opens_none path s closed)) (
        returns (
          Prints-line (FindsAt s.open_files path) (cannot_open path) s (λ q h. h)
            (λ q. not_Finds_closed s.open_files path q closed)))
    | inl opened ↦ rw (bind-ok (open_file fs path) (after_open n path) (opens_some path s opened)) (
        inside-Prints n path s opened (λ short de t same.
          subst
            (λ k.
              Returns (λ _ u. Prints (FindsAt k (child path de)) t u)
                (find fs filename n (child path de) t))
            same
            (find-Prints n (child path de) t (omega arith)
              (omega (arith, length-append path (slash ∷ c_text (take dirsiz de.name)))))))
  ]

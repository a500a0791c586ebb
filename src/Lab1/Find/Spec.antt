-- ===== src/Lab1/Find/Spec.antt =====
-- What `find` is meant to print: files by the last name of their path, and laws of what a run prints.
use hitsz_os.Base.{
  ℕ, suc, ◌+◌, ◌-◌, ◌≡◌, ◌≢◌, ◌≤◌, ◌⊎◌, ◌↔◌, ◌∙◌, refl, true, some, arith, List, [], ◌∷◌, length,
  inl, inr,
}
use hitsz_os.Lab1.Find.{
  Text, period, dirsiz, buf_size, c_text, file, dir, Dirent, Files, Line, found, Run, child,
}
use hitsz_os.Lab1.Find.Names.{last_name}

-- An entry that is in use, and is neither "." nor "..".
abbrev pub IsListed : Dirent → Type 0
IsListed de =
    (de.inum ≢ 0) × (c_text de.name ≢ period ∷ []) × (c_text de.name ≢ period ∷ period ∷ [])

module _ (fs : Files) (filename q : Text) where
  -- `q` is a file with the name `filename`, at the path or below it, and can be reached: with `k` files
  -- open, each directory on the way opens, has a path short enough for the buffer, and lists an entry
  -- that leads on.
  mutual
    pub data Finds : (k : ℕ) (path : Text) → Type 0 where
      here :
          {k : ℕ} {path : Text}
          → fs.opens k path ≡ true
          → fs.type_of path ≡ some file
          → last_name path ≡ filename
          → path ≡ q
          → Finds k path
      below :
          {k : ℕ} {path : Text}
          → fs.opens k path ≡ true
          → fs.type_of path ≡ some dir
          → length path + 1 + dirsiz + 1 ≤ buf_size
          → FindsIn (suc k) path (fs.entries path)
          → Finds k path

    pub data FindsIn : (k : ℕ) (path : Text) → List Dirent → Type 0 where
      this :
          {k : ℕ} {path : Text} {de : Dirent} {des : List Dirent}
          → IsListed de
          → fs.stat (child path de) ≡ true
          → Finds k (child path de)
          → FindsIn k path (de ∷ des)
      later :
          {k : ℕ} {path : Text} {de : Dirent} {des : List Dirent}
          → FindsIn k path des
          → FindsIn k path (de ∷ des)

abbrev pub Names : Text → Line → Type 0
Names q (found path) = path ≡ q
Names q _ = ⊥

-- `q` is printed as found.
abbrev pub Printed : Text → List Line → Type 0
Printed q [] = ⊥
Printed q (l ∷ ls) = Names q l ⊎ Printed q ls

-- What a part of the run does: the same number of files is open, and of the paths exactly those with `P`
-- are printed anew.
abbrev pub Prints : (P : Text → Type 0) (s t : Run) → Type 0
Prints P s t =
    (t.open_files ≡ s.open_files) × ((q : Text) → Printed q t.out ↔ (Printed q s.out ⊎ P q))

pub Prints-none : (P : Text → Type 0) (s : Run) → ((q : Text) → P q → ⊥) → Prints P s s
Prints-none P s no_path =
    (refl, λ q. (inl, λ h. elim h [ inl old ↦ old | inr new ↦ absurd (no_path q new) ]))

-- A line that names no path.
pub Prints-line :
    (P : Text → Type 0) (l : Line) (s : Run)
    → ((q : Text) → Names q l → ⊥)
    → ((q : Text) → P q → ⊥)
    → Prints P s (record s { out = l ∷ s.out })
Prints-line P l s no_name no_path = (
  refl,
  λ q. (
    λ h. elim h [ inl new ↦ absurd (no_name q new) | inr old ↦ inl old ],
    λ h. elim h [ inl old ↦ inr old | inr new ↦ absurd (no_path q new) ],
  ),
)

-- The line of a path.
pub Prints-found :
    (P : Text → Type 0) (path : Text) (s : Run)
    → ((q : Text) → (path ≡ q) ↔ P q)
    → Prints P s (record s { out = found path ∷ s.out })
Prints-found P path s exact = (
  refl,
  λ q. (
    λ h. elim h [ inl new ↦ inr ((exact q).0 new) | inr old ↦ inl old ],
    λ h. elim h [ inl old ↦ inr old | inr new ↦ inl ((exact q).1 new) ],
  ),
)

-- with one more file open
abbrev pub one_more : Run → Run
one_more s = record s { open_files = suc s.open_files }

-- A file is open meanwhile, and is closed in the end.
pub Prints-close :
    (P : Text → Type 0) (s t : Run)
    → Prints P (one_more s) t
    → Prints P s (record t { open_files = t.open_files - 1 })
Prints-close P s t (same, p) = (omega arith, p)

-- The same paths, described otherwise.
pub Prints-same :
    (P Q : Text → Type 0) (s t : Run) → ((q : Text) → P q ↔ Q q) → Prints P s t → Prints Q s t
Prints-same P Q s t exact (same, p) = (
  same,
  λ q. (
    λ h. elim ((p q).0 h) [ inl old ↦ inl old | inr new ↦ inr ((exact q).0 new) ],
    λ h. elim h [ inl old ↦ (p q).1 (inl old) | inr new ↦ (p q).1 (inr ((exact q).1 new)) ],
  ),
)

-- Two parts, one after the other.
pub Prints-both :
    (P Q R : Text → Type 0) (s t u : Run)
    → ((q : Text) → R q ↔ (P q ⊎ Q q))
    → Prints P s t
    → Prints Q t u
    → Prints R s u
Prints-both P Q R s t u split (same, first) (same', second) = (
  same' ∙ same,
  λ q. (
    λ h. elim ((second q).0 h) [
      | inl old ↦ elim ((first q).0 old) [
        | inl older ↦ inl older
        | inr new ↦ inr ((split q).1 (inl new))
      ]
      | inr new ↦ inr ((split q).1 (inr new))
    ],
    λ h. elim h [
      | inl older ↦ (second q).1 (inl ((first q).1 (inl older)))
      | inr new ↦ elim ((split q).0 new) [
        | inl p ↦ (second q).1 (inl ((first q).1 (inr p)))
        | inr p ↦ (second q).1 (inr p)
      ]
    ],
  ),
)

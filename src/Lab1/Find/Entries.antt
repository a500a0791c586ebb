-- ===== src/Lab1/Find/Entries.antt =====
-- `find`: the loop over the entries of a directory, and the switch over the type of a file.
use hitsz_os.Base.{
  ℕ, suc, ◌+◌, ◌≡◌, ◌≤◌, ◌⊎◌, ◌∙◌, sym, true, false, ◌||◌, ltb, arith, ◌==◌, List, [], ◌∷◌, length,
  Bool-cases, inl, inr,
}
use hitsz_os.Base.Kernel.{M, Returns, returns, Returns-bind, Returns-mono}
use hitsz_os.Lab1.Find.{
  Text, period, dirsiz, buf_size, same_text, c_text, fmtname, FileType, file, dir, device, Dirent,
  Files, cannot_stat, path_too_long, Run, is_dots, child, visit_entry, read_entries, look_at,
}
use hitsz_os.Lab1.Find.Names.{last_name, same_text_iff, fmtname-last_name}
use hitsz_os.Lab1.Find.Spec.{
  IsListed, Finds, FindsIn, this, later, Prints, Prints-none, Prints-line, Prints-found,
  Prints-same, Prints-both,
}

module _ (fs : Files) (filename : Text) where
  -- An entry of which the loop visits the path, and what that visit finds.
  data Here (k : ℕ) (path : Text) (de : Dirent) (q : Text) : Type 0 where
    visited :
        IsListed de
        → fs.stat (child path de) ≡ true
        → Finds fs filename q k (child path de)
        → Here k path de q

  FindsIn-cons :
      (q : Text) (k : ℕ) (path : Text) (de : Dirent) (des : List Dirent)
      → FindsIn fs filename q k path (de ∷ des)
      → Here k path de q ⊎ FindsIn fs filename q k path des
  FindsIn-cons q k path de des (this l there f) = inl (visited l there f)
  FindsIn-cons q k path de des (later f) = inr f

  -- Where the entry is not visited, there is nothing.
  not_Here_skip :
      (k : ℕ) (path : Text) (de : Dirent) (q : Text)
      → ((de.inum == 0) || is_dots (c_text de.name)) ≡ true
      → Here k path de q
      → ⊥
  not_Here_skip k path de q skip (visited (used, not_dot, not_dots) there f) = ground (
    arith,
    same_text_iff (c_text de.name) (period ∷ []),
    same_text_iff (c_text de.name) (period ∷ period ∷ []),
  )

  not_Here_missing :
      (k : ℕ) (path : Text) (de : Dirent) (q : Text)
      → fs.stat (child path de) ≡ false
      → Here k path de q
      → ⊥
  not_Here_missing k path de q missing (visited l there f) = cc

  Here-Finds :
      (k : ℕ) (path : Text) (de : Dirent) (q : Text)
      → Here k path de q
      → Finds fs filename q k (child path de)
  Here-Finds k path de q (visited l there f) = f

  listed : (de : Dirent) → ((de.inum == 0) || is_dots (c_text de.name)) ≡ false → IsListed de
  listed de keep = (
    ground arith,
    ground (arith, same_text_iff (c_text de.name) (period ∷ [])),
    ground (arith, same_text_iff (c_text de.name) (period ∷ period ∷ [])),
  )

  -- What a visit of each child has to do.
  abbrev pub Visits : (visit : Text → M Run (Unit {0})) (k : ℕ) (path : Text) → Type 0
  Visits visit k path =
      (de : Dirent) (s : Run)
      → s.open_files ≡ k
      → Returns (λ _ t. Prints (λ q. Finds fs filename q k (child path de)) s t)
          (visit (child path de) s)

  module _ (visit : Text → M Run (Unit {0})) (k : ℕ) (path : Text)
      (each : Visits visit k path) where
    visit_entry-Prints :
        (de : Dirent) (s : Run)
        → s.open_files ≡ k
        → Returns (λ _ t. Prints (Here k path de) s t) (visit_entry fs filename visit path de s)
    unfolding visit_entry
    visit_entry-Prints de s same = elim (Bool-cases ((de.inum == 0) || is_dots (c_text de.name))) [
      | inl skip ↦
          rw skip (returns (Prints-none (Here k path de) s (λ q. not_Here_skip k path de q skip)))
      | inr keep ↦ elim (Bool-cases (fs.stat (child path de))) [
        | inr missing ↦
            rw (keep, missing)
              (returns (
                Prints-line (Here k path de) (cannot_stat (child path de)) s (λ q h. h)
                  (λ q. not_Here_missing k path de q missing)))
        | inl there ↦
            rw (keep, there)
              (Returns-mono (each de s same) (λ _ t.
                Prints-same (λ q. Finds fs filename q k (child path de)) (Here k path de) s t
                  (λ q. (visited (listed de keep) there, Here-Finds k path de q))))
      ]
    ]

    read_entries-Prints :
        (des : List Dirent) (s : Run)
        → s.open_files ≡ k
        → Returns
            (λ _ t. Prints (λ q. FindsIn fs filename q k path des) s t)
            (read_entries fs filename visit path des s)
    unfolding read_entries
    read_entries-Prints [] s same =
        returns (Prints-none (λ q. FindsIn fs filename q k path []) s (λ q f. elim f [ ]))
    read_entries-Prints (de ∷ des) s same =
        Returns-bind (visit_entry fs filename visit path de)
          (λ _. read_entries fs filename visit path des) (visit_entry-Prints de s same)
          (λ _ t first. Returns-mono (read_entries-Prints des t (first.0 ∙ same)) (λ _ u rest.
            Prints-both (Here k path de) (λ q. FindsIn fs filename q k path des)
              (λ q. FindsIn fs filename q k path (de ∷ des)) s t u
              (λ q. (
                FindsIn-cons q k path de des,
                λ h. elim h [ inl (visited l there f) ↦ this l there f | inr f ↦ later f ],
              ))
              first rest))

  -- What `find` finds in a path that is open, by its type.
  abbrev pub Inside : (k : ℕ) (path : Text) → FileType → Text → Type 0
  Inside k path file q = (last_name path ≡ filename) × (path ≡ q)
  Inside k path dir q =
      (length path + 1 + dirsiz + 1 ≤ buf_size)
      × FindsIn fs filename q (suc k) path (fs.entries path)
  Inside k path device q = ⊥

  pub look_at-Prints :
      (visit : Text → M Run (Unit {0})) (k : ℕ) (path : Text) (type : FileType) (s : Run)
      → s.open_files ≡ suc k
      → (length path + 1 + dirsiz + 1 ≤ buf_size → Visits visit (suc k) path)
      → Returns (λ _ t. Prints (Inside k path type) s t) (look_at fs filename visit path type s)
  unfolding look_at
  look_at-Prints visit k path file s same each =
      elim (Bool-cases (same_text (fmtname path) filename)) [
        | inl e ↦ rw e (
            returns
              (Prints-found (Inside k path file) path s (λ q. (λ at. (matches e, at), λ h. h.1))))
        | inr ne ↦ rw ne (
            returns (
              Prints-none (Inside k path file) s (λ q h.
                cc ((same_text_iff (fmtname path) filename).1 (fmtname-last_name path ∙ h.0)))))
      ]
    where
      matches : same_text (fmtname path) filename ≡ true → last_name path ≡ filename
      matches e = sym (fmtname-last_name path) ∙ (same_text_iff (fmtname path) filename).0 e
  look_at-Prints visit k path dir s same each =
      elim (Bool-cases (ltb buf_size (length path + 1 + dirsiz + 1))) [
        | inl long ↦ rw long (
            returns (
              Prints-line (Inside k path dir) path_too_long s (λ q h. h)
                (λ q h. ground (arith, h.0))))
        | inr fits ↦ rw fits (
            Returns-mono
              (read_entries-Prints visit (suc k) path (each (ground arith)) (fs.entries path) s
                same)
              (λ _ t.
                Prints-same (λ q. FindsIn fs filename q (suc k) path (fs.entries path))
                  (Inside k path dir) s t (λ q. (λ f. (ground arith, f), λ h. h.1))))
      ]
  look_at-Prints visit k path device s same each =
      returns (Prints-none (Inside k path device) s (λ q h. h))

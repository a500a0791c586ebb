-- ===== src/Lab4/KernelMemory/Print.antt =====
-- `vmprint`: the lines of the mapped pages.
use mathlib.Core.Path.{subst}
use mathlib.Core.List.{Mem, mem-append_left, mem-append_right, mem-cons_self, mem-cons_of_mem}
use hitsz_os.Base.{
  ℕ, zero, suc, ◌+◌, ◌≡◌, ◌≤◌, ◌<◌, sym, Bool, true, false, some, arith, ◌==◌, ==_iff,
  if◌then◌else◌, Bool-cases, inl, inr, List, [], ◌∷◌, ◌++◌,
}
use hitsz_os.Lab4.Memory.{Pte, is_table, Allocator, Memory}
use hitsz_os.Lab4.PageTable.{px}
use hitsz_os.Lab4.PageTable.Tree.{lookup, IsTree}
use hitsz_os.Lab4.KernelMemory.{Line, print_entries, printwalk, vmprint}

abbrev pub line_of : (depth i : ℕ) → Pte → Line
line_of depth i pte = record { bars = depth; index = i; pte = pte; pa = pte.pa }

-- the lines for one entry and those that follow
module _ (x : Line) (below rest : List Line) where
  abbrev lines : (table valid : Bool) → List Line
  lines table valid = if table then x ∷ (below ++ rest) else if valid then x ∷ rest else rest

  keep_rest : (table valid : Bool) (l : Line) → Mem l rest → Mem l (lines table valid)
  keep_rest true valid l m = mem-cons_of_mem x (mem-append_right below m)
  keep_rest false true l m = mem-cons_of_mem x m
  keep_rest false false l m = m

  keep_own : (table valid : Bool) → valid ≡ true → Mem x (lines table valid)
  keep_own true valid v = mem-cons_self
  keep_own false valid v = rw v mem-cons_self

  keep_below :
      (table valid : Bool) (l : Line) → table ≡ true → Mem l below → Mem l (lines table valid)
  keep_below table valid l t m = rw t (mem-cons_of_mem x (mem-append_left rest m))

module _ (below : ℕ → List Line) (entries : ℕ → Pte) (depth : ℕ) where
  -- the line of a valid entry
  own_line :
      (count i j : ℕ)
      → i ≤ j
      → j < i + count
      → (entries j).valid ≡ true
      → Mem (line_of depth j (entries j)) (print_entries below entries depth count i)
  unfolding print_entries
  own_line zero i j low high valid = ground arith
  own_line (suc n) i j low high valid =
      let table = is_table (entries i) in
      let rest = print_entries below entries depth n (suc i) in
      elim (Bool-cases (i == j)) [
        | inl e ↦
            let same = (==_iff i j).0 e in
            subst
              (λ k. Mem (line_of depth k (entries k)) (print_entries below entries depth (suc n) i))
              same
              (keep_own (line_of depth i (entries i)) (below (entries i).pa) rest table
                (entries i).valid (subst (λ k. (entries k).valid ≡ true) (sym same) valid))
        | inr ne ↦
            keep_rest (line_of depth i (entries i)) (below (entries i).pa) rest table
              (entries i).valid (line_of depth j (entries j))
              (own_line n (suc i) j (ground arith) (omega arith) valid)
      ]

  -- the lines of the table that an entry leads to
  lines_below :
      (count i j : ℕ) (l : Line)
      → i ≤ j
      → j < i + count
      → is_table (entries j) ≡ true
      → Mem l (below (entries j).pa)
      → Mem l (print_entries below entries depth count i)
  unfolding print_entries
  lines_below zero i j l low high table m = ground arith
  lines_below (suc n) i j l low high table m =
      let rest = print_entries below entries depth n (suc i) in
      elim (Bool-cases (i == j)) [
        | inl e ↦
            let same = (==_iff i j).0 e in
            keep_below (line_of depth i (entries i)) (below (entries i).pa) rest
              (is_table (entries i)) (entries i).valid l
              (subst (λ k. is_table (entries k) ≡ true) (sym same) table)
              (subst (λ k. Mem l (below (entries k).pa)) (sym same) m)
        | inr ne ↦
            keep_rest (line_of depth i (entries i)) (below (entries i).pa) rest
              (is_table (entries i)) (entries i).valid l
              (lines_below n (suc i) j l (ground arith) (omega arith) table m)
      ]

module _ {A : Type 0} (al : Allocator A) (rank : ℕ → ℕ) (s : Memory A) (tree : IsTree al rank s)
    (links : (k p i : ℕ)
      → rank p ≡ suc (suc k)
      → (s.tables p i).valid ≡ true
      → is_table (s.tables p i) ≡ true) where
  printwalk-line :
      (k p depth va : ℕ) (e : Pte)
      → rank p ≡ suc k
      → lookup s.tables k p va ≡ some e
      → Mem (line_of (depth + k) (px 0 va) e) (printwalk (suc k) s.tables p depth)
  unfolding printwalk lookup
  printwalk-line zero p depth va e level found =
      let valid : (s.tables p (px 0 va)).valid ≡ true = ground (arith, found) in
      let same : s.tables p (px 0 va) ≡ e = ground (arith, found) in
      let here : depth ≡ depth + 0 = omega arith in
      subst (λ d. Mem (line_of d (px 0 va) e) (printwalk 1 s.tables p depth)) here
        (subst (λ f. Mem (line_of depth (px 0 va) f) (printwalk 1 s.tables p depth)) same
          (own_line (λ child. []) (s.tables p) depth 512 0 (px 0 va) (omega arith) (omega arith)
            valid))
  printwalk-line (suc k) p depth va e level found =
      let i = px (suc k) va in
      let valid : (s.tables p i).valid ≡ true = ground (arith, found) in
      let deeper : lookup s.tables k (s.tables p i).pa va ≡ some e = ground (arith, found, valid) in
      let here : suc depth + k ≡ depth + suc k = omega arith in
      lines_below (λ child. printwalk (suc k) s.tables child (suc depth)) (s.tables p) depth 512 0 i
        (line_of (depth + suc k) (px 0 va) e) (omega arith) (omega arith) (links k p i level valid)
        (subst
          (λ d.
            Mem (line_of d (px 0 va) e) (printwalk (suc k) s.tables (s.tables p i).pa (suc depth)))
          here
          (printwalk-line k (s.tables p i).pa (suc depth) va e (tree.down k p i level valid)
            deeper))

  -- On a tree of page tables whose upper entries have none of the bits PTE_R, PTE_W and PTE_X, `vmprint`
  -- prints a line for every mapped page: with `||` three times, the index of its entry in the last table,
  -- the entry and the physical page.
  pub vmprint-line :
      (root va : ℕ) (e : Pte)
      → rank root ≡ 3
      → lookup s.tables 2 root va ≡ some e
      → Mem (line_of 3 (px 0 va) e) (vmprint s.tables root)
  unfolding vmprint
  vmprint-line root va e top found = printwalk-line 2 root 1 va e top found

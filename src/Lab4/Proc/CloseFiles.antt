-- ===== src/Lab4/Proc/CloseFiles.antt =====
-- The loop of `exit` that closes the files of a process: its calls, and the table after it.
use hitsz_os.Base.{
  sym, ◌≤◌, ◌+◌, zero, suc, List, [], ◌∷◌, ==_iff, ℕ, ◌≡◌, ◌<◌, ◌∙◌, ap, refl, false, arith, ◌==◌,
  if◌then◌else◌, Bool-cases, inl, inr,
}
use hitsz_os.Base.Kernel.{update}
use hitsz_os.Lab4.Proc.{FileCall, fileclose, close_loop}

-- The files that stand in the table, in order.
abbrev pub open_files : (ofile : ℕ → ℕ) (count fd : ℕ) → List ℕ
open_files ofile zero fd = []
open_files ofile (suc n) fd =
    let rest = open_files ofile n (suc fd) in if ofile fd == 0 then rest else ofile fd ∷ rest

abbrev pub closes : List ℕ → List FileCall
closes [] = []
closes (f ∷ fs) = fileclose f ∷ closes fs

-- A descriptor below those of the loop does not matter to it.
open_files-outside :
    (ofile : ℕ → ℕ) (k count fd : ℕ)
    → k < fd
    → open_files (update ofile k 0) count fd ≡ open_files ofile count fd
open_files-outside ofile k zero fd below = refl
open_files-outside ofile k (suc n) fd below =
    let differs : (k == fd) ≡ false = ground arith in
    rw (differs, open_files-outside ofile k n (suc fd) (omega arith)) refl

pub close_loop-calls :
    (ofile : ℕ → ℕ) (count fd : ℕ)
    → (close_loop ofile count fd).0 ≡ closes (open_files ofile count fd)
unfolding close_loop
close_loop-calls ofile zero fd = refl
close_loop-calls ofile (suc n) fd = elim (Bool-cases (ofile fd == 0)) [
  | inl e ↦ rw e (close_loop-calls ofile n (suc fd))
  | inr ne ↦ rw ne (
      ap (λ l. fileclose (ofile fd) ∷ l)
        (close_loop-calls (update ofile fd 0) n (suc fd)
          ∙ ap closes (open_files-outside ofile fd n (suc fd) (omega arith))))
]

close_loop-keeps_zero :
    (ofile : ℕ → ℕ) (count fd j : ℕ) → ofile j ≡ 0 → (close_loop ofile count fd).1 j ≡ 0
unfolding close_loop
close_loop-keeps_zero ofile zero fd j e = e
close_loop-keeps_zero ofile (suc n) fd j e = elim (Bool-cases (ofile fd == 0)) [
  | inl z ↦ rw z (close_loop-keeps_zero ofile n (suc fd) j e)
  | inr nz ↦ rw nz (close_loop-keeps_zero (update ofile fd 0) n (suc fd) j (ground (arith, e)))
]

pub close_loop-closes :
    (ofile : ℕ → ℕ) (count fd j : ℕ) → fd ≤ j → j < fd + count → (close_loop ofile count fd).1 j ≡ 0
unfolding close_loop
close_loop-closes ofile zero fd j low high = absurd (omega arith)
close_loop-closes ofile (suc n) fd j low high = elim (Bool-cases (ofile fd == 0)) [
  | inl z ↦ rw z (elim (Bool-cases (fd == j)) [
    | inl e ↦
        close_loop-keeps_zero ofile n (suc fd) j
          (ap ofile (sym ((==_iff fd j).0 e)) ∙ (==_iff (ofile fd) 0).0 z)
    | inr ne ↦ close_loop-closes ofile n (suc fd) j (ground arith) (omega arith)
  ])
  | inr nz ↦ rw nz (elim (Bool-cases (fd == j)) [
    | inl e ↦ close_loop-keeps_zero (update ofile fd 0) n (suc fd) j (rw e refl)
    | inr ne ↦ close_loop-closes (update ofile fd 0) n (suc fd) j (ground arith) (omega arith)
  ])
]

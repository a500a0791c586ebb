-- ===== src/Lab1/Find/Names.antt =====
-- `fmtname` and `same_text`, on texts without pointers.
use hitsz_os.Base.{
  ℕ, zero, suc, ◌≡◌, ◌↔◌, refl, true, false, arith, ◌==◌, if◌then◌else◌, [], ◌∷◌, length, drop,
  Bool-cases, inl, inr,
}
use hitsz_os.Base.Sets.{has}
use hitsz_os.Lab1.Find.{Text, slash, same_text, back_to_slash, fmtname}

-- The part of a path behind its last slash.
unfoldable pub last_name : Text → Text
last_name [] = []
last_name (c ∷ path) =
    let rest = last_name path in
    if has slash path then rest else if c == slash then path else c ∷ path

pub same_text_iff : (s t : Text) → (same_text s t ≡ true) ↔ (s ≡ t)
unfolding same_text
same_text_iff [] [] = ground arith
same_text_iff [] (d ∷ t) = ground arith
same_text_iff (c ∷ s) [] = ground arith
same_text_iff (c ∷ s) (d ∷ t) = ground (arith, same_text_iff s t)

-- The loop on a path with one more byte in front.
back_to_slash-cons :
    (c : ℕ) (path : Text) (i : ℕ)
    → back_to_slash (c ∷ path) (suc i)
      ≡ (let j = back_to_slash path i in if j == 0 then (if c == slash then 1 else 0) else suc j)
unfolding back_to_slash
back_to_slash-cons c path zero = ground arith
back_to_slash-cons c path (suc i) = ground (arith, back_to_slash-cons c path i)

-- Without a slash the loop runs to the front.
back_to_slash-zero :
    (path : Text)
    → (back_to_slash path (suc (length path)) == 0) ≡ (if has slash path then false else true)
unfolding back_to_slash
back_to_slash-zero [] = refl
back_to_slash-zero (c ∷ path) =
    ground (arith, back_to_slash-cons c path (suc (length path)), back_to_slash-zero path)

-- `fmtname` gives the part of the path behind the last slash.
pub fmtname-last_name : (path : Text) → fmtname path ≡ last_name path
unfolding fmtname last_name
fmtname-last_name [] = unfold back_to_slash in refl
fmtname-last_name (c ∷ path) =
    let zero_lem = back_to_slash-zero path in
    let rest : drop (back_to_slash path (suc (length path))) path ≡ last_name path =
      fmtname-last_name path in
    rw (back_to_slash-cons c path (suc (length path))) (elim (Bool-cases (has slash path)) [
      | inl inside ↦ rw (inside, (rw inside at zero_lem)) rest
      | inr none_left ↦ rw (none_left, (rw none_left at zero_lem)) (ground arith)
    ])

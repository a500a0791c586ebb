-- ===== src/Lab3/Ring.antt =====
-- Doubly linked rings, as Lab3/kernel/bio.c builds them from the fields `next` and `prev`.
use hitsz_os.Base.{
  ℕ, ◌≡◌, ◌≢◌, ◌∙◌, ==_iff, refl, sym, Bool, true, false, List, [], ◌∷◌, ◌++◌, arith, ◌==◌,
  if◌then◌else◌, Bool-cases, inl, inr, Option, none, some, length, length-append,
}
use mathlib.Core.Path.{subst}
use hitsz_os.Base.Kernel.{update}
use hitsz_os.Base.Sets.{has, has-append, Distinct, erase}

-- From `p` the field `next` leads through the nodes `l` to `q`, and `prev` leads back.
abbrev pub Links : (next prev : ℕ → ℕ) → ℕ → List ℕ → ℕ → Type 0
Links next prev p [] q = (next p ≡ q) × (prev q ≡ p)
Links next prev p (x ∷ l) q = (next p ≡ x) × (prev x ≡ p) × Links next prev x l q

pub Links-frame :
    {next prev next' prev' : ℕ → ℕ} (p : ℕ) (l : List ℕ) (q : ℕ)
    → Links next prev p l q
    → ((x : ℕ) → has x (p ∷ l) ≡ true → next' x ≡ next x)
    → ((x : ℕ) → has x (q ∷ l) ≡ true → prev' x ≡ prev x)
    → Links next' prev' p l q
Links-frame p [] q h same_next same_prev =
    (same_next p (ground arith) ∙ h.0, same_prev q (ground arith) ∙ h.1)
Links-frame p (x ∷ l) q h same_next same_prev = (
  same_next p (ground arith) ∙ h.0,
  same_prev x (ground arith) ∙ h.1,
  Links-frame x l q h.2 (λ y m. same_next y (ground arith)) (λ y m. same_prev y (ground arith)),
)

module _ (next prev : ℕ → ℕ) where
  pub next-mem :
      (p : ℕ) (l : List ℕ) (q b : ℕ)
      → Links next prev p l q
      → has b (p ∷ l) ≡ true
      → has (next b) (q ∷ l) ≡ true
  next-mem p [] q b h m = ground arith
  next-mem p (x ∷ l) q b h m = ground (arith, next-mem x l q b h.2)

  pub prev-mem :
      (p : ℕ) (l : List ℕ) (q b : ℕ)
      → Links next prev p l q
      → has b (q ∷ l) ≡ true
      → has (prev b) (p ∷ l) ≡ true
  prev-mem p [] q b h m = ground arith
  prev-mem p (x ∷ l) q b h m = ground (arith, prev-mem x l q b h.2)

  Links-unlink_first :
      (p : ℕ) (l : List ℕ) (q b : ℕ)
      → Links next prev p (b ∷ l) q
      → Distinct (b ∷ l)
      → has p (b ∷ l) ≡ false
      → has q (b ∷ l) ≡ false
      → Links (update next (prev b) (next b)) (update prev (next b) (prev b)) p l q
  Links-unlink_first p [] q b h dis out_p out_q = ground arith
  Links-unlink_first p (x ∷ l) q b h dis out_p out_q = (
    ground arith,
    ground arith,
    Links-frame x l q h.2.2 (λ y m. ground arith) (λ y m. ground arith),
  )

  -- The two writes that take `b` out.
  pub Links-unlink :
      (p : ℕ) (l : List ℕ) (q b : ℕ)
      → Links next prev p l q
      → has b l ≡ true
      → Distinct l
      → has p l ≡ false
      → has q l ≡ false
      → Links (update next (prev b) (next b)) (update prev (next b) (prev b)) p (erase b l) q
  Links-unlink p [] q b h m dis out_p out_q = cc
  Links-unlink p (x ∷ l) q b h m dis out_p out_q = elim (Bool-cases (b == x)) [
    | inl here ↦ rw here (
        subst
          (λ (c : ℕ). Links (update next (prev c) (next c)) (update prev (next c) (prev c)) p l q)
          (sym ((==_iff b x).0 here)) (Links-unlink_first p l q x h dis out_p out_q))
    | inr further ↦
        let rest = Links-unlink x l q b h.2 (ground arith) dis.1 dis.0 (ground arith) in
        rw further
          (ground (arith, prev-mem x l q b h.2), ground (arith, next-mem x l q b h.2), rest)
  ]

-- The four writes that put `b` behind the head `q`.
abbrev pub insert_next : (next : ℕ → ℕ) (q b : ℕ) → ℕ → ℕ
insert_next next q b = update (update next b (next q)) q b

abbrev pub insert_prev : (next prev : ℕ → ℕ) (q b : ℕ) → ℕ → ℕ
insert_prev next prev q b = update (update prev b q) (next q) b

pub Links-insert :
    (next prev : ℕ → ℕ) (q : ℕ) (l : List ℕ) (b : ℕ)
    → Links next prev q l q
    → Distinct l
    → has q l ≡ false
    → has b l ≡ false
    → b ≢ q
    → Links (insert_next next q b) (insert_prev next prev q b) q (b ∷ l) q
Links-insert next prev q [] b h dis out_q out_b ne =
    (ground arith, ground arith, (ground arith, ground arith))
Links-insert next prev q (x ∷ l) b h dis out_q out_b ne = (
  ground arith,
  ground arith,
  (ground arith, ground arith, Links-frame x l q h.2 (λ y m. ground arith) (λ y m. ground arith)),
)

-- The list from the other end.
abbrev pub rev : List ℕ → List ℕ
rev [] = []
rev (x ∷ l) = rev l ++ x ∷ []

Links-snoc :
    (next prev : ℕ → ℕ) (p : ℕ) (l : List ℕ) (b q : ℕ)
    → Links next prev p l b
    → next b ≡ q
    → prev q ≡ b
    → Links next prev p (l ++ b ∷ []) q
Links-snoc next prev p [] b q h to back = (h.0, h.1, (to, back))
Links-snoc next prev p (x ∷ l) b q h to back = (h.0, h.1, Links-snoc next prev x l b q h.2 to back)

pub Links-rev :
    (next prev : ℕ → ℕ) (p : ℕ) (l : List ℕ) (q : ℕ)
    → Links next prev p l q
    → Links prev next q (rev l) p
Links-rev next prev p [] q h = (h.1, h.0)
Links-rev next prev p (x ∷ l) q h =
    Links-snoc prev next q (rev l) x p (Links-rev next prev x l q h.2) h.1 h.0

pub length-rev : (l : List ℕ) → length (rev l) ≡ length l
length-rev [] = refl
length-rev (x ∷ l) = omega (arith, length-append (rev l) (x ∷ []), length-rev l)

pub has-rev : (a : ℕ) (l : List ℕ) → has a (rev l) ≡ has a l
has-rev a [] = refl
has-rev a (x ∷ l) = ground (arith, has-append a (rev l) (x ∷ []), has-rev a l)

-- the first entry that passes a test
unfoldable pub find_first : (ℕ → Bool) → List ℕ → Option ℕ
find_first test [] = none
find_first test (x ∷ l) = if test x then some x else find_first test l

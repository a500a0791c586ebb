-- ===== src/Lab4/Proc/Scan.antt =====
-- The scans of the process table: what they find and what they change.
use hitsz_os.Base.{
  ℕ, zero, suc, ◌+◌, ◌≡◌, ◌≤◌, ◌<◌, ◌∙◌, ap, refl, Bool, true, false, Option, none, some, ◌&&◌,
  arith, ◌==◌, ==_iff, leb, ltb, if◌then◌else◌, Bool-cases, inl, inr,
}
use hitsz_os.Lab4.Proc.{change, find_entry, for_all}

module _ {A : Type 0} where
  -- The first entry that passes, or that none does.
  unfoldable pub FirstEntry : (A → Bool) → (ℕ → A) → (count i : ℕ) → Option ℕ → Type 0
  FirstEntry test t count i none = (j : ℕ) → i ≤ j → j < i + count → test (t j) ≡ false
  FirstEntry test t count i (some k) =
      (i ≤ k)
      × (k < i + count)
      × (test (t k) ≡ true)
      × ((j : ℕ) → i ≤ j → j < k → test (t j) ≡ false)

  pub find_entry-FirstEntry :
      (test : A → Bool) (t : ℕ → A) (count i : ℕ)
      → FirstEntry test t count i (find_entry test t count i)
  unfolding find_entry FirstEntry
  find_entry-FirstEntry test t zero i = λ j low high. ground arith
  find_entry-FirstEntry test t (suc n) i = elim (Bool-cases (test (t i))) [
    | inl passes ↦ rw passes (omega arith, omega arith, passes, (λ j low high. ground arith))
    | inr fails ↦
        rw fails
          (later (find_entry test t n (suc i)) (find_entry-FirstEntry test t n (suc i)) fails)
  ]
    where
      later :
          (r : Option ℕ)
          → FirstEntry test t n (suc i) r
          → test (t i) ≡ false
          → FirstEntry test t (suc n) i r
      later none none_passes fails = λ j low high. ground (arith, none_passes j, fails)
      later (some k) (low, high, passes, before) fails =
          (omega arith, omega arith, passes, (λ j low high. ground (arith, before j, fails)))

  -- `for_all` changes the entries that pass and leaves the others.
  pub for_all-entry :
      (test : ℕ → A → Bool) (f : A → A) (t : ℕ → A) (count i j : ℕ)
      → for_all test f t count i j
        ≡ (if leb i j && ltb j (i + count) && test j (t j) then f (t j) else t j)
  unfolding for_all
  for_all-entry test f t zero i j = ground arith
  for_all-entry test f t (suc n) i j = elim (Bool-cases (test i (t i))) [
    | inl passes ↦
        rw passes (for_all-entry test f (change t i f) n (suc i) j ∙ ground (arith, passes))
    | inr fails ↦ rw fails (for_all-entry test f t n (suc i) j ∙ ground (arith, fails))
  ]

  pub for_all-table :
      (test : ℕ → A → Bool) (f : A → A) (t : ℕ → A) (count j : ℕ)
      → for_all test f t count 0 j ≡ (if ltb j count && test j (t j) then f (t j) else t j)
  for_all-table test f t count j = for_all-entry test f t count 0 j ∙ ground arith

-- What `f` leaves alone is as before in every entry.
module _ {A B : Type 0} (g : A → B) (f : A → A) (keeps : (x : A) → g (f x) ≡ g x) (t : ℕ → A) where
  pub change-keeps : (i j : ℕ) → g (change t i f j) ≡ g (t j)
  change-keeps i j = elim (Bool-cases (i == j)) [
    | inl e ↦ rw e (keeps (t i) ∙ ap (λ k. g (t k)) ((==_iff i j).0 e))
    | inr ne ↦ rw ne refl
  ]

  pub for_all-keeps : (test : ℕ → A → Bool) (count j : ℕ) → g (for_all test f t count 0 j) ≡ g (t j)
  for_all-keeps test count j = elim (Bool-cases (ltb j count && test j (t j))) [
    | inl e ↦ ap g (for_all-table test f t count j) ∙ rw e (keeps (t j))
    | inr ne ↦ ap g (for_all-table test f t count j) ∙ rw ne refl
  ]

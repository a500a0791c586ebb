-- ===== src/Lab3/Bio/Sections.antt =====
-- `bget` as the sections between which it holds no lock of a bucket, alone and in turns with another call.
use hitsz_os.Base.{
  ℕ, zero, suc, ◌+◌, ◌-◌, ◌≡◌, refl, Bool, true, false, Option, none, some, List, [], ◌∷◌,
}
use hitsz_os.Base.Kernel.{M, Outcome, ok, panic, pure, fail, ◌>>=◌, ◌>>◌, gets, ensure, bind-ok}
use hitsz_os.Base.Sets.{erase}
use hitsz_os.Lab3.Bio.{
  Driver, Bcache, Call, acquire, release, lock_sleep, unlock_sleep, nbuckets, given, lookup,
  steal_from, steal, bget,
}
use hitsz_os.Lab3.Bio.Get.{visit}

-- How far a call of `bget` is.
pub data Progress : Type 0 where
  begins : Progress
  steals : (rounds i : ℕ) → Progress
  has_got : (b : ℕ) → Progress

abbrev pub has_got_or : Option ℕ → Progress → Progress
has_got_or none p = p
has_got_or (some b) p = has_got b

-- The locks of buckets that are held after the calls, of which the last stands first.
abbrev pub held : List Call → List ℕ
held [] = []
held (acquire k ∷ cs) = k ∷ held cs
held (release k ∷ cs) = erase k (held cs)
held (lock_sleep b ∷ cs) = held cs
held (unlock_sleep b ∷ cs) = held cs

abbrev is_empty : List ℕ → Bool
is_empty [] = true
is_empty (x ∷ xs) = false

module _ (d : Driver) (dev blockno : ℕ) where
  -- A section of `bget`: the search of the own bucket, or a round of the last loop.
  unfoldable pub section : Progress → M Bcache Progress
  section begins = do r ← lookup d dev blockno; pure (has_got_or r (steals (nbuckets - 1) 1))
  section (steals zero i) = fail "bget: no buffers"
  section (steals (suc n) i) = do
    r ← steal_from d dev blockno (visit blockno i)
    pure (has_got_or r (steals n (i + 1)))
  section (has_got b) = pure (has_got b)

  -- A call alone, one section after the other.
  unfoldable pub alone : (fuel : ℕ) → Progress → M Bcache Progress
  alone zero p = pure p
  alone (suc n) p = do q ← section p; alone n q

  -- Two calls take turns; `true` stands for the first one. No lock of a bucket may be held between two turns.
  unfoldable pub take_turns :
      (turns : List Bool) → Progress → Progress → M Bcache (Progress × Progress)
  take_turns [] p q = pure (p, q)
  take_turns (true ∷ turns) p q = do
    p' ← section p
    cs ← gets (λ s. s.calls)
    ensure (is_empty (held cs)) "a lock is held"
    take_turns turns p' q
  take_turns (false ∷ turns) p q = do
    q' ← section q
    cs ← gets (λ s. s.calls)
    ensure (is_empty (held cs)) "a lock is held"
    take_turns turns p q'

  alone-has_got : (n b : ℕ) (s : Bcache) → alone n (has_got b) s ≡ ok (has_got b, s)
  unfolding alone section
  alone-has_got zero b s = refl
  alone-has_got (suc n) b s = alone-has_got n b s

  -- the result of a call
  abbrev pub got : Outcome (ℕ × Bcache) → Outcome (Progress × Bcache)
  got (ok (b, s)) = ok (has_got b, s)
  got (panic msg) = panic msg

  alone-steal :
      (n i : ℕ) (s : Bcache) → alone (suc n) (steals n i) s ≡ got (steal d dev blockno n i s)
  unfolding alone section steal
  alone-steal zero i s = refl
  alone-steal (suc n) i s =
      go (steal_from d dev blockno (visit blockno i) s) (alone-steal n (i + 1))
    where
      go :
          (o : Outcome (Option ℕ × Bcache))
          → ((t : Bcache)
              → alone (suc n) (steals n (i + 1)) t ≡ got (steal d dev blockno n (i + 1) t))
          → (elim (elim o as (λ _. Outcome (Progress × Bcache)) [
            | ok (r, t) ↦ ok (has_got_or r (steals n (i + 1)), t)
            | panic msg ↦ panic msg
          ])
              as (λ _. Outcome (Progress × Bcache)) [
                | ok (q, t) ↦ alone (suc n) q t
                | panic msg ↦ panic msg
              ])
            ≡ got (elim o as (λ _. Outcome (ℕ × Bcache)) [
              | ok (r, t) ↦ given r (λ b. pure b) (steal d dev blockno n (i + 1)) t
              | panic msg ↦ panic msg
            ])
      go (ok (none, t)) rest = rest t
      go (ok (some b, t)) rest = alone-has_got (suc n) b t
      go (panic msg) rest = refl

  -- The sections of a call, one after the other, are `bget`.
  pub bget-alone : (s : Bcache) → alone (suc nbuckets) begins s ≡ got (bget d dev blockno s)
  unfolding alone section bget
  bget-alone s = go (lookup d dev blockno s)
    where
      go :
          (o : Outcome (Option ℕ × Bcache))
          → (elim (elim o as (λ _. Outcome (Progress × Bcache)) [
            | ok (r, t) ↦ ok (has_got_or r (steals (nbuckets - 1) 1), t)
            | panic msg ↦ panic msg
          ])
              as (λ _. Outcome (Progress × Bcache)) [
                | ok (q, t) ↦ alone nbuckets q t
                | panic msg ↦ panic msg
              ])
            ≡ got (elim o as (λ _. Outcome (ℕ × Bcache)) [
              | ok (r, t) ↦ given r (λ b. pure b) (steal d dev blockno (nbuckets - 1) 1) t
              | panic msg ↦ panic msg
            ])
      go (ok (none, t)) = alone-steal (nbuckets - 1) 1 t
      go (ok (some b, t)) = alone-has_got nbuckets b t
      go (panic msg) = refl

  pub first_turn :
      (turns : List Bool) (p q p' : Progress) (s t : Bcache)
      → section p s ≡ ok (p', t)
      → held t.calls ≡ []
      → take_turns (true ∷ turns) p q s ≡ take_turns turns p' q t
  unfolding take_turns
  first_turn turns p q p' s t run quiet =
      rw
        (bind-ok (section p)
          (λ r. do
            cs ← gets (λ s. s.calls)
            ensure (is_empty (held cs)) "a lock is held"
            take_turns turns r q)
          run)
        (rw quiet refl)

  pub second_turn :
      (turns : List Bool) (p q q' : Progress) (s t : Bcache)
      → section q s ≡ ok (q', t)
      → held t.calls ≡ []
      → take_turns (false ∷ turns) p q s ≡ take_turns turns p q' t
  unfolding take_turns
  second_turn turns p q q' s t run quiet =
      rw
        (bind-ok (section q)
          (λ r. do
            cs ← gets (λ s. s.calls)
            ensure (is_empty (held cs)) "a lock is held"
            take_turns turns p r)
          run)
        (rw quiet refl)

  pub search_section :
      (s t : Bcache)
      → lookup d dev blockno s ≡ ok (none, t)
      → section begins s ≡ ok (steals 12 1, t)
  unfolding section
  search_section s t run =
      bind-ok (lookup d dev blockno) (λ r. pure (has_got_or r (steals (nbuckets - 1) 1))) run

  pub steal_section :
      (n i : ℕ) (r : Option ℕ) (s t : Bcache)
      → steal_from d dev blockno (visit blockno i) s ≡ ok (r, t)
      → section (steals (suc n) i) s ≡ ok (has_got_or r (steals n (i + 1)), t)
  unfolding section
  steal_section n i r s t run =
      bind-ok (steal_from d dev blockno (visit blockno i))
        (λ r. pure (has_got_or r (steals n (i + 1)))) run

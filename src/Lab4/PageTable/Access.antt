-- ===== src/Lab4/PageTable/Access.antt =====
-- One entry of a page table: `walk` as a lookup, `walkaddr`, and the effect of a write to a slot.
use hitsz_os.Base.{
  ℕ, zero, suc, ◌/◌, ◌^◌, ◌≡◌, ◌≢◌, ◌<◌, ◌∙◌, sym, ap, refl, false, Option, some, arith, ◌==◌,
  ==_iff, leb, if◌then◌else◌, Bool-cases, Option-cases, inl, inr,
}
use hitsz_os.Base.Kernel.{ok}
use hitsz_os.Lab4.Memory.{Pte, Allocator, Memory, write}
use hitsz_os.Lab4.PageTable.{Platform, px, given, descend, walk_from, walk, walkaddr}
use hitsz_os.Lab4.PageTable.Tree.{slot, lookup, IsTree}
use hitsz_os.Lab4.PageTable.Write.{
  seen, hits, lookup-slot, lookup-no_slot, lookup-write, SameIndices, same_page, slot_unique,
}

-- the indices of a page
same_indices : (va va' : ℕ) → va / 4096 ≡ va' / 4096 → SameIndices 2 va va'
unfolding SameIndices
same_indices va va' e = (omega arith, (omega arith, omega arith))

slot_same :
    (t : ℕ → ℕ → Pte) (k p va va' : ℕ) → SameIndices k va va' → slot t k p va ≡ slot t k p va'
unfolding SameIndices slot
slot_same t zero p va va' e = rw e refl
slot_same t (suc k) p va va' (e, below) =
    rw (e, slot_same t k (t p (px (suc k) va')).pa va va' below) refl

lookup_same :
    (t : ℕ → ℕ → Pte) (k p va va' : ℕ) → SameIndices k va va' → lookup t k p va ≡ lookup t k p va'
unfolding SameIndices lookup
lookup_same t zero p va va' e = rw e refl
lookup_same t (suc k) p va va' (e, below) =
    rw (e, lookup_same t k (t p (px (suc k) va')).pa va va' below) refl

-- One page has one translation.
pub lookup-page :
    (t : ℕ → ℕ → Pte) (root va va' : ℕ)
    → va / 4096 ≡ va' / 4096
    → lookup t 2 root va ≡ lookup t 2 root va'
lookup-page t root va va' e = lookup_same t 2 root va va' (same_indices va va' e)

module _ {A : Type 0} (al : Allocator A) where
  -- Without `alloc` the walk only reads.
  pub walk_from-read :
      (k p va : ℕ) (s : Memory A) → walk_from al k false p va s ≡ ok (slot s.tables k p va, s)
  unfolding walk_from descend slot
  walk_from-read zero p va s = refl
  walk_from-read (suc k) p va s =
      ground (arith, walk_from-read k (s.tables p (px (suc k) va)).pa va s)

  module _ (pl : Platform) where
    -- the address that a user translation leads to, or 0
    abbrev pub user_address : Option Pte → ℕ
    user_address found = given found (λ e. if e.perm.u then e.pa else 0) 0

    -- For every page table and every address, `walkaddr` gives the physical page that the translation of
    -- the address leads to if the page is mapped for the user, and 0 otherwise. It changes nothing, and
    -- does not panic.
    pub walkaddr_lem :
        (root va : ℕ) (s : Memory A)
        → walkaddr al pl root va s ≡ (
            if leb pl.maxva va then ok (0, s) else ok (user_address (lookup s.tables 2 root va), s))
    unfolding walkaddr walk
    walkaddr_lem root va s = elim (Bool-cases (leb pl.maxva va)) [
      | inl out ↦ rw out refl
      | inr inside ↦ elim (Option-cases (slot s.tables 2 root va)) [
        | inl e ↦ ground (arith, walk_from-read 2 root va s, lookup-no_slot s.tables 2 root va e)
        | inr (x, e) ↦
            ground (arith, walk_from-read 2 root va s, lookup-slot s.tables 2 root va x.0 x.1 e)
      ]
    ]

  module _ (rank : ℕ → ℕ) (s : Memory A) (tree : IsTree al rank s) (root : ℕ)
      (top : rank root ≡ 3) where
    hits-page :
        (a q i : ℕ)
        → slot s.tables 2 root a ≡ some (q, i)
        → a < 2 ^ 39
        → (va : ℕ) → va < 2 ^ 39
        → hits (slot s.tables 2 root va) q i ≡ (va / 4096 == a / 4096)
    hits-page a q i at small va below = elim (Bool-cases (va / 4096 == a / 4096)) [
      | inl e ↦
          rw
            (
              slot_same s.tables 2 root va a
                  (same_indices va a ((==_iff (va / 4096) (a / 4096)).0 e)),
              at,
            )
            (ground arith)
      | inr ne ↦ elim (Bool-cases (hits (slot s.tables 2 root va) q i)) [
        | inl hit ↦
            let same =
              slot_unique al rank s tree 2 root va root a top top (q, i) (ground arith) at in
            ground (arith, same_page va a same.1 below small)
        | inr miss ↦ miss ∙ sym ne
      ]
    ]

    -- A write to the slot of an address changes the translation of its page alone.
    pub lookup-store :
        (a q i : ℕ) (e : Pte)
        → slot s.tables 2 root a ≡ some (q, i)
        → rank q ≡ 1
        → a < 2 ^ 39
        → (va : ℕ) → va < 2 ^ 39
        → lookup (write s.tables q i e) 2 root va
          ≡ (if va / 4096 == a / 4096 then seen e else lookup s.tables 2 root va)
    lookup-store a q i e at leaf small va below =
        lookup-write al rank s tree q i e 2 root va leaf top
        ∙ ap (λ b. if b then seen e else lookup s.tables 2 root va)
            (hits-page a q i at small va below)

    -- The translations of another table stay.
    pub lookup-store_other :
        (root' : ℕ)
        → rank root' ≡ 3
        → root' ≢ root
        → (a q i : ℕ) (e : Pte) → slot s.tables 2 root a ≡ some (q, i)
        → rank q ≡ 1
        → (va : ℕ) → lookup (write s.tables q i e) 2 root' va ≡ lookup s.tables 2 root' va
    lookup-store_other root' top' ne a q i e at leaf va =
        lookup-write al rank s tree q i e 2 root' va leaf top'
        ∙ (elim (Bool-cases (hits (slot s.tables 2 root' va) q i)) [
          | inl hit ↦
              let same =
                slot_unique al rank s tree 2 root' va root a top' top (q, i) (ground arith) at in
              ground (arith, same.0, ne)
          | inr miss ↦ rw miss refl
        ])

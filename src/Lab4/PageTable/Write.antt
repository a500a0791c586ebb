-- ===== src/Lab4/PageTable/Write.antt =====
-- `lookup` after a write to a leaf entry.
use hitsz_os.Base.{
  ℕ, zero, suc, ◌/◌, ◌^◌, ◌≡◌, ◌<◌, refl, Bool, true, false, Option, none, some, ◌&&◌, arith, ◌==◌,
  if◌then◌else◌,
}
use hitsz_os.Lab4.Memory.{Pte, Allocator, Memory, write}
use hitsz_os.Lab4.PageTable.{px}
use hitsz_os.Lab4.PageTable.Tree.{slot, lookup, IsTree}

-- what a lookup makes of an entry
abbrev pub seen : Pte → Option Pte
seen e = if e.valid then some e else none

abbrev pub hits : Option (ℕ × ℕ) → ℕ → ℕ → Bool
hits (some (p, j)) q i = p == q && j == i
hits none q i = false

-- The lookup reads the slot.
pub lookup-slot :
    (t : ℕ → ℕ → Pte) (k p va q i : ℕ)
    → slot t k p va ≡ some (q, i)
    → lookup t k p va ≡ seen (t q i)
unfolding slot lookup
lookup-slot t zero p va q i e = ground arith
lookup-slot t (suc k) p va q i e = ground (arith, lookup-slot t k (t p (px (suc k) va)).pa va q i)

pub lookup-no_slot : (t : ℕ → ℕ → Pte) (k p va : ℕ) → slot t k p va ≡ none → lookup t k p va ≡ none
unfolding slot lookup
lookup-no_slot t zero p va e = ground arith
lookup-no_slot t (suc k) p va e = ground (arith, lookup-no_slot t k (t p (px (suc k) va)).pa va)

-- The indices of two addresses agree at all levels up to `k`.
unfoldable pub SameIndices : (k va va' : ℕ) → Type 0
SameIndices zero va va' = px 0 va ≡ px 0 va'
SameIndices (suc k) va va' = (px (suc k) va ≡ px (suc k) va') × SameIndices k va va'

-- Below 2 ^ 39 they then lie in one page.
pub same_page :
    (va va' : ℕ) → SameIndices 2 va va' → va < 2 ^ 39 → va' < 2 ^ 39 → va / 4096 ≡ va' / 4096
unfolding SameIndices
same_page va va' (two, (one, offset)) h h' = omega (arith)

module _ {A : Type 0} (al : Allocator A) (rank : ℕ → ℕ) (s : Memory A)
    (tree : IsTree al rank s) where
  pub lookup-write :
      (q i : ℕ) (e : Pte) (k p va : ℕ)
      → rank q ≡ 1
      → rank p ≡ suc k
      → lookup (write s.tables q i e) k p va
        ≡ (if hits (slot s.tables k p va) q i then seen e else lookup s.tables k p va)
  unfolding slot lookup
  lookup-write q i e zero p va leaf level = ground arith
  lookup-write q i e (suc k) p va leaf level = ground (
    arith,
    lookup-write q i e k (s.tables p (px (suc k) va)).pa va leaf,
    tree.down k p (px (suc k) va),
  )

  pub slot-write :
      (q i : ℕ) (e : Pte) (k p va : ℕ)
      → rank q ≡ 1
      → rank p ≡ suc k
      → slot (write s.tables q i e) k p va ≡ slot s.tables k p va
  unfolding slot
  slot-write q i e zero p va leaf level = refl
  slot-write q i e (suc k) p va leaf level = ground (
    arith,
    slot-write q i e k (s.tables p (px (suc k) va)).pa va leaf,
    tree.down k p (px (suc k) va),
  )

  slot_valid :
      (k p va : ℕ) (x : ℕ × ℕ)
      → slot s.tables (suc k) p va ≡ some x
      → (s.tables p (px (suc k) va)).valid ≡ true
  unfolding slot
  slot_valid k p va x at = ground arith

  -- Two addresses with the same slot have the same indices.
  pub slot_unique :
      (k p va q va' : ℕ)
      → rank p ≡ suc k
      → rank q ≡ suc k
      → (x : ℕ × ℕ) → slot s.tables k p va ≡ some x
      → slot s.tables k q va' ≡ some x
      → (p ≡ q) × SameIndices k va va'
  unfolding slot SameIndices
  slot_unique zero p va q va' e e' x at at' = (ground arith, ground arith)
  slot_unique (suc k) p va q va' e e' x at at' =
      let v = slot_valid k p va x at in
      let v' = slot_valid k q va' x at' in
      let deeper =
        slot_unique k (s.tables p (px (suc k) va)).pa va (s.tables q (px (suc k) va')).pa va'
          (tree.down k p _ e v) (tree.down k q _ e' v') x (ground (arith, v, at))
          (ground (arith, v', at')) in
      let same = tree.once k p _ q _ e e' v v' deeper.0 in (same.0, (same.1, deeper.1))

  -- A slot lies in a page of level 0.
  pub slot-leaf :
      (k p va q i : ℕ) → rank p ≡ suc k → slot s.tables k p va ≡ some (q, i) → rank q ≡ 1
  unfolding slot
  slot-leaf zero p va q i level at = ground arith
  slot-leaf (suc k) p va q i level at =
      ground
        (arith, slot-leaf k (s.tables p (px (suc k) va)).pa va q i, tree.down k p (px (suc k) va))

  pub write-IsTree :
      (q i : ℕ) (e : Pte) → rank q ≡ 1 → IsTree al rank (record s { tables = write s.tables q i e })
  write-IsTree q i e leaf = record {
    down = λ k p j l v. ground (arith, tree.down k p j);
    once = λ k p j p' j' l l' v v' same. ground (arith, tree.once k p j p' j');
    unfree = tree.unfree;
    zero_rank = tree.zero_rank;
  }

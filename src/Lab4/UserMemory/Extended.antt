-- ===== src/Lab4/UserMemory/Extended.antt =====
-- The memory of a process while `uvmalloc` of Lab4/kernel/vm.c adds pages to it.
use hitsz_os.Base.{
  ℕ, zero, suc, ◌+◌, ◌/◌, ◌%◌, ◌^◌, ◌≡◌, ◌≢◌, ◌<◌, refl, Bool, true, false, some, ◌&&◌, not, arith,
  ◌==◌, leb, ltb, if◌then◌else◌, inl, inr, ◌⊎◌,
}
use hitsz_os.Lab4.Memory.{Perm, leaf_pte, Allocator, Memory, zero_table, zero_bytes}
use hitsz_os.Lab4.PageTable.{px}
use hitsz_os.Lab4.PageTable.Tree.{lookup, IsTree, IsAllocator, OthersKept}
use hitsz_os.Lab4.PageTable.Walk.{covers}

module _ {A : Type 0} (al : Allocator A) (rank : ℕ → ℕ) (s : Memory A) (tree : IsTree al rank s)
    (c : ℕ) (new : rank c ≡ 0) where
  -- To zero a page that is no page-table page changes no translation.
  pub lookup-zeroed :
      (k q va : ℕ) → rank q ≡ suc k → lookup (zero_table s.tables c) k q va ≡ lookup s.tables k q va
  unfolding lookup
  lookup-zeroed zero q va e = ground arith
  lookup-zeroed (suc k) q va e =
      ground
        (arith, lookup-zeroed k (s.tables q (px (suc k) va)).pa va, tree.down k q (px (suc k) va) e)

  pub zeroed-IsTree :
      (b : ℕ → ℕ) (a : A)
      → ((x : ℕ) → al.free a x ≡ true → rank x ≡ 0)
      → IsTree al rank (record { tables = zero_table s.tables c; bytes = b; alloc = a })
  zeroed-IsTree b a unfree = record {
    down = λ k p i e v. ground (arith, tree.down k p i);
    once = λ k p i q j e e' v v' same. ground (arith, tree.once k p i q j);
    unfree = unfree;
    zero_rank = tree.zero_rank;
  }

module _ {A : Type 0} (al : Allocator A) (rank : ℕ → ℕ) (s : Memory A) (root first : ℕ)
    (perms : ℕ → Perm) (bytes : ℕ → ℕ → ℕ) where
  abbrev pub within : (n va : ℕ) → Bool
  within n va = leb first (va / 4096) && ltb (va / 4096) (first + n)

  -- From `s` to `t`, the `n` pages from page `first` on are mapped, page `k` with the permissions `perms k`
  -- to a page of its own with the bytes `bytes k`, which was free and is neither free nor a page-table page
  -- now. All other translations are as in `s`, and so are all bytes outside of the pages that were free. A
  -- page that was free is free, or a page-table page, or one of the mapped ones.
  pub record Extended (rank' : ℕ → ℕ) (t : Memory A) (n : ℕ) : Type 0 where
    pub tree : IsTree al rank' t
    pub top : rank' root ≡ 3
    pub keeps : (q : ℕ) → rank q ≢ 0 → rank' q ≡ rank q
    pub others : OthersKept rank root s.tables t.tables
    pub outside :
        (va : ℕ)
        → va < 2 ^ 39
        → within n va ≡ false
        → lookup t.tables 2 root va ≡ lookup s.tables 2 root va
    pub inside :
        (va : ℕ)
        → va < 2 ^ 39
        → within n va ≡ true
        → (x : ℕ) × (lookup t.tables 2 root va ≡ some (leaf_pte x (perms (va / 4096))))
          × ((x ≢ 0) × (x % 4096 ≡ 0))
          × (al.free s.alloc x ≡ true)
          × (al.free t.alloc x ≡ false)
          × (rank' x ≡ 0)
          × ((j : ℕ) → j < 4096 → t.bytes (x + j) ≡ bytes (va / 4096) j)
    pub apart :
        (va va' x : ℕ)
        → va < 2 ^ 39
        → va' < 2 ^ 39
        → within n va ≡ true
        → within n va' ≡ true
        → lookup t.tables 2 root va ≡ some (leaf_pte x (perms (va / 4096)))
        → lookup t.tables 2 root va' ≡ some (leaf_pte x (perms (va' / 4096)))
        → va / 4096 ≡ va' / 4096
    pub fewer : (q : ℕ) → al.free s.alloc q ≡ false → al.free t.alloc q ≡ false
    pub used :
        (q : ℕ)
        → q ≢ 0
        → al.free s.alloc q ≡ true
        → rank' q ≡ 0
        → (al.free t.alloc q ≡ true)
          ⊎ ((va : ℕ) × (va < 2 ^ 39)
              × (within n va ≡ true)
              × (lookup t.tables 2 root va ≡ some (leaf_pte q (perms (va / 4096)))))
    pub content :
        (x : ℕ) → ((q : ℕ) → al.free s.alloc q ≡ true → covers q x ≡ false) → t.bytes x ≡ s.bytes x

  -- All translations are as in `s`. A page that was free is free, or a page-table page.
  pub record Restored (rank' : ℕ → ℕ) (t : Memory A) : Type 0 where
    pub tree : IsTree al rank' t
    pub top : rank' root ≡ 3
    pub keeps : (q : ℕ) → rank q ≢ 0 → rank' q ≡ rank q
    pub others : OthersKept rank root s.tables t.tables
    pub same : (va : ℕ) → va < 2 ^ 39 → lookup t.tables 2 root va ≡ lookup s.tables 2 root va
    pub free_again :
        (q : ℕ) → q ≢ 0 → al.free s.alloc q ≡ true → rank' q ≡ 0 → al.free t.alloc q ≡ true

  -- all `n` pages, or none
  abbrev pub Added : (n : ℕ) → Bool → Memory A → Type 0
  Added n done t = (rank' : ℕ → ℕ) × (if done then Extended rank' t n else Restored rank' t)

  pub Extended-refl : IsTree al rank s → rank root ≡ 3 → Extended rank s 0
  Extended-refl tree top = record {
    tree = tree;
    top = top;
    keeps = λ q ne. refl;
    others = λ p va three ne. refl;
    outside = λ va below no. refl;
    inside = λ va below yes. ground arith;
    apart = λ va va' x below below' yes yes' at at'. ground arith;
    fewer = λ q f. f;
    used = λ q ne f z. inl f;
    content = λ x out. refl;
  }

  module _ (good : IsAllocator al) (rank' : ℕ → ℕ) (t : Memory A) (n : ℕ)
      (e : Extended rank' t n) where
    -- `kalloc` gives no page.
    pub Extended-exhausted :
        (al.take t.alloc).0 ≡ 0 → Extended rank' (record t { alloc = (al.take t.alloc).1 }) n
    Extended-exhausted full = record {
      tree = record {
        down = e.tree.down;
        once = e.tree.once;
        unfree = λ x f. ground (arith, e.tree.unfree x, good.rest t.alloc x);
        zero_rank = e.tree.zero_rank;
      };
      top = e.top;
      keeps = e.keeps;
      others = e.others;
      outside = e.outside;
      inside = λ va below yes.
          let (x, at, ne, was, now, z, holds) = e.inside va below yes in
          (x, at, ne, was, ground (arith, good.rest t.alloc x), z, holds);
      apart = e.apart;
      fewer = λ q f. ground (arith, e.fewer q f, good.rest t.alloc q);
      used = λ q ne f z. elim (e.used q ne f z) [
        | inl free ↦ inl (ground (arith, good.rest t.alloc q, full))
        | inr mapped ↦ inr mapped
      ];
      content = e.content;
    }

    pub taken_before : (al.take t.alloc).0 ≢ 0 → al.free s.alloc (al.take t.alloc).0 ≡ true
    taken_before ne = ground (arith, good.taken t.alloc ne, e.fewer (al.take t.alloc).0)

    -- `kalloc` has given a page, which is filled with the bytes of the next page.
    pub record Filled (f : Memory A) : Type 0 where
      pub tree : IsTree al rank' f
      pub same : (p va : ℕ) → rank' p ≡ 3 → lookup f.tables 2 p va ≡ lookup t.tables 2 p va
      pub alloc :
          (x : ℕ) → al.free f.alloc x ≡ (al.free t.alloc x && not ((al.take t.alloc).0 == x))
      pub holds : (j : ℕ) → j < 4096 → f.bytes ((al.take t.alloc).0 + j) ≡ bytes (first + n) j
      pub outside : (x : ℕ) → covers (al.take t.alloc).0 x ≡ false → f.bytes x ≡ t.bytes x

    pub Filled-zeros :
        (al.take t.alloc).0 ≢ 0
        → ((j : ℕ) → bytes (first + n) j ≡ 0)
        → Filled (record {
          tables = zero_table t.tables (al.take t.alloc).0;
          bytes = zero_bytes t.bytes (al.take t.alloc).0;
          alloc = (al.take t.alloc).1;
        })
    Filled-zeros ne zeros =
        let unused = e.tree.unfree (al.take t.alloc).0 (good.taken t.alloc ne) in
        record {
          tree =
              zeroed-IsTree al rank' t e.tree (al.take t.alloc).0 unused _ _
                (λ x f. ground (arith, e.tree.unfree x, good.rest t.alloc x));
          same =
              λ p va three. lookup-zeroed al rank' t e.tree (al.take t.alloc).0 unused 2 p va three;
          alloc = λ x. good.rest t.alloc x;
          holds = λ j less. ground (arith, zeros j);
          outside = λ x out. ground arith;
        }

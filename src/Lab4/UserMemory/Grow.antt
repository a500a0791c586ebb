-- ===== src/Lab4/UserMemory/Grow.antt =====
-- `uvmalloc` of Lab4/kernel/vm.c: it adds all pages or none.
use hitsz_os.Base.{
  ℕ, zero, suc, ◌+◌, ◌*◌, ◌/◌, ◌%◌, ◌-◌, ◌^◌, ◌≡◌, ◌≢◌, ◌≤◌, ◌<◌, refl, Bool, true, false, none,
  arith, ◌==◌, ltb, if◌then◌else◌, Bool-cases, inl, inr,
}
use mathlib.Core.Path.{subst}
use hitsz_os.Base.Kernel.{M, ok, pure, ◌>>=◌, ◌>>◌, bind-ok, Returns, returns, Returns-bind}
use hitsz_os.Lab4.Memory.{page_size, Perm, leaf_pte, Allocator, Memory, kfree}
use hitsz_os.Lab4.PageTable.{Platform, u64, mappages}
use hitsz_os.Lab4.PageTable.Tree.{lookup, IsTree, IsAllocator}
use hitsz_os.Lab4.PageTable.Map.{Mapped, Mapping}
use hitsz_os.Lab4.PageTable.OnePage.{mappages_page}
use hitsz_os.Lab4.PageTable.Unmap.{TakesBack, Unmapped}
use hitsz_os.Lab4.UserMemory.{user_perm, uvmdealloc, alloc_loop, uvmalloc}
use hitsz_os.Lab4.UserMemory.Shrink.{uvmdealloc-Unmapped}
use hitsz_os.Lab4.UserMemory.Extended.{
  Extended, Extended-refl, Extended-exhausted, Added, Filled, Filled-zeros, taken_before,
}
use hitsz_os.Lab4.UserMemory.Steps.{Extended-mapped, Extended-back, Restored-Unmapped}

-- the bytes of a page that `uvmalloc` adds
abbrev pub zeros : ℕ → ℕ → ℕ
zeros k j = 0

abbrev pub for_user : ℕ → Perm
for_user k = user_perm

module _ {A : Type 0} (al : Allocator A) (pl : Platform) (good : IsAllocator al)
    (bound : pl.maxva ≤ 2 ^ 39) (page : ℕ → Bool) (back : TakesBack al page)
    (low : (x : ℕ) → page x ≡ true → x + 4096 ≤ 2 ^ 64)
    (down : (x : ℕ) → pl.pground_down x ≡ x / 4096 * 4096)
    (up : (x : ℕ) → pl.pground_up x ≡ (x + 4095) / 4096 * 4096) (rank : ℕ → ℕ) (s : Memory A)
    (root : ℕ) (returnable : (x : ℕ) → al.free s.alloc x ≡ true → page x ≡ true)
    (aligned : (x : ℕ) → al.free s.alloc x ≡ true → x % 4096 ≡ 0) (first last : ℕ)
    (inside : last * 4096 ≤ pl.maxva)
    (empty : (va : ℕ)
      → va < 2 ^ 39
      → first ≤ va / 4096
      → va / 4096 < last
      → lookup s.tables 2 root va ≡ none) where
  abbrev Ext : (rank' : ℕ → ℕ) → Memory A → ℕ → Type 0
  Ext rank' t n = Extended al rank s root first for_user zeros rank' t n

  -- what `uvmalloc` leaves behind: the new size and all pages, or 0 and no page
  abbrev Grown : (newsz r : ℕ) → Memory A → Type 0
  Grown newsz r t =
      (done : Bool) × (r ≡ (if done then newsz else 0))
      × Added al rank s root first for_user zeros (last - first) done t

  -- `uvmdealloc` of the pages mapped so far
  abbrev give_up : (n : ℕ) → M (Memory A) ℕ
  give_up n = do r ← uvmdealloc al pl root ((first + n) * 4096) (first * 4096); pure 0

  given_up :
      (newsz n : ℕ) (rank' : ℕ → ℕ) (t : Memory A)
      → Ext rank' t n
      → first + n ≤ last
      → Returns (Grown newsz) (give_up n t)
  given_up newsz n rank' t e most =
      let above : (((first + n) * 4096 + 4095) / 4096 ≡ first + n) = omega arith in
      let above' : ((first * 4096 + 4095) / 4096 ≡ first) = omega arith in
      Returns-bind (uvmdealloc al pl root ((first + n) * 4096) (first * 4096)) (λ r. pure 0)
        (uvmdealloc-Unmapped al pl bound rank' root e.top page back up t e.tree ((first + n) * 4096)
          (first * 4096) (omega arith)
          (λ va below from to.
            let (x, at, ne, was, gone, z, holds) = e.inside va below (ground arith) in
            (
              leaf_pte x user_perm,
              at,
              (refl, refl, λ asked. (ground (arith, ne, returnable x was), ground (arith, ne, z))),
            )))
        (λ r u (size, tree, unmapped, others). returns (
          false,
          refl,
          (
            rank',
            Restored-Unmapped al rank s root first for_user zeros good rank' t n e aligned u tree
                (count u above above' unmapped) others
                (λ va below yes. empty va below (ground arith) (ground arith)),
          ),
        ))
    where
      count :
          (u : Memory A)
          → ((first + n) * 4096 + 4095) / 4096 ≡ first + n
          → (first * 4096 + 4095) / 4096 ≡ first
          → Unmapped al t root
              ((first * 4096 + 4095) / 4096)
              (((first + n) * 4096 + 4095) / 4096 - (first * 4096 + 4095) / 4096)
              true
              u
          → Unmapped al t root first n true u
      count u above above' h =
          let less : first + n - first ≡ n = omega arith in
          subst (λ k. Unmapped al t root first k true u) less
            (subst (λ k. Unmapped al t root first (k - first) true u) above
              (subst (λ k. Unmapped al t root k (((first + n) * 4096 + 4095) / 4096 - k) true u)
                above' h))

  -- the part of a round behind `mappages`
  abbrev after_mapping : (fuel n newsz mem : ℕ) → Bool → M (Memory A) ℕ
  after_mapping fuel n newsz mem done =
      if done
      then alloc_loop al pl fuel root (u64 ((first + n) * 4096 + page_size)) (first * 4096) newsz
      else do kfree al mem; give_up n

  abbrev Rounds : (fuel newsz : ℕ) → Type 0
  Rounds fuel newsz =
      (n : ℕ) (rank' : ℕ → ℕ) (t : Memory A)
      → Ext rank' t n
      → first + n ≤ last
      → last < first + n + fuel
      → Returns (Grown newsz)
          (alloc_loop al pl fuel root ((first + n) * 4096) (first * 4096) newsz t)

  -- a page is mapped, or its mapping has failed
  mapped_round :
      (fuel newsz : ℕ)
      → Rounds fuel newsz
      → (n : ℕ) (rank' : ℕ → ℕ) (t : Memory A) (e : Ext rank' t n) → first + n < last
      → last < first + n + suc fuel
      → (al.take t.alloc).0 ≢ 0
      → (f : Memory A) → Filled al rank s root first for_user zeros good rank' t n e f
      → (r : Bool) (u : Memory A)
      → Mapping al rank' f root (first + n) 1 (al.take t.alloc).0 user_perm r u
      → Returns (Grown newsz) (after_mapping fuel n newsz (al.take t.alloc).0 r u)
  mapped_round fuel newsz rounds n rank' t e more enough ne f fill true u
        (rank'', tree, top, drew, keeps, others, (m, mapped, one), supplied) =
      let next : u64 ((first + n) * 4096 + page_size) ≡ (first + suc n) * 4096 = omega arith in
      rw next (
        rounds (suc n) rank'' u
          (Extended-mapped al rank s root first for_user zeros good rank' t n e ne f fill rank'' u
            drew keeps others aligned tree
            (subst (λ k. Mapped al f root (first + n) k (al.take t.alloc).0 user_perm u) one mapped)
            (omega arith))
          (omega arith) (omega arith))
  mapped_round fuel newsz rounds n rank' t e more enough ne f fill false u
        (rank'', tree, top, drew, keeps, others, (m, mapped, none_yet), supplied) =
      let fits : page (al.take t.alloc).0 ≡ true =
        returnable (al.take t.alloc).0
          (taken_before al rank s root first for_user zeros good rank' t n e ne) in
      let (a, given_back, free) = back.back (al.take t.alloc).0 u.alloc fits in
      let done : kfree al (al.take t.alloc).0 u ≡ ok (tt, record u { alloc = a }) =
        rw (given_back, kfree) refl in
      rw (bind-ok (kfree al (al.take t.alloc).0) (λ _. give_up n) done) (
        given_up newsz n rank'' (record u { alloc = a })
          (Extended-back al rank s root first for_user zeros good rank' t n e ne f fill rank'' u
            drew keeps others aligned tree (λ va below. ground (arith, mapped va below)) a free)
          (omega arith))

  alloc_loop-Grown : (fuel newsz : ℕ) → (newsz + 4095) / 4096 ≡ last → Rounds fuel newsz
  unfolding alloc_loop
  alloc_loop-Grown zero newsz size n rank' t e most enough = ground arith
  alloc_loop-Grown (suc fuel) newsz size n rank' t e most enough =
      elim (Bool-cases (ltb ((first + n) * 4096) newsz)) [
        | inr full ↦
            let all : n ≡ last - first = ground arith in
            rw full (
              returns (
                true,
                refl,
                (rank', subst (λ k. Extended al rank s root first for_user zeros rank' t k) all e),
              ))
        | inl more ↦ elim (Bool-cases ((al.take t.alloc).0 == 0)) [
          | inl exhausted ↦
              rw (more, exhausted)
                (given_up newsz n rank' (record t { alloc = (al.take t.alloc).1 })
                  (Extended-exhausted al rank s root first for_user zeros good rank' t n e
                    (ground arith))
                  most)
          | inr got ↦
              rw (more, got)
                (attempt (ground arith) _
                  (Filled-zeros al rank s root first for_user zeros good rank' t n e (ground arith)
                    (λ j. refl))
                  (ground arith) (alloc_loop-Grown fuel newsz size))
        ]
      ]
    where
      attempt :
          (al.take t.alloc).0 ≢ 0
          → (f : Memory A) → Filled al rank s root first for_user zeros good rank' t n e f
          → first + n < last
          → Rounds fuel newsz
          → Returns (Grown newsz) (
              (mappages al pl root ((first + n) * 4096) page_size (al.take t.alloc).0 user_perm
                  >>= after_mapping fuel n newsz (al.take t.alloc).0)
                f)
      attempt ne f fill more rounds =
          let fits : page (al.take t.alloc).0 ≡ true =
            returnable (al.take t.alloc).0
              (taken_before al rank s root first for_user zeros good rank' t n e ne) in
          let phys = low (al.take t.alloc).0 fits in
          Returns-bind
            (mappages al pl root ((first + n) * 4096) page_size (al.take t.alloc).0 user_perm)
            (after_mapping fuel n newsz (al.take t.alloc).0)
            (mappages_page al pl good bound down rank' f fill.tree root e.top (first + n)
              (al.take t.alloc).0 user_perm (omega arith) phys
              (λ x below at.
                ground (arith, fill.same root x e.top, e.outside x below, empty x below)))
            (mapped_round fuel newsz rounds n rank' t e more enough ne f fill)

module _ {A : Type 0} (al : Allocator A) (pl : Platform) (good : IsAllocator al)
    (bound : pl.maxva ≤ 2 ^ 39) (page : ℕ → Bool) (back : TakesBack al page)
    (low : (x : ℕ) → page x ≡ true → x + 4096 ≤ 2 ^ 64)
    (down : (x : ℕ) → pl.pground_down x ≡ x / 4096 * 4096)
    (up : (x : ℕ) → pl.pground_up x ≡ (x + 4095) / 4096 * 4096) where
  -- `uvmalloc` to no smaller size, up to MAXVA, where no page above the old size is mapped and the free
  -- pages are aligned and `kfree` takes them, does not panic and ends within its fuel. Either it gives the
  -- new size: each page up to it has then become a page of its own that was free, is full of zeros and is
  -- open to the user, and all other translations and all other bytes outside free pages are as before. Or it
  -- gives 0: then all translations are as before, and each page that was free is free or a page-table page.
  -- To a smaller size it changes nothing and gives the old one.
  pub uvmalloc-Added :
      (rank : ℕ → ℕ) (s : Memory A) (root : ℕ)
      → IsTree al rank s
      → rank root ≡ 3
      → ((x : ℕ) → al.free s.alloc x ≡ true → page x ≡ true)
      → ((x : ℕ) → al.free s.alloc x ≡ true → x % 4096 ≡ 0)
      → (oldsz newsz : ℕ) → (newsz + 4095) / 4096 * 4096 ≤ pl.maxva
      → ((va : ℕ)
          → va < 2 ^ 39
          → (oldsz + 4095) / 4096 ≤ va / 4096
          → va / 4096 < (newsz + 4095) / 4096
          → lookup s.tables 2 root va ≡ none)
      → if ltb newsz oldsz
        then uvmalloc al pl root oldsz newsz s ≡ ok (oldsz, s)
        else Returns
            (λ r t.
              (done : Bool) × (r ≡ (if done then newsz else 0))
              × Added al rank s root
                  ((oldsz + 4095) / 4096)
                  for_user
                  zeros
                  ((newsz + 4095) / 4096 - (oldsz + 4095) / 4096)
                  done
                  t)
            (uvmalloc al pl root oldsz newsz s)
  unfolding uvmalloc
  uvmalloc-Added rank s root tree top returnable aligned oldsz newsz inside empty =
      let zero_more : (oldsz + 4095) / 4096 + 0 ≡ (oldsz + 4095) / 4096 = omega arith in
      elim (Bool-cases (ltb newsz oldsz)) [
        | inl shrinks ↦ rw shrinks refl
        | inr grows ↦
            rw (grows, up oldsz)
              (subst
                (λ k.
                  Returns
                    (Grown al pl good bound page back low down up rank s root returnable aligned
                      ((oldsz + 4095) / 4096) ((newsz + 4095) / 4096) inside empty newsz)
                    (alloc_loop al pl (newsz / page_size + 2) root (k * 4096)
                      ((oldsz + 4095) / 4096 * 4096) newsz s))
                zero_more
                (alloc_loop-Grown al pl good bound page back low down up rank s root returnable
                  aligned ((oldsz + 4095) / 4096) ((newsz + 4095) / 4096) inside empty
                  (newsz / page_size + 2) newsz refl 0 rank s
                  (Extended-refl al rank s root ((oldsz + 4095) / 4096) for_user zeros tree top)
                  (ground arith) (omega arith)))
      ]

-- ===== src/Lab4/UserMemory/Steps.antt =====
-- One round of the loops of `uvmalloc` and `uvmcopy` of Lab4/kernel/vm.c: what it adds, and what it takes
-- back.
use hitsz_os.Base.{
  ℕ, suc, ◌+◌, ◌*◌, ◌/◌, ◌%◌, ◌^◌, ◌≡◌, ◌≢◌, ◌<◌, ◌∙◌, refl, true, false, none, some, ◌||◌, arith,
  ◌==◌, if◌then◌else◌, Bool-cases, inl, inr,
}
use hitsz_os.Lab4.Memory.{Perm, leaf_pte, Allocator, Memory}
use hitsz_os.Lab4.PageTable.Tree.{lookup, IsTree, IsAllocator, OthersKept}
use hitsz_os.Lab4.PageTable.Walk.{Drew, covers}
use hitsz_os.Lab4.PageTable.Map.{Mapped}
use hitsz_os.Lab4.PageTable.Unmap.{Unmapped}
use hitsz_os.Lab4.UserMemory.Extended.{within, Extended, Restored, Filled, taken_before}

module _ {A : Type 0} (al : Allocator A) (rank : ℕ → ℕ) (s : Memory A) (root first : ℕ)
    (perms : ℕ → Perm) (bytes : ℕ → ℕ → ℕ) (good : IsAllocator al) (rank' : ℕ → ℕ) (t : Memory A)
    (n : ℕ) (e : Extended al rank s root first perms bytes rank' t n) where
  module _ (ne : (al.take t.alloc).0 ≢ 0) (f : Memory A)
      (fill : Filled al rank s root first perms bytes good rank' t n e f) where
    abbrev mem : ℕ
    mem = (al.take t.alloc).0

    was_free : al.free s.alloc (al.take t.alloc).0 ≡ true
    was_free = taken_before al rank s root first perms bytes good rank' t n e ne

    module _ (rank'' : ℕ → ℕ) (u : Memory A)
        (drew : Drew al rank' f.alloc f.bytes rank'' u.alloc u.bytes)
        (keeps : (q : ℕ) → rank' q ≢ 0 → rank'' q ≡ rank' q)
        (others : OthersKept rank' root f.tables u.tables) where
      -- a page that is mapped already stays in use
      stays :
          (x : ℕ)
          → al.free t.alloc x ≡ false
          → rank' x ≡ 0
          → (al.free u.alloc x ≡ false) × (rank'' x ≡ 0)
      stays x gone z =
          let gone' : al.free f.alloc x ≡ false = ground (arith, fill.alloc x) in
          (drew.fewer x gone', drew.spares x gone' z)

      mem_stays : (al.free u.alloc (al.take t.alloc).0 ≡ false) × (rank'' (al.take t.alloc).0 ≡ 0)
      mem_stays =
          let gone : al.free f.alloc mem ≡ false = ground (arith, fill.alloc mem) in
          (drew.fewer mem gone, drew.spares mem gone (e.tree.unfree mem (good.taken t.alloc ne)))

      keeps_all : (q : ℕ) → rank q ≢ 0 → rank'' q ≡ rank q
      keeps_all q nz = ground (arith, e.keeps q, keeps q)

      others_all : OthersKept rank root s.tables u.tables
      others_all p va three ne =
          let three' = e.keeps p (ground arith) ∙ three in
          others p va three' ne ∙ fill.same p va three' ∙ e.others p va three ne

      content_all :
          (x : ℕ)
          → ((q : ℕ) → al.free s.alloc q ≡ true → covers q x ≡ false)
          → u.bytes x ≡ s.bytes x
      content_all x out =
          drew.content x (λ q free. out q (ground (arith, fill.alloc q, e.fewer q)))
          ∙ fill.outside x (out mem was_free)
          ∙ e.content x out

      module _ (aligned : (x : ℕ) → al.free s.alloc x ≡ true → x % 4096 ≡ 0) where
        -- the bytes of a page that is not free stay
        same_bytes :
            (x : ℕ)
            → al.free s.alloc x ≡ true
            → al.free f.alloc x ≡ false
            → (j : ℕ) → j < 4096
            → u.bytes (x + j) ≡ f.bytes (x + j)
        same_bytes x was gone j less = drew.content (x + j) (λ q free.
            let other : q ≢ x = ground arith in
            let q_aligned = aligned q (ground (arith, fill.alloc q, e.fewer q)) in
            apart_pages q x j q_aligned (aligned x was) less other)
          where
            apart_pages :
                (q x j : ℕ)
                → q % 4096 ≡ 0
                → x % 4096 ≡ 0
                → j < 4096
                → q ≢ x
                → covers q (x + j) ≡ false
            apart_pages q x j h h' less other = ground arith

        old_bytes :
            (x : ℕ)
            → al.free s.alloc x ≡ true
            → al.free t.alloc x ≡ false
            → (j : ℕ) → j < 4096
            → u.bytes (x + j) ≡ t.bytes (x + j)
        old_bytes x was gone j less =
            let other : mem ≢ x = ground (arith, good.taken t.alloc ne) in
            let x_aligned = aligned x was in
            let mem_aligned = aligned mem was_free in
            same_bytes x was (ground (arith, fill.alloc x)) j less
            ∙ fill.outside (x + j) (ground arith)

        new_bytes : (j : ℕ) → j < 4096 → u.bytes ((al.take t.alloc).0 + j) ≡ bytes (first + n) j
        new_bytes j less =
            same_bytes mem was_free (ground (arith, fill.alloc mem)) j less ∙ fill.holds j less

        -- `mappages` has mapped the page.
        module _ (tree : IsTree al rank'' u)
            (mapped : Mapped al f root (first + n) 1 mem (perms (first + n)) u)
            (space : (first + n) * 4096 < 2 ^ 39) where
          now :
              (va : ℕ)
              → va < 2 ^ 39
              → lookup u.tables 2 root va ≡ (
                  if va / 4096 == first + n
                  then some (leaf_pte (al.take t.alloc).0 (perms (va / 4096)))
                  else lookup t.tables 2 root va)
          now va below = ground (arith, mapped va below, fill.same root va e.top)

          pub Extended-mapped : Extended al rank s root first perms bytes rank'' u (suc n)
          Extended-mapped = record {
            tree = tree;
            top = keeps root (ground (arith, e.top)) ∙ e.top;
            keeps = keeps_all;
            others = others_all;
            outside = λ va below out. ground (arith, now va below, e.outside va below);
            inside = λ va below yes. elim (Bool-cases (va / 4096 == first + n)) [
              | inl here ↦ (
                mem,
                ground (arith, now va below),
                (ne, aligned mem was_free),
                was_free,
                mem_stays.0,
                mem_stays.1,
                (λ j less. ground (arith, new_bytes j less)),
              )
              | inr there ↦
                  let (x, at, nz, was, gone, z, holds) = e.inside va below (ground arith) in
                  (
                    x,
                    ground (arith, now va below),
                    nz,
                    was,
                    (stays x gone z).0,
                    (stays x gone z).1,
                    (λ j less. old_bytes x was gone j less ∙ holds j less),
                  )
            ];
            apart = λ va va' x below below' yes yes' at at'. ground (
              arith,
              now va below,
              now va' below',
              e.inside va below,
              e.inside va' below',
              e.apart va va' x below below',
              aligned mem was_free,
              good.taken t.alloc ne,
            );
            fewer = λ q gone. drew.fewer q (ground (arith, e.fewer q gone, fill.alloc q));
            used = λ q nz was z. elim (e.used q nz was (ground (arith, keeps q))) [
              | inl free ↦ elim (Bool-cases (mem == q)) [
                | inl same ↦ inr (
                  (first + n) * 4096,
                  space,
                  ground arith,
                  ground (arith, now ((first + n) * 4096) space),
                )
                | inr other ↦ inl (drew.used q nz (ground (arith, fill.alloc q)) z)
              ]
              | inr (va, below, inside, at) ↦
                  inr (va, below, ground arith, ground (arith, now va below))
            ];
            content = content_all;
          }

        -- `mappages` has failed, and `kfree` takes the page back.
        module _ (tree : IsTree al rank'' u)
            (same : (va : ℕ) → va < 2 ^ 39 → lookup u.tables 2 root va ≡ lookup f.tables 2 root va)
            (a : A)
            (back : (y : ℕ) → al.free a y ≡ ((al.take t.alloc).0 == y || al.free u.alloc y)) where
          as_before : (va : ℕ) → va < 2 ^ 39 → lookup u.tables 2 root va ≡ lookup t.tables 2 root va
          as_before va below = same va below ∙ fill.same root va e.top

          pub Extended-back :
              Extended al rank s root first perms bytes rank'' (record u { alloc = a }) n
          Extended-back = record {
            tree = record {
              down = tree.down;
              once = tree.once;
              unfree = λ x free. ground (arith, back x, mem_stays, tree.unfree x);
              zero_rank = tree.zero_rank;
            };
            top = keeps root (ground (arith, e.top)) ∙ e.top;
            keeps = keeps_all;
            others = others_all;
            outside = λ va below out. as_before va below ∙ e.outside va below out;
            inside = λ va below yes.
                let (x, at, nz, was, gone, z, holds) = e.inside va below yes in
                let (gone', z') = stays x gone z in
                (
                  x,
                  as_before va below ∙ at,
                  nz,
                  was,
                  ground (arith, back x, good.taken t.alloc ne),
                  z',
                  (λ j less. old_bytes x was gone j less ∙ holds j less),
                );
            apart = λ va va' x below below' yes yes' at at'.
                ground
                  (arith, as_before va below, as_before va' below', e.apart va va' x below below');
            fewer = λ q gone.
                ground (
                  arith,
                  back q,
                  good.taken t.alloc ne,
                  e.fewer q gone,
                  drew.fewer q,
                  fill.alloc q,
                );
            used = λ q nz was z. elim (e.used q nz was (ground (arith, keeps q))) [
              | inl free ↦ inl (ground (arith, back q, drew.used q nz, fill.alloc q))
              | inr (va, below, inside, at) ↦ inr (va, below, inside, as_before va below ∙ at)
            ];
            content = content_all;
          }

  -- The pages are unmapped and given back.
  pub Restored-Unmapped :
      ((x : ℕ) → al.free s.alloc x ≡ true → x % 4096 ≡ 0)
      → (u : Memory A) → IsTree al rank' u
      → Unmapped al t root first n true u
      → OthersKept rank' root t.tables u.tables
      → ((va : ℕ)
          → va < 2 ^ 39
          → within al rank s root first perms bytes n va ≡ true
          → lookup s.tables 2 root va ≡ none)
      → Restored al rank s root first perms bytes rank' u
  Restored-Unmapped aligned u tree (gone, stayed, given_back, no_more) others empty = record {
    tree = tree;
    top = e.top;
    keeps = e.keeps;
    others =
        λ p va three ne. others p va (e.keeps p (ground arith) ∙ three) ne ∙ e.others p va three ne;
    same = λ va below. ground (arith, gone va below, e.outside va below, empty va below);
    free_again = λ q nz f z. elim (e.used q nz f z) [
      | inl free ↦ stayed q free
      | inr (va, below, inside, at) ↦ ground (
        arith,
        aligned q f,
        given_back va (leaf_pte q (perms (va / 4096))) below refl (ground arith) (ground arith) at,
      )
    ];
  }

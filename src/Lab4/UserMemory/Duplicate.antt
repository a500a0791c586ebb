-- ===== src/Lab4/UserMemory/Duplicate.antt =====
-- `uvmcopy` of Lab4/kernel/vm.c: the child of a fork gets a copy of all pages, or nothing.
use hitsz_os.Base.{
  ℕ, zero, suc, ◌+◌, ◌*◌, ◌/◌, ◌%◌, ◌^◌, ◌≡◌, ◌≢◌, ◌≤◌, ◌<◌, ◌∙◌, refl, Bool, true, false, none,
  some, not, arith, ◌==◌, leb, ltb, if◌then◌else◌, Bool-cases, Option-cases, inl, inr,
}
use mathlib.Core.Path.{subst}
use hitsz_os.Base.Kernel.{M, ok, pure, fail, ◌>>=◌, ◌>>◌, bind-ok, Returns, returns, Returns-bind}
use hitsz_os.Lab4.Memory.{
  page_size, Perm, Pte, leaf_pte, only_valid, Allocator, Memory, load_pte, kalloc, kfree,
}
use hitsz_os.Lab4.PageTable.{Platform, PtePtr, given, u64, walk, walk_from, mappages, uvmunmap}
use hitsz_os.Lab4.PageTable.Tree.{slot, lookup, IsTree, IsAllocator}
use hitsz_os.Lab4.PageTable.Walk.{covers}
use hitsz_os.Lab4.PageTable.Write.{lookup-slot, lookup-no_slot}
use hitsz_os.Lab4.PageTable.Access.{walk_from-read}
use hitsz_os.Lab4.PageTable.Map.{Mapped, Mapping}
use hitsz_os.Lab4.PageTable.OnePage.{mappages_page}
use hitsz_os.Lab4.PageTable.Unmap.{TakesBack, uvmunmap-Unmapping}
use hitsz_os.Lab4.UserMemory.{moved, copy_page, copy_loop, uvmcopy}
use hitsz_os.Lab4.UserMemory.Extended.{
  Extended, Extended-refl, Extended-exhausted, Added, Filled, taken_before,
}
use hitsz_os.Lab4.UserMemory.Steps.{Extended-mapped, Extended-back, Restored-Unmapped}

-- the permissions and the bytes of the pages that are copied
abbrev pub perms_like : (ℕ → Pte) → ℕ → Perm
perms_like entries k = (entries k).perm

abbrev pub bytes_like : {A : Type 0} → Memory A → (ℕ → Pte) → (k j : ℕ) → ℕ
bytes_like s entries k j = s.bytes ((entries k).pa + j)

-- Page `k` of table `old` has the entry `e`: a leaf, to an aligned page that is in use.
abbrev pub IsSource : {A : Type 0} (al : Allocator A) (s : Memory A) (old k : ℕ) → Pte → Type 0
IsSource al s old k e =
    (lookup s.tables 2 old (k * 4096) ≡ some e)
    × (only_valid e ≡ false)
    × (al.free s.alloc e.pa ≡ false)
    × (e.pa % 4096 ≡ 0)

-- the slot of a mapped address
source_slot :
    (t : ℕ → ℕ → Pte) (root a : ℕ) (e : Pte)
    → lookup t 2 root a ≡ some e
    → (q : ℕ) × (i : ℕ) × (slot t 2 root a ≡ some (q, i)) × (t q i ≡ e) × (e.valid ≡ true)
source_slot t root a e found = elim (Option-cases (slot t 2 root a)) [
  | inl missing ↦ ground (arith, lookup-no_slot t 2 root a missing)
  | inr ((q, i), at) ↦
      let is_e = lookup-slot t 2 root a q i at in (q, i, at, ground arith, ground arith)
]

module _ {A : Type 0} (al : Allocator A) (pl : Platform) (good : IsAllocator al)
    (bound : pl.maxva ≤ 2 ^ 39) (page : ℕ → Bool) (back : TakesBack al page)
    (low : (x : ℕ) → page x ≡ true → x + 4096 ≤ 2 ^ 64)
    (down : (x : ℕ) → pl.pground_down x ≡ x / 4096 * 4096) (rank : ℕ → ℕ) (s : Memory A)
    (old new : ℕ) (old_top : rank old ≡ 3) (apart : old ≢ new)
    (returnable : (x : ℕ) → al.free s.alloc x ≡ true → page x ≡ true)
    (aligned : (x : ℕ) → al.free s.alloc x ≡ true → x % 4096 ≡ 0) (last sz : ℕ)
    (size : (sz + 4095) / 4096 ≡ last) (inside : last * 4096 ≤ pl.maxva) (entries : ℕ → Pte)
    (sources : (k : ℕ) → k < last → IsSource al s old k (entries k))
    (empty : (va : ℕ) → va < 2 ^ 39 → va / 4096 < last → lookup s.tables 2 new va ≡ none) where
  abbrev perms : ℕ → Perm
  perms = perms_like entries

  abbrev bytes : ℕ → ℕ → ℕ
  bytes = bytes_like s entries

  abbrev Ext : (rank' : ℕ → ℕ) → Memory A → ℕ → Type 0
  Ext rank' t n = Extended al rank s new 0 perms bytes rank' t n

  abbrev Copied : Bool → Memory A → Type 0
  Copied done t = Added al rank s new 0 perms bytes last done t

  abbrev give_up : (n : ℕ) → M (Memory A) Bool
  give_up n = do uvmunmap al pl new 0 (n * 4096 / page_size) true; pure false

  leaf_lem : (k x : ℕ) → k < last → only_valid (leaf_pte x (entries k).perm) ≡ false
  leaf_lem k x less =
      let (at, leaf, used, al_pa) = sources k less in
      let (q, i, slot_at, is_e, valid) = source_slot s.tables old (k * 4096) (entries k) at in
      ground arith

  given_up :
      (n : ℕ) (rank' : ℕ → ℕ) (t : Memory A)
      → Ext rank' t n
      → n ≤ last
      → Returns Copied (give_up n t)
  given_up n rank' t e most =
      let count : n * 4096 / page_size ≡ n = omega arith in
      rw count (
        Returns-bind (uvmunmap al pl new 0 n true) (λ _. pure false)
          (uvmunmap-Unmapping al page pl back bound rank' new e.top true t e.tree 0 n refl
            (omega arith)
            (λ va below from to.
              let (x, at, ne, was, gone, z, holds) = e.inside va below (ground arith) in
              (
                leaf_pte x (perms (va / 4096)),
                at,
                (
                  refl,
                  leaf_lem (va / 4096) x (omega arith),
                  λ asked. (ground (arith, ne, returnable x was), ground (arith, ne, z)),
                ),
              )))
          (λ r u (tree, unmapped, others). returns (
            rank',
            Restored-Unmapped al rank s new 0 perms bytes good rank' t n e aligned u tree unmapped
                others (λ va below yes. empty va below (ground arith)),
          )))

  -- the part of a round behind `mappages`
  abbrev after_mapping : (fuel n mem : ℕ) → Bool → M (Memory A) Bool
  after_mapping fuel n mem done =
      if done
      then copy_loop al pl fuel old new (u64 (n * 4096 + page_size)) sz
      else do kfree al mem; give_up n

  abbrev Rounds : (fuel : ℕ) → Type 0
  Rounds fuel =
      (n : ℕ) (rank' : ℕ → ℕ) (t : Memory A)
      → Ext rank' t n
      → n ≤ last
      → last < n + fuel
      → Returns Copied (copy_loop al pl fuel old new (n * 4096) sz t)

  module _ (n : ℕ) (rank' : ℕ → ℕ) (t : Memory A) (e : Ext rank' t n) (more : n < last)
      (ne : (al.take t.alloc).0 ≢ 0) where
    abbrev copied : Memory A
    copied = record t {
      bytes = moved t.bytes (al.take t.alloc).0 (λ j. t.bytes ((entries n).pa + j)) page_size;
      alloc = (al.take t.alloc).1;
    }

    -- The bytes that are copied are those of the beginning.
    source_bytes : (j : ℕ) → j < 4096 → t.bytes ((entries n).pa + j) ≡ s.bytes ((entries n).pa + j)
    source_bytes j less =
        let (at, leaf, used, pa_aligned) = sources n more in
        e.content ((entries n).pa + j)
          (λ q free. no_overlap q (entries n).pa j (aligned q free) pa_aligned less (ground arith))
      where
        no_overlap :
            (q x j : ℕ) → q % 4096 ≡ 0 → x % 4096 ≡ 0 → j < 4096 → q ≢ x → covers q (x + j) ≡ false
        no_overlap q x j h h' less other = ground arith

    Filled-copied : Filled al rank s new 0 perms bytes good rank' t n e copied
    Filled-copied = record {
      tree = record {
        down = e.tree.down;
        once = e.tree.once;
        unfree = λ x f. ground (arith, e.tree.unfree x, good.rest t.alloc x);
        zero_rank = e.tree.zero_rank;
      };
      same = λ p va three. refl;
      alloc = λ x. good.rest t.alloc x;
      holds = λ j less. ground (arith, source_bytes j less);
      outside = λ x out. ground arith;
    }

    mapped_round :
        (fuel : ℕ)
        → Rounds fuel
        → last < n + suc fuel
        → (r : Bool) (u : Memory A)
        → Mapping al rank' copied new n 1 (al.take t.alloc).0 (entries n).perm r u
        → Returns Copied (after_mapping fuel n (al.take t.alloc).0 r u)
    mapped_round fuel rounds enough true u
          (rank'', tree, top, drew, keeps, others, (m, mapped, one), supplied) =
        let next : u64 (n * 4096 + page_size) ≡ suc n * 4096 = omega arith in
        let from_zero : n ≡ 0 + n = omega arith in
        rw next (
          rounds (suc n) rank'' u
            (Extended-mapped al rank s new 0 perms bytes good rank' t n e ne copied Filled-copied
              rank'' u drew keeps others aligned tree
              (subst (λ f. Mapped al copied new f 1 (al.take t.alloc).0 (perms f) u) from_zero
                (subst (λ k. Mapped al copied new n k (al.take t.alloc).0 (entries n).perm u) one
                  mapped))
              (omega arith))
            (omega arith) (omega arith))
    mapped_round fuel rounds enough false u
          (rank'', tree, top, drew, keeps, others, (m, mapped, none_yet), supplied) =
        let fits : page (al.take t.alloc).0 ≡ true =
          returnable (al.take t.alloc).0
            (taken_before al rank s new 0 perms bytes good rank' t n e ne) in
        let (a, given_back, free) = back.back (al.take t.alloc).0 u.alloc fits in
        let done : kfree al (al.take t.alloc).0 u ≡ ok (tt, record u { alloc = a }) =
          rw (given_back, kfree) refl in
        rw (bind-ok (kfree al (al.take t.alloc).0) (λ _. give_up n) done) (
          given_up n rank'' (record u { alloc = a })
            (Extended-back al rank s new 0 perms bytes good rank' t n e ne copied Filled-copied
              rank'' u drew keeps others aligned tree (λ va below. ground (arith, mapped va below))
              a free)
            (omega arith))

    round_done :
        (fuel : ℕ)
        → Rounds fuel
        → last < n + suc fuel
        → Returns Copied (
            (mappages al pl new (n * 4096) page_size (al.take t.alloc).0 (entries n).perm
                >>= after_mapping fuel n (al.take t.alloc).0)
              copied)
    round_done fuel rounds enough =
        let fits : page (al.take t.alloc).0 ≡ true =
          returnable (al.take t.alloc).0
            (taken_before al rank s new 0 perms bytes good rank' t n e ne) in
        let phys = low (al.take t.alloc).0 fits in
        let filled = Filled-copied in
        Returns-bind (mappages al pl new (n * 4096) page_size (al.take t.alloc).0 (entries n).perm)
          (after_mapping fuel n (al.take t.alloc).0)
          (mappages_page al pl good bound down rank' copied filled.tree new e.top n
            (al.take t.alloc).0 (entries n).perm (omega arith) phys
            (λ x below at. ground (arith, e.outside x below, empty x below)))
          (mapped_round fuel rounds enough)

  copy_loop-Copied : (fuel : ℕ) → Rounds fuel
  unfolding copy_loop walk
  copy_loop-Copied zero n rank' t e most enough = ground arith
  copy_loop-Copied (suc fuel) n rank' t e most enough = elim (Bool-cases (ltb (n * 4096) sz)) [
    | inr full ↦
        let all : n ≡ last = ground arith in
        rw full (returns (rank', subst (λ k. Extended al rank s new 0 perms bytes rank' t k) all e))
    | inl more ↦
        let less : n < last = ground arith in
        let (at, leaf, used, pa_aligned) = sources n less in
        let (q, i, slot_at, is_e, valid) =
          source_slot t.tables old (n * 4096) (entries n)
            (e.others old (n * 4096) old_top apart ∙ at) in
        let below : leb pl.maxva (n * 4096) ≡ false = ground arith in
        rw more (
          rw below (
            rw
              (bind-ok (walk_from al 2 false old (n * 4096)) (rest fuel)
                (walk_from-read al 2 old (n * 4096) t))
              (rw slot_at (rw is_e (rw valid (copied_page less (copy_loop-Copied fuel)))))))
  ]
    where
      -- the part of a round behind the allocation
      allocated : (fuel mem : ℕ) → Pte → M (Memory A) Bool
      allocated fuel mem pte = if mem == 0 then give_up n else do
        copy_page mem pte.pa
        done ← mappages al pl new (n * 4096) page_size mem pte.perm
        after_mapping fuel n mem done

      rest : (fuel : ℕ) → PtePtr → M (Memory A) Bool
      rest fuel found =
          given found
            (λ (p, j). do
              pte ← load_pte p j
              if not pte.valid
                  then fail "uvmcopy: page not present"
                  else do mem ← kalloc al; allocated fuel mem pte)
            (fail "uvmcopy: pte should exist")

      copied_page :
          n < last
          → Rounds fuel
          → Returns Copied ((do mem ← kalloc al; allocated fuel mem (entries n)) t)
      copied_page less rounds = elim (Bool-cases ((al.take t.alloc).0 == 0)) [
        | inl exhausted ↦ rw exhausted (
            given_up n rank' (record t { alloc = (al.take t.alloc).1 })
              (Extended-exhausted al rank s new 0 perms bytes good rank' t n e (ground arith)) most)
        | inr got ↦ rw got (round_done n rank' t e less (ground arith) fuel rounds enough)
      ]

module _ {A : Type 0} (al : Allocator A) (pl : Platform) (good : IsAllocator al)
    (bound : pl.maxva ≤ 2 ^ 39) (page : ℕ → Bool) (back : TakesBack al page)
    (low : (x : ℕ) → page x ≡ true → x + 4096 ≤ 2 ^ 64)
    (down : (x : ℕ) → pl.pground_down x ≡ x / 4096 * 4096) where
  -- `uvmcopy` from one table to another of the same tree, up to MAXVA, where each page of the old table is
  -- a leaf to an aligned page that is in use, the new table maps none of them, and the free pages are aligned
  -- and `kfree` takes them, does not panic and ends within its fuel. If it gives 0, each page of the new table
  -- leads to a page of its own that was free, with the permissions and the bytes of the old one, and no
  -- other translation, of any table, and no byte outside free pages has changed. If it gives -1, no
  -- translation has changed, and each page that was free is free or a page-table page.
  pub uvmcopy-Added :
      (rank : ℕ → ℕ) (s : Memory A)
      → IsTree al rank s
      → (old new : ℕ) → rank old ≡ 3
      → rank new ≡ 3
      → old ≢ new
      → ((x : ℕ) → al.free s.alloc x ≡ true → page x ≡ true)
      → ((x : ℕ) → al.free s.alloc x ≡ true → x % 4096 ≡ 0)
      → (sz : ℕ) → (sz + 4095) / 4096 * 4096 ≤ pl.maxva
      → (entries : ℕ → Pte) → ((k : ℕ) → k < (sz + 4095) / 4096 → IsSource al s old k (entries k))
      → ((va : ℕ) → va < 2 ^ 39 → va / 4096 < (sz + 4095) / 4096 → lookup s.tables 2 new va ≡ none)
      → Returns
          (λ done t.
            Added al rank s new 0
              (perms_like entries)
              (bytes_like s entries)
              ((sz + 4095) / 4096)
              done
              t)
          (uvmcopy al pl old new sz s)
  unfolding uvmcopy
  uvmcopy-Added rank s tree old new old_top top apart returnable aligned sz inside entries sources
        empty =
      copy_loop-Copied al pl good bound page back low down rank s old new old_top apart returnable
        aligned ((sz + 4095) / 4096) sz refl inside entries sources empty (sz / page_size + 2) 0
        rank s (Extended-refl al rank s new 0 (perms_like entries) (bytes_like s entries) tree top)
        (omega arith) (omega arith)

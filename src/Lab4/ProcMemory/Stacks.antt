-- ===== src/Lab4/ProcMemory/Stacks.antt =====
-- Lab4/kernel/proc.c: the kernel stacks that `procinit` gives to the processes.
mod Tests
use hitsz_os.Base.{
  ℕ, zero, suc, ◌+◌, ◌*◌, ◌/◌, ◌^◌, ◌-◌, ◌≡◌, ◌≢◌, ◌≤◌, ◌<◌, ◌∙◌, ap, refl, Bool, true, false, none,
  some, not, ◌&&◌, arith, ◌==◌, leb, ltb, if◌then◌else◌, Bool-cases, inl, inr, ◌⊎◌,
}
use mathlib.Core.Path.{subst}
use Prim.Native.String.{String}
use hitsz_os.Base.Kernel.{
  Outcome, M, ok, panic, pure, fail, ◌>>=◌, ◌>>◌, update, Returns, Returns-run, Blames, finished,
  blamed,
}
use hitsz_os.Lab4.Memory.{page_size, Perm, leaf_pte, Allocator, Memory}
use hitsz_os.Lab4.PageTable.{Platform, mappages, kvmmap}
use hitsz_os.Lab4.PageTable.Supply.{
  CanTake, Supply, Supplied, Supply-refl, Supply-trans, Supply-mono, Supply-take, cannot_take,
  cannot_more, cannot_then,
}
use hitsz_os.Lab4.PageTable.Tree.{lookup, IsTree, IsAllocator}
use hitsz_os.Lab4.PageTable.Map.{Mapping}
use hitsz_os.Lab4.PageTable.OnePage.{mappages_page}
use hitsz_os.Lab4.KernelMemory.{data_perm}
use hitsz_os.Lab4.Proc.{Proc, Table, change}
use hitsz_os.Lab4.ProcMemory.{Kernel, on_memory, set}
use hitsz_os.Lab4.ProcMemory.Console.{init_stacks, procinit}

-- `procinit` gives up where the allocator cannot give three pages for each of `n` processes: the stack and
-- two page-table pages.
abbrev pub NoPage : {A : Type 0} → Allocator A → (n : ℕ) → A → String → Type 0
NoPage al n a msg = ((msg ≡ "kalloc") ⊎ (msg ≡ "kvmmap")) × ¬ (CanTake al (3 * n) a)

-- The entries below `n` have their stacks: page `stack_page i` of the kernel table leads to a page of its
-- own, which was free, and no other page of the kernel table has changed.
pub record Stacks {A : Type 0} (al : Allocator A) (s : Kernel A) (kern : ℕ) (stack_page : ℕ → ℕ)
    (n : ℕ) (t : Kernel A) : Type 0 where
  pub rank' : ℕ → ℕ
  pub tree : IsTree al rank' t.mem
  pub top : rank' kern ≡ 3
  pub given :
      (i : ℕ)
      → i < n
      → ((t.table.proc i).kstack ≡ stack_page i * 4096)
        × (lookup t.mem.tables 2 kern (stack_page i * 4096)
            ≡ some (leaf_pte (t.table.proc i).kstack_pa data_perm))
        × (al.free s.mem.alloc (t.table.proc i).kstack_pa ≡ true)
        × (al.free t.mem.alloc (t.table.proc i).kstack_pa ≡ false)
        × (rank' (t.table.proc i).kstack_pa ≡ 0)
  pub apart :
      (i j : ℕ) → i < n → j < n → (t.table.proc i).kstack_pa ≡ (t.table.proc j).kstack_pa → i ≡ j
  pub outside :
      (va : ℕ)
      → va < 2 ^ 39
      → ((i : ℕ) → i < n → va / 4096 ≢ stack_page i)
      → lookup t.mem.tables 2 kern va ≡ lookup s.mem.tables 2 kern va
  pub fewer : (q : ℕ) → al.free s.mem.alloc q ≡ false → al.free t.mem.alloc q ≡ false
  pub supply : Supply al (3 * n) s.mem.alloc t.mem.alloc

module _ {A : Type 0} (al : Allocator A) (pl : Platform) (good : IsAllocator al)
    (bound : pl.maxva ≤ 2 ^ 39) (down : (x : ℕ) → pl.pground_down x ≡ x / 4096 * 4096)
    (s : Kernel A) (low : (x : ℕ) → al.free s.mem.alloc x ≡ true → x + 4096 ≤ 2 ^ 64) (kern : ℕ)
    (stack_page : ℕ → ℕ) (nproc : ℕ)
    (distinct : (i j : ℕ) → i < nproc → j < nproc → stack_page i ≡ stack_page j → i ≡ j)
    (inside : (i : ℕ) → i < nproc → suc (stack_page i) * 4096 ≤ pl.maxva)
    (empty : (va i : ℕ)
      → va < 2 ^ 39
      → i < nproc
      → va / 4096 ≡ stack_page i
      → lookup s.mem.tables 2 kern va ≡ none) where
  abbrev kstack : ℕ → ℕ
  kstack i = stack_page i * 4096

  -- entry `i` with its stack
  abbrev with_stack : (i pa : ℕ) → Table → Table
  with_stack i pa τ =
      let half = record τ { proc = change τ.proc i (λ q. record q { kstack_pa = pa }) } in
      record half { proc = change half.proc i (λ q. record q { kstack = kstack i }) }

  module _ (i : ℕ) (t : Kernel A) (st : Stacks al s kern stack_page i t) (less : i < nproc)
      (ne : (al.take t.mem.alloc).0 ≢ 0) where
    abbrev pa : ℕ
    pa = (al.take t.mem.alloc).0

    abbrev taken : Memory A
    taken = record t.mem { alloc = (al.take t.mem.alloc).1 }

    taken-IsTree : IsTree al st.rank' taken
    taken-IsTree = record {
      down = st.tree.down;
      once = st.tree.once;
      unfree = λ x f. ground (arith, st.tree.unfree x, good.rest t.mem.alloc x);
      zero_rank = st.tree.zero_rank;
    }

    was_free : al.free s.mem.alloc (al.take t.mem.alloc).0 ≡ true
    was_free = ground (arith, good.taken t.mem.alloc ne, st.fewer (al.take t.mem.alloc).0)

    next_stack :
        (u : Memory A)
        → Mapping al st.rank' taken kern (stack_page i) 1 pa data_perm true u
        → Stacks al s kern stack_page (suc i) (record { mem = u; table = with_stack i pa t.table })
    next_stack u (rank'', tree, top, drew, keeps, others, (m, mapped, one), supplied) =
        let unused = st.tree.unfree pa (good.taken t.mem.alloc ne) in
        let mem_gone : al.free taken.alloc pa ≡ false = ground (arith, good.rest t.mem.alloc pa) in
        let gone = drew.fewer pa mem_gone in
        let z = drew.spares pa mem_gone unused in
        record {
          rank' = rank'';
          tree = tree;
          top = top;
          given = λ j below.
              let small : stack_page j * 4096 < 2 ^ 39 = ground (arith, inside j) in
              elim (Bool-cases (i == j)) [
                | inl here ↦ (
                  ground arith,
                  ground (arith, mapped (stack_page j * 4096) small),
                  ground (arith, was_free),
                  ground (arith, gone),
                  ground (arith, z),
                )
                | inr there ↦
                    let earlier : j < i = ground arith in
                    let (stack, at, was, now, zj) = st.given j earlier in
                    let x = (t.table.proc j).kstack_pa in
                    let still : al.free taken.alloc x ≡ false =
                      ground (arith, good.rest t.mem.alloc x) in
                    let now' = drew.fewer x still in
                    let zj' = drew.spares x still zj in
                    let other : stack_page j ≢ stack_page i =
                      λ same. ground (arith, distinct j i (omega arith) less same) in
                    (
                      ground (arith, stack),
                      ground (arith, mapped (stack_page j * 4096) small, at),
                      ground (arith, was),
                      ground (arith, now'),
                      ground (arith, zj'),
                    )
              ];
          apart = λ j k below below' same.
              ground (arith, st.apart j k, st.given j, st.given k, good.taken t.mem.alloc ne);
          outside = λ va small out.
              ground (
                arith,
                mapped va small,
                out i,
                st.outside va small (λ j below. out j (omega arith)),
              );
          fewer = λ q f. drew.fewer q (ground (arith, st.fewer q f, good.rest t.mem.alloc q));
          supply =
              Supply-mono al (3 * i + (1 + 2 * 1)) (3 * suc i) s.mem.alloc u.alloc (omega arith) (
                Supply-trans al (3 * i) (1 + 2 * 1) s.mem.alloc t.mem.alloc u.alloc st.supply (
                  Supply-trans al 1 (2 * 1) t.mem.alloc taken.alloc u.alloc
                    (Supply-take al t.mem.alloc ne) supplied));
        }

  kvmmap_run :
      (va size pa : ℕ) (perm : Perm) (t u : Memory A) (done : Bool)
      → mappages al pl kern va size pa perm t ≡ ok (done, u)
      → kvmmap al pl kern va pa size perm t ≡ (if done then pure tt else fail "kvmmap") u
  unfolding kvmmap
  kvmmap_run va size pa perm t u done run = rw (run, ◌>>=◌) refl

  init_stacks-Stacks :
      (count i : ℕ)
      → i + count ≡ nproc
      → (t : Kernel A) → Stacks al s kern stack_page i t
      → Blames
          (λ _ u. Stacks al s kern stack_page nproc u)
          (NoPage al nproc s.mem.alloc)
          (init_stacks al pl kern kstack count i t)
  unfolding init_stacks
  init_stacks-Stacks zero i all t st =
      finished (subst (λ k. Stacks al s kern stack_page k t) (omega arith) st)
  init_stacks-Stacks (suc n) i all t st = elim (Bool-cases ((al.take t.mem.alloc).0 == 0)) [
    | inl full ↦ rw full (
        blamed (
          inl refl,
          cannot_more al (3 * i + 1) (3 * nproc) s.mem.alloc (omega arith) (
              cannot_then al (3 * i) 1 s.mem.alloc t.mem.alloc st.supply
                (cannot_take al t.mem.alloc (ground arith))),
        ))
    | inr got ↦
        let ne : (al.take t.mem.alloc).0 ≢ 0 = ground arith in
        let less : i < nproc = omega arith in
        let tree' = taken-IsTree i t st less ne in
        let phys = low (al.take t.mem.alloc).0 (was_free i t st less ne) in
        let (done, u, run, mapping) = Returns-run (
          mappages_page al pl good bound down st.rank' (taken i t st less ne) tree' kern st.top
            (stack_page i) (al.take t.mem.alloc).0 data_perm (inside i less) phys
            (λ x small at.
              st.outside x small (λ j below same. ground (arith, distinct i j less (omega arith)))
              ∙ empty x i small less at)) in
        rw got (
          mapped_or_not done u (kvmmap_run _ _ _ _ _ u done run) mapping less ne
            (init_stacks-Stacks n (suc i) (omega arith)))
  ]
    where
      mapped_or_not :
          (done : Bool) (u : Memory A)
          → kvmmap al pl kern
              (kstack i)
              (al.take t.mem.alloc).0
              page_size
              data_perm
              (record t.mem { alloc = (al.take t.mem.alloc).1 })
            ≡ (if done then pure tt else fail "kvmmap") u
          → Mapping al st.rank'
              (record t.mem { alloc = (al.take t.mem.alloc).1 })
              kern
              (stack_page i)
              1
              (al.take t.mem.alloc).0
              data_perm
              done
              u
          → i < nproc
          → (al.take t.mem.alloc).0 ≢ 0
          → ((v : Kernel A)
              → Stacks al s kern stack_page (suc i) v
              → Blames
                  (λ _ u. Stacks al s kern stack_page nproc u)
                  (NoPage al nproc s.mem.alloc)
                  (init_stacks al pl kern kstack n (suc i) v))
          → Blames
              (λ _ u. Stacks al s kern stack_page nproc u)
              (NoPage al nproc s.mem.alloc)
              ((do
                on_memory (kvmmap al pl kern (kstack i) (al.take t.mem.alloc).0 page_size data_perm)
                set i (λ q. record q { kstack = kstack i })
                init_stacks al pl kern kstack n (suc i))
                (record {
                  mem = record t.mem { alloc = (al.take t.mem.alloc).1 };
                  table = record t.table {
                    proc =
                        change t.table.proc i
                          (λ q. record q { kstack_pa = (al.take t.mem.alloc).0 });
                  };
                }))
      mapped_or_not true u run mapping less ne rest =
          rw (run, ◌>>=◌) (rest _ (next_stack i t st less ne u mapping))
      mapped_or_not false u run (rank'', tree, top', drew, keeps, others, mapped, supplied) less ne
            rest =
          rw (run, ◌>>=◌)
            (blamed (
              inr refl,
              cannot_more al (3 * i + (1 + 2 * 1)) (3 * nproc) s.mem.alloc (omega arith) (
                  cannot_then al (3 * i) (1 + 2 * 1) s.mem.alloc t.mem.alloc st.supply (
                    cannot_then al 1 (2 * 1) t.mem.alloc (al.take t.mem.alloc).1
                      (Supply-take al t.mem.alloc ne) supplied)),
            ))

  -- `procinit`, where the stacks have pages of their own below MAXVA that the kernel table does not map yet,
  -- panics only with "kalloc" or "kvmmap", and only if the allocator cannot give three pages for each
  -- process, one after the other. Otherwise it ends. Then every entry
  -- of the process table has the address of its stack, which the kernel table maps, readable and writable
  -- for the kernel, to the page that the entry names. The pages are different, were free, and are
  -- neither free nor page-table pages now. No other translation of the kernel table has changed.
  pub procinit-Stacks :
      (rank : ℕ → ℕ)
      → IsTree al rank s.mem
      → rank kern ≡ 3
      → Blames
          (λ _ t. Stacks al s kern stack_page nproc t)
          (NoPage al nproc s.mem.alloc)
          (procinit al pl kern kstack nproc s)
  unfolding procinit
  procinit-Stacks rank tree top = boots_then (
      init_stacks-Stacks nproc 0 (omega arith) s (record {
        rank' = rank;
        tree = tree;
        top = top;
        given = λ i below. ground arith;
        apart = λ i j below below' same. ground arith;
        outside = λ va small out. refl;
        fewer = λ q f. f;
        supply = Supply-refl al (3 * 0) s.mem.alloc;
      }))
    where
      boots_then :
          {o : Outcome (Unit {0} × Kernel A)}
          → Blames (λ _ t. Stacks al s kern stack_page nproc t) (NoPage al nproc s.mem.alloc) o
          → Blames
              (λ _ t. Stacks al s kern stack_page nproc t)
              (NoPage al nproc s.mem.alloc)
              ((elim o [ ok (r, t) ↦ ok (kern, t) | panic msg ↦ panic msg ]))
      boots_then (finished st) = finished st
      boots_then (blamed msg) = blamed msg

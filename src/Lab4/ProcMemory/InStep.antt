-- ===== src/Lab4/ProcMemory/InStep.antt =====
-- Lab4/kernel/proc.c: `growproc` with a size that grows, and the two page tables of the process.
use hitsz_os.Base.{
  ℕ, ◌+◌, ◌*◌, ◌/◌, ◌%◌, ◌^◌, ◌-◌, ◌≡◌, ◌≢◌, ◌≤◌, ◌<◌, ◌∙◌, ap, refl, Bool, true, false, none, some,
  arith, ◌==◌, leb, ltb, if◌then◌else◌, Bool-cases, inl, inr,
}
use Prim.Native.String.{String}
use hitsz_os.Base.Kernel.{
  M, ok, panic, pure, ◌>>◌, Returns, Ends, returned, panicked, Ends-bind, Ends-Returns,
  forget_reason,
}
use hitsz_os.Lab4.Memory.{Pte, leaf_pte, Allocator, Memory}
use hitsz_os.Lab4.PageTable.{Platform}
use hitsz_os.Lab4.PageTable.Tree.{lookup, IsTree, IsAllocator}
use hitsz_os.Lab4.PageTable.Unmap.{TakesBack}
use hitsz_os.Lab4.UserMemory.{user_perm, uvmalloc}
use hitsz_os.Lab4.UserMemory.Extended.{Extended, Added}
use hitsz_os.Lab4.UserMemory.Grow.{for_user, zeros, uvmalloc-Added}
use hitsz_os.Lab4.KernelMemory.{vmcopypage}
use hitsz_os.Lab4.KernelMemory.Copy.{shared, Copying, vmcopypage-Copying, rounds_for}
use hitsz_os.Lab4.KernelMemory.Boot.{IsLayout}
use hitsz_os.Lab4.Proc.{Table, change}
use hitsz_os.Lab4.ProcMemory.{Kernel, on_memory, set, u32, is_negative, growproc}

-- The first `n` pages are mapped in `kern` as they are in `user`, but not for user code.
abbrev pub InStep : {A : Type 0} (user kern n : ℕ) → Memory A → Type 0
InStep user kern n t =
    (va : ℕ)
    → va < 2 ^ 39
    → va / 4096 < n
    → lookup t.tables 2 kern va ≡ shared (lookup t.tables 2 user va)

module _ {A R : Type 0} {P : R → Memory A → Type 0} {msg : String} where
  lifted :
      {o : _} (s : Kernel A)
      → Ends P msg o
      → Ends
          (λ r t. (t.table ≡ s.table) × P r t.mem)
          msg
          ((elim o [ ok (r, mem) ↦ ok (r, record s { mem = mem }) | panic m ↦ panic m ]))
  lifted s (returned h) = returned (refl, h)
  lifted s panicked = panicked

  -- An operation on memory leaves the process table.
  pub on_memory-Ends :
      (m : M (Memory A) R) (s : Kernel A)
      → Ends P msg (m s.mem)
      → Ends (λ r t. (t.table ≡ s.table) × P r t.mem) msg (on_memory m s)
  on_memory-Ends m s h = lifted s h

-- `p->sz = n`
abbrev pub resize : (p : ℕ) → Table → (n : ℕ) → Table
resize p t n = record t { proc = change t.proc p (λ q. record q { sz = n }) }

in_else : (X Y : Type 0) (b : Bool) → b ≡ false → (if b then X else Y) → Y
in_else X Y true e x = ground arith
in_else X Y false e y = y

-- What `growproc` of process `p` leaves behind: the new size, or nothing, where the tables are in step again
-- in all pages below the size.
pub record Resized {A : Type 0} (al : Allocator A) (s : Kernel A) (p newsz : ℕ) (done : Bool)
    (t : Kernel A) : Type 0 where
  pub rank' : ℕ → ℕ
  pub tree : IsTree al rank' t.mem
  pub table : t.table ≡ (if done then resize p s.table newsz else s.table)
  pub in_step :
      InStep
        (s.table.proc p).pagetable
        (s.table.proc p).k_pagetable
        (((if done then newsz else (s.table.proc p).sz) + 4095) / 4096)
        t.mem
  pub new_pages :
      (va : ℕ)
      → va < 2 ^ 39
      → done ≡ true
      → ((s.table.proc p).sz + 4095) / 4096 ≤ va / 4096
      → va / 4096 < (newsz + 4095) / 4096
      → (x : ℕ) × (lookup t.mem.tables 2 (s.table.proc p).pagetable va
          ≡ some (leaf_pte x user_perm))
  pub old_pages :
      (va : ℕ)
      → va < 2 ^ 39
      → va / 4096 < ((s.table.proc p).sz + 4095) / 4096
      → va / 4096 < (newsz + 4095) / 4096
      → lookup t.mem.tables 2 (s.table.proc p).pagetable va
        ≡ lookup s.mem.tables 2 (s.table.proc p).pagetable va

module _ {A : Type 0} (al : Allocator A) (pl : Platform) (good : IsAllocator al)
    (layout : IsLayout pl) (small : pl.plic ≤ 2 ^ 31) (page : ℕ → Bool) (back : TakesBack al page)
    (low : (x : ℕ) → page x ≡ true → x + 4096 ≤ 2 ^ 64)
    (up : (x : ℕ) → pl.pground_up x ≡ (x + 4095) / 4096 * 4096) (rank : ℕ → ℕ) (s : Kernel A)
    (tree : IsTree al rank s.mem) (p : ℕ) where
  abbrev user : ℕ
  user = (s.table.proc p).pagetable

  abbrev kern : ℕ
  kern = (s.table.proc p).k_pagetable

  abbrev sz : ℕ
  sz = (s.table.proc p).sz

  module _ (top : rank (s.table.proc p).pagetable ≡ 3)
      (ktop : rank (s.table.proc p).k_pagetable ≡ 3)
      (apart : (s.table.proc p).pagetable ≢ (s.table.proc p).k_pagetable)
      (in_step : InStep
        (s.table.proc p).pagetable
        (s.table.proc p).k_pagetable
        (((s.table.proc p).sz + 4095) / 4096)
        s.mem) where
    -- the part of `growproc` behind `uvmalloc`
    abbrev grown : (n r : ℕ) → M (Kernel A) Bool
    grown n r = if u32 r == 0 then pure false else do
      on_memory (vmcopypage al pl user kern (u32 (u32 r + 2 ^ 32 - n)) n)
      set p (λ q. record q { sz = u32 r })
      pure true

    -- `vmcopypage` has copied the new pages.
    copied :
        (n : ℕ)
        → 0 < n
        → sz % 4096 ≡ 0
        → sz + n < pl.plic
        → (rank' : ℕ → ℕ) (t : Memory A) (u : Kernel A) → u.table ≡ s.table
        → Extended al rank s.mem user
            ((sz + 4095) / 4096)
            for_user
            zeros
            rank'
            t
            ((sz + n + 4095) / 4096 - (sz + 4095) / 4096)
        → Copying al good pl layout.maxva user kern apart t
            (sz / 4096)
            (rounds_for al good pl layout.maxva user kern apart n)
            tt
            u.mem
        → Resized al s p (sz + n) true (record u { table = resize p u.table (sz + n) })
    copied n positive aligned below rank' t u unchanged e (rank'', tree', top', ktop', (at, same)) =
        record {
          rank' = rank'';
          tree = tree';
          table = ap (λ τ. resize p τ (sz + n)) unchanged;
          in_step = λ va less inside. ground (
            arith,
            at va less,
            same va less,
            e.others kern va ktop (ground arith),
            e.outside va less,
            in_step va less,
          );
          new_pages = λ va less is_done from to.
              let (x, at, ne, was, now, z, holds) = e.inside va less (ground arith) in
              (x, same va less ∙ at);
          old_pages = λ va less old new. same va less ∙ e.outside va less (ground arith);
        }

    present :
        (n : ℕ)
        → 0 < n
        → sz % 4096 ≡ 0
        → sz + n < pl.plic
        → (rank' : ℕ → ℕ) (t : Memory A)
        → Extended al rank s.mem user
            ((sz + 4095) / 4096)
            for_user
            zeros
            rank'
            t
            ((sz + n + 4095) / 4096 - (sz + 4095) / 4096)
        → (j : ℕ) → j < rounds_for al good pl layout.maxva user kern apart n
        → (e : Pte) × (lookup t.tables 2 user (sz + j * 4096) ≡ some e)
    present n positive aligned below rank' t e j less =
        let (x, at, ne, was, now, z, holds) =
          e.inside (sz + j * 4096) (ground arith) (ground arith) in
        (_, at)

    -- `uvmalloc` has added the pages.
    after_alloc :
        (n : ℕ)
        → 0 < n
        → sz % 4096 ≡ 0
        → sz + n < pl.plic
        → (r : ℕ) (t : Kernel A) → t.table ≡ s.table
        → (done : Bool) → r ≡ (if done then sz + n else 0)
        → Added al rank s.mem user
            ((sz + 4095) / 4096)
            for_user
            zeros
            ((sz + n + 4095) / 4096 - (sz + 4095) / 4096)
            done
            t.mem
        → Ends (λ done u. Resized al s p (sz + n) done u) "vmcopypage" (grown n r t)
    after_alloc n positive aligned below r t same true size (rank', e) =
        let is_size : u32 r ≡ sz + n = omega arith in
        let start : u32 (sz + n + 2 ^ 32 - n) ≡ sz = omega arith in
        let some_size : (sz + n == 0) ≡ false = ground arith in
        rw is_size (
          rw some_size (
            rw start (
              Ends-bind (on_memory (vmcopypage al pl user kern sz n)) _
                (on_memory-Ends (vmcopypage al pl user kern sz n) t (
                  forget_reason (
                    vmcopypage-Copying al good pl layout.maxva user kern apart rank' t.mem e.tree
                      e.top (e.keeps kern (ground (arith, ktop)) ∙ ktop) sz n (ground arith)
                      (present n positive aligned below rank' t.mem e))))
                (λ _ u (same', copying).
                  returned
                    (copied n positive aligned below rank' t.mem u (same' ∙ same) e copying)))))
    after_alloc n positive aligned below r t same false size (rank', e) =
        let none_left : (u32 r == 0) ≡ true = ground (arith, size) in
        rw none_left (
          returned (record {
            rank' = rank';
            tree = e.tree;
            table = same;
            in_step = λ va less inside.
                ground
                  (arith, e.others kern va ktop (ground arith), e.same va less, in_step va less);
            new_pages = λ va less is_done from to. ground arith;
            old_pages = λ va less old new. e.same va less;
          }))

    module _ (returnable : (x : ℕ) → al.free s.mem.alloc x ≡ true → page x ≡ true)
        (whole : (x : ℕ) → al.free s.mem.alloc x ≡ true → x % 4096 ≡ 0)
        (empty : (va : ℕ)
          → va < 2 ^ 39
          → (sz + 4095) / 4096 ≤ va / 4096
          → va / 4096 < pl.plic / 4096
          → lookup s.mem.tables 2 user va ≡ none) where
      allocated :
          (n : ℕ)
          → 0 < n
          → sz + n < pl.plic
          → Returns
              (λ r t.
                (done : Bool) × (r ≡ (if done then sz + n else 0))
                × Added al rank s.mem user
                    ((sz + 4095) / 4096)
                    for_user
                    zeros
                    ((sz + n + 4095) / 4096 - (sz + 4095) / 4096)
                    done
                    t)
              (uvmalloc al pl user sz (sz + n) s.mem)
      allocated n positive below =
          let grows : ltb (sz + n) sz ≡ false = ground arith in
          in_else _ _ (ltb (sz + n) sz) grows (
            uvmalloc-Added al pl good layout.maxva page back low layout.down up rank s.mem user tree
              top returnable whole sz (sz + n) (ground arith)
              (λ va less above inside. empty va less above (ground arith)))

      -- growproc
      pub growproc-Resized :
          sz % 4096 ≡ 0
          → sz < pl.plic
          → (n : ℕ) → is_negative n ≡ false
          → Ends (λ done t. Resized al s p (sz + n) done t) "vmcopypage" (growproc al pl p n s)
      unfolding growproc
      growproc-Resized aligned below n not_negative =
          let is_size : u32 sz ≡ sz = omega arith in
          let is_sum : u32 (sz + n) ≡ sz + n = ground arith in
          rw is_size (
            rw is_sum (
              rw not_negative (elim (Bool-cases (leb pl.plic (sz + n))) [
                | inl out ↦ rw out (
                    returned (record {
                      rank' = rank;
                      tree = tree;
                      table = refl;
                      in_step = in_step;
                      new_pages = λ va less is_done from to. ground arith;
                      old_pages = λ va less old new. refl;
                    }))
                | inr inside ↦ elim (Bool-cases (n == 0)) [
                  | inl still ↦
                      let same_size : sz ≡ sz + n = ground arith in
                      rw (inside, still)
                        (returned (record {
                          rank' = rank;
                          tree = tree;
                          table = ap (resize p s.table) same_size;
                          in_step = λ va less under. in_step va less (ground (arith, same_size));
                          new_pages = λ va less is_done from to. ground arith;
                          old_pages = λ va less old new. refl;
                        }))
                  | inr more ↦
                      rw (inside, more)
                        (Ends-bind (on_memory (uvmalloc al pl user sz (sz + n))) (grown n)
                          (on_memory-Ends (uvmalloc al pl user sz (sz + n)) s
                            (Ends-Returns (allocated n (ground arith) (ground arith))))
                          (λ r t (same, (done, size, added)).
                            after_alloc n (ground arith) aligned (ground arith) r t same done size
                              added))
                ]
              ])))

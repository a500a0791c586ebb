-- ===== src/Lab4/ProcMemory/Resize.antt =====
-- Lab4/kernel/proc.c: `growproc` with a size that falls, and the two page tables of the process.
pub mod Tests
use hitsz_os.Base.{
  ℕ, zero, suc, ◌+◌, ◌*◌, ◌/◌, ◌%◌, ◌^◌, ◌-◌, ◌≡◌, ◌≢◌, ◌≤◌, ◌<◌, ◌∙◌, ap, refl, Bool, true, false,
  none, some, not, ◌&&◌, arith, leb, ltb, if◌then◌else◌, Bool-cases, inl, inr,
}
use mathlib.Core.Path.{subst}
use hitsz_os.Base.Kernel.{
  M, pure, ◌>>◌, Returns, returns, Returns-bind, Returns-mono, Ends, returned, Ends-bind,
  Ends-Returns,
}
use hitsz_os.Lab4.Memory.{page_size, Pte, only_valid, Allocator, Memory}
use hitsz_os.Lab4.PageTable.{Platform, uvmunmap}
use hitsz_os.Lab4.PageTable.Tree.{lookup, IsTree, IsAllocator, OthersKept}
use hitsz_os.Lab4.PageTable.Unmap.{TakesBack, Unmapped, uvmunmap-Unmapping}
use hitsz_os.Lab4.UserMemory.{uvmdealloc}
use hitsz_os.Lab4.UserMemory.Shrink.{uvmdealloc-Unmapped}
use hitsz_os.Lab4.KernelMemory.{kernel_pte}
use hitsz_os.Lab4.KernelMemory.Copy.{shared}
use hitsz_os.Lab4.KernelMemory.Boot.{IsLayout}
use hitsz_os.Lab4.ProcMemory.{Kernel, on_memory, set, u32, is_negative, shrink_loop, growproc}
use hitsz_os.Lab4.ProcMemory.InStep.{InStep, resize, Resized, on_memory-Ends, growproc-Resized}

module _ {A : Type 0} (al : Allocator A) (pl : Platform) (bound : pl.maxva ≤ 2 ^ 39)
    (page : ℕ → Bool) (back : TakesBack al page) (rank : ℕ → ℕ) (root : ℕ)
    (top : rank root ≡ 3) where
  -- `n` pages from page `first` on are taken out of the table, which has a leaf for each of them.
  abbrev Removed : Memory A → (first n : ℕ) → Memory A → Type 0
  Removed s first n t =
      IsTree al rank t
      × ((va : ℕ)
          → va < 2 ^ 39
          → lookup t.tables 2 root va ≡ (
              if leb first (va / 4096) && ltb (va / 4096) (first + n)
              then none
              else lookup s.tables 2 root va))
      × OthersKept rank root s.tables t.tables

  abbrev Leaves : Memory A → (first n : ℕ) → Type 0
  Leaves s first n =
      (va : ℕ)
      → va < 2 ^ 39
      → first ≤ va / 4096
      → va / 4096 < first + n
      → (e : Pte) × (lookup s.tables 2 root va ≡ some e) × (e.valid ≡ true) × (only_valid e ≡ false)

  pub shrink_loop-Removed :
      (fuel n first : ℕ) (s : Memory A)
      → IsTree al rank s
      → n < fuel
      → (first + n) * 4096 ≤ pl.maxva
      → Leaves s first n
      → Returns
          (λ _ t. Removed s first n t)
          (shrink_loop al pl fuel root (first * 4096) ((first + n) * 4096) s)
  unfolding shrink_loop
  shrink_loop-Removed zero n first s tree enough inside leaves = ground arith
  shrink_loop-Removed (suc fuel) zero first s tree enough inside leaves =
      let stopped : not (ltb (first * 4096) ((first + 0) * 4096)) ≡ true = ground arith in
      rw stopped (returns (tree, (λ va below. ground arith), (λ p va three ne. refl)))
  shrink_loop-Removed (suc fuel) (suc n) first s tree enough inside leaves =
      let more : not (ltb (first * 4096) ((first + suc n) * 4096)) ≡ false = ground arith in
      let next : first * 4096 + page_size ≡ suc first * 4096 = omega arith in
      let same_stop : (first + suc n) * 4096 ≡ (suc first + n) * 4096 = omega arith in
      rw more (
        rw next (
          rw same_stop (
            Returns-bind (uvmunmap al pl root (first * 4096) 1 false) _
              (uvmunmap-Unmapping al page pl back bound rank root top false s tree (first * 4096) 1
                (omega arith) (omega arith)
                (λ va below from to.
                  let (e, at, valid, leaf) = leaves va below (omega arith) (omega arith) in
                  (e, at, (valid, leaf, (λ asked. ground arith)))))
              (λ _ t (tree', gone, others).
                Returns-mono
                  (shrink_loop-Removed fuel n (suc first) t tree' (omega arith) (omega arith)
                    (λ va below from to.
                      let (e, at, valid, leaf) = leaves va below (omega arith) (omega arith) in
                      (e, ground (arith, gone.0 va below), valid, leaf)))
                  (λ _ u (tree'', gone', others'). (
                    tree'',
                    (λ va below. ground (arith, gone.0 va below, gone' va below)),
                    (λ p va three ne. others' p va three ne ∙ others p va three ne),
                  ))))))

module _ {A : Type 0} (al : Allocator A) (pl : Platform) (good : IsAllocator al)
    (layout : IsLayout pl) (small : pl.plic ≤ 2 ^ 31) (page : ℕ → Bool) (back : TakesBack al page)
    (low : (x : ℕ) → page x ≡ true → x + 4096 ≤ 2 ^ 64)
    (up : (x : ℕ) → pl.pground_up x ≡ (x + 4095) / 4096 * 4096) (rank : ℕ → ℕ) (s : Kernel A)
    (tree : IsTree al rank s.mem) (p : ℕ) (top : rank (s.table.proc p).pagetable ≡ 3)
    (ktop : rank (s.table.proc p).k_pagetable ≡ 3)
    (apart : (s.table.proc p).pagetable ≢ (s.table.proc p).k_pagetable)
    (in_step : InStep
      (s.table.proc p).pagetable
      (s.table.proc p).k_pagetable
      (((s.table.proc p).sz + 4095) / 4096)
      s.mem)
    (pages : (va : ℕ)
      → va < 2 ^ 39
      → va / 4096 < ((s.table.proc p).sz + 4095) / 4096
      → (e : Pte) × (lookup s.mem.tables 2 (s.table.proc p).pagetable va ≡ some e)
        × (e.valid ≡ true)
        × (only_valid (kernel_pte e) ≡ false)
        × (page e.pa ≡ true)
        × (rank e.pa ≡ 0)) where
  abbrev user : ℕ
  user = (s.table.proc p).pagetable

  abbrev kern : ℕ
  kern = (s.table.proc p).k_pagetable

  abbrev sz : ℕ
  sz = (s.table.proc p).sz

  -- what is behind `uvmdealloc`
  abbrev shrunk : (n r : ℕ) → M (Kernel A) Bool
  shrunk n r =
      let stop = pl.pground_up (u32 (u32 r + 2 ^ 32 - n)) in
      (do
        on_memory (shrink_loop al pl (stop / page_size + 2) kern (pl.pground_up (u32 r)) stop)
        set p (λ q. record q { sz = u32 r })
        pure true)

  after_dealloc :
      (n newsz : ℕ)
      → newsz < sz
      → sz < pl.plic
      → n < 2 ^ 32
      → newsz + 2 ^ 32 ≡ sz + n
      → (t : Kernel A) → t.table ≡ s.table
      → IsTree al rank t.mem
      → Unmapped al s.mem user
          ((newsz + 4095) / 4096)
          ((sz + 4095) / 4096 - (newsz + 4095) / 4096)
          true
          t.mem
      → OthersKept rank user s.mem.tables t.mem.tables
      → Ends (λ done u. Resized al s p newsz done u) "vmcopypage" (shrunk n newsz t)
  after_dealloc n newsz falls below int sum t same tree' gone others =
      let is_size : u32 newsz ≡ newsz = omega arith in
      let old_size : u32 (newsz + 2 ^ 32 - n) ≡ sz = omega arith in
      let first = (newsz + 4095) / 4096 in
      let count = (sz + 4095) / 4096 - (newsz + 4095) / 4096 in
      let whole : (sz + 4095) / 4096 * 4096 ≡ (first + count) * 4096 = omega arith in
      rw is_size (
        rw (old_size, up newsz, up sz, whole)
          (Ends-bind
            (on_memory (
              shrink_loop al pl ((first + count) * 4096 / page_size + 2) kern (first * 4096)
                ((first + count) * 4096)))
            _
            (on_memory-Ends
              (shrink_loop al pl ((first + count) * 4096 / page_size + 2) kern (first * 4096)
                ((first + count) * 4096))
              t
              (Ends-Returns (
                shrink_loop-Removed al pl layout.maxva page back rank kern ktop
                  ((first + count) * 4096 / page_size + 2) count first t.mem tree' (omega arith)
                  (ground arith)
                  (λ va less from to.
                    let (e, at, valid, leaf, kept, z) = pages va less (omega arith) in
                    (
                      kernel_pte e,
                      others kern va ktop (ground arith)
                          ∙ in_step va less (omega arith)
                          ∙ ap shared at,
                      valid,
                      leaf,
                    )))))
            (λ _ u (same', (tree'', removed, others')). returned (record {
              rank' = rank;
              tree = tree'';
              table = ap (λ τ. resize p τ newsz) (same' ∙ same);
              in_step = λ va less inside. ground (
                arith,
                removed va less,
                others kern va ktop,
                others' user va top,
                gone.0 va less,
                in_step va less,
              );
              new_pages = λ va less is_done from to. ground arith;
              old_pages =
                  λ va less old new. others' user va top apart ∙ ground (arith, gone.0 va less);
            }))))

  -- `growproc` by a process whose user and kernel tables are in step below its size, whose pages there are
  -- leaves that `kfree` takes, and which has no page from there to PLIC, ends or panics with "vmcopypage". The
  -- free pages are whole, and to grow, the size must be aligned. If it gives 0, the size is the sum, cut to
  -- 32 bits; if it gives -1, the process table is as before. In both cases the tables are in step below
  -- the size that the process then has, the user's old
  -- pages below the new size lead where they led, and all new ones are mapped for the user.
  pub growproc-InStep :
      ((x : ℕ) → al.free s.mem.alloc x ≡ true → page x ≡ true)
      → ((x : ℕ) → al.free s.mem.alloc x ≡ true → x % 4096 ≡ 0)
      → ((va : ℕ)
          → va < 2 ^ 39
          → ((s.table.proc p).sz + 4095) / 4096 ≤ va / 4096
          → va / 4096 < pl.plic / 4096
          → lookup s.mem.tables 2 (s.table.proc p).pagetable va ≡ none)
      → (s.table.proc p).sz < pl.plic
      → (n : ℕ) → n < 2 ^ 32
      → (is_negative n ≡ false → (s.table.proc p).sz % 4096 ≡ 0)
      → Ends
          (λ done t. Resized al s p (u32 ((s.table.proc p).sz + n)) done t)
          "vmcopypage"
          (growproc al pl p n s)
  unfolding growproc
  growproc-InStep returnable whole empty below n int aligned = elim (Bool-cases (is_negative n)) [
    | inr grows ↦
        let is_sum : sz + n ≡ u32 (sz + n) = ground arith in
        subst (λ k. Ends (λ done t. Resized al s p k done t) "vmcopypage" (growproc al pl p n s))
          is_sum
          (growproc-Resized al pl good layout small page back low up rank s tree p top ktop apart
            in_step returnable whole empty (aligned grows) below n grows)
    | inl falls ↦
        let is_size : u32 sz ≡ sz = omega arith in
        rw is_size (elim (Bool-cases (leb pl.plic (u32 (sz + n)))) [
          | inl out ↦ rw out (
              returned (record {
                rank' = rank;
                tree = tree;
                table = refl;
                in_step = in_step;
                new_pages = λ va less is_done from to. ground arith;
                old_pages = λ va less old new. refl;
              }))
          | inr inside ↦
              let less : u32 (sz + n) < sz = ground arith in
              let sum : u32 (sz + n) + 2 ^ 32 ≡ sz + n = ground arith in
              let smaller : leb sz (u32 (sz + n)) ≡ false = ground arith in
              rw (inside, falls)
                (Ends-bind (on_memory (uvmdealloc al pl user sz (u32 (sz + n)))) (shrunk n)
                  (on_memory-Ends (uvmdealloc al pl user sz (u32 (sz + n))) s (
                    Ends-Returns (
                      uvmdealloc-Unmapped al pl layout.maxva rank user top page back up s.mem tree
                        sz (u32 (sz + n)) (ground arith)
                        (λ va low_enough from to.
                          let (e, at, valid, leaf, kept, z) = pages va low_enough (ground arith) in
                          (e, at, (valid, ground arith, λ asked. (kept, z)))))))
                  (λ r t (same, (size, tree', gone, others)).
                    let is_new : u32 (sz + n) ≡ r = ground (arith, size, smaller) in
                    subst
                      (λ k.
                        Ends (λ done u. Resized al s p (u32 (sz + n)) done u) "vmcopypage"
                          (shrunk n k t))
                      is_new
                      (after_dealloc n (u32 (sz + n)) less below int sum t same tree' gone others)))
        ])
  ]

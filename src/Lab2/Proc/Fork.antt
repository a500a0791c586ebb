-- ===== src/Lab2/Proc/Fork.antt =====
-- `fork`: what the parent, the child and the other processes are afterwards.
use mathlib.Core.Path.{subst}
use hitsz_os.Base.{ℕ, ◌≡◌, ◌≢◌, sym, refl, false, Option, none, some, arith, Bool-cases, inl, inr}
use hitsz_os.Base.Kernel.{update, update_self, M, pure, ◌>>=◌, Blames, finished, Blames-bind}
use hitsz_os.Lab4.Proc.{is_unused, find_entry}
use hitsz_os.Lab4.Proc.Scan.{FirstEntry, find_entry-FirstEntry}
use hitsz_os.Lab2.Proc.{Proc, Vm, Kernel, on_vm, the, freeproc, allocproc, copy_process, fork}
use hitsz_os.Lab2.Proc.Children.{
  VmPanics, uvmcopy-Blames, IsChild, born, born-IsChild, Others, on_vm-OnlyVm, Allocated, full,
  no_memory, allocated, Started, Others-trans, Forked, forked, no_entry, no_pages,
}
use hitsz_os.Lab2.Proc.Allocproc.{freeproc-Freed, allocproc-Allocated}

module _ {V : Type 0} (vm : Vm V) where
  copy_process-Forked :
      (nproc nofile p np : ℕ) (s t : Kernel V)
      → find_entry {A = Proc} (λ q. is_unused q.state) s.proc nproc 0 ≡ some np
      → Started np s t
      → (q : Proc) → q ≡ s.proc p
      → Blames
          (λ r u. Forked nproc nofile p s u r)
          (VmPanics vm)
          (copy_process vm nofile p np q (t.proc np) t)
  unfolding copy_process
  copy_process-Forked nproc nofile p np s t found (o, n, e) q same =
      Blames-bind (on_vm (vm.uvmcopy q.pagetable (t.proc np).pagetable q.sz)) _
        (on_vm-OnlyVm (vm.uvmcopy q.pagetable (t.proc np).pagetable q.sz) t
          (uvmcopy-Blames vm q.pagetable (t.proc np).pagetable q.sz t.vm))
        (λ copied u (v, only).
          let after : Others np s u = record {
            same_entry = λ i ne. ground (arith, only, o.same_entry i ne);
            same_initproc = ground (arith, only, o.same_initproc);
            same_current = ground (arith, only, o.same_current);
          } in
          elim (Bool-cases copied) [
            | inr lost ↦ rw lost (
                Blames-bind (freeproc vm np) (λ _. pure none) (freeproc-Freed vm np u)
                  (λ _ w (o', n', state, pid). finished (
                    no_pages np found (Others-trans np s u w after o') (ground (arith, only, n, n'))
                      (rw state refl))))
            | inl all ↦
                rw (all, e.new_pid)
                  (finished (
                    forked np found
                      (record {
                        same_entry = λ i ne. ground (arith, ne, after.same_entry i ne);
                        same_initproc = after.same_initproc;
                        same_current = after.same_current;
                      })
                      (ground (arith, only, n))
                      (subst
                        (λ r.
                          IsChild nofile p s.nextpid (s.proc np).ofile r
                            (update u.proc np (born nofile p q (u.proc np)) np))
                        same
                        (subst (λ c. IsChild nofile p s.nextpid (s.proc np).ofile q c)
                          (sym (update_self u.proc np (born nofile p q (u.proc np))))
                          (born-IsChild nofile p q s.nextpid (s.proc np).ofile (u.proc np)
                            (ground (arith, only, e.new_pid))
                            (ground (arith, only, e.same_ofile)))))))
          ])

  -- `fork` by a process in use panics only with a message with which one of the functions on memory that
  -- it calls panics on some arguments: with functions that do not panic, it does not panic. Otherwise it ends as follows. With no
  -- unused entry it gives -1 and changes nothing. Otherwise it takes the first one and a new pid. Where
  -- memory is missing it gives -1 and the entry is unused again. Where it gives a pid, it is the new one,
  -- and the entry is a child that is ready to run, with a copy of the registers but for the result 0, and
  -- with the size, files, directory, name and trace mask of its parent. No other entry changes.
  pub fork-Forked :
      (nproc nofile forkret p : ℕ) (s : Kernel V)
      → is_unused (s.proc p).state ≡ false
      → Blames (λ r t. Forked nproc nofile p s t r) (VmPanics vm) (fork vm nproc nofile forkret p s)
  unfolding fork FirstEntry
  fork-Forked nproc nofile forkret p s in_use =
      Blames-bind (allocproc vm nproc forkret) next (allocproc-Allocated vm nproc forkret s) go
    where
      next : Option ℕ → M (Kernel V) (Option ℕ)
      next o = elim o [
        | none ↦ pure none
        | some np ↦ do q ← the p; child ← the np; copy_process vm nofile p np q child
      ]

      not_self :
          (np : ℕ)
          → find_entry {A = Proc} (λ q. is_unused q.state) s.proc nproc 0 ≡ some np
          → np ≢ p
      not_self np e same =
          let first =
            subst (FirstEntry {A = Proc} (λ q. is_unused q.state) s.proc nproc 0) e
              (find_entry-FirstEntry {A = Proc} (λ q. is_unused q.state) s.proc nproc 0) in
          ground (arith, first, same, in_use)

      go :
          (r : Option ℕ) (t : Kernel V)
          → Allocated nproc s t r
          → Blames (λ r' u. Forked nproc nofile p s u r') (VmPanics vm) (next r t)
      go none t (full e same) = finished (no_entry e same)
      go none t (no_memory np e o n free) = finished (no_pages np e o n free)
      go (some np) t (allocated np' e o n embryo) =
          copy_process-Forked nproc nofile p np s t e (o, n, embryo) (t.proc p)
            (o.same_entry p (not_self np e))

-- ===== src/Lab2/Proc/Allocproc.antt =====
-- `allocproc` and `freeproc`.
use hitsz_os.Base.{
  ◌%◌, ◌^◌, ℕ, suc, ◌+◌, ◌≡◌, ◌∙◌, ap, refl, true, false, Option, none, some, ◌==◌, if◌then◌else◌,
  arith, Bool-cases, inl, inr,
}
use hitsz_os.Base.Kernel.{M, pure, Blames, finished, Blames-bind}
use hitsz_os.Lab4.Proc.{is_unused, change, find_entry}
use hitsz_os.Lab4.Proc.Scan.{FirstEntry, find_entry-FirstEntry}
use hitsz_os.Lab2.Proc.{
  Proc, perm_rx, perm_rw, Vm, Kernel, on_vm, allocpid, proc_pagetable, proc_freepagetable, freeproc,
  give_pagetable, init_found, allocproc,
}
use hitsz_os.Lab2.Proc.Children.{
  Any, VmPanics, kalloc-Blames, kfree-Blames, uvmcreate-Blames, mappages-Blames, uvmunmap-Blames,
  uvmfree-Blames, on_vm-OnlyVm, release-OnlyVm, Freed, Allocated, full, no_memory, allocated,
  Started, Started-edit, Others-trans,
}

module _ {V : Type 0} (vm : Vm V) where
  proc_pagetable-Any :
      (trapframe : ℕ) (v : V) → Blames Any (VmPanics vm) (proc_pagetable vm trapframe v)
  unfolding proc_pagetable
  proc_pagetable-Any trapframe v = Blames-bind vm.uvmcreate _ (uvmcreate-Blames vm v) (λ pt v1 _.
      elim (Bool-cases (pt == 0)) [
        | inl none_left ↦ rw none_left (finished tt)
        | inr room ↦ rw room (
            Blames-bind (vm.mappages pt vm.trampoline vm.pgsize vm.trampoline_pa perm_rx) _
              (mappages-Blames vm pt vm.trampoline vm.pgsize vm.trampoline_pa perm_rx v1)
              (λ a v2 _. elim (Bool-cases a) [
                | inl mapped ↦ rw mapped (
                    Blames-bind (vm.mappages pt vm.trapframe vm.pgsize trapframe perm_rw) _
                      (mappages-Blames vm pt vm.trapframe vm.pgsize trapframe perm_rw v2)
                      (λ b v3 _. elim (Bool-cases b) [
                        | inl framed ↦ rw framed (finished tt)
                        | inr lost ↦ rw lost (
                            Blames-bind (vm.uvmunmap pt vm.trampoline 1 false) _
                              (uvmunmap-Blames vm pt vm.trampoline 1 false v3)
                              (λ _ v4 _.
                                Blames-bind (vm.uvmfree pt 0) (λ _. pure 0)
                                  (uvmfree-Blames vm pt 0 v4) (λ _ _ _. finished tt)))
                      ]))
                | inr lost ↦ rw lost (
                    Blames-bind (vm.uvmfree pt 0) (λ _. pure 0) (uvmfree-Blames vm pt 0 v2)
                      (λ _ _ _. finished tt))
              ]))
      ])

  proc_freepagetable-Any :
      (pt sz : ℕ) (v : V) → Blames Any (VmPanics vm) (proc_freepagetable vm pt sz v)
  unfolding proc_freepagetable
  proc_freepagetable-Any pt sz v =
      Blames-bind (vm.uvmunmap pt vm.trampoline 1 false) _
        (uvmunmap-Blames vm pt vm.trampoline 1 false v)
        (λ _ v1 _.
          Blames-bind (vm.uvmunmap pt vm.trapframe 1 false) (λ _. vm.uvmfree pt sz)
            (uvmunmap-Blames vm pt vm.trapframe 1 false v1) (λ _ v2 _. uvmfree-Blames vm pt sz v2))

  pub freeproc-Freed :
      (p : ℕ) (s : Kernel V) → Blames (λ _ t. Freed p s t) (VmPanics vm) (freeproc vm p s)
  unfolding freeproc
  freeproc-Freed p s =
      let q = s.proc p in
      Blames-bind (if q.trapframe == 0 then pure tt else on_vm (vm.kfree q.trapframe)) _
        (release-OnlyVm (q.trapframe == 0) (vm.kfree q.trapframe) s
          (kfree-Blames vm q.trapframe s.vm))
        (λ _ t (v, e).
          Blames-bind
            (if q.pagetable == 0 then pure tt else on_vm (proc_freepagetable vm q.pagetable q.sz)) _
            (release-OnlyVm (q.pagetable == 0) (proc_freepagetable vm q.pagetable q.sz) t
              (proc_freepagetable-Any q.pagetable q.sz t.vm))
            (λ _ u (w, e'). finished (
              record {
                same_entry = λ i ne. ground (arith, e, e', ne);
                same_initproc = ground (arith, e, e');
                same_current = ground (arith, e, e');
              },
              ground (arith, e, e'),
              ground (arith, e, e'),
              ground (arith, e, e'),
            )))

  give_pagetable-Allocated :
      (nproc forkret np trapframe : ℕ) (s t : Kernel V)
      → find_entry {A = Proc} (λ q. is_unused q.state) s.proc nproc 0 ≡ some np
      → Started np s t
      → Blames
          (λ r u. Allocated nproc s u r)
          (VmPanics vm)
          (give_pagetable vm forkret np trapframe t)
  unfolding give_pagetable
  give_pagetable-Allocated nproc forkret np trapframe s t found started =
      Blames-bind (on_vm (proc_pagetable vm trapframe)) _
        (on_vm-OnlyVm (proc_pagetable vm trapframe) t (proc_pagetable-Any trapframe t.vm))
        (λ pt u only.
          let next =
            Started-edit np s t u (λ q. record q { pagetable = pt }) started only
              (λ q. (refl, refl, refl)) in
          elim (Bool-cases (pt == 0)) [
            | inl none_left ↦ rw none_left (
                Blames-bind (freeproc vm np) (λ _. pure none)
                  (freeproc-Freed np
                    (record u { proc = change u.proc np (λ q. record q { pagetable = pt }) }))
                  (λ _ w (o, n, state, pid). finished (
                    no_memory np found (Others-trans np s _ w next.0 o) (n ∙ next.1)
                      (rw state refl))))
            | inr room ↦ rw room (
                let last =
                  Started-edit np s _
                    (record u { proc = change u.proc np (λ q. record q { pagetable = pt }) })
                    (λ q. record q { ra = forkret; ksp = q.kstack + vm.pgsize }) next (u.vm, refl)
                    (λ q. (refl, refl, refl)) in
                finished (allocated np found last.0 last.1 last.2))
          ])

  init_found-Allocated :
      (nproc forkret np : ℕ) (s : Kernel V)
      → find_entry {A = Proc} (λ q. is_unused q.state) s.proc nproc 0 ≡ some np
      → is_unused (s.proc np).state ≡ true
      → Blames (λ r u. Allocated nproc s u r) (VmPanics vm) (init_found vm forkret np s)
  unfolding init_found allocpid
  init_found-Allocated nproc forkret np s found unused_before =
      let s1 : Kernel V = record s {
        nextpid = suc s.nextpid % 2 ^ 32;
        proc = change s.proc np (λ q. record q { pid = s.nextpid });
      } in
      let begun : Started np s s1 = (
        record {
          same_entry = λ i ne. ground (arith, ne);
          same_initproc = refl;
          same_current = refl;
        },
        refl,
        record { same_state = ground arith; new_pid = ground arith; same_ofile = ground arith },
      ) in
      Blames-bind (on_vm vm.kalloc) _ (on_vm-OnlyVm vm.kalloc s1 (kalloc-Blames vm s.vm))
        (λ tf u only.
          let next =
            Started-edit np s s1 u (λ q. record q { trapframe = tf }) begun only
              (λ q. (refl, refl, refl)) in
          elim (Bool-cases (tf == 0)) [
            | inl lost ↦ rw lost (
                finished (
                  no_memory np found next.0 next.1
                    (ap is_unused next.2.same_state ∙ unused_before)))
            | inr page ↦ rw page (give_pagetable-Allocated nproc forkret np tf s _ found next)
          ])

  pub allocproc-Allocated :
      (nproc forkret : ℕ) (s : Kernel V)
      → Blames (λ r u. Allocated nproc s u r) (VmPanics vm) (allocproc vm nproc forkret s)
  unfolding allocproc FirstEntry
  allocproc-Allocated nproc forkret s =
      go (find_entry {A = Proc} (λ q. is_unused q.state) s.proc nproc 0) refl
        (find_entry-FirstEntry {A = Proc} (λ q. is_unused q.state) s.proc nproc 0)
    where
      after_scan : Option ℕ → M (Kernel V) (Option ℕ)
      after_scan o = elim o [ none ↦ pure none | some p ↦ init_found vm forkret p ]

      go :
          (o : Option ℕ)
          → find_entry {A = Proc} (λ q. is_unused q.state) s.proc nproc 0 ≡ o
          → FirstEntry {A = Proc} (λ q. is_unused q.state) s.proc nproc 0 o
          → Blames (λ r u. Allocated nproc s u r) (VmPanics vm) (after_scan o s)
      go none e first = finished (full e refl)
      go (some np) e (low, high, free, before) = init_found-Allocated nproc forkret np s e free

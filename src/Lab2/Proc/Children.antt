-- ===== src/Lab2/Proc/Children.antt =====
-- `fork` and `allocproc`: what they rely on, and what they may leave.
use hitsz_os.Base.{
  ◌%◌, ◌^◌, ℕ, suc, ◌≡◌, ◌≢◌, ◌∙◌, refl, Bool, true, false, Option, none, some, not, ◌&&◌, ltb,
  ◌==◌, if◌then◌else◌, arith,
}
use Prim.Native.String.{String}
use hitsz_os.Base.Kernel.{M, Outcome, ok, panic, pure, Blames, finished, blamed}
use hitsz_os.Lab4.Proc.{unused, runnable, is_unused, change, find_entry}
use hitsz_os.Lab2.Proc.{Proc, Vm, Kernel, on_vm}

abbrev pub Any : {V R : Type 0} → R → V → Type 0
Any _ _ = Unit {0}

-- A function on memory that `fork` calls panics so.
pub data VmPanics {V : Type 0} (vm : Vm V) (msg : String) : Type 0 where
  in_kalloc : (v : V) → vm.kalloc v ≡ panic msg → VmPanics vm msg
  in_kfree : (pa : ℕ) (v : V) → vm.kfree pa v ≡ panic msg → VmPanics vm msg
  in_uvmcreate : (v : V) → vm.uvmcreate v ≡ panic msg → VmPanics vm msg
  in_mappages :
      (pt va size pa perm : ℕ) (v : V)
      → vm.mappages pt va size pa perm v ≡ panic msg
      → VmPanics vm msg
  in_uvmunmap :
      (pt va n : ℕ) (b : Bool) (v : V) → vm.uvmunmap pt va n b v ≡ panic msg → VmPanics vm msg
  in_uvmfree : (pt sz : ℕ) (v : V) → vm.uvmfree pt sz v ≡ panic msg → VmPanics vm msg
  in_uvmcopy : (old new sz : ℕ) (v : V) → vm.uvmcopy old new sz v ≡ panic msg → VmPanics vm msg

-- Each of these functions returns, or its own panic is to blame.
module _ {V : Type 0} (vm : Vm V) where
  Blames-own :
      {R : Type 0} (m : M V R) (v : V)
      → ((msg : String) → m v ≡ panic msg → VmPanics vm msg)
      → Blames Any (VmPanics vm) (m v)
  Blames-own {R} m v why = go (m v) why
    where
      go :
          (o : Outcome (R × V))
          → ((msg : String) → o ≡ panic msg → VmPanics vm msg)
          → Blames Any (VmPanics vm) o
      go (ok (r, w)) why = finished tt
      go (panic msg) why = blamed (why msg refl)

  pub kalloc-Blames : (v : V) → Blames Any (VmPanics vm) (vm.kalloc v)
  kalloc-Blames v = Blames-own (vm.kalloc) v (λ msg e. in_kalloc v e)

  pub kfree-Blames : (pa : ℕ) (v : V) → Blames Any (VmPanics vm) (vm.kfree pa v)
  kfree-Blames pa v = Blames-own (vm.kfree pa) v (λ msg e. in_kfree pa v e)

  pub uvmcreate-Blames : (v : V) → Blames Any (VmPanics vm) (vm.uvmcreate v)
  uvmcreate-Blames v = Blames-own (vm.uvmcreate) v (λ msg e. in_uvmcreate v e)

  pub mappages-Blames :
      (pt va size pa perm : ℕ) (v : V) → Blames Any (VmPanics vm) (vm.mappages pt va size pa perm v)
  mappages-Blames pt va size pa perm v =
      Blames-own (vm.mappages pt va size pa perm) v (λ msg e. in_mappages pt va size pa perm v e)

  pub uvmunmap-Blames :
      (pt va n : ℕ) (b : Bool) (v : V) → Blames Any (VmPanics vm) (vm.uvmunmap pt va n b v)
  uvmunmap-Blames pt va n b v =
      Blames-own (vm.uvmunmap pt va n b) v (λ msg e. in_uvmunmap pt va n b v e)

  pub uvmfree-Blames : (pt sz : ℕ) (v : V) → Blames Any (VmPanics vm) (vm.uvmfree pt sz v)
  uvmfree-Blames pt sz v = Blames-own (vm.uvmfree pt sz) v (λ msg e. in_uvmfree pt sz v e)

  pub uvmcopy-Blames : (old new sz : ℕ) (v : V) → Blames Any (VmPanics vm) (vm.uvmcopy old new sz v)
  uvmcopy-Blames old new sz v =
      Blames-own (vm.uvmcopy old new sz) v (λ msg e. in_uvmcopy old new sz v e)

-- The child `c` of process `p`, which is `q`, in an entry with the files `old`: it runs from the same
-- registers with the result 0, in memory of the same size, with the same files, directory, name and trace
-- mask.
pub record IsChild (nofile p pid : ℕ) (old : ℕ → ℕ) (q c : Proc) : Type 0 where
  pub ready : c.state ≡ runnable
  pub own_pid : c.pid ≡ pid
  pub its_parent : c.parent ≡ some p
  pub same_mask : c.mask ≡ q.mask
  pub same_sz : c.sz ≡ q.sz
  pub same_frame : c.frame ≡ record q.frame { a0 = 0 }
  pub same_cwd : c.cwd ≡ q.cwd
  pub same_name : c.name ≡ q.name
  pub files :
      (i : ℕ) → c.ofile i ≡ (if ltb i nofile && not (q.ofile i == 0) then q.ofile i else old i)

-- what `fork` writes to the entry of the child
abbrev pub born : (nofile p : ℕ) (q : Proc) → Proc → Proc
born nofile p q c = record c {
  sz = q.sz;
  parent = some p;
  mask = q.mask;
  frame = record q.frame { a0 = 0 };
  ofile = λ i. if ltb i nofile && not (q.ofile i == 0) then q.ofile i else c.ofile i;
  cwd = q.cwd;
  name = q.name;
  state = runnable;
}

pub born-IsChild :
    (nofile p : ℕ) (q : Proc) (pid : ℕ) (old : ℕ → ℕ) (c : Proc)
    → c.pid ≡ pid
    → c.ofile ≡ old
    → IsChild nofile p pid old q (born nofile p q c)
born-IsChild nofile p q pid old c own same = record {
  ready = refl;
  own_pid = own;
  its_parent = refl;
  same_mask = refl;
  same_sz = refl;
  same_frame = refl;
  same_cwd = refl;
  same_name = refl;
  files = λ i. rw same refl;
}

-- What `allocproc` has made of an unused entry.
pub record Embryo (old new : Proc) (pid : ℕ) : Type 0 where
  pub same_state : new.state ≡ old.state
  pub new_pid : new.pid ≡ pid
  pub same_ofile : new.ofile ≡ old.ofile

-- Nothing changes but entry `np`, the next pid and memory.
pub record Others {V : Type 0} (np : ℕ) (s t : Kernel V) : Type 0 where
  pub same_entry : (i : ℕ) → np ≢ i → t.proc i ≡ s.proc i
  pub same_initproc : t.initproc ≡ s.initproc
  pub same_current : t.current ≡ s.current

module _ {V : Type 0} where
  -- An operation on memory changes memory alone.
  abbrev pub OnlyVm : Kernel V → Kernel V → Type 0
  OnlyVm s t = (v : V) × (t ≡ record s { vm = v })

  pub on_vm-OnlyVm :
      {R : Type 0} {Q : String → Type 0} (m : M V R) (s : Kernel V)
      → Blames Any Q (m s.vm)
      → Blames (λ _ t. OnlyVm s t) Q (on_vm m s)
  on_vm-OnlyVm {R} {Q} m s r = go (m s.vm) r
    where
      go :
          (o : Outcome (R × V))
          → Blames Any Q o
          → Blames
              (λ _ t. OnlyVm s t)
              Q
              (elim o [ ok (r, v) ↦ ok (r, record s { vm = v }) | panic msg ↦ panic msg ])
      go (ok (r, v)) _ = finished (v, refl)
      go (panic msg) (blamed q) = blamed q

  pub release-OnlyVm :
      {Q : String → Type 0} (b : Bool) (m : M V (Unit {0})) (s : Kernel V)
      → Blames Any Q (m s.vm)
      → Blames (λ _ t. OnlyVm s t) Q ((if b then pure tt else on_vm m) s)
  release-OnlyVm true m s r = finished (s.vm, refl)
  release-OnlyVm false m s r = on_vm-OnlyVm m s r

  -- The entry is unused again; its files and its mask stay.
  abbrev pub Freed : (p : ℕ) → Kernel V → Kernel V → Type 0
  Freed p s t =
      Others p s t × (t.nextpid ≡ s.nextpid) × ((t.proc p).state ≡ unused) × ((t.proc p).pid ≡ 0)

  -- What `allocproc` leaves.
  pub data Allocated (nproc : ℕ) (s t : Kernel V) : Option ℕ → Type 0 where
    full :
        find_entry {A = Proc} (λ q. is_unused q.state) s.proc nproc 0 ≡ none
        → t ≡ s
        → Allocated nproc s t none
    no_memory :
        (np : ℕ)
        → find_entry {A = Proc} (λ q. is_unused q.state) s.proc nproc 0 ≡ some np
        → Others np s t
        → t.nextpid ≡ suc s.nextpid % 2 ^ 32
        → is_unused (t.proc np).state ≡ true
        → Allocated nproc s t none
    allocated :
        (np : ℕ)
        → find_entry {A = Proc} (λ q. is_unused q.state) s.proc nproc 0 ≡ some np
        → Others np s t
        → t.nextpid ≡ suc s.nextpid % 2 ^ 32
        → Embryo (s.proc np) (t.proc np) s.nextpid
        → Allocated nproc s t (some np)

  -- Up to a step of `allocproc`.
  abbrev pub Started : (np : ℕ) → Kernel V → Kernel V → Type 0
  Started np s t =
      Others np s t
      × (t.nextpid ≡ suc s.nextpid % 2 ^ 32)
      × Embryo (s.proc np) (t.proc np) s.nextpid

  pub Started-edit :
      (np : ℕ) (s t u : Kernel V) (f : Proc → Proc)
      → Started np s t
      → OnlyVm t u
      → ((q : Proc) → ((f q).state ≡ q.state) × ((f q).pid ≡ q.pid) × ((f q).ofile ≡ q.ofile))
      → Started np s (record u { proc = change u.proc np f })
  Started-edit np s t u f (o, n, e) (v, only) keeps = (
    record {
      same_entry = λ i ne. ground (arith, only, ne, o.same_entry i ne);
      same_initproc = ground (arith, only, o.same_initproc);
      same_current = ground (arith, only, o.same_current);
    },
    ground (arith, only, n),
    record {
      same_state = ground (arith, only, e.same_state, keeps (t.proc np));
      new_pid = ground (arith, only, e.new_pid, keeps (t.proc np));
      same_ofile = ground (arith, only, e.same_ofile, keeps (t.proc np));
    },
  )

  pub Others-trans : (np : ℕ) (s t u : Kernel V) → Others np s t → Others np t u → Others np s u
  Others-trans np s t u a b = record {
    same_entry = λ i ne. b.same_entry i ne ∙ a.same_entry i ne;
    same_initproc = b.same_initproc ∙ a.same_initproc;
    same_current = b.same_current ∙ a.same_current;
  }

  -- How `fork` by process `p` ends.
  pub data Forked (nproc nofile p : ℕ) (s t : Kernel V) : Option ℕ → Type 0 where
    forked :
        (np : ℕ)
        → find_entry {A = Proc} (λ q. is_unused q.state) s.proc nproc 0 ≡ some np
        → Others np s t
        → t.nextpid ≡ suc s.nextpid % 2 ^ 32
        → IsChild nofile p s.nextpid (s.proc np).ofile (s.proc p) (t.proc np)
        → Forked nproc nofile p s t (some s.nextpid)
    no_entry :
        find_entry {A = Proc} (λ q. is_unused q.state) s.proc nproc 0 ≡ none
        → t ≡ s
        → Forked nproc nofile p s t none
    no_pages :
        (np : ℕ)
        → find_entry {A = Proc} (λ q. is_unused q.state) s.proc nproc 0 ≡ some np
        → Others np s t
        → t.nextpid ≡ suc s.nextpid % 2 ^ 32
        → is_unused (t.proc np).state ≡ true
        → Forked nproc nofile p s t none

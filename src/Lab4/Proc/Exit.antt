-- ===== src/Lab4/Proc/Exit.antt =====
-- `exit`: what it does to every entry of the process table.
use hitsz_os.Base.{
  List, [], ◌∷◌, ◌++◌, ℕ, ◌≡◌, ◌≢◌, ◌<◌, ◌∙◌, ap, refl, Bool, true, false, Option, none, some, not,
  ◌&&◌, ◌||◌, arith, ◌==◌, ltb, if◌then◌else◌, Bool-cases, inl, inr,
}
use hitsz_os.Base.Kernel.{
  pure, update_self, M, ok, fail, ◌>>=◌, ◌>>◌, gets, bind-ok, Returns, returns,
}
use hitsz_os.Lab4.Proc.{
  ProcState, runnable, zombie, is_sleeping, entry, same_chan, is_child, Proc, Table, change, edit,
  make_runnable, for_all, reparent, wakeup1, exit, FileCall, begin_op, iput, end_op, close_loop,
}
use hitsz_os.Lab4.Proc.CloseFiles.{open_files, closes, close_loop-calls, close_loop-closes}
use hitsz_os.Lab4.Proc.Scan.{change-keeps, for_all-keeps, for_all-table}

-- `wakeup1` wakes an entry that waits for its children.
abbrev pub waits : Proc → ℕ → Bool
waits p i = same_chan (entry i) p.chan && is_sleeping p.state

-- the table after `wakeup1 p`
unfoldable after_wake : (ℕ → Proc) → ℕ → ℕ → Proc
after_wake t p = if waits (t p) p then change t p make_runnable else t

wakeup1_lem : (p : ℕ) (s : Table) → wakeup1 p s ≡ ok (tt, record s { proc = after_wake s.proc p })
unfolding wakeup1 after_wake
wakeup1_lem p s = elim (Bool-cases (waits (s.proc p) p)) [ inl w ↦ rw w refl | inr n ↦ rw n refl ]

module _ (t : ℕ → Proc) (p i : ℕ) where
  wake-keeps :
      {B : Type 0} (g : Proc → B)
      → ((x : Proc) → g (make_runnable x) ≡ g x)
      → g (after_wake t p i) ≡ g (t i)
  unfolding after_wake
  wake-keeps g keeps = elim (Bool-cases (waits (t p) p)) [
    | inl w ↦ rw w (change-keeps g make_runnable keeps t p i)
    | inr n ↦ rw n refl
  ]

  wake-state :
      (after_wake t p i).state ≡ (if p == i && waits (t p) p then runnable else (t i).state)
  unfolding after_wake
  wake-state = elim (Bool-cases (waits (t p) p)) [
    | inl w ↦ rw w (ground arith)
    | inr n ↦ rw n (ground arith)
  ]

  wake-waits : waits (after_wake t p i) i ≡ (not (p == i && waits (t p) p) && waits (t i) i)
  unfolding after_wake
  wake-waits = elim (Bool-cases (waits (t p) p)) [
    | inl w ↦
        rw w (elim (Bool-cases (p == i)) [ inl e ↦ rw e (ground arith) | inr ne ↦ rw ne refl ])
    | inr n ↦ rw n (ground arith)
  ]

-- Two wake-ups, in terms of the tests `w` before them.
wake_twice :
    (w : ℕ → Bool) (st : ProcState) (a q i : ℕ)
    → (if q == i && (not (a == q && w a) && w q)
        then runnable
        else if a == i && w a
        then runnable
        else st)
      ≡ (if (a == i || q == i) && w i then runnable else st)
wake_twice w st a q i = ground arith

module _ (nproc nofile p status : ℕ) (s : Table) where
  abbrev all_closed : List FileCall × (ℕ → ℕ)
  all_closed = close_loop (s.proc p).ofile nofile 0

  abbrev close_files : Proc → Proc
  close_files q = record q { ofile = all_closed.1; cwd = 0 }

  -- the calls of `exit`
  abbrev pub file_calls : List FileCall
  file_calls =
      closes (open_files (s.proc p).ofile nofile 0)
      ++ (begin_op ∷ iput (s.proc p).cwd ∷ end_op ∷ [])

  abbrev adopt : Proc → Proc
  adopt pp = record pp { parent = some s.initproc }

  unfoldable closed : ℕ → Proc
  closed = change s.proc p close_files

  unfoldable orphaned : ℕ → Proc
  orphaned = for_all (λ _ pp. is_child p pp.parent) adopt (after_wake closed s.initproc) nproc 0

  abbrev die : Proc → Proc
  die r = record r { xstate = status; state = zombie }

  unfoldable exited : (q : ℕ) → ℕ → Proc
  exited q = change (after_wake orphaned q) p die

  -- what follows the read of the parent
  abbrev exit_tail : Option ℕ → M Table (List FileCall)
  exit_tail original_parent = do
    reparent nproc p
    elim original_parent [ none ↦ fail "fault" | some q ↦ wakeup1 q ]
    edit p (λ q. record q { xstate = status; state = zombie })
    pure (all_closed.0 ++ (begin_op ∷ iput (s.proc p).cwd ∷ end_op ∷ []))

  exit-exited :
      (q : ℕ)
      → p ≢ s.initproc
      → (s.proc p).parent ≡ some q
      → exit nproc nofile p status s ≡ ok (file_calls, record s { proc = exited q })
  unfolding exit reparent closed orphaned exited
  exit-exited q ne parent =
      let differs : (p == s.initproc) ≡ false = ground arith in
      let same : (after_wake closed s.initproc p).parent ≡ some q =
        wake-keeps closed s.initproc p (λ p. p.parent) (λ x. refl) ∙ ground (arith, parent) in
      rw differs (
        bind-ok (wakeup1 s.initproc)
          (λ _. do original_parent ← gets (λ s. (s.proc p).parent); exit_tail original_parent)
          (wakeup1_lem s.initproc (record s { proc = closed }))
        ∙ ap (λ o. exit_tail o (record s { proc = after_wake closed s.initproc })) same
        ∙ bind-ok (wakeup1 q)
            (λ _. do
              edit p (λ r. record r { xstate = status; state = zombie })
              pure (all_closed.0 ++ (begin_op ∷ iput (s.proc p).cwd ∷ end_op ∷ [])))
            (wakeup1_lem q (record s { proc = orphaned }))
        ∙ ap
            (λ l.
              ok
                (l ++ (begin_op ∷ iput (s.proc p).cwd ∷ end_op ∷ []), record s { proc = exited q }))
            (close_loop-calls (s.proc p).ofile nofile 0))

  closed-parent : (i : ℕ) → (closed i).parent ≡ (s.proc i).parent
  unfolding closed
  closed-parent i = change-keeps (λ p. p.parent) close_files (λ x. refl) s.proc p i

  closed-waits : (i j : ℕ) → waits (closed i) j ≡ waits (s.proc i) j
  unfolding closed
  closed-waits i j = change-keeps (λ p. waits p j) close_files (λ x. refl) s.proc p i

  closed-state : (i : ℕ) → (closed i).state ≡ (s.proc i).state
  unfolding closed
  closed-state i = change-keeps (λ p. p.state) close_files (λ x. refl) s.proc p i

  orphaned-waits : (i j : ℕ) → waits (orphaned i) j ≡ waits (after_wake closed s.initproc i) j
  unfolding orphaned
  orphaned-waits i j =
      for_all-keeps (λ p. waits p j) adopt (λ x. refl) (after_wake closed s.initproc)
        (λ _ pp. is_child p pp.parent) nproc i

  orphaned-state : (i : ℕ) → (orphaned i).state ≡ (after_wake closed s.initproc i).state
  unfolding orphaned
  orphaned-state i =
      for_all-keeps (λ p. p.state) adopt (λ x. refl) (after_wake closed s.initproc)
        (λ _ pp. is_child p pp.parent) nproc i

  orphaned-parent :
      (i : ℕ)
      → i < nproc
      → (orphaned i).parent
        ≡ (if is_child p (s.proc i).parent then some s.initproc else (s.proc i).parent)
  unfolding orphaned
  orphaned-parent i below =
      let same : (after_wake closed s.initproc i).parent ≡ (s.proc i).parent =
        wake-keeps closed s.initproc i (λ p. p.parent) (λ x. refl) ∙ closed-parent i in
      ap (λ p. p.parent)
        (for_all-table (λ _ pp. is_child p pp.parent) adopt (after_wake closed s.initproc) nproc i)
      ∙ (let inside : ltb i nproc ≡ true = ground arith in
          rw inside (elim (Bool-cases (is_child p (s.proc i).parent)) [
            | inl c ↦ rw (ap (is_child p) same ∙ c, c) refl
            | inr n ↦ rw (ap (is_child p) same ∙ n, n) same
          ]))

  -- What `exit` of a process with parent `q` has made of the table.
  pub record Exited (q : ℕ) (t : Table) : Type 0 where
    pub is_dead : ((t.proc p).state ≡ zombie) × ((t.proc p).xstate ≡ status)
    pub no_files : ((fd : ℕ) → fd < nofile → (t.proc p).ofile fd ≡ 0) × ((t.proc p).cwd ≡ 0)
    pub orphans :
        (i : ℕ)
        → i < nproc
        → (t.proc i).parent
          ≡ (if is_child p (s.proc i).parent then some s.initproc else (s.proc i).parent)
    pub woken :
        (i : ℕ)
        → i ≢ p
        → (t.proc i).state ≡ (
            if (s.initproc == i || q == i) && waits (s.proc i) i
            then runnable
            else (s.proc i).state)

  closed_files : ((fd : ℕ) → fd < nofile → (closed p).ofile fd ≡ 0) × ((closed p).cwd ≡ 0)
  unfolding closed
  closed_files = (
    (λ fd below.
        ap (λ r. r.ofile fd) (update_self s.proc p (close_files (s.proc p)))
        ∙ close_loop-closes (s.proc p).ofile nofile 0 fd (omega arith) (omega arith)),
    ground arith,
  )

  gone_files :
      (q : ℕ)
      → ((after_wake orphaned q p).ofile ≡ (closed p).ofile)
        × ((after_wake orphaned q p).cwd ≡ (closed p).cwd)
  unfolding orphaned
  gone_files q = (
    wake-keeps orphaned q p (λ p. p.ofile) (λ x. refl)
        ∙ for_all-keeps (λ p. p.ofile) adopt (λ x. refl) (after_wake closed s.initproc)
            (λ _ pp. is_child p pp.parent) nproc p
        ∙ wake-keeps closed s.initproc p (λ p. p.ofile) (λ x. refl),
    wake-keeps orphaned q p (λ p. p.cwd) (λ x. refl)
        ∙ for_all-keeps (λ p. p.cwd) adopt (λ x. refl) (after_wake closed s.initproc)
            (λ _ pp. is_child p pp.parent) nproc p
        ∙ wake-keeps closed s.initproc p (λ p. p.cwd) (λ x. refl),
  )

  woken-twice :
      (q i : ℕ)
      → (after_wake orphaned q i).state
        ≡ (if (s.initproc == i || q == i) && waits (s.proc i) i then runnable else (s.proc i).state)
  woken-twice q i =
      let again : waits (orphaned q) q
          ≡ (not (s.initproc == q && waits (s.proc s.initproc) s.initproc) && waits (s.proc q) q) =
        orphaned-waits q q
        ∙ wake-waits closed s.initproc q
        ∙ rw (closed-waits q q, closed-waits s.initproc s.initproc) refl in
      let once : (orphaned i).state ≡ (
          if s.initproc == i && waits (s.proc s.initproc) s.initproc
          then runnable
          else (s.proc i).state) =
        orphaned-state i
        ∙ wake-state closed s.initproc i
        ∙ rw (closed-waits s.initproc s.initproc, closed-state i) refl in
      wake-state orphaned q i
      ∙ rw (again, once) refl
      ∙ wake_twice (λ j. waits (s.proc j) j) (s.proc i).state s.initproc q i

  -- `exit` of a process that is not init and whose parent is `q` ends without a panic, up to its last
  -- switch. Its calls into the file system are `fileclose` of each open file, in order, then `begin_op`,
  -- `iput` of its directory and `end_op`. Then it is a ZOMBIE with the exit status and without open files
  -- or directory; every child that it had belongs to init, and other parents are as before; and of the other entries exactly init and the
  -- parent are woken, if they slept in `wait`, while all others keep their state.
  pub exit-Exited :
      (q : ℕ)
      → p ≢ s.initproc
      → (s.proc p).parent ≡ some q
      → Returns (λ calls t. (calls ≡ file_calls) × Exited q t) (exit nproc nofile p status s)
  unfolding exited
  exit-Exited q ne parent = rw (exit-exited q ne parent) (
      returns (
        refl,
        record {
          is_dead = (ground arith, ground arith);
          no_files = (
            (λ fd below.
                ap (λ o. o fd)
                  (change-keeps (λ r. r.ofile) die (λ x. refl) (after_wake orphaned q) p p
                    ∙ (gone_files q).0)
                ∙ closed_files.0 fd below),
            change-keeps (λ r. r.cwd) die (λ x. refl) (after_wake orphaned q) p p
                ∙ (gone_files q).1
                ∙ closed_files.1,
          );
          orphans = λ i below.
              change-keeps (λ r. r.parent) die (λ x. refl) (after_wake orphaned q) p i
              ∙ wake-keeps orphaned q i (λ r. r.parent) (λ x. refl)
              ∙ orphaned-parent i below;
          woken = λ i other.
              let differs : (p == i) ≡ false = ground arith in rw differs (woken-twice q i);
        },
      ))

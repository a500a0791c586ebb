-- ===== src/Lab2/Syscall/Trace.antt =====
-- What `trace`, `sysinfo` and the checks of a user address do.
use hitsz_os.Base.{
  ℕ, zero, suc, ◌+◌, ◌-◌, ◌^◌, ◌≡◌, ◌≢◌, ◌≤◌, ◌<◌, ◌∙◌, sym, ap, refl, Bool, true, false, Option,
  none, some, not, ◌&&◌, ◌||◌, leb, ltb, ◌==◌, ==_iff, if◌then◌else◌, List, [], ◌∷◌, ◌++◌, arith,
  Bool-cases, inl, inr,
}
use mathlib.Core.List.{append-nil}
use Prim.Native.String.{String}
use hitsz_os.Base.Kernel.{
  M, Outcome, ok, panic, gets, ◌>>=◌, ◌>>◌, pure, update, update_self, Returns, returns,
}
use hitsz_os.Lab2.Syscall.{
  Proc, Kernel, Line, traced, unknown, i32, u64, bit, nelem, sys_trace_num, syscall_names, name_at,
  argraw, argint, fetchaddr, syscall, sys_trace, edit, printf, done, sleeps, sleep_turn, count_from,
  check_nproc, check_freefd, is_unused,
}

-- For a process of fewer than 2 ^ 64 - 8 bytes, `fetchaddr` reads memory exactly if all eight bytes lie
-- below the size of the process: the addition does not wrap around the check.
pub fetchaddr_lem :
    {V : Type 0} (copyin : ℕ → ℕ → V → Option ℕ) (addr : ℕ) (s : Kernel V)
    → (s.proc s.current).sz < 2 ^ 64 - 8
    → fetchaddr copyin addr s ≡ (
        if leb (addr + 8) (s.proc s.current).sz
        then ok (copyin (s.proc s.current).pagetable addr s.rest, s)
        else ok (none, s))
unfolding fetchaddr
fetchaddr_lem copyin addr s small =
    let same : (leb (s.proc s.current).sz addr || ltb (s.proc s.current).sz (u64 (addr + 8)))
        ≡ not (leb (addr + 8) (s.proc s.current).sz) =
      ground arith in
    rw same (elim (Bool-cases (leb (addr + 8) (s.proc s.current).sz)) [
      | inl e ↦ rw e refl
      | inr n ↦ rw n refl
    ])

-- From any time on, also across the wrap-around of the 32-bit `ticks`, a sleep of `n` ticks that is not
-- killed is done after `k` ticks exactly if `n` is at most `k`, for `k` and `n` below 2 ^ 32.
pub sleep_turn_lem :
    (ticks0 n k : ℕ)
    → ticks0 < 2 ^ 32
    → k < 2 ^ 32
    → sleep_turn (i32 (ticks0 + k)) ticks0 n false ≡ (if leb n k then done else sleeps)
unfolding sleep_turn
sleep_turn_lem ticks0 n k small few =
    let same : not (ltb (i32 (i32 (ticks0 + k) + 2 ^ 32 - ticks0)) n) ≡ leb n k = ground arith in
    rw same refl

-- Whether the number of a call is in the table.
abbrev pub is_known : ℕ → Bool
is_known num = ltb 0 num && ltb num (2 ^ 31) && ltb num nelem

-- the line that a call prints
abbrev pub line_of : (num arg0 ret : ℕ) → Proc → List Line
line_of num arg0 ret p =
    if bit p.mask num
    then traced p.pid (name_at syscall_names (num - 1)) arg0 (i32 ret) ∷ []
    else []

-- The system calls of kernel/syscall.h, each with its number.
abbrev pub numbered_calls : List (ℕ × String)
numbered_calls =
    (1, "sys_fork")
    ∷ (2, "sys_exit")
    ∷ (3, "sys_wait")
    ∷ (4, "sys_pipe")
    ∷ (5, "sys_read")
    ∷ (6, "sys_kill")
    ∷ (7, "sys_exec")
    ∷ (8, "sys_fstat")
    ∷ (9, "sys_chdir")
    ∷ (10, "sys_dup")
    ∷ (11, "sys_getpid")
    ∷ (12, "sys_sbrk")
    ∷ (13, "sys_sleep")
    ∷ (14, "sys_uptime")
    ∷ (15, "sys_open")
    ∷ (16, "sys_write")
    ∷ (17, "sys_mknod")
    ∷ (18, "sys_unlink")
    ∷ (19, "sys_link")
    ∷ (20, "sys_mkdir")
    ∷ (21, "sys_close")
    ∷ (22, "sys_trace")
    ∷ (23, "sys_sysinfo")
    ∷ []

abbrev pub find_call : (num : ℕ) → List (ℕ × String) → Option String
find_call num [] = none
find_call num ((n, name) ∷ calls) = if num == n then some name else find_call num calls

find_call-known :
    (num : ℕ)
    → find_call num numbered_calls
      ≡ (if is_known num then some (name_at syscall_names (num - 1)) else none)
unfolding name_at
find_call-known num = ground arith

module _ {V : Type 0} where
  -- the kernel after a call by entry `p`
  abbrev pub answered : (p ret : ℕ) → Kernel V → Kernel V
  answered p ret t = record t {
    proc = update t.proc p (record (t.proc p) { a = update (t.proc p).a 0 ret });
  }

  -- what follows the handler of the call `num` with this name, made by entry `p` of the table
  abbrev pub handled_so :
      (p num arg0 : ℕ) (name : String) → Outcome (ℕ × Kernel V) → Outcome (Unit {0} × Kernel V)
  handled_so p num arg0 name (ok (ret, t)) = ok (
    tt,
    record (answered p ret t) {
      console =
          t.console
          ++ (if bit (t.proc p).mask num
              then traced (t.proc p).pid name arg0 (i32 ret) ∷ []
              else []);
    },
  )
  handled_so p num arg0 name (panic msg) = panic msg

  -- what `syscall` does with a number that the table of calls has, or has not
  abbrev pub served :
      (handler : ℕ → M (Kernel V) ℕ) (s : Kernel V) → Option String → Outcome (Unit {0} × Kernel V)
  served handler s none = ok (
    tt,
    record (answered s.current (2 ^ 64 - 1) s) {
      console = s.console ++ (unknown (s.proc s.current).pid (i32 ((s.proc s.current).a 7)) ∷ []);
    },
  )
  served handler s (some name) =
      handled_so s.current (i32 ((s.proc s.current).a 7)) (i32 ((s.proc s.current).a 0)) name
        (handler (i32 ((s.proc s.current).a 7)) s)

  after_handler :
      (p num arg0 : ℕ) (name : String) (o : Outcome (ℕ × Kernel V))
      → name_at syscall_names (num - 1) ≡ name
      → (elim o as (λ _. Outcome (Unit {0} × Kernel V)) [
        | ok (ret, t) ↦
            (do
              edit p (λ q. record q { a = update q.a 0 ret })
              q ← gets (λ s. s.proc p)
              if bit q.mask num
                  then printf (traced q.pid (name_at syscall_names (num - 1)) arg0 (i32 ret))
                  else pure tt)
              t
        | panic msg ↦ panic msg
      ])
        ≡ handled_so p num arg0 name o
  after_handler p num arg0 name (ok (ret, t)) named =
      rw (update_self t.proc p (record (t.proc p) { a = update (t.proc p).a 0 ret }))
        (elim (Bool-cases (bit (t.proc p).mask num)) [
          | inl b ↦ rw (b, named) refl
          | inr n ↦ rw n rw (append-nil t.console) refl
        ])
  after_handler p num arg0 name (panic msg) named = refl

  -- For each number in a7, whatever the handlers do: if it is one of the 23 calls of syscall.h, `syscall`
  -- runs its handler, gives the result in a0 of the process that made the call, and changes nothing else of
  -- what the handler leaves, except that it prints one line exactly if the bit of the number is set in the
  -- mask that the process then has. The line shows the pid, the name of the call, the argument from before
  -- the call, and the result. A panic of the handler is passed on. With any other number, no handler runs,
  -- a0 is -1, and a line with the pid and the number is printed.
  pub syscall-served :
      (handler : ℕ → M (Kernel V) ℕ) (s : Kernel V)
      → syscall handler s
        ≡ served handler s (find_call (i32 ((s.proc s.current).a 7)) numbered_calls)
  unfolding syscall argint argraw
  syscall-served handler s =
      let num = i32 ((s.proc s.current).a 7) in
      rw (find_call-known num) (elim (Bool-cases (is_known num)) [
        | inr alien ↦ rw alien refl
        | inl known ↦ rw known (
            after_handler s.current num (i32 ((s.proc s.current).a 0))
              (name_at syscall_names (num - 1)) (handler num s) refl)
      ])

  abbrev with_mask : ℕ → Kernel V → Kernel V
  with_mask m s = record s {
    proc = update s.proc s.current (record (s.proc s.current) { mask = m });
  }

  sys_trace_lem : (s : Kernel V) → sys_trace s ≡ ok (0, with_mask (i32 ((s.proc s.current).a 0)) s)
  unfolding sys_trace argint argraw
  sys_trace_lem s = refl

  -- `trace(m)`, where the table has `sys_trace` under its number, sets the mask of the process to m, gives
  -- 0 in a0, and prints its own line exactly if m asks for `trace`.
  pub syscall-trace :
      (handler : ℕ → M (Kernel V) ℕ) (s : Kernel V) (m : ℕ)
      → i32 ((s.proc s.current).a 7) ≡ sys_trace_num
      → i32 ((s.proc s.current).a 0) ≡ m
      → handler sys_trace_num s ≡ sys_trace s
      → Returns
          (λ _ t.
            ((t.proc t.current).mask ≡ m)
            × ((t.proc t.current).a 0 ≡ 0)
            × (t.console
                ≡ s.console ++ line_of sys_trace_num m 0 (record (s.proc s.current) { mask = m })))
          (syscall handler s)
  unfolding name_at
  syscall-trace handler s m is_trace is_m traces =
      let self : (s.current == s.current) ≡ true = ground arith in
      let t = with_mask m s in
      let known : find_call (i32 ((s.proc s.current).a 7)) numbered_calls ≡ some "sys_trace" =
        ap (λ n. find_call n numbered_calls) is_trace in
      let run : syscall handler s ≡ handled_so s.current sys_trace_num m "sys_trace" (ok (0, t)) =
        syscall-served handler s
        ∙ ap (served handler s) known
        ∙ rw (is_trace, is_m)
            (ap (handled_so s.current sys_trace_num m "sys_trace")
              (traces ∙ sys_trace_lem s ∙ ap (λ k. ok (0, with_mask k s)) is_m)) in
      rw run (returns (rw self refl, rw self refl, rw self refl))

module _ {A : Type 0} (test : A → Bool) (t : ℕ → A) (k : ℕ) (x : A) where
  count_from-outside :
      (count i : ℕ) → k < i → count_from test (update t k x) count i ≡ count_from test t count i
  unfolding count_from
  count_from-outside zero i out = refl
  count_from-outside (suc n) i out =
      let differs : (k == i) ≡ false = ground arith in
      rw (differs, count_from-outside n (suc i) (omega arith)) refl

  count_from-taken :
      (count i : ℕ)
      → i ≤ k
      → k < i + count
      → test (t k) ≡ true
      → test x ≡ false
      → suc (count_from test (update t k x) count i) ≡ count_from test t count i
  unfolding count_from
  count_from-taken zero i low high passes fails = ground arith
  count_from-taken (suc n) i low high passes fails = elim (Bool-cases (k == i)) [
    | inl e ↦
        let same : test (t i) ≡ true = ap (λ j. test (t j)) (sym ((==_iff k i).0 e)) ∙ passes in
        rw (e, same, fails, count_from-outside n (suc i) (ground arith)) refl
    | inr ne ↦ rw ne (ground (arith, count_from-taken n (suc i)))
  ]

-- When an UNUSED entry of the table is taken, `check_nproc` gives one less than before.
pub check_nproc-taken :
    (nproc k : ℕ) (t : ℕ → Proc) (p : Proc)
    → k < nproc
    → is_unused (t k).state ≡ true
    → is_unused p.state ≡ false
    → suc (check_nproc nproc (update t k p)) ≡ check_nproc nproc t
unfolding check_nproc
check_nproc-taken nproc k t p below free used =
    count_from-taken (λ p. is_unused p.state) t k p nproc 0 (omega arith) (omega arith) free used

-- When a free file descriptor is taken, `check_freefd` gives one less than before.
pub check_freefd-taken :
    (nofile fd file : ℕ) (p : Proc)
    → fd < nofile
    → p.ofile fd ≡ 0
    → file ≢ 0
    → suc (check_freefd nofile (record p { ofile = update p.ofile fd file }))
      ≡ check_freefd nofile p
unfolding check_freefd
check_freefd-taken nofile fd file p below free used =
    count_from-taken (λ f. f == 0) p.ofile fd file nofile 0 (omega arith) (omega arith)
      (ground (arith, free)) (ground arith)

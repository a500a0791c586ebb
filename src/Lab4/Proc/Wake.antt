-- ===== src/Lab4/Proc/Wake.antt =====
-- `wakeup` and `kill`, on the entries of the process table.
use hitsz_os.Base.{
  ℕ, ◌≡◌, ◌≢◌, ◌<◌, refl, Bool, true, false, Option, none, some, ◌&&◌, arith, ◌==◌, ltb,
  if◌then◌else◌,
}
use hitsz_os.Base.Kernel.{ok, Returns, returns}
use hitsz_os.Lab4.Proc.{
  runnable, is_sleeping, Chan, same_chan, Table, change, make_runnable, find_entry, wakeup, kill,
}
use hitsz_os.Lab4.Proc.Scan.{FirstEntry, find_entry-FirstEntry, for_all-table}

-- `wakeup chan` ends without a panic. Of the entries of the table, exactly those that sleep on `chan`
-- have become RUNNABLE, and nothing else has changed.
pub wakeup_lem :
    (nproc : ℕ) (chan : Chan) (s : Table)
    → Returns
        (λ _ t.
          (t.nextpid ≡ s.nextpid)
          × (t.initproc ≡ s.initproc)
          × ((i : ℕ)
              → t.proc i ≡ (
                  if ltb i nproc && (is_sleeping (s.proc i).state && same_chan chan (s.proc i).chan)
                  then make_runnable (s.proc i)
                  else s.proc i)))
        (wakeup nproc chan s)
unfolding wakeup
wakeup_lem nproc chan s = returns (
  refl,
  refl,
  (λ i.
      for_all-table (λ _ p. is_sleeping p.state && same_chan chan p.chan) make_runnable s.proc nproc
        i),
)

-- What `kill pid` has done, by its result.
pub Killed : (nproc pid : ℕ) → Table → Bool → Table → Type 0
Killed nproc pid s false t = (t ≡ s) × ((i : ℕ) → i < nproc → (s.proc i).pid ≢ pid)
Killed nproc pid s true t =
    (k : ℕ) × (k < nproc)
    × ((s.proc k).pid ≡ pid)
    × ((i : ℕ) → i < k → (s.proc i).pid ≢ pid)
    × ((t.proc k).killed ≡ true)
    × ((t.proc k).state ≡ (if is_sleeping (s.proc k).state then runnable else (s.proc k).state))
    × ((i : ℕ) → i ≢ k → t.proc i ≡ s.proc i)

-- `kill pid` ends without a panic. If it gives -1, no entry of the table has the pid and nothing has
-- changed. If it gives 0, the first entry with the pid is marked as killed, is RUNNABLE if it slept and
-- in its old state otherwise, and all other entries are as before.
pub kill_lem : (nproc pid : ℕ) (s : Table) → Returns (Killed nproc pid s) (kill nproc pid s)
unfolding kill Killed FirstEntry
kill_lem nproc pid s =
    by_entry (find_entry (λ p. p.pid == pid) s.proc nproc 0)
      (find_entry-FirstEntry (λ p. p.pid == pid) s.proc nproc 0)
  where
    by_entry :
        (r : Option ℕ)
        → FirstEntry (λ p. p.pid == pid) s.proc nproc 0 r
        → Returns (Killed nproc pid s) (
            (elim r [
              | none ↦ ok (false, s)
              | some i ↦ ok (
                true,
                record s {
                  proc = change s.proc i (λ p. record p {
                    killed = true;
                    state = if is_sleeping p.state then runnable else p.state;
                  });
                },
              )
            ]))
    by_entry none missing = returns (refl, (λ i below. ground (arith, missing i)))
    by_entry (some k) (low, high, passes, before) = returns (
      k,
      omega arith,
      ground (arith, passes),
      (λ i below. ground (arith, before i)),
      ground arith,
      ground arith,
      (λ i ne. ground arith),
    )

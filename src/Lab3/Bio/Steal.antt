-- ===== src/Lab3/Bio/Steal.antt =====
-- `steal_from`, a round of the last loop of `bget`: an unused buffer of another bucket moves to the
-- bucket of the block.
use hitsz_os.Base.{ℕ, ◌≡◌, ◌≢◌, ◌<◌, refl, true, false, none, some, ◌∷◌, arith, ◌⊎◌}
use hitsz_os.Base.Kernel.{ok, update, bind-ok}
use hitsz_os.Base.Sets.{has, has-erase}
use hitsz_os.Lab3.Ring.{find_first, insert_next, insert_prev}
use hitsz_os.Lab3.Bio.{
  Driver, Bcache, nbuckets, head, bucket, acquire, release, lock_sleep, is_block, is_unused,
  find_next, steal_from,
}
use hitsz_os.Lab3.Bio.Buckets.{
  Buckets, Rings, Rings-unlink, Rings-insert, Keyed, Implements, remove, put,
}
use hitsz_os.Lab3.Bio.Scan.{find_next_lem, find_first-some}
use hitsz_os.Lab3.Bio.Lookup.{passed}

-- `b` has moved from bucket `j` to the front of the bucket of its new block.
abbrev pub moved : Buckets → (blockno j b : ℕ) → Buckets
moved f blockno j b = put (remove f j b) (bucket blockno) b

abbrev pub stolen : Driver → (dev blockno j b : ℕ) → Bcache → Bcache
stolen d dev blockno j b s =
    let n = update s.next (s.prev b) (s.next b) in
    let p = update s.prev (s.next b) (s.prev b) in
    record s {
      next = insert_next n (head d (bucket blockno)) b;
      prev = insert_prev n p (head d (bucket blockno)) b;
      dev = update s.dev b dev;
      blockno = update s.blockno b blockno;
      valid = update s.valid b false;
      refcnt = update s.refcnt b 1;
      mine = update s.mine b true;
      calls =
          lock_sleep b
          ∷ release j
          ∷ release (bucket blockno)
          ∷ acquire (bucket blockno)
          ∷ acquire j
          ∷ s.calls;
    }

module _ {d : Driver} {f : Buckets} (dev blockno j : ℕ) (lt : j < nbuckets) (s : Bcache)
    (im : Implements d s f) where
  locked : Bcache
  locked = record s { calls = acquire j ∷ s.calls }

  unused_run : find_next d is_unused j locked ≡ ok (find_first (is_unused s) (f j), locked)
  unfolding locked
  unused_run = find_next_lem locked im.rings j lt is_unused

  pub steal_from-none :
      find_first (is_unused s) (f j) ≡ none → steal_from d dev blockno j s ≡ ok (none, passed j s)
  unfolding steal_from locked
  steal_from-none full = rw (bind-ok (find_next d is_unused j) _ unused_run) (rw full refl)

  -- The reads between the writes of the links see the old neighbours.
  next_kept : (b : ℕ) → update s.next (s.prev b) (s.next b) b ≡ s.next b
  next_kept b = ground arith

  head_kept :
      (b v : ℕ) (n : ℕ → ℕ)
      → b < d.nbuf
      → update n b v (head d (bucket blockno)) ≡ n (head d (bucket blockno))
  head_kept b v n small = ground arith

  pub steal_from-some :
      (b : ℕ)
      → find_first (is_unused s) (f j) ≡ some b
      → steal_from d dev blockno j s ≡ ok (some b, stolen d dev blockno j b s)
  unfolding steal_from locked
  steal_from-some b free =
      let small = im.rings.bufs j b (find_first-some (is_unused s) (f j) b free).0 in
      let n = update s.next (s.prev b) (s.next b) in
      rw (bind-ok (find_next d is_unused j) _ unused_run)
        (rw free (rw (next_kept b) (rw (head_kept b (n (head d (bucket blockno))) n small) refl)))

  module _ (b : ℕ) (m : has b (f j) ≡ true) (unused : s.refcnt b ≡ 0) where
    apart : (i : ℕ) → has b (remove f j b i) ≡ false
    apart i = ground (arith, has-erase b b (f j) (im.rings.nodup j), im.rings.apart b i j)

    pub stolen-Rings :
        Rings d
          (stolen d dev blockno j b s).next
          (stolen d dev blockno j b s).prev
          (moved f blockno j b)
    stolen-Rings =
        Rings-insert (Rings-unlink im.rings j b m) (bucket blockno) b (omega arith)
          (im.rings.bufs j b m) apart

    has-moved :
        (c i : ℕ)
        → has c (moved f blockno j b i) ≡ true
        → (b ≡ c) × (bucket blockno ≡ i) ⊎ (b ≢ c) × (has c (f i) ≡ true)
    has-moved c i h = ground (arith, apart i, has-erase b c (f j) (im.rings.nodup j))

    pub stolen-Keyed :
        ((c : ℕ) → has c (f (bucket blockno)) ≡ true → is_block dev blockno s c ≡ false)
        → Keyed (stolen d dev blockno j b s) (moved f blockno j b)
    stolen-Keyed miss = record {
      hashed = λ i c h ne. ground (arith, has-moved c i h, im.keyed.hashed i c);
      unique = λ i c e hc he same_dev same_block ne.
          ground (arith, has-moved c i hc, has-moved e i he, miss c, miss e, im.keyed.unique i c e);
    }

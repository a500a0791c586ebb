-- ===== src/Lab3/Bio/Lookup.antt =====
-- `lookup`, what `bget` does in the bucket of the block: use the cached buffer, or take over the
-- least recently used one that is not in use.
use hitsz_os.Base.{ℕ, ◌+◌, ◌%◌, ◌^◌, ◌≡◌, ◌≢◌, ◌<◌, refl, true, false, none, some, ◌∷◌, arith}
use hitsz_os.Base.Kernel.{ok, update, bind-ok}
use hitsz_os.Base.Sets.{has}
use hitsz_os.Lab3.Ring.{rev, has-rev, find_first}
use hitsz_os.Lab3.Bio.{
  Driver, Bcache, bucket, acquire, release, lock_sleep, is_block, is_unused, find_next, find_prev,
  lookup,
}
use hitsz_os.Lab3.Bio.Buckets.{Buckets, Rings, Keyed, Implements}
use hitsz_os.Lab3.Bio.Scan.{find_next_lem, find_prev_lem, find_first-some, find_first-none}

-- one more reference to the cached buffer `b`
abbrev pub referenced : (blockno b : ℕ) → Bcache → Bcache
referenced blockno b s = record s {
  refcnt = update s.refcnt b ((s.refcnt b + 1) % 2 ^ 32);
  mine = update s.mine b true;
  calls = lock_sleep b ∷ release (bucket blockno) ∷ acquire (bucket blockno) ∷ s.calls;
}

-- `b` stands for another block from now on
abbrev pub recycled : (dev blockno b : ℕ) → Bcache → Bcache
recycled dev blockno b s = record s {
  dev = update s.dev b dev;
  blockno = update s.blockno b blockno;
  valid = update s.valid b false;
  refcnt = update s.refcnt b 1;
  mine = update s.mine b true;
  calls = lock_sleep b ∷ release (bucket blockno) ∷ acquire (bucket blockno) ∷ s.calls;
}

abbrev pub passed : (k : ℕ) → Bcache → Bcache
passed k s = record s { calls = release k ∷ acquire k ∷ s.calls }

module _ {d : Driver} {f : Buckets} (dev blockno : ℕ) (s : Bcache)
    (r : Rings d s.next s.prev f) where
  k : ℕ
  k = bucket blockno

  locked : Bcache
  locked = record s { calls = acquire k ∷ s.calls }

  cached_run :
      find_next d (is_block dev blockno) k locked
      ≡ ok (find_first (is_block dev blockno s) (f k), locked)
  unfolding k locked
  cached_run = find_next_lem locked r k (omega arith) (is_block dev blockno)

  unused_run : find_prev d is_unused k locked ≡ ok (find_first (is_unused s) (rev (f k)), locked)
  unfolding k locked
  unused_run = find_prev_lem locked r k (omega arith) is_unused

  pub lookup-cached :
      (b : ℕ)
      → find_first (is_block dev blockno s) (f (bucket blockno)) ≡ some b
      → lookup d dev blockno s ≡ ok (some b, referenced blockno b s)
  unfolding lookup k locked
  lookup-cached b hit =
      rw (bind-ok (find_next d (is_block dev blockno) k) _ cached_run) (rw hit refl)

  pub lookup-unused :
      (b : ℕ)
      → find_first (is_block dev blockno s) (f (bucket blockno)) ≡ none
      → find_first (is_unused s) (rev (f (bucket blockno))) ≡ some b
      → lookup d dev blockno s ≡ ok (some b, recycled dev blockno b s)
  unfolding lookup k locked
  lookup-unused b miss free =
      rw (bind-ok (find_next d (is_block dev blockno) k) _ cached_run)
        (rw miss (rw (bind-ok (find_prev d is_unused k) _ unused_run) (rw free refl)))

  pub lookup-none :
      find_first (is_block dev blockno s) (f (bucket blockno)) ≡ none
      → find_first (is_unused s) (rev (f (bucket blockno))) ≡ none
      → lookup d dev blockno s ≡ ok (none, passed (bucket blockno) s)
  unfolding lookup k locked
  lookup-none miss full =
      rw (bind-ok (find_next d (is_block dev blockno) k) _ cached_run)
        (rw miss (rw (bind-ok (find_prev d is_unused k) _ unused_run) (rw full refl)))

  -- The keys stay in order.
  module _ (y : Keyed s f) where
    referenced-Keyed :
        (b : ℕ)
        → find_first (is_block dev blockno s) (f (bucket blockno)) ≡ some b
        → Keyed (referenced blockno b s) f
    referenced-Keyed b hit = record {
      hashed = λ j c m ne. ground (
        arith,
        find_first-some (is_block dev blockno s) (f (bucket blockno)) b hit,
        y.hashed j c m,
        r.apart c (bucket blockno) j,
      );
      unique = y.unique;
    }

    recycled-Keyed :
        (b : ℕ)
        → has b (f (bucket blockno)) ≡ true
        → find_first (is_block dev blockno s) (f (bucket blockno)) ≡ none
        → Keyed (recycled dev blockno b s) f
    recycled-Keyed b m miss = record {
      hashed = λ j c mc ne. ground (arith, m, y.hashed j c mc, r.apart c (bucket blockno) j);
      unique = λ j c e mc me same_dev same_block ne. ground (
        arith,
        m,
        r.apart b (bucket blockno) j,
        find_first-none (is_block dev blockno s) (f (bucket blockno)) c miss,
        find_first-none (is_block dev blockno s) (f (bucket blockno)) e miss,
        y.unique j c e mc me,
      );
    }

-- The buffer `b` is the one for block `blockno` of `dev`: it is in the bucket of the block, in use,
-- and locked by the running process.
pub record Serves (s : Bcache) (f : Buckets) (dev blockno b : ℕ) : Type 0 where
  pub home : has b (f (bucket blockno)) ≡ true
  pub on_dev : s.dev b ≡ dev
  pub on_block : s.blockno b ≡ blockno
  pub locked : s.mine b ≡ true
  pub counted : s.refcnt b ≢ 0

module _ {d : Driver} {f : Buckets} (dev blockno b : ℕ) (s : Bcache) (im : Implements d s f) where
  pub referenced-Serves :
      find_first (is_block dev blockno s) (f (bucket blockno)) ≡ some b
      → s.refcnt b + 1 < 2 ^ 32
      → Implements d (referenced blockno b s) f × Serves (referenced blockno b s) f dev blockno b
  referenced-Serves hit few =
      let found = find_first-some (is_block dev blockno s) (f (bucket blockno)) b hit in
      (
        record { rings = im.rings; keyed = referenced-Keyed dev blockno s im.rings im.keyed b hit },
        record {
          home = found.0;
          on_dev = ground arith;
          on_block = ground arith;
          locked = ground arith;
          counted = ground arith;
        },
      )

  pub recycled-Serves :
      find_first (is_block dev blockno s) (f (bucket blockno)) ≡ none
      → find_first (is_unused s) (rev (f (bucket blockno))) ≡ some b
      → Implements d (recycled dev blockno b s) f
        × Serves (recycled dev blockno b s) f dev blockno b
  recycled-Serves miss free =
      let found = find_first-some (is_unused s) (rev (f (bucket blockno))) b free in
      let m : has b (f (bucket blockno)) ≡ true =
        ground (arith, found, has-rev b (f (bucket blockno))) in
      (
        record {
          rings = im.rings;
          keyed = recycled-Keyed dev blockno s im.rings im.keyed b m miss;
        },
        record {
          home = m;
          on_dev = ground arith;
          on_block = ground arith;
          locked = ground arith;
          counted = ground arith;
        },
      )

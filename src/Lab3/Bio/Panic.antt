-- ===== src/Lab3/Bio/Panic.antt =====
-- `bget`: when it finds neither the block nor a buffer to take over.
use hitsz_os.Base.{ℕ, zero, suc, ◌+◌, ◌≡◌, ◌≢◌, refl, true, false, arith}
use hitsz_os.Base.Kernel.{panic, bind-ok}
use hitsz_os.Base.Sets.{has}
use hitsz_os.Lab3.Ring.{rev, has-rev}
use hitsz_os.Lab3.Bio.{Driver, Bcache, bucket, is_block, is_unused, lookup, steal_from, steal, bget}
use hitsz_os.Lab3.Bio.Buckets.{Buckets, Implements}
use hitsz_os.Lab3.Bio.Scan.{find_first_miss}
use hitsz_os.Lab3.Bio.Lookup.{passed, lookup-none}
use hitsz_os.Lab3.Bio.Steal.{steal_from-none}
use hitsz_os.Lab3.Bio.Get.{visit, passed-Implements}

module _ {d : Driver} {f : Buckets} (dev blockno : ℕ) where
  steal-panic :
      (n i : ℕ) (s : Bcache)
      → Implements d s f
      → ((k c : ℕ) → has c (f k) ≡ true → s.refcnt c ≢ 0)
      → steal d dev blockno n i s ≡ panic "bget: no buffers"
  unfolding steal
  steal-panic zero i s im used = refl
  steal-panic (suc n) i s im used =
      let j = visit blockno i in
      let full = find_first_miss (is_unused s) (f j) (λ c m. ground (arith, used j c)) in
      rw
        (bind-ok (steal_from d dev blockno j) _
          (steal_from-none dev blockno j (omega arith) s im full))
        (steal-panic n (i + 1) (passed j s) (passed-Implements j s im) used)

  -- When the bucket of the block does not hold it, and every buffer of the cache is in use, `bget`
  -- panics.
  pub bget-panic :
      (s : Bcache)
      → Implements d s f
      → ((c : ℕ) → has c (f (bucket blockno)) ≡ true → is_block dev blockno s c ≡ false)
      → ((k c : ℕ) → has c (f k) ≡ true → s.refcnt c ≢ 0)
      → bget d dev blockno s ≡ panic "bget: no buffers"
  unfolding bget
  bget-panic s im missing used =
      let miss = find_first_miss (is_block dev blockno s) (f (bucket blockno)) missing in
      let full =
        find_first_miss (is_unused s) (rev (f (bucket blockno)))
          (λ c m. ground (arith, has-rev c (f (bucket blockno)), used (bucket blockno) c)) in
      rw (bind-ok (lookup d dev blockno) _ (lookup-none dev blockno s im.rings miss full)) (
        steal-panic 12 1 (passed (bucket blockno) s) (passed-Implements (bucket blockno) s im) used)

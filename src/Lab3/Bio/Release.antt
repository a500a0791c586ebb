-- ===== src/Lab3/Bio/Release.antt =====
-- `brelse`, on the bucket of the buffer.
use hitsz_os.Base.{
  ℕ, ◌+◌, ◌-◌, ◌%◌, ◌^◌, ◌≡◌, ◌≢◌, ◌<◌, refl, true, false, ◌∷◌, arith, ◌==◌, if◌then◌else◌,
  Bool-cases, inl, inr,
}
use hitsz_os.Base.Kernel.{ok, panic, update, update_self, Returns, returns}
use hitsz_os.Base.Sets.{has, has-erase}
use hitsz_os.Lab3.Ring.{insert_next, insert_prev}
use hitsz_os.Lab3.Bio.{Driver, Bcache, head, bucket, acquire, release, unlock_sleep, brelse}
use hitsz_os.Lab3.Bio.Buckets.{Buckets, Rings-unlink, Rings-insert, Keyed, Implements, remove, put}

-- one reference less, and the sleep lock given back
abbrev pub dropped : (b : ℕ) → Bcache → Bcache
dropped b s =
    let k = bucket (s.blockno b) in
    record s {
      refcnt = update s.refcnt b ((s.refcnt b + 2 ^ 32 - 1) % 2 ^ 32);
      mine = update s.mine b false;
      calls = release k ∷ acquire k ∷ unlock_sleep b ∷ s.calls;
    }

-- and moved to the front of its bucket
abbrev pub retired : Driver → (b : ℕ) → Bcache → Bcache
retired d b s =
    let n = update s.next (s.prev b) (s.next b) in
    let p = update s.prev (s.next b) (s.prev b) in
    let t = dropped b s in
    record t {
      next = insert_next n (head d (bucket (s.blockno b))) b;
      prev = insert_prev n p (head d (bucket (s.blockno b))) b;
    }

module _ {d : Driver} {f : Buckets} (b : ℕ) (s : Bcache) (im : Implements d s f)
    (home : has b (f (bucket (s.blockno b))) ≡ true) where
  k : ℕ
  k = bucket (s.blockno b)

  prev_kept : update s.prev (s.next b) (s.prev b) b ≡ s.prev b
  prev_kept = ground arith

  head_kept :
      (v : ℕ) (n : ℕ → ℕ)
      → update n b v (head d (bucket (s.blockno b))) ≡ n (head d (bucket (s.blockno b)))
  head_kept v n = ground (arith, im.rings.bufs (bucket (s.blockno b)) b home)

  brelse-more :
      s.mine b ≡ true
      → ((s.refcnt b + 2 ^ 32 - 1) % 2 ^ 32 == 0) ≡ false
      → brelse d b s ≡ ok (tt, dropped b s)
  unfolding brelse
  brelse-more held more = rw held (ground arith)

  brelse-last :
      s.mine b ≡ true
      → ((s.refcnt b + 2 ^ 32 - 1) % 2 ^ 32 == 0) ≡ true
      → brelse d b s ≡ ok (tt, retired d b s)
  unfolding brelse
  brelse-last held last = rw held (
      rw (update_self s.refcnt b _)
        (rw last (rw prev_kept (rw (head_kept _ (update s.next (s.prev b) (s.next b))) refl))))

  module _ (held : s.mine b ≡ true) (counted : s.refcnt b ≢ 0) (small : s.refcnt b < 2 ^ 32) where
    dropped-Keyed : Keyed (dropped b s) f
    dropped-Keyed = record {
      hashed = λ j c h ne. ground (arith, im.keyed.hashed j c h, im.keyed.hashed j b);
      unique = im.keyed.unique;
    }

    retired-Implements :
        Implements d
          (retired d b s)
          (put (remove f (bucket (s.blockno b)) b) (bucket (s.blockno b)) b)
    retired-Implements =
        let gone : (i : ℕ) → has b (remove f (bucket (s.blockno b)) b i) ≡ false = λ i. ground (
          arith,
          has-erase b b (f (bucket (s.blockno b))) (im.rings.nodup (bucket (s.blockno b))),
          im.rings.apart b i (bucket (s.blockno b)),
        ) in
        let same : (c i : ℕ)
            → has c (put (remove f (bucket (s.blockno b)) b) (bucket (s.blockno b)) b i)
              ≡ has c (f i) =
          λ c i. ground (
            arith,
            home,
            has-erase b c (f (bucket (s.blockno b))) (im.rings.nodup (bucket (s.blockno b))),
          ) in
        record {
          rings =
              Rings-insert (Rings-unlink im.rings (bucket (s.blockno b)) b home)
                (bucket (s.blockno b)) b (omega arith) (im.rings.bufs (bucket (s.blockno b)) b home)
                gone;
          keyed = record {
            hashed = λ j c h ne. ground (arith, same c j, dropped-Keyed.hashed j c);
            unique =
                λ j c e hc he x y z. ground (arith, same c j, same e j, dropped-Keyed.unique j c e);
          };
        }

    -- A buffer that the running process holds, and that is in use in the bucket of its block, loses
    -- one reference and its lock. With the last reference it goes to the front of its bucket;
    -- otherwise the lists stay as they are. The cache is in order afterwards.
    pub brelse_lem :
        Returns
          (λ _ t.
            (t.mine b ≡ false)
            × (t.refcnt b + 1 ≡ s.refcnt b)
            × Implements d t (
                if s.refcnt b == 1
                then put (remove f (bucket (s.blockno b)) b) (bucket (s.blockno b)) b
                else f))
          (brelse d b s)
    brelse_lem = elim (Bool-cases (s.refcnt b == 1)) [
      | inl last ↦
          rw (last, brelse-last held (ground arith))
            (returns (ground arith, ground arith, retired-Implements))
      | inr more ↦
          rw (more, brelse-more held (ground arith))
            (returns
              (ground arith, ground arith, record { rings = im.rings; keyed = dropped-Keyed }))
    ]

-- Without its lock a buffer cannot be released.
pub brelse-panic :
    (d : Driver) (b : ℕ) (s : Bcache) → s.mine b ≡ false → brelse d b s ≡ panic "brelse"
unfolding brelse
brelse-panic d b s h = rw h

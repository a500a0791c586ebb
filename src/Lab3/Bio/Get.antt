-- ===== src/Lab3/Bio/Get.antt =====
-- `bget`: which buffer it returns, and when it panics.
use hitsz_os.Base.{
  ℕ, refl, zero, suc, ◌+◌, ◌-◌, ◌%◌, ◌^◌, ap, ◌≡◌, ◌≢◌, ◌≤◌, ◌<◌, true, none, some, arith,
  Option-cases, inl, inr,
}
use hitsz_os.Base.Kernel.{bind-ok, Returns, returns}
use hitsz_os.Base.Sets.{has}
use hitsz_os.Lab3.Ring.{find_first, rev, has-rev}
use hitsz_os.Lab3.Bio.{
  Driver, Bcache, nbuckets, bucket, is_block, is_unused, lookup, steal_from, steal, bget,
}
use hitsz_os.Lab3.Bio.Buckets.{Buckets, Implements}
use hitsz_os.Lab3.Bio.Scan.{find_first-some, find_first-none}
use hitsz_os.Lab3.Bio.Lookup.{
  passed, Serves, lookup-cached, lookup-unused, lookup-none, referenced-Serves, recycled-Serves,
}
use hitsz_os.Lab3.Bio.Steal.{
  moved, stolen, steal_from-none, steal_from-some, stolen-Rings, stolen-Keyed,
}

-- Every valid buffer holds what the disk holds.
abbrev pub Coherent : Driver → Bcache → Type 0
Coherent d s =
    (b : ℕ) → s.valid b ≡ true → s.contents b ≡ d.read_block s.disk (s.dev b) (s.blockno b)

-- The disk is untouched, and what was coherent still is.
abbrev pub SameData : Driver → Bcache → Bcache → Type 0
SameData d s t = (t.disk ≡ s.disk) × (Coherent d s → Coherent d t)

-- A buffer for the block, in a cache that is in order again.
abbrev pub Got : Driver → Bcache → (dev blockno : ℕ) → ℕ → Bcache → Type 0
Got d s dev blockno b t =
    (g : Buckets) × Implements d t g × Serves t g dev blockno b × SameData d s t

-- The bucket that round `i` visits.
abbrev pub visit : (blockno i : ℕ) → ℕ
visit blockno i = (blockno + i) % 2 ^ 32 % nbuckets

pub passed-Implements :
    {d : Driver} {f : Buckets} (j : ℕ) (s : Bcache) → Implements d s f → Implements d (passed j s) f
passed-Implements j s im = record {
  rings = im.rings;
  keyed = record { hashed = im.keyed.hashed; unique = im.keyed.unique };
}

-- The round that reaches bucket `k` from the bucket of the block.
abbrev round : (blockno k : ℕ) → ℕ
round blockno k = (k + 13 - blockno % 13) % 13

visit-round : (blockno k : ℕ) → blockno + 12 < 2 ^ 32 → k < 13 → visit blockno (round blockno k) ≡ k
visit-round blockno k small lt = omega arith

module _ {d : Driver} {f : Buckets} (dev blockno : ℕ) where
  pub stolen-Implements :
      (j : ℕ)
      → j < nbuckets
      → (s : Bcache) → Implements d s f
      → (b : ℕ) → find_first (is_unused s) (f j) ≡ some b
      → find_first (is_block dev blockno s) (f (bucket blockno)) ≡ none
      → Implements d (stolen d dev blockno j b s) (moved f blockno j b)
  stolen-Implements j lt s im b free miss =
      let found = find_first-some (is_unused s) (f j) b free in
      let unused : s.refcnt b ≡ 0 = ground (arith, found) in
      record {
        rings = stolen-Rings dev blockno j lt s im b found.0 unused;
        keyed =
            stolen-Keyed dev blockno j lt s im b found.0 unused
              (λ c h. find_first-none _ (f (bucket blockno)) c miss h);
      }

  stolen-Serves :
      (j : ℕ)
      → j < nbuckets
      → (s : Bcache) → Implements d s f
      → (b : ℕ) → find_first (is_unused s) (f j) ≡ some b
      → find_first (is_block dev blockno s) (f (bucket blockno)) ≡ none
      → Got d s dev blockno b (stolen d dev blockno j b s)
  stolen-Serves j lt s im b free miss = (
    moved f blockno j b,
    stolen-Implements j lt s im b free miss,
    record {
      home = ground arith;
      on_dev = ground arith;
      on_block = ground arith;
      locked = ground arith;
      counted = ground arith;
    },
    (refl, λ c x v. ground (arith, c x)),
  )

  steal-Got :
      (n i : ℕ) (s : Bcache)
      → Implements d s f
      → find_first (is_block dev blockno s) (f (bucket blockno)) ≡ none
      → (e : ℕ) → i ≤ e
      → e < i + n
      → find_first (is_unused s) (f (visit blockno e)) ≢ none
      → Returns (Got d s dev blockno) (steal d dev blockno n i s)
  unfolding steal
  steal-Got zero i s im miss e lo hi there = absurd (omega arith)
  steal-Got (suc n) i s im miss e lo hi there =
      elim (Option-cases (find_first (is_unused s) (f (visit blockno i)))) [
        | inl full ↦
            rw
              (bind-ok (steal_from d dev blockno (visit blockno i)) _
                (steal_from-none dev blockno (visit blockno i) (omega arith) s im full))
              (steal-Got n (i + 1) (passed (visit blockno i) s) (passed-Implements _ s im) miss e
                (ground arith) (omega arith) there)
        | inr (b, free) ↦
            rw
              (bind-ok (steal_from d dev blockno (visit blockno i)) _
                (steal_from-some dev blockno (visit blockno i) (omega arith) s im b free))
              (returns (stolen-Serves (visit blockno i) (omega arith) s im b free miss))
      ]

  -- When the cache is in order, no counter is about to overflow, the last round's `blockno + 12` fits
  -- 32 bits, and some buffer is not in use, `bget` ends without a panic. It returns a buffer for
  -- the block, locked and referenced, in the bucket of the block, and the cache is in order again.
  pub bget-Got :
      (s : Bcache)
      → Implements d s f
      → ((c : ℕ) → s.refcnt c + 1 < 2 ^ 32)
      → blockno + 12 < 2 ^ 32
      → (k c : ℕ) → has c (f k) ≡ true
      → s.refcnt c ≡ 0
      → Returns (Got d s dev blockno) (bget d dev blockno s)
  unfolding bget
  bget-Got s im few small k c m unused =
      elim (Option-cases (find_first (is_block dev blockno s) (f (bucket blockno)))) [
        | inr (b, hit) ↦
            rw (bind-ok (lookup d dev blockno) _ (lookup-cached dev blockno s im.rings b hit)) (
              let p = referenced-Serves dev blockno b s im hit (few b) in
              returns (f, p.0, p.1, (refl, λ c x v. ground (arith, c x))))
        | inl miss ↦ elim (Option-cases (find_first (is_unused s) (rev (f (bucket blockno))))) [
          | inr (b, free) ↦
              rw
                (bind-ok (lookup d dev blockno) _
                  (lookup-unused dev blockno s im.rings b miss free))
                (let p = recycled-Serves dev blockno b s im miss free in
                  returns (f, p.0, p.1, (refl, λ c x v. ground (arith, c x))))
          | inl full ↦
              let own = find_first-none (is_unused s) (rev (f (bucket blockno))) c full in
              let far : bucket blockno ≢ k =
                λ e. absurd (ground (arith, own, has-rev c (f (bucket blockno)), ap f e)) in
              let lt : k < 13 = ground (arith, im.rings.bounded k) in
              let there : find_first (is_unused s) (f k) ≢ none =
                λ e. ground (arith, find_first-none (is_unused s) (f k) c e) in
              rw (bind-ok (lookup d dev blockno) _ (lookup-none dev blockno s im.rings miss full)) (
                steal-Got 12 1 (passed (bucket blockno) s) (passed-Implements _ s im) miss
                  (round blockno k) (omega arith) (omega arith)
                  (rw (visit-round blockno k small lt) there))
        ]
      ]

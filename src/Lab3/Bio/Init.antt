-- ===== src/Lab3/Bio/Init.antt =====
-- `binit`: the buckets after boot.
use hitsz_os.Base.{ℕ, zero, suc, ◌+◌, ◌%◌, ◌≡◌, ◌<◌, refl, [], ◌&&◌, arith, ltb, ◌==◌}
use hitsz_os.Base.Kernel.{update, Returns, returns, Returns-bind, Returns-mono}
use hitsz_os.Base.Sets.{has}
use hitsz_os.Lab3.Ring.{insert_next, insert_prev}
use hitsz_os.Lab3.Bio.{Driver, Bcache, nbuckets, head, init_heads, init_bufs, binit}
use hitsz_os.Lab3.Bio.Buckets.{Buckets, Rings, Rings-insert, Implements, put}

-- Memory before `main` runs: no buffer is in use or has a device.
pub record IsBlank (s : Bcache) : Type 0 where
  pub unused : (b : ℕ) → s.refcnt b ≡ 0
  pub no_device : (b : ℕ) → s.dev b ≡ 0

-- the first `i` rings are empty
abbrev Emptied : Driver → ℕ → Bcache → Type 0
Emptied d i s = (k : ℕ) → k < i → (s.next (head d k) ≡ head d k) × (s.prev (head d k) ≡ head d k)

module _ (d : Driver) where
  init_heads-Emptied :
      (n i : ℕ) (s : Bcache)
      → IsBlank s
      → Emptied d i s
      → Returns (λ _ t. IsBlank t × Emptied d (i + n) t) (init_heads d n i s)
  unfolding init_heads
  init_heads-Emptied zero i s blank e = returns (blank, λ k lt. e k (omega arith))
  init_heads-Emptied (suc n) i s blank e =
      Returns-mono
        (init_heads-Emptied n (i + 1) _
          (record { unused = blank.unused; no_device = blank.no_device })
          (λ k lt. ground (arith, e k)))
        (λ _ t (b, e'). (b, λ k lt. e' k (omega arith)))

  -- the first `i` buffers are in their buckets
  pub record Dealt (i : ℕ) (next prev : ℕ → ℕ) (g : Buckets) : Type 0 where
    pub rings : Rings d next prev g
    pub members : (b k : ℕ) → has b (g k) ≡ (ltb b i && (b % nbuckets == k))

  head_kept : (k i v : ℕ) (next : ℕ → ℕ) → i < d.nbuf → update next i v (head d k) ≡ next (head d k)
  head_kept k i v next lt = ground arith

  Dealt-insert :
      (i : ℕ) (next prev : ℕ → ℕ) (g : Buckets)
      → i < d.nbuf
      → Dealt i next prev g
      → Dealt
          (i + 1)
          (insert_next next (head d (i % nbuckets)) i)
          (insert_prev next prev (head d (i % nbuckets)) i)
          (put g (i % nbuckets) i)
  Dealt-insert i next prev g lt p = record {
    rings =
        Rings-insert p.rings (i % nbuckets) i (omega arith) lt (λ j. ground (arith, p.members i j));
    members = λ b k. ground (arith, p.members b k);
  }

  init_bufs-Dealt :
      (n i : ℕ) (s : Bcache) (g : Buckets)
      → i + n ≡ d.nbuf
      → IsBlank s
      → Dealt i s.next s.prev g
      → Returns
          (λ _ t. (h : Buckets) × IsBlank t × Dealt d.nbuf t.next t.prev h)
          (init_bufs d n i s)
  unfolding init_bufs
  init_bufs-Dealt zero i s g sum blank p =
      returns (g, blank, record { rings = p.rings; members = λ b k. ground (arith, p.members b k) })
  init_bufs-Dealt (suc n) i s g sum blank p =
      rw (head_kept (i % nbuckets) i (s.next (head d (i % nbuckets))) s.next (omega arith)) (
        init_bufs-Dealt n (i + 1) _ (put g (i % nbuckets) i) (omega arith)
          (record { unused = blank.unused; no_device = blank.no_device })
          (Dealt-insert i s.next s.prev g (omega arith) p))

  empty-Dealt : (s : Bcache) → Emptied d 13 s → Dealt 0 s.next s.prev (λ _. [])
  empty-Dealt s e = record {
    rings = record {
      ring = e;
      bufs = λ k b h. cc;
      nodup = λ k. tt;
      apart = λ b i j h. cc;
      bounded = λ k h. refl;
    };
    members = λ b k. ground arith;
  }

  -- `binit`, run on blank memory, ends without a panic and leaves the cache in order: buffer `b` is
  -- in bucket `b % NBUCKETS`, and each bucket holds no other node.
  pub binit-Implements :
      (s : Bcache)
      → IsBlank s
      → Returns
          (λ _ t.
            (g : Buckets) × Implements d t g
            × ((b k : ℕ) → has b (g k) ≡ (ltb b d.nbuf && (b % nbuckets == k))))
          (binit d s)
  unfolding binit
  binit-Implements s blank =
      Returns-bind (init_heads d nbuckets 0) _
        (init_heads-Emptied 13 0 s blank (λ k lt. absurd (omega arith)))
        (λ _ t (b, e).
          Returns-mono (init_bufs-Dealt d.nbuf 0 t (λ _. []) (omega arith) b (empty-Dealt t e))
            (λ _ u (g, c, p). (
              g,
              record {
                rings = p.rings;
                keyed = record {
                  hashed = λ k x h ne. ground (arith, ne, c.unused x, c.no_device x);
                  unique = λ k x y hx hy same_dev same_block ne. absurd (ne (c.no_device x));
                };
              },
              p.members,
            )))

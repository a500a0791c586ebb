-- ===== src/Lab3/Bio/Buckets.antt =====
-- What the buffer cache stands for: a list of buffers for each bucket, the last used first.
use hitsz_os.Base.{
  ℕ, ◌≡◌, ◌≢◌, ◌⊎◌, ◌≤◌, ◌<◌, true, false, List, [], ◌∷◌, arith, ◌==◌, Bool-cases, inl, inr,
}
use hitsz_os.Base.Kernel.{update, update_elim}
use hitsz_os.Base.Sets.{has, Distinct, erase, has-erase, Distinct-erase}
use hitsz_os.Lab3.Ring.{
  Links, Links-frame, Links-unlink, Links-insert, insert_next, insert_prev, next-mem, prev-mem,
}
use hitsz_os.Lab3.Bio.{Driver, Bcache, nbuckets, head, bucket}

abbrev pub Buckets : Type 0
Buckets = ℕ → List ℕ

-- The links of the nodes form a ring for each list of `f`.
pub record Rings (d : Driver) (next prev : ℕ → ℕ) (f : Buckets) : Type 0 where
  pub ring : (k : ℕ) → k < nbuckets → Links next prev (head d k) (f k) (head d k)
  pub bufs : (k b : ℕ) → has b (f k) ≡ true → b < d.nbuf
  pub nodup : (k : ℕ) → Distinct (f k)
  pub apart : (b i j : ℕ) → has b (f i) ≡ true → has b (f j) ≡ true → i ≡ j
  pub bounded : (k : ℕ) → nbuckets ≤ k → f k ≡ []

-- A buffer that is in use or has a device is in the bucket of its block, and a bucket holds no block
-- of a device twice. Device 0 is left out: at boot all buffers are named block 0 of device 0.
pub record Keyed (s : Bcache) (f : Buckets) : Type 0 where
  pub hashed :
      (k b : ℕ) → has b (f k) ≡ true → (s.refcnt b ≢ 0) ⊎ (s.dev b ≢ 0) → bucket (s.blockno b) ≡ k
  pub unique :
      (k b c : ℕ)
      → has b (f k) ≡ true
      → has c (f k) ≡ true
      → s.dev b ≡ s.dev c
      → s.blockno b ≡ s.blockno c
      → s.dev b ≢ 0
      → b ≡ c

pub record Implements (d : Driver) (s : Bcache) (f : Buckets) : Type 0 where
  pub rings : Rings d s.next s.prev f
  pub keyed : Keyed s f

abbrev pub remove : Buckets → (k b : ℕ) → Buckets
remove f k b = update f k (erase b (f k))

abbrev pub put : Buckets → (k b : ℕ) → Buckets
put f k b = update f k (b ∷ f k)

module _ {d : Driver} {next prev : ℕ → ℕ} {f : Buckets} (r : Rings d next prev f) where
  -- The head of a ring is no buffer.
  pub head-not-mem : (j k : ℕ) → has (head d j) (f k) ≡ false
  head-not-mem j k = elim (Bool-cases (has (head d j) (f k))) [
    | inl m ↦ absurd (omega (arith, r.bufs k (head d j) m))
    | inr n ↦ n
  ]

  module _ (k b : ℕ) (m : has b (f k) ≡ true) where
    in_range : k < nbuckets
    in_range = ground (arith, r.bounded k)

    -- The neighbours of `b` are nodes of ring `k`.
    other_node :
        (j x y : ℕ)
        → (k == j) ≡ false
        → has y (head d k ∷ f k) ≡ true
        → has x (head d j ∷ f j) ≡ true
        → y ≢ x
    other_node j x y ne hy hx e =
        absurd (ground (arith, e, head-not-mem j k, head-not-mem k j, r.apart x j k))

    ring_k : Links next prev (head d k) (f k) (head d k)
    ring_k = r.ring k in_range

    -- `b` is unlinked from its ring `k`, and the other rings are untouched.
    pub Rings-unlink :
        Rings d (update next (prev b) (next b)) (update prev (next b) (prev b)) (remove f k b)
    Rings-unlink = record {
      ring = λ j lt.
          update_elim
            (λ i ys.
              Links (update next (prev b) (next b)) (update prev (next b) (prev b)) (head d i) ys
                (head d i))
            f k (erase b (f k)) j
            (Links-unlink next prev (head d k) (f k) (head d k) b ring_k m (r.nodup k)
              (head-not-mem k k) (head-not-mem k k))
            (λ ne.
              Links-frame (head d j) (f j) (head d j) (r.ring j lt)
                (λ x h. ground (
                  arith,
                  other_node j x (prev b) ne (prev-mem next prev _ (f k) _ b ring_k (ground arith))
                      h,
                ))
                (λ x h. ground (
                  arith,
                  other_node j x (next b) ne (next-mem next prev _ (f k) _ b ring_k (ground arith))
                      h,
                )));
      bufs = λ j c h. ground (arith, has-erase b c (f k) (r.nodup k), r.bufs j c);
      nodup = λ j.
          update_elim (λ _ ys. Distinct ys) f k (erase b (f k)) j
            (Distinct-erase b (f k) (r.nodup k)) (λ _. r.nodup j);
      apart = λ c i j hi hj. ground (arith, has-erase b c (f k) (r.nodup k), r.apart c i j);
      bounded = λ j h. ground (arith, in_range, r.bounded j);
    }

  -- The node behind the head of ring `k` is in no other ring.
  apart_next :
      (k j x : ℕ)
      → k < nbuckets
      → (k == j) ≡ false
      → has x (head d j ∷ f j) ≡ true
      → next (head d k) ≢ x
  apart_next k j x lt ne h e = absurd (
      ground (
        arith,
        e,
        next-mem next prev (head d k) (f k) (head d k) (head d k) (r.ring k lt) (ground arith),
        head-not-mem j k,
        head-not-mem k j,
        r.apart x j k,
      ))

  pub Rings-insert :
      (k b : ℕ)
      → k < nbuckets
      → b < d.nbuf
      → ((j : ℕ) → has b (f j) ≡ false)
      → Rings d (insert_next next (head d k) b) (insert_prev next prev (head d k) b) (put f k b)
  Rings-insert k b lt small new = record {
    ring = λ j h.
        update_elim
          (λ i ys.
            Links (insert_next next (head d k) b) (insert_prev next prev (head d k) b) (head d i) ys
              (head d i))
          f k (b ∷ f k) j
          (Links-insert next prev (head d k) (f k) b (r.ring k lt) (r.nodup k) (head-not-mem k k)
            (new k) (omega arith))
          (λ ne.
            Links-frame (head d j) (f j) (head d j) (r.ring j h)
              (λ x m. ground (arith, r.bufs j x, new j, head-not-mem k j))
              (λ x m. ground (arith, apart_next k j x lt ne m, r.bufs j x, new j)));
    bufs = λ j c h. ground (arith, r.bufs j c);
    nodup =
        λ j. update_elim (λ _ ys. Distinct ys) f k (b ∷ f k) j (new k, r.nodup k) (λ _. r.nodup j);
    apart = λ c i j hi hj. ground (arith, r.apart c i j, new i, new j);
    bounded = λ j h. ground (arith, r.bounded j);
  }

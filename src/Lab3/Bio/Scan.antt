-- ===== src/Lab3/Bio/Scan.antt =====
-- The walks round a ring find the first buffer of the list, or of its reverse, that passes the test.
use hitsz_os.Base.{
  ℕ, refl, zero, suc, ◌+◌, ◌≡◌, ◌≤◌, ◌<◌, Bool, true, false, none, some, List, [], ◌∷◌, arith,
  length,
}
use hitsz_os.Base.Kernel.{ok}
use hitsz_os.Base.Sets.{has, length-below}
use hitsz_os.Lab3.Ring.{Links, Links-rev, rev, length-rev, has-rev, find_first}
use hitsz_os.Lab3.Bio.{Driver, Bcache, nbuckets, head, scan, find_next, find_prev}
use hitsz_os.Lab3.Bio.Buckets.{Buckets, Rings, head-not-mem}

scan-find_first :
    (link back : ℕ → ℕ) (test : ℕ → Bool) (h n p : ℕ) (l : List ℕ) (s : Bcache)
    → Links link back p l h
    → has h l ≡ false
    → length l < n
    → scan link test h n (link p) s ≡ ok (find_first test l, s)
unfolding scan find_first
scan-find_first link back test h zero p l s c out fuel = absurd (omega arith)
scan-find_first link back test h (suc n) p [] s c out fuel = ground arith
scan-find_first link back test h (suc n) p (x ∷ l) s c out fuel =
    ground (arith, scan-find_first link back test h n x l s c.2)

module _ {d : Driver} (s : Bcache) {f : Buckets} (r : Rings d s.next s.prev f) (k : ℕ)
    (lt : k < nbuckets) (test : Bcache → ℕ → Bool) where
  short : length (f k) ≤ d.nbuf
  short = length-below d.nbuf (f k) (r.nodup k) (r.bufs k)

  pub find_next_lem : find_next d test k s ≡ ok (find_first (test s) (f k), s)
  unfolding find_next
  find_next_lem =
      scan-find_first s.next s.prev (test s) (head d k) (d.nbuf + 1) (head d k) (f k) s
        (r.ring k lt) (head-not-mem r k k) (omega (arith, short))

  pub find_prev_lem : find_prev d test k s ≡ ok (find_first (test s) (rev (f k)), s)
  unfolding find_prev
  find_prev_lem =
      scan-find_first s.prev s.next (test s) (head d k) (d.nbuf + 1) (head d k) (rev (f k)) s
        (Links-rev s.next s.prev (head d k) (f k) (head d k) (r.ring k lt))
        (ground (arith, has-rev (head d k) (f k), head-not-mem r k k))
        (omega (arith, short, length-rev (f k)))

-- What `find_first` finds.
pub find_first-some :
    (test : ℕ → Bool) (l : List ℕ) (b : ℕ)
    → find_first test l ≡ some b
    → (has b l ≡ true) × (test b ≡ true)
unfolding find_first
find_first-some test [] b h = cc
find_first-some test (x ∷ l) b h = ground (arith, find_first-some test l b)

pub find_first-none :
    (test : ℕ → Bool) (l : List ℕ) (b : ℕ)
    → find_first test l ≡ none
    → has b l ≡ true
    → test b ≡ false
unfolding find_first
find_first-none test [] b h m = cc
find_first-none test (x ∷ l) b h m = ground (arith, find_first-none test l b)

pub find_first_miss :
    (test : ℕ → Bool) (l : List ℕ)
    → ((b : ℕ) → has b l ≡ true → test b ≡ false)
    → find_first test l ≡ none
unfolding find_first
find_first_miss test [] h = refl
find_first_miss test (x ∷ l) h =
    ground (arith, h x, find_first_miss test l (λ b m. h b (ground arith)))

pub find_first_cong :
    (test test' : ℕ → Bool) (l : List ℕ)
    → ((b : ℕ) → has b l ≡ true → test b ≡ test' b)
    → find_first test l ≡ find_first test' l
unfolding find_first
find_first_cong test test' [] h = refl
find_first_cong test test' (x ∷ l) h =
    ground (arith, h x, find_first_cong test test' l (λ b m. h b (ground arith)))

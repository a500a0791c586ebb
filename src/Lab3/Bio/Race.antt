-- ===== src/Lab3/Bio/Race.antt =====
-- Two calls of `bget` at once: between the search of the block's own bucket and the theft from another one
-- the lock of the own bucket is free, and the search is not made again.
use hitsz_os.Base.{
  ℕ, suc, ◌+◌, ◌^◌, ◌≡◌, ◌≢◌, ◌<◌, refl, ap, true, false, none, some, arith, ◌∙◌, List, [], ◌∷◌,
}
use hitsz_os.Base.Kernel.{ok, Returns, returns}
use hitsz_os.Base.Sets.{erase, has-erase}
use hitsz_os.Lab3.Ring.{find_first, rev}
use hitsz_os.Lab3.Bio.{Driver, Bcache, nbuckets, bucket, is_block, is_unused, bget}
use hitsz_os.Lab3.Bio.Buckets.{Buckets, Implements}
use hitsz_os.Lab3.Bio.Scan.{find_first-some, find_first_cong}
use hitsz_os.Lab3.Bio.Lookup.{passed, lookup-none}
use hitsz_os.Lab3.Bio.Steal.{moved, stolen, steal_from-some, steal_from-none}
use hitsz_os.Lab3.Bio.Get.{visit, passed-Implements, stolen-Implements}
use hitsz_os.Lab3.Bio.Sections.{
  begins, steals, has_got, held, alone, got, take_turns, bget-alone, first_turn, second_turn,
  search_section, steal_section,
}

module _ {d : Driver} {f : Buckets} (dev blockno : ℕ) (s : Bcache) (im : Implements d s f) where
  -- The sections of one call of `bget`, one after the other, are `bget`, in any state of the cache. Now let
  -- no lock of a bucket be held, the block not be cached, its own bucket have no unused buffer, the
  -- next bucket have one, b, and the bucket behind it have one, c; let blockno + 2 be below 2 ^ 32. Then two
  -- calls of `bget` for the block can take turns as follows, with no lock of a bucket held between two
  -- turns: both search the own bucket, the first one takes b, and the second one finds no buffer in the
  -- next bucket and takes c. Both calls are done, with different buffers of the same block, each
  -- with one reference and locked.
  pub two_bgets_duplicate :
      (b c : ℕ)
      → blockno + 2 < 2 ^ 32
      → held s.calls ≡ []
      → find_first (is_block dev blockno s) (f (bucket blockno)) ≡ none
      → find_first (is_unused s) (rev (f (bucket blockno))) ≡ none
      → find_first (is_unused s) (f (visit blockno 1)) ≡ some b
      → find_first (is_unused s) (erase b (f (visit blockno 1))) ≡ none
      → find_first (is_unused s) (f (visit blockno 2)) ≡ some c
      → ((t : Bcache)
          → alone d dev blockno (suc nbuckets) begins t ≡ got d dev blockno (bget d dev blockno t))
        × Returns
            (λ r t.
              (r ≡ (has_got b, has_got c))
              × (b ≢ c)
              × (is_block dev blockno t b ≡ true)
              × (t.refcnt b ≡ 1)
              × (t.mine b ≡ true)
              × (is_block dev blockno t c ≡ true)
              × (t.refcnt c ≡ 1)
              × (t.mine c ≡ true))
            (take_turns d dev blockno (true ∷ false ∷ true ∷ false ∷ false ∷ []) begins begins s)
  unfolding take_turns
  two_bgets_duplicate b c small quiet miss full free_b no_more free_c =
      let k = bucket blockno in
      let i = visit blockno 1 in
      let j = visit blockno 2 in
      let apart : i ≢ j = λ e. absurd (omega (arith, e)) in
      let other : k ≢ j = λ e. absurd (omega (arith, e)) in
      let once = passed k s in
      let im1 = passed-Implements k s im in
      let twice = passed k once in
      let im2 = passed-Implements k once im1 in
      let u = stolen d dev blockno i b twice in
      let im3 = stolen-Implements dev blockno i (omega arith) twice im2 b free_b miss in
      let v = passed i u in
      let im4 = passed-Implements i u im3 in
      let in_i = (find_first-some (is_unused s) (f i) b free_b).0 in
      let in_j = (find_first-some (is_unused s) (f j) c free_c).0 in
      let ne : b ≢ c = λ e. absurd (ground (arith, e, im.rings.apart b i j)) in
      let emptied : find_first (is_unused u) (moved f blockno i b i) ≡ none =
        let rest : moved f blockno i b i ≡ erase b (f i) = ground arith in
        rw rest (
          find_first_cong (is_unused u) (is_unused s) (erase b (f i))
            (λ x m. ground (arith, has-erase b x (f i) (im.rings.nodup i)))
          ∙ no_more) in
      let same_list : moved f blockno i b j ≡ f j = ground arith in
      let found : find_first (is_unused v) (moved f blockno i b j) ≡ some c = rw same_list (
        find_first_cong (is_unused v) (is_unused s) (f j)
          (λ x m. ground (arith, im.rings.apart x i j))
        ∙ free_c) in
      let w = stolen d dev blockno j c v in
      let self : (n : ℕ) (l : List ℕ) → erase n (n ∷ l) ≡ l = λ n l. ground arith in
      let quiet1 : held once.calls ≡ [] = self k (held s.calls) ∙ quiet in
      let quiet2 : held twice.calls ≡ [] = self k (held once.calls) ∙ quiet1 in
      let quiet3 : held u.calls ≡ [] =
        ap (erase i) (self k (i ∷ held twice.calls)) ∙ self i (held twice.calls) ∙ quiet2 in
      let quiet4 : held v.calls ≡ [] = self i (held u.calls) ∙ quiet3 in
      let quiet5 : held w.calls ≡ [] =
        ap (erase j) (self k (j ∷ held v.calls)) ∙ self j (held v.calls) ∙ quiet4 in
      let run : take_turns d dev blockno (true ∷ false ∷ true ∷ false ∷ false ∷ []) begins begins s
          ≡ ok ((has_got b, has_got c), w) =
        first_turn d dev blockno (false ∷ true ∷ false ∷ false ∷ []) begins begins (steals 12 1) s
          once (search_section d dev blockno s once (lookup-none dev blockno s im.rings miss full))
          quiet1
        ∙ second_turn d dev blockno (true ∷ false ∷ false ∷ []) (steals 12 1) begins (steals 12 1)
            once twice
            (search_section d dev blockno once twice
              (lookup-none dev blockno once im1.rings miss full))
            quiet2
        ∙ first_turn d dev blockno (false ∷ false ∷ []) (steals 12 1) (steals 12 1) (has_got b)
            twice u
            (steal_section d dev blockno 11 1 (some b) twice u
              (steal_from-some dev blockno i (omega arith) twice im2 b free_b))
            quiet3
        ∙ second_turn d dev blockno (false ∷ []) (has_got b) (steals 12 1) (steals 11 2) u v
            (steal_section d dev blockno 11 1 none u v
              (steal_from-none dev blockno i (omega arith) u im3 emptied))
            quiet4
        ∙ second_turn d dev blockno [] (has_got b) (steals 11 2) (has_got c) v w
            (steal_section d dev blockno 10 2 (some c) v w
              (steal_from-some dev blockno j (omega arith) v im4 c found))
            quiet5 in
      (
        bget-alone d dev blockno,
        rw run (
            returns (
              refl,
              ne,
              ground (arith, ne),
              ground (arith, ne),
              ground (arith, ne),
              ground arith,
              ground arith,
              ground arith,
            )),
      )

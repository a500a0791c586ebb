-- ===== src/Lab3/Bio/Data.antt =====
-- `bread` and `bwrite`: what the buffers hold, against what the disk holds.
use hitsz_os.Base.{
  ℕ, ◌+◌, ◌^◌, ◌≡◌, ◌≢◌, ◌⊎◌, ◌<◌, refl, true, ◌&&◌, arith, ◌==◌, Bool-cases, inl, inr,
}
use hitsz_os.Base.Kernel.{update_self, Returns, returns, Returns-bind}
use hitsz_os.Base.Sets.{has}
use hitsz_os.Lab3.Bio.{Driver, Disk, Bcache, bget, bread, bwrite}
use hitsz_os.Lab3.Bio.Buckets.{Buckets, Implements}
use hitsz_os.Lab3.Bio.Lookup.{Serves}
use hitsz_os.Lab3.Bio.Get.{Coherent, bget-Got}

-- The driver reads back what was written last to a block, and leaves the other blocks alone.
pub record IsDriver (d : Driver) : Type 0 where
  pub read_back :
      (x : Disk) (dev blockno v : ℕ) → d.read_block (d.write_block x dev blockno v) dev blockno ≡ v
  pub read_other :
      (x : Disk) (dev blockno v dev' blockno' : ℕ)
      → (dev ≢ dev') ⊎ (blockno ≢ blockno')
      → d.read_block (d.write_block x dev blockno v) dev' blockno' ≡ d.read_block x dev' blockno'

module _ {d : Driver} {f : Buckets} (dev blockno : ℕ) (s : Bcache) (im : Implements d s f)
    (coherent : Coherent d s) where
  -- When some buffer of the cache is unused, no reference count overflows, blockno + 12 is below 2 ^ 32,
  -- and every valid buffer holds its block of the disk, `bread`
  -- ends without a panic. It returns a locked and referenced buffer of the block that holds what
  -- the disk holds for it; the disk is untouched, and the valid buffers agree with it again.
  pub bread-Coherent :
      ((c : ℕ) → s.refcnt c + 1 < 2 ^ 32)
      → blockno + 12 < 2 ^ 32
      → (k c : ℕ) → has c (f k) ≡ true
      → s.refcnt c ≡ 0
      → Returns
          (λ b t.
            (g : Buckets) × Implements d t g
            × Serves t g dev blockno b
            × (t.valid b ≡ true)
            × (t.contents b ≡ d.read_block s.disk dev blockno)
            × (t.disk ≡ s.disk)
            × Coherent d t)
          (bread d dev blockno s)
  unfolding bread
  bread-Coherent few small k c m unused =
      Returns-bind (bget d dev blockno) _ (bget-Got dev blockno s im few small k c m unused)
        (λ b t (g, it, serves, same). elim (Bool-cases (t.valid b)) [
          | inl v ↦
              let held : t.contents b ≡ d.read_block s.disk dev blockno =
                ground (arith, same.1 coherent b v, same.0, serves.on_dev, serves.on_block) in
              rw v (returns (g, it, serves, v, held, same.0, same.1 coherent))
          | inr nv ↦ rw nv (
              returns (
                g,
                record {
                  rings = it.rings;
                  keyed = record { hashed = it.keyed.hashed; unique = it.keyed.unique };
                },
                record {
                  home = serves.home;
                  on_dev = serves.on_dev;
                  on_block = serves.on_block;
                  locked = serves.locked;
                  counted = serves.counted;
                },
                update_self t.valid b true,
                ground (arith, same.0, serves.on_dev, serves.on_block),
                same.0,
                λ x vx. ground (arith, same.1 coherent x),
              ))
        ])

-- Every valid buffer but `b` holds what the disk holds.
abbrev pub CoherentBut : Driver → Bcache → ℕ → Type 0
CoherentBut d s b =
    (c : ℕ) → c ≢ b → s.valid c ≡ true → s.contents c ≡ d.read_block s.disk (s.dev c) (s.blockno c)

module _ {d : Driver} (good : IsDriver d) {f : Buckets} (s : Bcache) (im : Implements d s f) where
  -- After the holder of `b` has changed its contents, `bwrite` brings the disk up to date: the disk
  -- then holds the contents of `b` under its block and is otherwise unchanged, every valid buffer agrees
  -- with it, and the buffers, their contents and which are valid are as before. The valid buffers must
  -- be in the buckets, `b` valid, held, and on a device other than 0.
  pub bwrite-Coherent :
      (b : ℕ)
      → s.mine b ≡ true
      → s.valid b ≡ true
      → s.dev b ≢ 0
      → ((c : ℕ) → s.valid c ≡ true → (j : ℕ) × (has c (f j) ≡ true))
      → CoherentBut d s b
      → Returns
          (λ _ t.
            Coherent d t
            × (d.read_block t.disk (s.dev b) (s.blockno b) ≡ s.contents b)
            × ((dev blockno : ℕ)
                → (s.dev b ≢ dev) ⊎ (s.blockno b ≢ blockno)
                → d.read_block t.disk dev blockno ≡ d.read_block s.disk dev blockno)
            × (t.contents ≡ s.contents)
            × (t.valid ≡ s.valid)
            × (t.dev ≡ s.dev)
            × (t.blockno ≡ s.blockno))
          (bwrite d b s)
  unfolding bwrite
  bwrite-Coherent b held v on placed but = rw held (
      returns (
        agree,
        good.read_back s.disk (s.dev b) (s.blockno b) (s.contents b),
        good.read_other s.disk (s.dev b) (s.blockno b) (s.contents b),
        refl,
        refl,
        refl,
        refl,
      ))
    where
      alone : (c : ℕ) → s.valid c ≡ true → s.dev b ≡ s.dev c → s.blockno b ≡ s.blockno c → b ≡ c
      alone c vc same_dev same_block =
          let (i, mb) = placed b v in
          let (j, mc) = placed c vc in
          let same : i ≡ j = ground (arith, im.keyed.hashed i b mb, im.keyed.hashed j c mc) in
          im.keyed.unique i b c mb (rw same mc) same_dev same_block on

      agree :
          (c : ℕ)
          → s.valid c ≡ true
          → s.contents c
            ≡ d.read_block
                (d.write_block s.disk (s.dev b) (s.blockno b) (s.contents b))
                (s.dev c)
                (s.blockno c)
      agree c vc = elim (Bool-cases (s.dev b == s.dev c && s.blockno b == s.blockno c)) [
        | inl same ↦
            ground (arith, alone c vc, good.read_back s.disk (s.dev b) (s.blockno b) (s.contents b))
        | inr apart ↦ ground (
          arith,
          but c,
          good.read_other s.disk (s.dev b) (s.blockno b) (s.contents b) (s.dev c) (s.blockno c),
        )
      ]

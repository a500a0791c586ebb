-- ===== src/Lab3/Bio/Tests.antt =====
-- The cache with two buffers: 0 in bucket 0 and 1 in bucket 1.
use hitsz_os.Base.{
  ◌⊎◌, ◌≢◌, ℕ, ◌+◌, ◌*◌, ◌%◌, ◌≡◌, ◌≢◌, refl, true, false, [], ◌∷◌, ltb, ◌&&◌, ◌==◌, if◌then◌else◌,
  arith,
}
use hitsz_os.Base.Kernel.{Returns, panic}
use hitsz_os.Base.Sets.{has}
use hitsz_os.Lab3.Bio.{Driver, Bcache, nbuckets, bucket, bget, bread, bwrite, brelse, binit}
use hitsz_os.Lab3.Bio.{is_block}
use hitsz_os.Lab3.Ring.{find_first}
use hitsz_os.Lab3.Bio.Sections.{begins, has_got, alone, got, take_turns}
use hitsz_os.Lab3.Bio.Race.{two_bgets_duplicate}
use hitsz_os.Lab3.Bio.Buckets.{Buckets, Rings, Implements, remove, put}
use hitsz_os.Lab3.Bio.Lookup.{Serves}
use hitsz_os.Lab3.Bio.Get.{Got, Coherent, bget-Got}
use hitsz_os.Lab3.Bio.Panic.{bget-panic}
use hitsz_os.Lab3.Bio.Release.{brelse_lem}
use hitsz_os.Lab3.Bio.Init.{binit-Implements}
use hitsz_os.Lab3.Bio.Data.{IsDriver, bread-Coherent, bwrite-Coherent}

abbrev toy : Driver
toy = record {
  nbuf = 2;
  read_block = λ x dev blockno. x dev blockno;
  write_block = λ x dev blockno v dev' blockno'.
      if dev == dev' && blockno == blockno' then v else x dev' blockno';
}

toy-IsDriver : IsDriver toy
toy-IsDriver = record {
  read_back = λ x dev blockno v. ground arith;
  read_other = λ x dev blockno v dev' blockno' h. ground arith;
}

abbrev links : ℕ → ℕ
links i = if i == 0 then 2 else if i == 1 then 3 else if i == 2 then 0 else if i == 3 then 1 else i

abbrev lists : Buckets
lists k = if k == 0 then 0 ∷ [] else if k == 1 then 1 ∷ [] else []

lists-Rings : Rings toy links links lists
lists-Rings = record {
  ring = λ k h. ground arith;
  bufs = λ k b h. ground arith;
  nodup = λ k. ground arith;
  apart = λ b i j h g. ground arith;
  bounded = λ k h. ground arith;
}

-- as `binit` leaves it
abbrev fresh : Bcache
fresh = record {
  next = links;
  prev = links;
  dev = λ _. 0;
  blockno = λ _. 0;
  refcnt = λ _. 0;
  valid = λ _. false;
  contents = λ _. 0;
  mine = λ _. false;
  disk = λ dev blockno. dev * 1000 + blockno;
  calls = [];
}

fresh-Implements : Implements toy fresh lists
fresh-Implements = record {
  rings = lists-Rings;
  keyed = record {
    hashed = λ k b h ne. ground (arith, ne);
    unique = λ k b c h g x y ne. absurd (ne refl);
  };
}

fetches_block : Returns (Got toy fresh 1 5) (bget toy 1 5 fresh)
fetches_block = bget-Got 1 5 fresh fresh-Implements (λ c. omega arith) (omega arith) 0 0 refl refl

read_block_5 :
    Returns
      (λ b t.
        (g : Buckets) × Implements toy t g
        × Serves t g 1 5 b
        × (t.valid b ≡ true)
        × (t.contents b ≡ toy.read_block fresh.disk 1 5)
        × (t.disk ≡ fresh.disk)
        × Coherent toy t)
      (bread toy 1 5 fresh)
read_block_5 =
    bread-Coherent 1 5 fresh fresh-Implements (λ b v. cc) (λ c. omega arith) (omega arith) 0 0 refl
      refl

-- block 13 in buffer 0 and block 14 in buffer 1, both of device 1 and held by the running process;
-- buffer 1 has been changed
abbrev busy : Bcache
busy = record fresh {
  dev = λ _. 1;
  blockno = λ b. b + 13;
  refcnt = λ _. 1;
  valid = λ b. ltb b 2;
  contents = λ b. if b == 1 then 77 else 1013;
  mine = λ _. true;
}

busy-Implements : Implements toy busy lists
busy-Implements = record {
  rings = lists-Rings;
  keyed = record { hashed = λ k b h ne. ground arith; unique = λ k b c h g x y ne. omega arith };
}

no_buffer_left : bget toy 1 5 busy ≡ panic "bget: no buffers"
no_buffer_left = bget-panic 1 5 busy busy-Implements (λ c h. cc) (λ k c h e. absurd (omega arith))

released_0 :
    Returns
      (λ _ t.
        (t.mine 0 ≡ false)
        × (t.refcnt 0 + 1 ≡ busy.refcnt 0)
        × Implements toy t (
            if busy.refcnt 0 == 1
            then put (remove lists (bucket (busy.blockno 0)) 0) (bucket (busy.blockno 0)) 0
            else lists))
      (brelse toy 0 busy)
released_0 = brelse_lem 0 busy busy-Implements refl refl (λ e. absurd (omega arith)) (omega arith)

written_1 :
    Returns
      (λ _ t.
        Coherent toy t
        × (toy.read_block t.disk (busy.dev 1) (busy.blockno 1) ≡ busy.contents 1)
        × ((dev blockno : ℕ)
            → (busy.dev 1 ≢ dev) ⊎ (busy.blockno 1 ≢ blockno)
            → toy.read_block t.disk dev blockno ≡ toy.read_block busy.disk dev blockno)
        × (t.contents ≡ busy.contents)
        × (t.valid ≡ busy.valid)
        × (t.dev ≡ busy.dev)
        × (t.blockno ≡ busy.blockno))
      (bwrite toy 1 busy)
written_1 =
    bwrite-Coherent toy-IsDriver busy busy-Implements 1 refl refl (λ e. absurd (omega arith))
      (λ c h. (c, ground arith)) (λ c ne h. ground arith)

initialised :
    Returns
      (λ _ t.
        (g : Buckets) × Implements toy t g
        × ((b k : ℕ) → has b (g k) ≡ (ltb b 2 && (b % nbuckets == k))))
      (binit toy fresh)
initialised = binit-Implements toy fresh (record { unused = λ b. refl; no_device = λ b. refl })

-- Block 12 has bucket 12; the next buckets are 0 and 1.
duplicated :
    ((t : Bcache) → alone toy 1 12 14 begins t ≡ got toy 1 12 (bget toy 1 12 t))
    × Returns
        (λ r t.
          (r ≡ (has_got 0, has_got 1))
          × (◌≢◌ {A = ℕ} 0 1)
          × (is_block 1 12 t 0 ≡ true)
          × (t.refcnt 0 ≡ 1)
          × (t.mine 0 ≡ true)
          × (is_block 1 12 t 1 ≡ true)
          × (t.refcnt 1 ≡ 1)
          × (t.mine 1 ≡ true))
        (take_turns toy 1 12 (true ∷ false ∷ true ∷ false ∷ false ∷ []) begins begins fresh)
unfolding find_first
duplicated =
    two_bgets_duplicate 1 12 fresh fresh-Implements 0 1 (omega arith) refl refl refl refl refl refl

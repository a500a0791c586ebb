-- ===== src/Lab3/Bio.antt =====
-- Lab3/kernel/bio.c: the buffer cache, with a lock and a ring of buffers for each hash bucket.
-- A node is a number: `i` below `nbuf` is `bcache.buf[i]`, and `nbuf + k` is `bcache.head[k]`.
pub mod Buckets
pub mod Scan
pub mod Lookup
pub mod Steal
pub mod Get
pub mod Panic
pub mod Release
pub mod Init
pub mod Data
pub mod Sections
pub mod Race
mod Tests
use hitsz_os.Base.{
  ℕ, zero, suc, ◌+◌, ◌-◌, ◌%◌, ◌^◌, Bool, true, false, Option, none, some, List, [], ◌∷◌, ◌&&◌, not,
  ◌==◌, if◌then◌else◌,
}
use hitsz_os.Base.Kernel.{M, pure, fail, ◌>>=◌, ◌>>◌, gets, modify, update}

abbrev pub nbuckets : ℕ
nbuckets = 13

-- What the cache asks of the locks.
pub data Call : Type 0 where
  acquire release lock_sleep unlock_sleep : ℕ → Call

-- The disk and its driver: the contents by device and block number, a number for each block.
abbrev pub Disk : Type 0
Disk = ℕ → ℕ → ℕ

pub record Driver : Type 0 where
  pub nbuf : ℕ
  pub read_block : Disk → ℕ → ℕ → ℕ
  pub write_block : Disk → ℕ → ℕ → ℕ → Disk

-- The fields of the buffers, and `mine`, the buffers whose sleep lock the running process holds.
-- `calls` holds the calls of lock operations, the last one first.
pub record Bcache : Type 0 where
  pub next : ℕ → ℕ
  pub prev : ℕ → ℕ
  pub dev : ℕ → ℕ
  pub blockno : ℕ → ℕ
  pub refcnt : ℕ → ℕ
  pub valid : ℕ → Bool
  pub contents : ℕ → ℕ
  pub mine : ℕ → Bool
  pub disk : Disk
  pub calls : List Call

abbrev B : Type 0 → Type 0
B A = M Bcache A

call : Call → B (Unit {0})
call c = modify (λ s. record s { calls = c ∷ s.calls })

set_next : ℕ → ℕ → B (Unit {0})
set_next i v = modify (λ s. record s { next = update s.next i v })

set_prev : ℕ → ℕ → B (Unit {0})
set_prev i v = modify (λ s. record s { prev = update s.prev i v })

get_next : ℕ → B ℕ
get_next i = gets (λ s. s.next i)

get_prev : ℕ → B ℕ
get_prev i = gets (λ s. s.prev i)

set_refcnt : ℕ → ℕ → B (Unit {0})
set_refcnt b v = modify (λ s. record s { refcnt = update s.refcnt b v })

-- `refcnt` is a uint: it wraps at 2 ^ 32.
inc_refcnt : ℕ → B (Unit {0})
unfolding set_refcnt
inc_refcnt b = do set_refcnt b (((← gets (λ s. s.refcnt b)) + 1) % 2 ^ 32)

dec_refcnt : ℕ → B (Unit {0})
unfolding set_refcnt
dec_refcnt b = do set_refcnt b (((← gets (λ s. s.refcnt b)) + 2 ^ 32 - 1) % 2 ^ 32)

-- `acquiresleep(&b->lock)` returns when the running process has the lock.
acquiresleep : ℕ → B (Unit {0})
acquiresleep b =
    modify (λ s. record s { mine = update s.mine b true; calls = lock_sleep b ∷ s.calls })

releasesleep : ℕ → B (Unit {0})
releasesleep b =
    modify (λ s. record s { mine = update s.mine b false; calls = unlock_sleep b ∷ s.calls })

-- The four writes that put `b` at the front of the ring of the head `h`.
insert_head : (h b : ℕ) → B (Unit {0})
unfolding set_next set_prev get_next
insert_head h b = do
  set_next b (← get_next h)
  set_prev b h
  set_prev (← get_next h) b
  set_next h b

-- The fields that `bget` sets in a buffer that it takes over.
recycle : (dev blockno b : ℕ) → B (Unit {0})
recycle dev blockno b = modify (λ s. record s {
  dev = update s.dev b dev;
  blockno = update s.blockno b blockno;
  valid = update s.valid b false;
  refcnt = update s.refcnt b 1;
})

-- The walk along `link` from `b` to the head `h`, for a buffer that passes `test`; `n` is fuel.
unfoldable pub scan : (link : ℕ → ℕ) (test : ℕ → Bool) (h : ℕ) → (n b : ℕ) → B (Option ℕ)
scan link test h zero b = fail "out of fuel"
scan link test h (suc n) b =
    if b == h then pure none else if test b then pure (some b) else scan link test h n (link b)

-- the buffer holds block `blockno` of device `dev`
abbrev pub is_block : (dev blockno : ℕ) → Bcache → ℕ → Bool
is_block dev blockno s b = s.dev b == dev && s.blockno b == blockno

abbrev pub is_unused : Bcache → ℕ → Bool
is_unused s b = s.refcnt b == 0

abbrev pub bucket : ℕ → ℕ
bucket blockno = blockno % nbuckets

-- Goes on with `f` if there is a value, and with `m` if there is none.
abbrev pub given {ℓ} : {A : Type 0} {R : Type ℓ} → Option A → (A → R) → R → R
given (some a) f m = f a
given none f m = m

-- `b->prev->next = b->next; b->next->prev = b->prev;`
unlink_prev_first : ℕ → B (Unit {0})
unfolding set_next set_prev get_next get_prev
unlink_prev_first b = do
  set_next (← get_prev b) (← get_next b)
  set_prev (← get_next b) (← get_prev b)

-- `b->next->prev = b->prev; b->prev->next = b->next;`
unlink_next_first : ℕ → B (Unit {0})
unfolding set_next set_prev get_next get_prev
unlink_next_first b = do
  set_prev (← get_next b) (← get_prev b)
  set_next (← get_prev b) (← get_next b)

module _ (d : Driver) where
  abbrev pub head : ℕ → ℕ
  head k = d.nbuf + k

  -- The two directions of a walk round the ring of bucket `k`, which has at most `nbuf` buffers.
  unfoldable pub find_next : (Bcache → ℕ → Bool) → ℕ → B (Option ℕ)
  find_next test k s = scan s.next (test s) (head k) (d.nbuf + 1) (s.next (head k)) s

  unfoldable pub find_prev : (Bcache → ℕ → Bool) → ℕ → B (Option ℕ)
  find_prev test k s = scan s.prev (test s) (head k) (d.nbuf + 1) (s.prev (head k)) s

  -- What `bget` does under the lock of the block's own bucket.
  unfoldable pub lookup : (dev blockno : ℕ) → B (Option ℕ)
  unfolding call inc_refcnt acquiresleep recycle
  lookup dev blockno = do
    let k = bucket blockno
    call (acquire k)
    cached ← find_next (is_block dev blockno) k
    given cached (λ b. do inc_refcnt b; call (release k); acquiresleep b; pure (some b))
        (do
          unused ← find_prev is_unused k
          given unused
              (λ b. do recycle dev blockno b; call (release k); acquiresleep b; pure (some b))
              (do call (release k); pure none))

  -- One round of the last loop of `bget`, over the bucket `j`.
  unfoldable pub steal_from : (dev blockno j : ℕ) → B (Option ℕ)
  unfolding call acquiresleep recycle unlink_prev_first insert_head
  steal_from dev blockno j = do
    let k = bucket blockno
    call (acquire j)
    unused ← find_next is_unused j
    given unused
        (λ b. do
          recycle dev blockno b
          unlink_prev_first b
          call (acquire k)
          insert_head (head k) b
          call (release k)
          call (release j)
          acquiresleep b
          pure (some b))
        (do call (release j); pure none)

  -- `for (i = 1; i < NBUCKETS; i++)` with `n` rounds left; `blockno + i` is a uint.
  unfoldable pub steal : (dev blockno n i : ℕ) → B ℕ
  steal dev blockno zero i = fail "bget: no buffers"
  steal dev blockno (suc n) i = do
    r ← steal_from dev blockno ((blockno + i) % 2 ^ 32 % nbuckets)
    given r (λ b. pure b) (steal dev blockno n (i + 1))

  unfoldable pub bget : (dev blockno : ℕ) → B ℕ
  bget dev blockno = do
    r ← lookup dev blockno
    given r (λ b. pure b) (steal dev blockno (nbuckets - 1) 1)

  -- `virtio_disk_rw(b, 0)` and `virtio_disk_rw(b, 1)`
  disk_read : ℕ → B (Unit {0})
  disk_read b = modify (λ s. record s {
    contents = update s.contents b (d.read_block s.disk (s.dev b) (s.blockno b));
  })

  disk_write : ℕ → B (Unit {0})
  disk_write b =
      modify (λ s. record s { disk = d.write_block s.disk (s.dev b) (s.blockno b) (s.contents b) })

  unfoldable pub bread : (dev blockno : ℕ) → B ℕ
  unfolding disk_read
  bread dev blockno = do
    b ← bget dev blockno
    valid ← gets (λ s. s.valid b)
    if valid
        then pure b
        else do disk_read b; modify (λ s. record s { valid = update s.valid b true }); pure b

  unfoldable pub bwrite : ℕ → B (Unit {0})
  unfolding disk_write
  bwrite b = do held ← gets (λ s. s.mine b); if held then disk_write b else fail "bwrite"

  unfoldable pub brelse : ℕ → B (Unit {0})
  unfolding call dec_refcnt releasesleep unlink_next_first insert_head
  brelse b = do
    held ← gets (λ s. s.mine b)
    if not held then fail "brelse" else do
      releasesleep b
      num ← gets (λ s. bucket (s.blockno b))
      call (acquire num)
      dec_refcnt b
      left ← gets (λ s. s.refcnt b)
      (if left == 0 then unlink_next_first b >> insert_head (head num) b else pure tt)
      call (release num)

  unfoldable pub bpin : ℕ → B (Unit {0})
  unfolding call inc_refcnt
  bpin b = do
    num ← gets (λ s. bucket (s.blockno b))
    call (acquire num)
    inc_refcnt b
    call (release num)

  unfoldable pub bunpin : ℕ → B (Unit {0})
  unfolding call dec_refcnt
  bunpin b = do
    num ← gets (λ s. bucket (s.blockno b))
    call (acquire num)
    dec_refcnt b
    call (release num)

  -- The first loop of `binit`, from bucket `i` with `n` rounds left: empty rings.
  unfoldable pub init_heads : (n i : ℕ) → B (Unit {0})
  unfolding set_next set_prev
  init_heads zero i = pure tt
  init_heads (suc n) i = do
    set_prev (head i) (head i)
    set_next (head i) (head i)
    init_heads n (i + 1)

  -- The second loop, from buffer `i`: buffer `i` goes to the front of ring `i % NBUCKETS`.
  unfoldable pub init_bufs : (n i : ℕ) → B (Unit {0})
  unfolding insert_head
  init_bufs zero i = pure tt
  init_bufs (suc n) i = do insert_head (head (i % nbuckets)) i; init_bufs n (i + 1)

  unfoldable pub binit : B (Unit {0})
  binit = do init_heads nbuckets 0; init_bufs d.nbuf 0

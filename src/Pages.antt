-- ===== src/Pages.antt =====
-- Physical pages, and the free lists that run through them (struct run of the two files kalloc.c).
use hitsz_os.Base.{
  ℕ, ◌+◌, ◌*◌, ◌%◌, ◌≡◌, ◌≢◌, Bool, true, List, [], ◌∷◌, ◌&&◌, arith, ltb, leb, ◌==◌, if◌then◌else◌,
}
use hitsz_os.Base.Kernel.{update}
use hitsz_os.Base.Sets.{has}

-- Constants of param.h, memlayout.h and kernel.ld, and the rounding macro of riscv.h.
pub record Layout : Type 0 where
  pub ncpu : ℕ
  pub kern_end : ℕ
  pub phystop : ℕ
  pub pground_up : ℕ → ℕ

abbrev pub page_size : ℕ
page_size = 4096

-- `memset(pa, byte, PGSIZE)`: every word of the page becomes eight copies of the byte.
abbrev pub fill : (ℕ → ℕ) → ℕ → ℕ → ℕ → ℕ
fill word pa byte a =
    if leb pa a && ltb a (pa + page_size) then byte * 0x101010101010101 else word a

abbrev pub is_page : Layout → ℕ → Bool
is_page l pa = pa % page_size == 0 && leb l.kern_end pa && ltb pa l.phystop

-- From `p` the links in memory lead through the pages `xs` and end with 0.
abbrev pub Chain : (ℕ → ℕ) → ℕ → List ℕ → Type 0
Chain word p [] = p ≡ 0
Chain word p (x ∷ xs) = (p ≡ x) × (x ≢ 0) × Chain word (word x) xs

pub Chain-frame :
    {word word' : ℕ → ℕ} (p : ℕ) (xs : List ℕ)
    → Chain word p xs
    → ((x : ℕ) → has x xs ≡ true → word' x ≡ word x)
    → Chain word' p xs
Chain-frame p [] c same = c
Chain-frame {word} p (x ∷ xs) c same = (
  c.0,
  c.1,
  rw (same x (ground arith)) (Chain-frame (word x) xs c.2 (λ y h. same y (ground arith))),
)

module _ (l : Layout) {x pa : ℕ} (page : is_page l x ≡ true) (other : is_page l pa ≡ true)
    (ne : x ≢ pa) where
  pub fill-other : (word : ℕ → ℕ) (byte : ℕ) → fill word pa byte x ≡ word x
  fill-other word byte = ground arith

  pub link-other : (word : ℕ → ℕ) (byte v : ℕ) → update (fill word pa byte) pa v x ≡ word x
  link-other word byte v = ground arith

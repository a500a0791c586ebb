-- ===== src/Lab2/Kalloc/Refine.antt =====
-- `kfree` and `kalloc` against the list that the memory holds.
use hitsz_os.Base.{
  if◌then◌else◌, Bool-cases, inl, inr, ℕ, ◌<◌, ◌≡◌, refl, true, false, List, [], ◌∷◌, arith,
}
use hitsz_os.Base.Kernel.{ok, panic, update, update_self}
use hitsz_os.Base.Sets.{has, has-ne, All, All-has, Distinct}
use hitsz_os.Pages.{Layout, is_page, fill, Chain, Chain-frame, fill-other, link-other}
use hitsz_os.Lab2.Kalloc.{Kmem, kalloc, kfree}

-- The list in memory holds the pages `xs`, each once.
pub record Holds (l : Layout) (s : Kmem) (xs : List ℕ) : Type 0 where
  pub chain : Chain s.word s.freelist xs
  pub pages : All (λ x. is_page l x ≡ true) xs
  pub nodup : Distinct xs

abbrev freed : ℕ → Kmem → Kmem
freed pa s = record { word = update (fill s.word pa 1) pa s.freelist; freelist = pa }

abbrev popped : ℕ → Kmem → Kmem
popped x s = record { word = fill s.word x 5; freelist = s.word x }

module _ (l : Layout) (s : Kmem) (xs : List ℕ) (h : Holds l s xs) where
  freed-Holds :
      (pa : ℕ)
      → 0 < l.kern_end
      → is_page l pa ≡ true
      → has pa xs ≡ false
      → Holds l (freed pa s) (pa ∷ xs)
  freed-Holds pa pos page new = record {
    chain = (
      refl,
      ground arith,
      rw (update_self (fill s.word pa 1) pa s.freelist) (
          Chain-frame _ xs h.chain (λ x m.
            link-other l (All-has _ xs x h.pages m) page (has-ne x pa xs m new) s.word 1
              s.freelist)),
    );
    pages = (page, h.pages);
    nodup = (new, h.nodup);
  }

-- A page that is not on the list goes to the front of the list; an address that is no page of the
-- memory behind the kernel is refused by a panic.
pub kfree_lem :
    (l : Layout) (s : Kmem) (xs : List ℕ) (pa : ℕ)
    → 0 < l.kern_end
    → Holds l s xs
    → has pa xs ≡ false
    → if is_page l pa
      then ((t : Kmem) × (kfree l pa s ≡ ok (tt, t)) × Holds l t (pa ∷ xs))
      else (kfree l pa s ≡ panic "kfree")
unfolding kfree
kfree_lem l s xs pa pos h new = elim (Bool-cases (is_page l pa)) [
  | inl page ↦ rw page (freed pa s, refl, freed-Holds l s xs h pa pos page new)
  | inr other ↦ rw other refl
]

popped-Holds :
    (l : Layout) (s : Kmem) (x : ℕ) (xs : List ℕ) → Holds l s (x ∷ xs) → Holds l (popped x s) xs
popped-Holds l s x xs h = record {
  chain = Chain-frame _ xs h.chain.2 (λ y m.
      fill-other l (All-has _ xs y h.pages.1 m) h.pages.0 (has-ne y x xs m h.nodup.0) s.word 5);
  pages = h.pages.1;
  nodup = h.nodup.1;
}

-- the list without its first page; an empty list leaves the state alone
abbrev pub Popped : Layout → Kmem → List ℕ → Type 0
Popped l s [] = kalloc s ≡ ok (0, s)
Popped l s (x ∷ xs) = (t : Kmem) × (kalloc s ≡ ok (x, t)) × Holds l t xs

-- `kalloc` takes the first page off the list; it returns 0, and changes nothing, when the list is
-- empty.
pub kalloc_lem : (l : Layout) (s : Kmem) (xs : List ℕ) → Holds l s xs → Popped l s xs
unfolding kalloc
kalloc_lem l s [] h = rw h.chain refl
kalloc_lem l s (x ∷ xs) h = (popped x s, ground (arith, h.chain), popped-Holds l s x xs h)

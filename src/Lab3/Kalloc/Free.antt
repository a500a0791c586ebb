-- ===== src/Lab3/Kalloc/Free.antt =====
-- `kfree` against the lists of free pages.
use hitsz_os.Base.{
  ℕ, ◌≡◌, refl, true, false, ◌∷◌, ◌<◌, arith, ◌==◌, Bool-cases, if◌then◌else◌, inl, inr,
}
use hitsz_os.Base.Kernel.{ok, panic, update, update_self, update_elim}
use hitsz_os.Base.Sets.{has, has-ne, All, All-has, Distinct}
use hitsz_os.Lab3.Kalloc.{Kmems, push_off, pop_off, acquire, release, kfree}
use hitsz_os.Pages.{Layout, is_page, fill}
use hitsz_os.Lab3.Kalloc.Pool.{Pool, Implements, give}
use hitsz_os.Pages.{Chain}
use hitsz_os.Pages.{Chain-frame, link-other}

-- the state that `kfree` leaves
abbrev pub freed : ℕ → ℕ → Kmems → Kmems
freed id pa s = record {
  word = update (fill s.word pa 1) pa (s.freelist id);
  freelist = update s.freelist id pa;
  calls = pop_off ∷ release id ∷ acquire id ∷ push_off ∷ s.calls;
}

module _ (l : Layout) where
  pub kfree-ok :
      (id pa : ℕ) (s : Kmems) → is_page l pa ≡ true → kfree l id pa s ≡ ok (tt, freed id pa s)
  unfolding kfree
  kfree-ok id pa s h = rw h

  pub kfree-panic : (id pa : ℕ) (s : Kmems) → is_page l pa ≡ false → kfree l id pa s ≡ panic "kfree"
  unfolding kfree
  kfree-panic id pa s h = rw h

  module _ {s : Kmems} {f : Pool} (im : Implements l s f) (id pa : ℕ) (lt : id < l.ncpu)
      (positive : 0 < l.kern_end) (page : is_page l pa ≡ true)
      (new : (k : ℕ) → has pa (f k) ≡ false) where
    same : (x k : ℕ) → has x (f k) ≡ true → (freed id pa s).word x ≡ s.word x
    same x k h =
        link-other l (All-has _ (f k) x (im.pages k) h) page (has-ne x pa (f k) h (new k)) s.word 1
          (s.freelist id)

    former-Chain : (k : ℕ) → Chain (freed id pa s).word (s.freelist k) (f k)
    former-Chain k = Chain-frame _ (f k) (im.chain k) (λ x h. same x k h)

    chain : (k : ℕ) → Chain (freed id pa s).word ((freed id pa s).freelist k) (give f id pa k)
    chain k = elim (Bool-cases (id == k)) [
      | inl e ↦ rw e (
        refl,
        ground arith,
        rw (update_self (fill s.word pa 1) pa (s.freelist id)) (former-Chain id),
      )
      | inr ne ↦ rw ne (former-Chain k)
    ]

    apart : (x i j : ℕ) → has x (give f id pa i) ≡ true → has x (give f id pa j) ≡ true → i ≡ j
    apart x i j hi hj =
        ground (arith, im.apart x i j, im.apart x i id, im.apart x id j, new i, new j, new id)

    pub freed-Implements : Implements l (freed id pa s) (give f id pa)
    freed-Implements = record {
      chain = chain;
      pages = λ k.
          update_elim (λ _ xs. All (λ x. is_page l x ≡ true) xs) f id (pa ∷ f id) k
            (page, im.pages id) (λ _. im.pages k);
      nodup = λ k.
          update_elim (λ _ xs. Distinct xs) f id (pa ∷ f id) k (new id, im.nodup id)
            (λ _. im.nodup k);
      apart = apart;
      bounded = λ k h. ground (arith, im.bounded k h);
    }

    -- With the page on no list, `kfree` puts it at the front of the list of its own CPU.
    kfree-page : (t : Kmems) × (kfree l id pa s ≡ ok (tt, t)) × Implements l t (give f id pa)
    kfree-page = (freed id pa s, kfree-ok id pa s page, freed-Implements)

  -- On a CPU of the machine, `kfree` of a page that is on no list ends without a panic and puts the
  -- page at the front of the list of its own CPU. For an address that is no page of the memory
  -- behind the kernel it panics.
  pub kfree-give :
      {s : Kmems} {f : Pool} (id pa : ℕ)
      → Implements l s f
      → id < l.ncpu
      → 0 < l.kern_end
      → ((k : ℕ) → has pa (f k) ≡ false)
      → if is_page l pa
        then ((t : Kmems) × (kfree l id pa s ≡ ok (tt, t)) × Implements l t (give f id pa))
        else (kfree l id pa s ≡ panic "kfree")
  kfree-give {s} id pa im lt pos new = elim (Bool-cases (is_page l pa)) [
    | inl page ↦ rw page (kfree-page im id pa lt pos page new)
    | inr other ↦ rw other (kfree-panic id pa s other)
  ]

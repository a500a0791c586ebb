-- ===== src/Lab3/Kalloc/Locks.antt =====
-- The use that `kfree` and `kalloc` make of interrupts and locks.
use hitsz_os.Base.{
  ℕ, zero, suc, ◌≡◌, ◌+◌, ◌-◌, Bool, true, false, not, ◌&&◌, Option, none, some, List, [], ◌∷◌,
  arith, ◌==◌, ◌%◌, if◌then◌else◌, Bool-cases, inl, inr,
}
use hitsz_os.Base.Kernel.{M, pure, ◌>>=◌, Returns, returns, Returns-bind}
use hitsz_os.Lab3.Kalloc.{
  Kmems, Call, push_off, pop_off, acquire, release, kfree, take_head, steal, find_page, kalloc,
}
use hitsz_os.Pages.{Layout, is_page}

-- How often interrupts are disabled, and the lock that is held.
pub record Cpu : Type 0 where
  pub depth : ℕ
  pub held : Option ℕ

abbrev pub is_held : Option ℕ → ℕ → Bool
is_held none k = false
is_held (some j) k = j == k

abbrev pub is_free : Option ℕ → Bool
is_free none = true
is_free (some j) = false

-- What a call does to the CPU; `none` is a misuse: a lock is taken with interrupts enabled or with
-- a lock held already, a lock is released that is not held, or interrupts are enabled more often
-- than they were disabled, or while a lock is held.
abbrev pub obey : Call → Cpu → Option Cpu
obey push_off c = some (record c { depth = c.depth + 1 })
obey pop_off c =
    if not (c.depth == 0) && is_free c.held then some (record c { depth = c.depth - 1 }) else none
obey (acquire k) c =
    if not (c.depth == 0) && is_free c.held then some (record c { held = some k }) else none
obey (release k) c = if is_held c.held k then some (record c { held = none }) else none

-- the CPU after the calls, of which the last stands first
abbrev pub replay : List Call → Cpu → Option Cpu
replay [] c = some c
replay (x ∷ xs) c = elim (replay xs c) [ none ↦ none | some c' ↦ obey x c' ]

-- The calls made so far bring `start` to `now`.
abbrev pub Obeys : Cpu → Cpu → Kmems → Type 0
Obeys start now s = replay s.calls start ≡ some now

abbrev pub quiet : ℕ → Cpu
quiet d = record { depth = d; held = none }

module _ (start : Cpu) where
  take_head-Obeys :
      (k d : ℕ) (s : Kmems)
      → Obeys start (quiet (suc d)) s
      → Returns (λ _ t. Obeys start (quiet (suc d)) t) (take_head k s)
  unfolding take_head
  take_head-Obeys k d s h = elim (Bool-cases (s.freelist k == 0)) [
    | inl empty ↦ rw empty (returns (ground arith))
    | inr full ↦ rw full (returns (ground arith))
  ]

  module _ (l : Layout) where
    visit_then-Obeys :
        (k d : ℕ) (next : M Kmems ℕ) (s : Kmems)
        → Obeys start (quiet (suc d)) s
        → ((t : Kmems)
            → Obeys start (quiet (suc d)) t
            → Returns (λ _ t. Obeys start (quiet (suc d)) t) (next t))
        → Returns
            (λ _ t. Obeys start (quiet (suc d)) t)
            ((take_head k >>= λ r. if r == 0 then next else pure r) s)
    visit_then-Obeys k d next s h rest =
        Returns-bind (take_head k) _ (take_head-Obeys k d s h) (λ r t it.
          elim (Bool-cases (r == 0)) [
            | inl none_here ↦ rw none_here (rest t it)
            | inr some_here ↦ rw some_here (returns it)
          ])

    steal-Obeys :
        (id n i d : ℕ) (s : Kmems)
        → Obeys start (quiet (suc d)) s
        → Returns (λ _ t. Obeys start (quiet (suc d)) t) (steal l id n i s)
    unfolding steal
    steal-Obeys id zero i d s h = returns h
    steal-Obeys id (suc n) i d s h =
        visit_then-Obeys ((id + i) % l.ncpu) d (steal l id n (i + 1)) s h
          (λ t it. steal-Obeys id n (i + 1) d t it)

    -- With interrupts disabled `d` times and no lock held, `kalloc` makes its calls in a legal
    -- order, with one lock held at a time, and ends as it began; it never panics.
    pub kalloc-Obeys :
        (id d : ℕ) (s : Kmems)
        → Obeys start (quiet d) s
        → Returns (λ _ t. Obeys start (quiet d) t) (kalloc l id s)
    unfolding kalloc find_page
    kalloc-Obeys id d s h =
        Returns-bind (find_page l id) _
          (visit_then-Obeys id d (steal l id (l.ncpu - 1) 1) _ (ground arith)
            (λ t it. steal-Obeys id (l.ncpu - 1) 1 d t it))
          (λ r t it. elim (Bool-cases (r == 0)) [
            | inl none_left ↦ rw none_left (returns (ground arith))
            | inr some_left ↦ rw some_left (returns (ground arith))
          ])

    -- The same of `kfree` on a page.
    pub kfree-Obeys :
        (id pa d : ℕ) (s : Kmems)
        → is_page l pa ≡ true
        → Obeys start (quiet d) s
        → Returns (λ _ t. Obeys start (quiet d) t) (kfree l id pa s)
    unfolding kfree
    kfree-Obeys id pa d s page h = rw page (returns (ground arith))

-- ===== src/Lab4/Exec/Arguments.antt =====
-- `exec`: the strings and the array of pointers to them, on the page below the end of memory.
use mathlib.Core.Path.{subst}
use hitsz_os.Base.{
  ℕ, ◌+◌, ◌-◌, ◌*◌, ◌/◌, ◌^◌, ◌≡◌, ◌≤◌, ◌<◌, ◌∙◌, sym, ap, refl, Bool, true, false, Option, none,
  some, arith, ltb, if◌then◌else◌, Bool-cases, inl, inr, List, [], ◌∷◌, length,
}
use hitsz_os.Base.Sets.{All}
use hitsz_os.Base.Kernel.{M, pure, ◌>>=◌, Returns, returns, Returns-bind}
use hitsz_os.Lab4.Memory.{page_size, Allocator, Memory}
use hitsz_os.Lab4.PageTable.{Platform, u64}
use hitsz_os.Lab4.UserMemory.{copyout}
use hitsz_os.Lab4.UserMemory.UserBytes.{user_byte, Separate, Written}
use hitsz_os.Lab4.UserMemory.CopyOut.{copyout-Written}
use hitsz_os.Lab4.World.{Text, word_byte, Disk}
use hitsz_os.Lab4.Exec.{push_down, push_args, build_stack}
use hitsz_os.Lab4.Exec.Layout.{
  room_below, push_down-room_below, strings_low, strings_low-le, Laid, Laid-mono, Fails, too_many,
  no_room, unmapped, Pushed, failed, pushed, Above,
}
use hitsz_os.Lab4.Exec.Stack.{push_args-Result}

-- Where the array of pointers starts.
abbrev pub array_low : (sz : ℕ) → List Text → ℕ
array_low sz argv = room_below (strings_low sz argv) ((length argv + 1) * 8)

module _ {A : Type 0} (al : Allocator A) (pl : Platform) (root : ℕ) where
  -- What the new program finds, if `exec` gets so far. `ps` are the addresses of the strings.
  pub data Stacked (maxarg : ℕ) (s : Memory A) (sz : ℕ) (argv : List Text) (t : Memory A)
      : Option (ℕ × ℕ) → Type 0 where
    refused :
        Fails al pl root (sz - 4096) maxarg (array_low sz argv) s sz 0 argv
        → Stacked maxarg s sz argv t none
    stacked :
        (ps : List ℕ)
        → Laid al pl root (strings_low sz argv) t sz argv ps
        → length ps ≡ length argv
        → length argv ≤ maxarg
        → sz - 4096 ≤ array_low sz argv
        → ((j : ℕ)
            → j < (length argv + 1) * 8
            → user_byte al pl t root (array_low sz argv + j) ≡ some (word_byte ps j))
        → Stacked maxarg s sz argv t (some (array_low sz argv, length argv))

  -- Nothing but user bytes below `sz` changes.
  abbrev pub Outside : (s : Memory A) (sz : ℕ) (t : Memory A) → Type 0
  Outside s sz t =
      (t.tables ≡ s.tables)
      × (t.alloc ≡ s.alloc)
      × ((va : ℕ) → sz ≤ va → user_byte al pl t root va ≡ user_byte al pl s root va)

module _ {A : Type 0} (al : Allocator A) (pl : Platform) (d : Disk) (high : pl.maxva ≡ 2 ^ 38)
    (down : (x : ℕ) → pl.pground_down x ≡ x / 4096 * 4096) (root : ℕ) (few : d.maxarg ≡ 32) where
  -- behind the array
  abbrev finish : (sp argc : ℕ) (done : Bool) → M (Memory A) (Option (ℕ × ℕ))
  finish sp argc done = if done then pure (some (sp, argc)) else pure none

  -- behind the strings
  abbrev push_array : (base : ℕ) (ps : List ℕ) (low : ℕ) → M (Memory A) (Option (ℕ × ℕ))
  push_array base ps low =
      if ltb low base
      then pure none
      else copyout al pl root low (word_byte ps) ((length ps + 1) * 8) >>= finish low (length ps)

  abbrev after_strings : (base : ℕ) → Option (ℕ × List ℕ) → M (Memory A) (Option (ℕ × ℕ))
  after_strings base o = elim o [
    | none ↦ pure none
    | some (sp, ps) ↦ push_array base ps (push_down sp ((length ps + 1) * 8))
  ]

  abbrev Final : (s : Memory A) (sz : ℕ) (argv : List Text) → Option (ℕ × ℕ) → Memory A → Type 0
  Final s sz argv o t = Outside al pl root s sz t × Stacked al pl root d.maxarg s sz argv t o

  -- Where the strings do not fit, the array does not either.
  Fails-deeper :
      (s : Memory A) (sz : ℕ) (argv : List Text)
      → Fails al pl root (sz - 4096) d.maxarg (strings_low sz argv) s sz 0 argv
      → Fails al pl root (sz - 4096) d.maxarg (array_low sz argv) s sz 0 argv
  Fails-deeper s sz argv (too_many h) = too_many h
  Fails-deeper s sz argv (no_room h) = no_room (omega arith)
  Fails-deeper s sz argv (unmapped va up low lost) = unmapped va up low lost

  finish-Final :
      (s t : Memory A) (sz : ℕ) (argv : List Text) (ps : List ℕ)
      → Above al pl root (sz - 4096) s sz t
      → Laid al pl root (strings_low sz argv) t sz argv ps
      → length ps ≡ length argv
      → length argv ≤ d.maxarg
      → sz - 4096 ≤ array_low sz argv
      → (length argv + 1) * 8 ≤ strings_low sz argv
      → (done : Bool) (u : Memory A)
      → Written al pl t root (array_low sz argv) (word_byte ps) ((length argv + 1) * 8) done u
      → Returns (Final s sz argv) (finish (array_low sz argv) (length argv) done u)
  finish-Final s t sz argv ps a l e many room deep done u w = go done w
    where
      outside :
          (done' : Bool)
          → Written al pl t root (array_low sz argv) (word_byte ps) ((length argv + 1) * 8) done' u
          → Outside al pl root s sz u
      outside done' v = (
        v.same_tables ∙ a.same_tables,
        v.same_alloc ∙ a.same_alloc,
        λ va up. v.above va (omega (arith, strings_low-le sz argv)) ∙ a.kept va up,
      )

      go :
          (done' : Bool)
          → Written al pl t root (array_low sz argv) (word_byte ps) ((length argv + 1) * 8) done' u
          → Returns (Final s sz argv) (finish (array_low sz argv) (length argv) done' u)
      go true v = returns (
        outside true v,
        stacked ps
            (Laid-mono al pl root (strings_low sz argv) t u sz argv ps
              (λ va up. v.above va (omega arith)) l)
            e many room (v.copied refl),
      )
      go false v =
          let (j, lt, lost) = v.stopped refl in
          returns (
            outside false v,
            refused (
                unmapped (array_low sz argv + j) (omega arith)
                  (omega (arith, strings_low-le sz argv))
                  (rw (sym a.same_tables) (ground (arith, lost)))),
          )

  after_strings-Final :
      (s t : Memory A) (sz : ℕ) (argv : List Text)
      → 8192 ≤ sz
      → sz < 2 ^ 64
      → Separate al pl s.tables root
      → Above al pl root (sz - 4096) s sz t
      → (o : Option (ℕ × List ℕ)) → Pushed al pl root (sz - 4096) d.maxarg s sz 0 argv t o
      → Returns (Final s sz argv) (after_strings (sz - 4096) o t)
  after_strings-Final s t sz argv room small apart a none (failed f) =
      returns ((a.same_tables, a.same_alloc, a.kept), refused (Fails-deeper s sz argv f))
  after_strings-Final s t sz argv room small apart a (some (sp, ps)) (pushed l e many fits) =
      let deep : (length argv + 1) * 8 ≤ strings_low sz argv = omega arith in
      let low : push_down (strings_low sz argv) ((length ps + 1) * 8) ≡ array_low sz argv =
        ap (λ n. push_down (strings_low sz argv) ((n + 1) * 8)) e
        ∙ push_down-room_below (strings_low sz argv) ((length argv + 1) * 8) deep
            (omega (arith, strings_low-le sz argv)) in
      subst (λ p. Returns (Final s sz argv) (push_array (sz - 4096) ps p t)) (sym low)
        (elim (Bool-cases (ltb (array_low sz argv) (sz - 4096))) [
          | inl over ↦
              rw over
                (returns ((a.same_tables, a.same_alloc, a.kept), refused (no_room (ground arith))))
          | inr inside ↦
              rw (inside, e)
                (Returns-bind
                  (copyout al pl root (array_low sz argv) (word_byte ps) ((length argv + 1) * 8))
                  (finish (array_low sz argv) (length argv))
                  (copyout-Written al pl high down root (array_low sz argv) (word_byte ps)
                    ((length argv + 1) * 8) t (rw a.same_tables apart))
                  (finish-Final s t sz argv ps a l e (omega arith) (ground arith) deep))
        ])

  -- `build_stack` of `exec`, for strings that take up a page at most each, in a user memory of two pages or
  -- more, of which no two share a byte, never panics. Where it succeeds the user sees each string, with its
  -- final 0, at an address of its own on the last page below `sz`, one below the other, and below them
  -- the array of these addresses, which `sp` points to, with a final 0: `argc` is the number of strings,
  -- at most MAXARG. Where it fails there are more strings than MAXARG, or they do not fit on the page, or
  -- some byte of the page is not mapped. The page tables, the allocator and all bytes from `sz` on stay.
  pub build_stack-Stacked :
      (argv : List Text) (sz : ℕ) (s : Memory A)
      → Separate al pl s.tables root
      → 8192 ≤ sz
      → sz < 2 ^ 64
      → All (λ arg. length arg + 1 ≤ 4096) argv
      → Returns (Final s sz argv) (build_stack al pl d root sz argv s)
  unfolding build_stack
  build_stack-Stacked argv sz s apart room small short =
      let base : u64 (sz + 2 ^ 64 - page_size) ≡ sz - 4096 = omega arith in
      subst
        (λ b.
          Returns (Final s sz argv) ((push_args al pl d root b 0 sz argv >>= after_strings b) s))
        (sym base)
        (Returns-bind (push_args al pl d root (sz - 4096) 0 sz argv) (after_strings (sz - 4096))
          (push_args-Result al pl d high down root (sz - 4096) argv sz 0 s apart (omega arith) small
            (omega arith) (All-mono argv short))
          (λ o t (a, p). after_strings-Final s t sz argv room small apart a o p))
    where
      All-mono :
          (xs : List Text)
          → All (λ arg. length arg + 1 ≤ 4096) xs
          → All (λ arg. length arg + 1 ≤ sz - 4096) xs
      All-mono [] h = tt
      All-mono (x ∷ xs) (h, hs) = (omega arith, All-mono xs hs)

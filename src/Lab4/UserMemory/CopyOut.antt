-- ===== src/Lab4/UserMemory/CopyOut.antt =====
-- `copyout` on the bytes that the user sees.
use hitsz_os.Base.{
  ℕ, zero, suc, ◌+◌, ◌-◌, ◌*◌, ◌/◌, ◌%◌, ◌^◌, ◌≡◌, ◌≢◌, ◌≤◌, ◌<◌, ◌⊎◌, ◌∙◌, sym, ap, refl, Bool,
  true, false, some, ◌&&◌, arith, ◌==◌, leb, ltb, if◌then◌else◌, Bool-cases, inl, inr,
}
use mathlib.Core.Path.{subst, fun_ext}
use hitsz_os.Base.Kernel.{M, ok, pure, ◌>>◌, bind-ok, Returns, returns, Returns-mono}
use hitsz_os.Lab4.Memory.{page_size, Allocator, Memory}
use hitsz_os.Lab4.PageTable.{Platform, u64, walkaddr}
use hitsz_os.Lab4.UserMemory.{moved, memmove, copyout_loop, copyout}
use hitsz_os.Lab4.UserMemory.UserBytes.{
  memmove-user_byte, frame-page, frame, user_byte, Separate, walkaddr-frame, Written,
}

module _ {A : Type 0} (al : Allocator A) (pl : Platform) (high : pl.maxva ≡ 2 ^ 38)
    (down : (x : ℕ) → pl.pground_down x ≡ x / 4096 * 4096) (root : ℕ) where
  -- A round that writes `count` bytes inside of a page, and then the rest.
  Written-more :
      (s t : Memory A) (dstva count d' len' : ℕ) (src : ℕ → ℕ) (from : ℕ) (r : Bool)
      → Separate al pl s.tables root
      → frame al pl s.tables root dstva ≢ 0
      → dstva % 4096 + count ≤ 4096
      → (len' ≡ 0) ⊎ (d' ≡ dstva + count)
      → dstva + count ≤ d'
      → Written al pl
          (record s {
            bytes =
                moved s.bytes
                  (frame al pl s.tables root dstva + dstva % 4096)
                  (λ j. src (from + j))
                  count;
          })
          root
          d'
          (λ j. src (from + count + j))
          len'
          r
          t
      → Written al pl s root dstva (λ j. src (from + j)) (count + len') r t
  Written-more s t dstva count d' len' src from r apart mapped fits next up w = record {
    same_tables = w.same_tables;
    same_alloc = w.same_alloc;
    below = λ va low. ground (arith, w.below va, first va);
    above = λ va high_up. ground (arith, next, w.below va, w.above va, first va);
    copied = λ all j lt. elim (Bool-cases (ltb j count)) [
      | inl now ↦
          ground (arith, w.below (dstva + j), first (dstva + j), ap (λ k. src (from + k)) (there j))
      | inr later ↦ elim next [
        | inl none_left ↦ absurd (ground arith)
        | inr e ↦
            ap (user_byte al pl t root) (omega (arith, ltb_false j count later))
            ∙ w.copied all (j - count) (omega (arith, ltb_false j count later))
            ∙ ap (λ k. some (src k)) (omega (arith, ltb_false j count later))
      ]
    ];
    stopped = λ stop.
        let (j, lt, lost) = w.stopped stop in
        elim next [
          | inl none_left ↦ absurd (omega arith)
          | inr e ↦ (
            count + j,
            omega arith,
            sym (behind (dstva + (count + j)) (omega arith))
                ∙ ap (user_byte al pl written root) (omega (arith, e))
                ∙ lost,
          )
        ];
  }
    where
      first :
          (va : ℕ)
          → user_byte al pl
              (record s {
                bytes =
                    moved s.bytes
                      (frame al pl s.tables root dstva + dstva % 4096)
                      (λ j. src (from + j))
                      count;
              })
              root
              va
            ≡ (if leb dstva va && ltb va (dstva + count)
                then some (src (from + (va - dstva)))
                else user_byte al pl s root va)
      first va =
          memmove-user_byte al pl high down root s dstva count (λ j. src (from + j)) apart mapped
            fits va

      written : Memory A
      written = record s {
        bytes =
            moved s.bytes (frame al pl s.tables root dstva + dstva % 4096) (λ j. src (from + j))
              count;
      }

      behind :
          (va : ℕ)
          → dstva + count ≤ va
          → user_byte al pl written root va ≡ user_byte al pl s root va
      behind va above = ground (arith, first va)

      ltb_false : (a b : ℕ) → ltb a b ≡ false → b ≤ a
      ltb_false a b e = ground arith

      there : (j : ℕ) → dstva + j - dstva ≡ j
      there j = omega arith

  Written-nil :
      (s : Memory A) (dstva : ℕ) (src : ℕ → ℕ) (len : ℕ)
      → len ≡ 0
      → Written al pl s root dstva src len true s
  Written-nil s dstva src len e = record {
    same_tables = refl;
    same_alloc = refl;
    below = λ va low. refl;
    above = λ va high_up. refl;
    copied = λ all j lt. absurd (omega arith);
    stopped = λ stop. cc;
  }

  Written-lost :
      (s : Memory A) (dstva : ℕ) (src : ℕ → ℕ) (len : ℕ)
      → 0 < len
      → frame al pl s.tables root dstva ≡ 0
      → Written al pl s root dstva src len false s
  Written-lost s dstva src len some_left lost = record {
    same_tables = refl;
    same_alloc = refl;
    below = λ va low. refl;
    above = λ va high_up. refl;
    copied = λ all j lt. cc;
    stopped = λ stop. (0, some_left, ground (arith, lost));
  }

  -- a round of the loop, behind `walkaddr`
  abbrev round : (n dstva : ℕ) (src : ℕ → ℕ) (from len off pa0 : ℕ) → M (Memory A) Bool
  round n dstva src from len off pa0 = if pa0 == 0 then pure false else do
    let room = page_size - off
    let count = if ltb len room then len else room
    memmove (pa0 + off) (λ j. src (from + j)) count
    copyout_loop al pl n root (u64 (dstva / 4096 * 4096 + page_size)) src (from + count)
        (len - count)

  -- What the recursive call does.
  abbrev Rest : ℕ → (ℕ → ℕ) → Type 0
  Rest n src =
      (d from len : ℕ) (t : Memory A)
      → Separate al pl t.tables root
      → len ≤ n
      → Returns (λ r u. Written al pl t root d (λ j. src (from + j)) len r u)
          (copyout_loop al pl n root d src from len t)

  -- A round that writes `count` bytes, with at least one left before it.
  round_count-Written :
      (n dstva : ℕ) (src : ℕ → ℕ) (from len count : ℕ) (s : Memory A)
      → Rest n src
      → Separate al pl s.tables root
      → len ≤ suc n
      → frame al pl s.tables root dstva ≢ 0
      → 0 < count
      → count ≤ len
      → dstva % 4096 + count ≤ 4096
      → (len - count ≡ 0) ⊎ (dstva / 4096 * 4096 + 4096 ≡ dstva + count)
      → Returns
          (λ r t. Written al pl s root dstva (λ j. src (from + j)) len r t)
          ((do
            memmove (frame al pl s.tables root dstva + dstva % 4096) (λ j. src (from + j)) count
            copyout_loop al pl n root
                (u64 (dstva / 4096 * 4096 + page_size))
                src
                (from + count)
                (len - count))
            s)
  round_count-Written n dstva src from len count s rest apart enough mapped pos le fits next =
      let up : u64 (dstva / 4096 * 4096 + page_size) ≡ dstva / 4096 * 4096 + 4096 =
        ground (arith, high) in
      let total : count + (len - count) ≡ len = omega arith in
      rw up (
        Returns-mono
          (rest (dstva / 4096 * 4096 + 4096) (from + count) (len - count) _ apart (omega arith))
          (λ r t w.
            subst (λ l. Written al pl s root dstva (λ j. src (from + j)) l r t) total
              (Written-more s t dstva count (dstva / 4096 * 4096 + 4096) (len - count) src from r
                apart mapped fits next (omega arith) w)))

  round-Written :
      (n dstva : ℕ) (src : ℕ → ℕ) (from len pa0 : ℕ) (s : Memory A)
      → Rest n src
      → Separate al pl s.tables root
      → len ≤ suc n
      → 0 < len
      → frame al pl s.tables root dstva ≡ pa0
      → Returns
          (λ r t. Written al pl s root dstva (λ j. src (from + j)) len r t)
          (round n dstva src from len (dstva % 4096) pa0 s)
  round-Written n dstva src from len pa0 s rest apart enough some_left at =
      elim (Bool-cases (pa0 == 0)) [
        | inl lost ↦ rw lost (
            returns (Written-lost s dstva (λ j. src (from + j)) len some_left (ground (arith, at))))
        | inr mapped ↦ elim (Bool-cases (ltb len (4096 - dstva % 4096))) [
          | inl last ↦
              rw (mapped, last, sym at)
                (round_count-Written n dstva src from len len s rest apart enough
                  (ground (arith, at)) some_left (omega arith) (ground arith) (inl (omega arith)))
          | inr more ↦
              rw (mapped, more, sym at)
                (round_count-Written n dstva src from len (4096 - dstva % 4096) s rest apart enough
                  (ground (arith, at)) (omega arith) (ground arith) (omega arith)
                  (inr (omega arith)))
        ]
      ]

  copyout_loop-Written :
      (n dstva : ℕ) (src : ℕ → ℕ) (from len : ℕ) (s : Memory A)
      → Separate al pl s.tables root
      → len ≤ n
      → Returns
          (λ r t. Written al pl s root dstva (λ j. src (from + j)) len r t)
          (copyout_loop al pl n root dstva src from len s)
  unfolding copyout_loop
  copyout_loop-Written zero dstva src from len s apart enough =
      returns (Written-nil s dstva (λ j. src (from + j)) len (omega arith))
  copyout_loop-Written (suc n) dstva src from len s apart enough = elim (Bool-cases (ltb 0 len)) [
    | inr empty ↦ rw empty (returns (Written-nil s dstva (λ j. src (from + j)) len (ground arith)))
    | inl more ↦
        let off : dstva - dstva / 4096 * 4096 ≡ dstva % 4096 = omega arith in
        rw (more, down dstva, off)
          (rw
            (bind-ok (walkaddr al pl root (dstva / 4096 * 4096))
              (round n dstva src from len (dstva % 4096)) found)
            (round-Written n dstva src from len (frame al pl s.tables root dstva) s
              (λ d. copyout_loop-Written n d src) apart enough (ground arith) refl))
  ]
    where
      found : walkaddr al pl root (dstva / 4096 * 4096) s ≡ ok (frame al pl s.tables root dstva, s)
      found =
          walkaddr-frame al pl root (dstva / 4096 * 4096) s
          ∙ ap (λ f. ok (f, s))
              (frame-page al pl high down root s.tables (dstva / 4096 * 4096) dstva (omega arith))

  -- `copyout` to user pages that do not share a byte never panics. It gives true where the whole range is
  -- mapped for the user, who then sees the bytes of `src` there, and false where some byte of the range
  -- is not mapped. Outside of the range the user sees what was there before. The page tables and the
  -- allocator stay.
  pub copyout-Written :
      (dstva : ℕ) (src : ℕ → ℕ) (len : ℕ) (s : Memory A)
      → Separate al pl s.tables root
      → Returns (Written al pl s root dstva src len) (copyout al pl root dstva src len s)
  unfolding copyout
  copyout-Written dstva src len s apart =
      Returns-mono (copyout_loop-Written len dstva src 0 len s apart (omega arith)) (λ r t w.
        subst (λ f. Written al pl s root dstva f len r t) (fun_ext (λ j. ap src (omega arith))) w)

-- ===== src/Lab4/Exec/Stack.antt =====
-- `exec`: the stack that it builds for the new program.
use mathlib.Core.Path.{subst}
use hitsz_os.Base.{
  ℕ, suc, ◌+◌, ◌*◌, ◌/◌, ◌^◌, ◌≡◌, ◌≤◌, ◌<◌, ◌∙◌, sym, ap, refl, Bool, true, false, Option, none,
  some, not, arith, leb, ltb, if◌then◌else◌, Bool-cases, inl, inr, List, [], ◌∷◌, length,
}
use hitsz_os.Base.Sets.{All}
use hitsz_os.Base.Kernel.{M, pure, ◌>>=◌, Returns, returns, Returns-bind}
use hitsz_os.Lab4.Memory.{Allocator, Memory}
use hitsz_os.Lab4.PageTable.{Platform}
use hitsz_os.Lab4.UserMemory.{copyout}
use hitsz_os.Lab4.UserMemory.UserBytes.{Separate, Written}
use hitsz_os.Lab4.UserMemory.CopyOut.{copyout-Written}
use hitsz_os.Lab4.World.{Text, text_byte, Disk}
use hitsz_os.Lab4.Exec.{push_args}
use hitsz_os.Lab4.Exec.Layout.{
  room_below, push_down-room_below, strings_low, strings_low-le, Laid, Fails, too_many, no_room,
  unmapped, Pushed, failed, pushed, Above,
}

module _ {A : Type 0} (al : Allocator A) (pl : Platform) (d : Disk) (high : pl.maxva ≡ 2 ^ 38)
    (down : (x : ℕ) → pl.pground_down x ≡ x / 4096 * 4096) (root base : ℕ) where
  abbrev pub Result :
      (s : Memory A) (sp argc : ℕ) → List Text → Option (ℕ × List ℕ) → Memory A → Type 0
  Result s sp argc argv o t =
      Above al pl root base s sp t × Pushed al pl root base d.maxarg s sp argc argv t o

  nothing : (s : Memory A) (sp : ℕ) → Above al pl root base s sp s
  nothing s sp = record { same_tables = refl; same_alloc = refl; kept = λ va above. refl }

  Above-more :
      (s u t : Memory A) (sp : ℕ) (arg : Text)
      → Written al pl s root
          (room_below sp (length arg + 1))
          (text_byte arg)
          (length arg + 1)
          true
          u
      → length arg + 1 ≤ sp
      → Above al pl root base u (room_below sp (length arg + 1)) t
      → Above al pl root base s sp t
  Above-more s u t sp arg w fits a = record {
    same_tables = a.same_tables ∙ w.same_tables;
    same_alloc = a.same_alloc ∙ w.same_alloc;
    kept = λ va above. a.kept va (omega arith) ∙ w.above va (omega arith);
  }

  Fails-more :
      (s u : Memory A) (sp argc : ℕ) (arg : Text) (argv : List Text)
      → Written al pl s root
          (room_below sp (length arg + 1))
          (text_byte arg)
          (length arg + 1)
          true
          u
      → Fails al pl root base d.maxarg
          (strings_low (room_below sp (length arg + 1)) argv)
          u
          (room_below sp (length arg + 1))
          (suc argc)
          argv
      → Fails al pl root base d.maxarg (strings_low sp (arg ∷ argv)) s sp argc (arg ∷ argv)
  unfolding strings_low
  Fails-more s u sp argc arg argv w (too_many h) = too_many (omega arith)
  Fails-more s u sp argc arg argv w (no_room h) = no_room h
  Fails-more s u sp argc arg argv w (unmapped va up low lost) =
      unmapped va up (omega arith) (rw (sym w.same_tables) lost)

  -- behind a string that is copied
  abbrev add_pointer : (low : ℕ) → Option (ℕ × List ℕ) → M (Memory A) (Option (ℕ × List ℕ))
  add_pointer low o = elim o [
    | none ↦ pure none
    | some (sp', ustack) ↦ pure (some (sp', low ∷ ustack))
  ]

  add_pointer-Result :
      (s u : Memory A) (sp argc : ℕ) (arg : Text) (argv : List Text)
      → Written al pl s root
          (room_below sp (length arg + 1))
          (text_byte arg)
          (length arg + 1)
          true
          u
      → length arg + 1 ≤ sp
      → (o : Option (ℕ × List ℕ)) (t : Memory A)
      → Result u (room_below sp (length arg + 1)) (suc argc) argv o t
      → Returns (Result s sp argc (arg ∷ argv)) (add_pointer (room_below sp (length arg + 1)) o t)
  unfolding strings_low Laid
  add_pointer-Result s u sp argc arg argv w fits none t (a, failed f) =
      returns (Above-more s u t sp arg w fits a, failed (Fails-more s u sp argc arg argv w f))
  add_pointer-Result s u sp argc arg argv w fits (some (sp', ps)) t (a, pushed l e few room) =
      returns (
        Above-more s u t sp arg w fits a,
        pushed
            (
              strings_low-le (room_below sp (length arg + 1)) argv,
              omega arith,
              (λ j lt.
                  a.kept (room_below sp (length arg + 1) + j) (omega arith) ∙ w.copied refl j lt),
              l,
            )
            (ap suc e) (omega arith) room,
      )

  -- behind a call of `copyout`
  abbrev behind_copy :
      (argc low : ℕ) (argv : List Text) (done : Bool) → M (Memory A) (Option (ℕ × List ℕ))
  behind_copy argc low argv done =
      if not done
      then pure none
      else push_args al pl d root base (suc argc) low argv >>= add_pointer low

  -- a round, where the string goes to `low`
  abbrev push_round :
      (argc : ℕ) (arg : Text) (argv : List Text) (low : ℕ) → M (Memory A) (Option (ℕ × List ℕ))
  push_round argc arg argv low =
      if leb d.maxarg argc
      then pure none
      else if ltb low base
      then pure none
      else copyout al pl root low (text_byte arg) (length arg + 1) >>= behind_copy argc low argv

  behind_copy-Result :
      (s u : Memory A) (sp argc : ℕ) (arg : Text) (argv : List Text)
      → ((v : Memory A)
          → Separate al pl v.tables root
          → Returns
              (Result v (room_below sp (length arg + 1)) (suc argc) argv)
              (push_args al pl d root base (suc argc) (room_below sp (length arg + 1)) argv v))
      → Separate al pl s.tables root
      → length arg + 1 ≤ sp
      → base ≤ room_below sp (length arg + 1)
      → (done : Bool)
      → Written al pl s root
          (room_below sp (length arg + 1))
          (text_byte arg)
          (length arg + 1)
          done
          u
      → Returns
          (Result s sp argc (arg ∷ argv))
          (behind_copy argc (room_below sp (length arg + 1)) argv done u)
  behind_copy-Result s u sp argc arg argv rest apart fits room false w =
      let (j, lt, lost) = w.stopped refl in
      returns (
        record {
          same_tables = w.same_tables;
          same_alloc = w.same_alloc;
          kept = λ va above. w.above va (omega arith);
        },
        failed (
            unmapped (room_below sp (length arg + 1) + j) (omega arith) (omega arith)
              (ground (arith, lost))),
      )
  behind_copy-Result s u sp argc arg argv rest apart fits room true w =
      Returns-bind (push_args al pl d root base (suc argc) (room_below sp (length arg + 1)) argv)
        (add_pointer (room_below sp (length arg + 1))) (rest u (rw w.same_tables apart))
        (λ o t r. add_pointer-Result s u sp argc arg argv w fits o t r)

  pub push_args-Result :
      (argv : List Text) (sp argc : ℕ) (s : Memory A)
      → Separate al pl s.tables root
      → base ≤ sp
      → sp < 2 ^ 64
      → argc ≤ d.maxarg
      → All (λ arg. length arg + 1 ≤ base) argv
      → Returns (Result s sp argc argv) (push_args al pl d root base argc sp argv s)
  unfolding push_args strings_low Laid
  push_args-Result [] sp argc s apart up small few short =
      returns (nothing s sp, pushed tt refl (omega arith) up)
  push_args-Result (arg ∷ argv) sp argc s apart up small few (fits, short) =
      subst (λ low. Returns (Result s sp argc (arg ∷ argv)) (push_round argc arg argv low s))
        (sym (push_down-room_below sp (length arg + 1) (omega arith) small))
        (elim (Bool-cases (leb d.maxarg argc)) [
          | inl full ↦ rw full (returns (nothing s sp, failed (too_many (ground arith))))
          | inr free ↦ elim (Bool-cases (ltb (room_below sp (length arg + 1)) base)) [
            | inl deep ↦
                rw (free, deep)
                  (returns (
                    nothing s sp,
                    failed (
                        no_room
                          (ground (arith, strings_low-le (room_below sp (length arg + 1)) argv))),
                  ))
            | inr room ↦
                rw (free, room)
                  (Returns-bind
                    (copyout al pl root (room_below sp (length arg + 1)) (text_byte arg)
                      (length arg + 1))
                    (behind_copy argc (room_below sp (length arg + 1)) argv)
                    (copyout-Written al pl high down root (room_below sp (length arg + 1))
                      (text_byte arg) (length arg + 1) s apart)
                    (λ done u w.
                      behind_copy-Result s u sp argc arg argv
                        (λ v apart'.
                          push_args-Result argv (room_below sp (length arg + 1)) (suc argc) v apart'
                            (ground arith) (omega arith) (ground arith) short)
                        apart (omega arith) (ground arith) done w))
          ]
        ])

-- ===== src/Lab4/Exec/Layout.antt =====
-- Where the strings of `exec` lie, and why they may not fit.
use hitsz_os.Base.{
  ℕ, ◌+◌, ◌-◌, ◌*◌, ◌/◌, ◌^◌, ◌≡◌, ◌≤◌, ◌<◌, ◌∙◌, Option, none, some, arith, List, [], ◌∷◌, length,
}
use hitsz_os.Lab4.Memory.{Allocator, Memory}
use hitsz_os.Lab4.PageTable.{Platform}
use hitsz_os.Lab4.UserMemory.UserBytes.{frame, user_byte}
use hitsz_os.Lab4.World.{Text, text_byte}
use hitsz_os.Lab4.Exec.{push_down}

-- `n` bytes below `sp`, and down to a multiple of 16.
abbrev pub room_below : (sp n : ℕ) → ℕ
room_below sp n = (sp - n) / 16 * 16

pub push_down-room_below : (sp n : ℕ) → n ≤ sp → sp < 2 ^ 64 → push_down sp n ≡ room_below sp n
push_down-room_below sp n le small = omega arith

-- Where the strings end, if they are put one below the other.
unfoldable pub strings_low : (sp : ℕ) → List Text → ℕ
strings_low sp [] = sp
strings_low sp (arg ∷ argv) = strings_low (room_below sp (length arg + 1)) argv

pub strings_low-le : (sp : ℕ) (argv : List Text) → strings_low sp argv ≤ sp
unfolding strings_low
strings_low-le sp [] = omega arith
strings_low-le sp (arg ∷ argv) = omega (arith, strings_low-le (room_below sp (length arg + 1)) argv)

module _ {A : Type 0} (al : Allocator A) (pl : Platform) (root : ℕ) where
  -- The strings lie one below the other, from `sp` down to `low`, with the addresses `ps`.
  unfoldable pub Laid : (low : ℕ) (t : Memory A) (sp : ℕ) → List Text → (ps : List ℕ) → Type 0
  Laid low t sp [] [] = Unit
  Laid low t sp (arg ∷ argv) (p ∷ ps) =
      (low ≤ p)
      × (p + length arg + 1 ≤ sp)
      × ((j : ℕ) → j < length arg + 1 → user_byte al pl t root (p + j) ≡ some (text_byte arg j))
      × Laid low t p argv ps
  Laid low t sp _ _ = ⊥

  pub Laid-mono :
      (low : ℕ) (t u : Memory A) (sp : ℕ) (argv : List Text) (ps : List ℕ)
      → ((va : ℕ) → low ≤ va → user_byte al pl u root va ≡ user_byte al pl t root va)
      → Laid low t sp argv ps
      → Laid low u sp argv ps
  unfolding Laid
  Laid-mono low t u sp [] [] same laid = tt
  Laid-mono low t u sp [] (p ∷ ps) same laid = elim laid [ ]
  Laid-mono low t u sp (arg ∷ argv) [] same laid = elim laid [ ]
  Laid-mono low t u sp (arg ∷ argv) (p ∷ ps) same (above, fits, holds, rest) = (
    above,
    fits,
    λ j lt. same (p + j) (omega arith) ∙ holds j lt,
    Laid-mono low t u p argv ps same rest,
  )

module _ {A : Type 0} (al : Allocator A) (pl : Platform) (root base : ℕ) where
  -- Why the arguments do not get onto the stack below `sp`, if their number starts at `argc`.
  pub data Fails (maxarg low : ℕ) (s : Memory A) (sp argc : ℕ) (argv : List Text) : Type 0 where
    too_many : maxarg < argc + length argv → Fails maxarg low s sp argc argv
    no_room : low < base → Fails maxarg low s sp argc argv
    unmapped :
        (va : ℕ)
        → base ≤ va
        → va < sp
        → frame al pl s.tables root va ≡ 0
        → Fails maxarg low s sp argc argv

  -- What `push_args` gives.
  pub data Pushed (maxarg : ℕ) (s : Memory A) (sp argc : ℕ) (argv : List Text) (t : Memory A)
      : Option (ℕ × List ℕ) → Type 0 where
    failed : Fails maxarg (strings_low sp argv) s sp argc argv → Pushed maxarg s sp argc argv t none
    pushed :
        {ps : List ℕ}
        → Laid al pl root (strings_low sp argv) t sp argv ps
        → length ps ≡ length argv
        → argc + length argv ≤ maxarg
        → base ≤ strings_low sp argv
        → Pushed maxarg s sp argc argv t (some (strings_low sp argv, ps))

  -- Nothing changes from `sp` on, nor do the page tables and the allocator.
  pub record Above (s : Memory A) (sp : ℕ) (t : Memory A) : Type 0 where
    pub same_tables : t.tables ≡ s.tables
    pub same_alloc : t.alloc ≡ s.alloc
    pub kept : (va : ℕ) → sp ≤ va → user_byte al pl t root va ≡ user_byte al pl s root va

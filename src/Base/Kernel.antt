-- ===== src/Base/Kernel.antt =====
-- Kernel code as state passing: a run ends with a result and a state, or in `panic`.
use Prim.Native.Nat.{ℕ}
use Prim.Native.String.{String}
use mathlib.Core.Path.{◌≡◌, subst, refl}
use mathlib.Core.Logic.{inl, inr}
use mathlib.Core.Bool.{Bool, true, false}
use native.Mathlib.Omega.{arith}
use hitsz_os.Base.Tests.{◌==◌, ==_iff, Bool-cases, if◌then◌else◌}

-- `panic` never returns: nothing runs behind it.
pub data Outcome {ℓ} (A : Type ℓ) : Type ℓ where
  ok : A → Outcome A
  panic : String → Outcome A

abbrev pub M : Type 0 → Type 0 → Type 0
M S A = S → Outcome (A × S)

abbrev pub pure : {S A : Type 0} → A → M S A
pure a s = ok (a, s)

abbrev pub fail : {S A : Type 0} → String → M S A
fail msg s = panic msg

infixl 5 ◌>>=◌ ◌>>◌
abbrev pub ◌>>=◌ : {S A B : Type 0} → M S A → (A → M S B) → M S B
◌>>=◌ m f s = elim (m s) [ ok (a, s') ↦ f a s' | panic msg ↦ panic msg ]

abbrev pub ◌>>◌ : {S B : Type 0} → M S (Unit {0}) → M S B → M S B
m >> k = m >>= λ _. k

abbrev pub gets : {S A : Type 0} → (S → A) → M S A
gets f s = ok (f s, s)

abbrev pub modify : {S : Type 0} → (S → S) → M S (Unit {0})
modify f s = ok (tt, f s)

-- `panic` unless the test passes
abbrev pub ensure : {S : Type 0} → Bool → String → M S (Unit {0})
ensure b msg = if b then pure tt else fail msg

-- An array or a table: `update f i a` is `f` after `f[i] = a`.
abbrev pub update {ℓ} : {A : Type ℓ} → (ℕ → A) → ℕ → A → ℕ → A
update f i a j = if i == j then a else f j

pub update_self {ℓ} : {A : Type ℓ} (f : ℕ → A) (i : ℕ) (a : A) → update f i a i ≡ a
update_self f i a = ground arith

-- A property of an entry after a write: of the new value, or of the old entry elsewhere.
pub update_elim {ℓ κ} :
    {A : Type ℓ} (P : ℕ → A → Type κ) (f : ℕ → A) (i : ℕ) (a : A) (j : ℕ)
    → P i a
    → ((i == j) ≡ false → P j (f j))
    → P j (update f i a j)
update_elim P f i a j new old = elim (Bool-cases (i == j)) [
  | inl e ↦ rw e (subst (λ k. P k a) ((==_iff i j).0 e) new)
  | inr ne ↦ rw ne (old ne)
]

module _ {S A B : Type 0} (m : M S A) (f : A → M S B) {s : S} where
  pub bind-ok : {a : A} {s' : S} → m s ≡ ok (a, s') → (m >>= f) s ≡ f a s'
  bind-ok e = rw (e, ◌>>=◌)

  pub bind-panic : {msg : String} → m s ≡ panic msg → (m >>= f) s ≡ panic msg
  bind-panic e = rw (e, ◌>>=◌)

-- Total correctness of a run: it ends with no panic, and the result and the state satisfy `P`.
pub data Returns {S A : Type 0} (P : A → S → Type 0) : Outcome (A × S) → Type 0 where
  returns : {a : A} {s : S} → P a s → Returns P (ok (a, s))

module _ {S A B : Type 0} {P : A → S → Type 0} {Q : B → S → Type 0} where
  Returns-next :
      (f : A → M S B) {o : Outcome (A × S)}
      → Returns P o
      → ((a : A) (t : S) → P a t → Returns Q (f a t))
      → Returns Q ((elim o [ ok (a, s') ↦ f a s' | panic msg ↦ panic msg ]))
  Returns-next f (returns p) next = next _ _ p

  pub Returns-bind :
      (m : M S A) (f : A → M S B) {s : S}
      → Returns P (m s)
      → ((a : A) (t : S) → P a t → Returns Q (f a t))
      → Returns Q ((m >>= f) s)
  Returns-bind m f h next = Returns-next f h next

module _ {S A : Type 0} {P Q : A → S → Type 0} where
  pub Returns-mono :
      {o : Outcome (A × S)} → Returns P o → ((a : A) (t : S) → P a t → Q a t) → Returns Q o
  Returns-mono (returns p) weaken = returns (weaken _ _ p)

module _ {S A : Type 0} {P : A → S → Type 0} where
  pub Returns-run :
      {o : Outcome (A × S)} → Returns P o → (a : A) × (t : S) × (o ≡ ok (a, t)) × P a t
  Returns-run (returns p) = (_, _, refl, p)

-- As `Returns`, but the run may also end in `panic` with the message `msg`.
pub data Ends {S A : Type 0} (P : A → S → Type 0) (msg : String) : Outcome (A × S) → Type 0 where
  returned : {a : A} {s : S} → P a s → Ends P msg (ok (a, s))
  panicked : Ends P msg (panic msg)

module _ {S A B : Type 0} {P : A → S → Type 0} {Q : B → S → Type 0} {msg : String} where
  Ends-next :
      (f : A → M S B) {o : Outcome (A × S)}
      → Ends P msg o
      → ((a : A) (t : S) → P a t → Ends Q msg (f a t))
      → Ends Q msg ((elim o [ ok (a, s') ↦ f a s' | panic m ↦ panic m ]))
  Ends-next f (returned p) next = next _ _ p
  Ends-next f panicked next = panicked

  pub Ends-bind :
      (m : M S A) (f : A → M S B) {s : S}
      → Ends P msg (m s)
      → ((a : A) (t : S) → P a t → Ends Q msg (f a t))
      → Ends Q msg ((m >>= f) s)
  Ends-bind m f h next = Ends-next f h next

module _ {S A : Type 0} {P : A → S → Type 0} {msg : String} where
  pub Ends-Returns : {o : Outcome (A × S)} → Returns P o → Ends P msg o
  Ends-Returns (returns p) = returned p

module _ {S A : Type 0} {P Q : A → S → Type 0} {msg : String} where
  pub Ends-mono :
      {o : Outcome (A × S)} → Ends P msg o → ((a : A) (t : S) → P a t → Q a t) → Ends Q msg o
  Ends-mono (returned p) weaken = returned (weaken _ _ p)
  Ends-mono panicked weaken = panicked

-- As `Ends`, but a panic has the reason `R`.
pub data EndsUnless {S A : Type 0} (P : A → S → Type 0) (R : Type 0) (msg : String)
    : Outcome (A × S) → Type 0 where
  came_back : {a : A} {s : S} → P a s → EndsUnless P R msg (ok (a, s))
  gave_up : R → EndsUnless P R msg (panic msg)

module _ {S A B : Type 0} {P : A → S → Type 0} {Q : B → S → Type 0} {R : Type 0}
    {msg : String} where
  EndsUnless-next :
      (f : A → M S B) {o : Outcome (A × S)}
      → EndsUnless P R msg o
      → ((a : A) (t : S) → P a t → EndsUnless Q R msg (f a t))
      → EndsUnless Q R msg ((elim o [ ok (a, s') ↦ f a s' | panic m ↦ panic m ]))
  EndsUnless-next f (came_back p) next = next _ _ p
  EndsUnless-next f (gave_up r) next = gave_up r

  pub EndsUnless-bind :
      (m : M S A) (f : A → M S B) {s : S}
      → EndsUnless P R msg (m s)
      → ((a : A) (t : S) → P a t → EndsUnless Q R msg (f a t))
      → EndsUnless Q R msg ((m >>= f) s)
  EndsUnless-bind m f h next = EndsUnless-next f h next

module _ {S A : Type 0} {P : A → S → Type 0} {R : Type 0} {msg : String} where
  pub EndsUnless-Returns : {o : Outcome (A × S)} → Returns P o → EndsUnless P R msg o
  EndsUnless-Returns (returns p) = came_back p

  pub forget_reason : {o : Outcome (A × S)} → EndsUnless P R msg o → Ends P msg o
  forget_reason (came_back p) = returned p
  forget_reason (gave_up r) = panicked

module _ {S A : Type 0} {P Q : A → S → Type 0} {R T : Type 0} {msg : String} where
  pub EndsUnless-mono :
      {o : Outcome (A × S)}
      → EndsUnless P R msg o
      → ((a : A) (t : S) → P a t → Q a t)
      → (R → T)
      → EndsUnless Q T msg o
  EndsUnless-mono (came_back p) weaken reason = came_back (weaken _ _ p)
  EndsUnless-mono (gave_up r) weaken reason = gave_up (reason r)

-- A run returns, and the result and the state satisfy `P`, or it ends in a panic that `Q` allows.
pub data Blames {S A : Type 0} (P : A → S → Type 0) (Q : String → Type 0)
    : Outcome (A × S) → Type 0 where
  finished : {a : A} {s : S} → P a s → Blames P Q (ok (a, s))
  blamed : {msg : String} → Q msg → Blames P Q (panic msg)

module _ {S A B : Type 0} {P : A → S → Type 0} {R : B → S → Type 0} {Q : String → Type 0} where
  Blames-next :
      (f : A → M S B) {o : Outcome (A × S)}
      → Blames P Q o
      → ((a : A) (t : S) → P a t → Blames R Q (f a t))
      → Blames R Q ((elim o [ ok (a, s') ↦ f a s' | panic m ↦ panic m ]))
  Blames-next f (finished p) next = next _ _ p
  Blames-next f (blamed q) next = blamed q

  pub Blames-bind :
      (m : M S A) (f : A → M S B) {s : S}
      → Blames P Q (m s)
      → ((a : A) (t : S) → P a t → Blames R Q (f a t))
      → Blames R Q ((m >>= f) s)
  Blames-bind m f h next = Blames-next f h next

-- A property of the result and the state of a run that does not end in `panic`.
pub data After {S A : Type 0} (P : A → S → Type 0) : Outcome (A × S) → Type 0 where
  after : {a : A} {s : S} → P a s → After P (ok (a, s))
  stopped : {msg : String} → After P (panic msg)

module _ {S A B : Type 0} {P : A → S → Type 0} {Q : B → S → Type 0} where
  After-next :
      (f : A → M S B) {o : Outcome (A × S)}
      → After P o
      → ((a : A) (t : S) → P a t → After Q (f a t))
      → After Q ((elim o [ ok (a, s') ↦ f a s' | panic m ↦ panic m ]))
  After-next f (after p) next = next _ _ p
  After-next f stopped next = stopped

  pub After-bind :
      (m : M S A) (f : A → M S B) {s : S}
      → After P (m s)
      → ((a : A) (t : S) → P a t → After Q (f a t))
      → After Q ((m >>= f) s)
  After-bind m f h next = After-next f h next

-- An operation keeps an invariant, unless it ends in `panic`.
abbrev pub Keeps : {S A : Type 0} → (S → Type 0) → M S A → Type 0
Keeps I m = (s : _) → I s → After (λ _ t. I t) (m s)

module _ {S : Type 0} (I : S → Type 0) where
  pub Keeps-bind :
      {A B : Type 0} (m : M S A) (f : A → M S B)
      → Keeps I m
      → ((a : A) → Keeps I (f a))
      → Keeps I (m >>= f)
  Keeps-bind m f first next s i = After-bind m f (first s i) (λ a t j. next a t j)

  pub Keeps-if :
      {A : Type 0} (b : Bool) (m k : M S A) → Keeps I m → Keeps I k → Keeps I (if b then m else k)
  Keeps-if true m k then_keeps else_keeps = then_keeps
  Keeps-if false m k then_keeps else_keeps = else_keeps

  pub Keeps-pure : {A : Type 0} (a : A) → Keeps I (pure a)
  Keeps-pure a s i = after i

  pub Keeps-fail : {A : Type 0} (msg : String) → Keeps I (fail {S = S} {A = A} msg)
  Keeps-fail msg s i = stopped

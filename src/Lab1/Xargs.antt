-- ===== src/Lab1/Xargs.antt =====
-- Lab1/xargs.c: how the input is cut into lines, one command for each.
use hitsz_os.Base.Sets.{has}
use hitsz_os.Base.{
  false, ℕ, zero, suc, ◌≡◌, ◌<◌, ◌==◌, if◌then◌else◌, List, [], ◌∷◌, ◌++◌, arith, refl, Bool-cases,
  inl, inr, ap, length, ==_iff, length,
}

-- '\n'
abbrev pub newline : ℕ
newline = 10

-- What the inner loop has read: the characters in `buffer`, and the input that is left. It ends at a
-- newline, which it takes, at the end of the input, or after MAXARG characters.
unfoldable pub read_line : (maxarg : ℕ) (input : List ℕ) → List ℕ × List ℕ
read_line zero input = ([], input)
read_line (suc n) [] = ([], [])
read_line (suc n) (c ∷ input) =
    let (line, rest) = read_line n input in if c == newline then ([], input) else (c ∷ line, rest)

-- The last arguments of the commands that the outer loop runs. Each round but the last reads at least one
-- character: as many rounds as there are characters, and one, are enough.
unfoldable pub run_lines : (fuel maxarg : ℕ) (input : List ℕ) → List (List ℕ)
run_lines zero maxarg input = []
run_lines (suc fuel) maxarg input =
    let rest = run_lines fuel maxarg (read_line maxarg input).1 in
    elim (read_line maxarg input).0 [ [] ↦ [] | c ∷ line ↦ (c ∷ line) ∷ rest ]

-- How a line ends: its characters fill the buffer, a newline follows, or the input ends. In each case no
-- character of the line is a newline.
pub data Ended (n : ℕ) (input line rest : List ℕ) : Type 0 where
  full : has newline line ≡ false → length line ≡ n → input ≡ line ++ rest → Ended n input line rest
  at_newline :
      has newline line ≡ false
      → length line < n
      → input ≡ line ++ (newline ∷ rest)
      → Ended n input line rest
  at_end :
      has newline line ≡ false
      → length line < n
      → input ≡ line
      → rest ≡ []
      → Ended n input line rest

Ended-more :
    (n c : ℕ) (input line rest : List ℕ)
    → (c == newline) ≡ false
    → Ended n input line rest
    → Ended (suc n) (c ∷ input) (c ∷ line) rest
Ended-more n c input line rest ne (full none_in len e) =
    full (ground (arith, none_in)) (ap suc len) (ap (λ l. c ∷ l) e)
Ended-more n c input line rest ne (at_newline none_in len e) =
    at_newline (ground (arith, none_in)) (omega arith) (ap (λ l. c ∷ l) e)
Ended-more n c input line rest ne (at_end none_in len e none_left) =
    at_end (ground (arith, none_in)) (omega arith) (ap (λ l. c ∷ l) e) none_left

-- The inner loop of xargs reads exactly up to the first newline, the end of the input, or MAXARG
-- characters, whatever comes first: the line holds no newline, and the line and what is left make up the
-- input, with one newline between them if the loop stopped at one. It has read fewer than MAXARG
-- characters, or exactly MAXARG, and then the 0 that is put behind them stands outside of the buffer.
pub read_line-Ended :
    (n : ℕ) (input : List ℕ) → Ended n input (read_line n input).0 (read_line n input).1
unfolding read_line
read_line-Ended zero input = full refl refl refl
read_line-Ended (suc n) [] = at_end refl (omega arith) refl refl
read_line-Ended (suc n) (c ∷ input) = elim (Bool-cases (c == newline)) [
  | inl e ↦ rw e (at_newline refl (omega arith) (ap (λ d. d ∷ input) ((==_iff c newline).0 e)))
  | inr ne ↦ rw ne (
      Ended-more n c input (read_line n input).0 (read_line n input).1 ne (read_line-Ended n input))
]

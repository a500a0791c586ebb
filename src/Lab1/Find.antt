-- ===== src/Lab1/Find.antt =====
-- Lab1/find.c: the walk over a tree of directories. The file system is a parameter.
pub mod Entries
pub mod Names
pub mod Spec
pub mod Walk
use hitsz_os.Base.{
  ℕ, zero, suc, ◌+◌, ◌-◌, ◌^◌, Bool, true, false, Option, none, some, not, ◌&&◌, ◌||◌, ltb, ◌==◌,
  if◌then◌else◌, List, [], ◌∷◌, ◌++◌, length, take, drop, get_or,
}
use hitsz_os.Base.Kernel.{M, Outcome, ok, panic, pure, fail, ◌>>=◌, ◌>>◌, modify}

-- A text is the list of its bytes, without the 0 that ends it.
abbrev pub Text : Type 0
Text = List ℕ

-- '/' and '.'
abbrev pub slash : ℕ
slash = 47

abbrev pub period : ℕ
period = 46

-- DIRSIZ, and `sizeof buf`
abbrev pub dirsiz : ℕ
dirsiz = 14

abbrev pub buf_size : ℕ
buf_size = 512

-- `strcmp(s, t) == 0`
unfoldable pub same_text : Text → Text → Bool
same_text [] [] = true
same_text (c ∷ s) (d ∷ t) = (c == d) && same_text s t
same_text _ _ = false

-- The text in an array of bytes: it ends before the first 0, or with the array.
unfoldable pub c_text : List ℕ → Text
c_text [] = []
c_text (c ∷ s) = let rest = c_text s in if c == 0 then [] else c ∷ rest

-- The loop of `fmtname`: `suc i` stands for the pointer `path + i`, and 0 for the one before `path`.
unfoldable pub back_to_slash : (path : Text) (i : ℕ) → ℕ
back_to_slash path zero = zero
back_to_slash path (suc i) =
    let rest = back_to_slash path i in if get_or path i 0 == slash then suc i else rest

unfoldable pub fmtname : Text → Text
fmtname path = drop (back_to_slash path (suc (length path))) path

-- `st.type`
pub data FileType : Type 0 where
  file : FileType
  dir : FileType
  device : FileType

-- `struct dirent`: `name` holds DIRSIZ bytes.
pub record Dirent : Type 0 where
  pub inum : ℕ
  pub name : List ℕ

-- What the system calls give, on files that do not change during the run. `opens` also reads how many
-- files are open: a process has only so many descriptors. `entries` are those that `read` gives.
pub record Files : Type 0 where
  pub opens : (open_files : ℕ) → Text → Bool
  pub type_of : Text → Option FileType
  pub stat : Text → Bool
  pub entries : Text → List Dirent

-- A line of output.
pub data Line : Type 0 where
  found : Text → Line
  cannot_open : Text → Line
  cannot_fstat : Text → Line
  cannot_stat : Text → Line
  path_too_long : Line
  not_enough_argument : Line

-- The number of open files, and the lines that are printed, the last one first.
pub record Run : Type 0 where
  pub open_files : ℕ
  pub out : List Line

abbrev pub print : Line → M Run (Unit {0})
print l = modify (λ s. record s { out = l ∷ s.out })

abbrev pub close : M Run (Unit {0})
close = modify (λ s. record s { open_files = s.open_files - 1 })

-- "." and ".."
abbrev pub is_dots : Text → Bool
is_dots name = same_text name (period ∷ []) || same_text name (period ∷ period ∷ [])

-- `buf`, after `de.name` is copied behind the slash
abbrev pub child : Text → Dirent → Text
child path de = path ++ (slash ∷ c_text (take dirsiz de.name))

-- The result tells whether `open` gives a descriptor.
abbrev pub open_file : Files → Text → M Run Bool
open_file fs path s =
    if fs.opens s.open_files path
    then ok (true, record s { open_files = suc s.open_files })
    else ok (false, s)

module _ (fs : Files) (filename : Text) where
  -- A round of the loop over the entries. `visit` is the recursive call.
  unfoldable pub visit_entry :
      (visit : Text → M Run (Unit {0})) (path : Text) → Dirent → M Run (Unit {0})
  visit_entry visit path de =
      if (de.inum == 0) || is_dots (c_text de.name)
      then pure tt
      else if not (fs.stat (child path de))
      then print (cannot_stat (child path de))
      else visit (child path de)

  unfoldable pub read_entries :
      (visit : Text → M Run (Unit {0})) (path : Text) → List Dirent → M Run (Unit {0})
  read_entries visit path [] = pure tt
  read_entries visit path (de ∷ des) = do visit_entry visit path de; read_entries visit path des

  -- The `switch` over `st.type`.
  unfoldable pub look_at :
      (visit : Text → M Run (Unit {0})) (path : Text) → FileType → M Run (Unit {0})
  look_at visit path file =
      if same_text (fmtname path) filename then print (found path) else pure tt
  look_at visit path dir =
      if ltb buf_size (length path + 1 + dirsiz + 1)
      then print path_too_long
      else read_entries visit path (fs.entries path)
  look_at visit path device = pure tt

  -- Each call of itself has a longer path, and from a path of more than 496 bytes on there is none.
  unfoldable pub find : (fuel : ℕ) (path : Text) → M Run (Unit {0})
  find zero path = fail "out of fuel"
  find (suc n) path = do
    opened ← open_file fs path
    if not opened then print (cannot_open path) else elim (fs.type_of path) [
      | none ↦ do print (cannot_fstat path); close
      | some type ↦ do look_at (find n) path type; close
    ]

-- The result is the exit status. 498 calls inside each other are enough.
unfoldable pub main : Files → (argv : List Text) → M Run ℕ
main fs (prog ∷ path ∷ filename ∷ rest) = do find fs filename 498 path; pure 0
main fs _ = do print not_enough_argument; pure (2 ^ 32 - 1)

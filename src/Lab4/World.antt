-- ===== src/Lab4/World.antt =====
-- Lab4/kernel/exec.c: what `exec` works on: the kernel, and the file system, which is a parameter.
use hitsz_os.Base.{ℕ, ◌*◌, ◌/◌, ◌%◌, ◌^◌, Option, List, ◌∷◌, get_or}
use hitsz_os.Base.Kernel.{M, ok, panic, gets, modify}
use hitsz_os.Lab4.Memory.{Memory}
use hitsz_os.Lab4.KernelMemory.{Line}
use hitsz_os.Lab4.Proc.{Proc, edit}
use hitsz_os.Lab4.ProcMemory.{Kernel}

-- A text is the list of its bytes, without the 0 that ends it. `text_byte` reads that 0, too.
abbrev pub Text : Type 0
Text = List ℕ

abbrev pub text_byte : Text → ℕ → ℕ
text_byte s j = get_or s j 0

-- A byte of an array of 64-bit words.
abbrev pub word_byte : List ℕ → ℕ → ℕ
word_byte ws j = get_or ws (j / 8) 0 / 2 ^ (8 * (j % 8)) % 256

-- `struct elfhdr` and `struct proghdr`, as far as `exec` reads them.
pub record Elf : Type 0 where
  pub magic : ℕ
  pub entry : ℕ
  pub phoff : ℕ
  pub phnum : ℕ

pub record Proghdr : Type 0 where
  pub type : ℕ
  pub vaddr : ℕ
  pub memsz : ℕ
  pub filesz : ℕ
  pub off : ℕ

-- What the file system gives: the inode of a path, how many bytes `readi` reads, the bytes, and the
-- headers that they stand for. And the constants of param.h and elf.h.
pub record Disk : Type 0 where
  pub namei : Text → Option ℕ
  pub count : (ip off n : ℕ) → ℕ
  pub byte : (ip off : ℕ) → ℕ
  pub elf : (ip : ℕ) → Elf
  pub proghdr : (ip off : ℕ) → Proghdr
  pub maxarg : ℕ
  pub elf_magic : ℕ
  pub elf_prog_load : ℕ

-- `sizeof(elf)` and `sizeof(ph)`
abbrev pub elf_size : ℕ
elf_size = 64

abbrev pub ph_size : ℕ
ph_size = 56

-- The calls of the file system, and the output of `vmprint`.
pub data Call : Type 0 where
  begin_op : Call
  end_op : Call
  ilock : (ip : ℕ) → Call
  iunlockput : (ip : ℕ) → Call
  printed : List Line → Call

-- The kernel, and the calls up to now, the last one first.
pub record World (A : Type 0) : Type 0 where
  pub kernel : Kernel A
  pub calls : List Call

module _ {A : Type 0} where
  abbrev pub call : Call → M (World A) (Unit {0})
  call c = modify (λ s. record s { calls = c ∷ s.calls })

  abbrev pub in_memory : {R : Type 0} → M (Memory A) R → M (World A) R
  in_memory m s = elim (m s.kernel.mem) [
    | ok (r, mem) ↦ ok (r, record s { kernel = record s.kernel { mem = mem } })
    | panic msg ↦ panic msg
  ]

  abbrev pub process : (p : ℕ) → M (World A) Proc
  process p = gets (λ s. s.kernel.table.proc p)

  abbrev pub change_process : (p : ℕ) → (Proc → Proc) → M (World A) (Unit {0})
  change_process p f s = elim (edit p f s.kernel.table) [
    | ok (r, table) ↦ ok (r, record s { kernel = record s.kernel { table = table } })
    | panic msg ↦ panic msg
  ]

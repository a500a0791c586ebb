-- ===== src/Lab4/UserMemory/UserBytes.antt =====
-- The bytes that the user sees through a page table, and a write inside of one page.
use hitsz_os.Base.{
  ℕ, ◌+◌, ◌-◌, ◌*◌, ◌/◌, ◌%◌, ◌^◌, ◌≡◌, ◌≢◌, ◌≤◌, ◌<◌, ap, Bool, true, false, Option, none, some,
  ◌&&◌, arith, ◌==◌, ==_iff, leb, ltb, if◌then◌else◌, Bool-cases, inl, inr,
}
use hitsz_os.Base.Kernel.{ok}
use hitsz_os.Lab4.Memory.{Pte, Allocator, Memory}
use hitsz_os.Lab4.PageTable.{Platform, walkaddr}
use hitsz_os.Lab4.PageTable.Tree.{lookup}
use hitsz_os.Lab4.PageTable.Access.{user_address, lookup-page, walkaddr_lem}
use hitsz_os.Lab4.UserMemory.{moved}

module _ {A : Type 0} (al : Allocator A) (pl : Platform) where
  -- The physical page that the user sees at `va`, or 0.
  abbrev pub frame : (tables : ℕ → ℕ → Pte) (root va : ℕ) → ℕ
  frame t root va = if leb pl.maxva va then 0 else user_address al pl (lookup t 2 root va)

  -- The byte that the user sees there, if there is one.
  abbrev pub user_byte : (s : Memory A) (root va : ℕ) → Option ℕ
  user_byte s root va =
      if frame s.tables root va == 0
      then none
      else some (s.bytes (frame s.tables root va + va % 4096))

  -- No two pages of the user share a byte.
  abbrev pub Separate : (tables : ℕ → ℕ → Pte) (root : ℕ) → Type 0
  Separate t root =
      (va va' i j : ℕ)
      → frame t root va ≢ 0
      → frame t root va' ≢ 0
      → va / 4096 ≢ va' / 4096
      → i < 4096
      → j < 4096
      → frame t root va + i ≢ frame t root va' + j

  pub walkaddr-frame :
      (root va : ℕ) (s : Memory A) → walkaddr al pl root va s ≡ ok (frame s.tables root va, s)
  walkaddr-frame root va s = ground (arith, walkaddr_lem al pl root va s)

  -- `len` bytes from `va` on are written, if all are mapped. Otherwise some byte is not.
  pub record Written (s : Memory A) (root dstva : ℕ) (src : ℕ → ℕ) (len : ℕ) (done : Bool)
      (t : Memory A) : Type 0 where
    pub same_tables : t.tables ≡ s.tables
    pub same_alloc : t.alloc ≡ s.alloc
    pub below : (va : ℕ) → va < dstva → user_byte t root va ≡ user_byte s root va
    pub above : (va : ℕ) → dstva + len ≤ va → user_byte t root va ≡ user_byte s root va
    pub copied : done ≡ true → (j : ℕ) → j < len → user_byte t root (dstva + j) ≡ some (src j)
    pub stopped : done ≡ false → (j : ℕ) × (j < len) × (user_byte s root (dstva + j) ≡ none)

  module _ (high : pl.maxva ≡ 2 ^ 38) (down : (x : ℕ) → pl.pground_down x ≡ x / 4096 * 4096)
      (root : ℕ) where
    -- One page has one frame.
    pub frame-page :
        (t : ℕ → ℕ → Pte) (va va' : ℕ) → va / 4096 ≡ va' / 4096 → frame t root va ≡ frame t root va'
    frame-page t va va' e = rw (high, lookup-page t root va va' e) (ground arith)

    -- A write inside of one page.
    pub memmove-user_byte :
        (s : Memory A) (dstva count : ℕ) (src : ℕ → ℕ)
        → Separate s.tables root
        → frame s.tables root dstva ≢ 0
        → dstva % 4096 + count ≤ 4096
        → (va : ℕ)
        → user_byte
            (record s {
              bytes = moved s.bytes (frame s.tables root dstva + dstva % 4096) src count;
            })
            root
            va
          ≡ (if leb dstva va && ltb va (dstva + count)
              then some (src (va - dstva))
              else user_byte s root va)
    memmove-user_byte s dstva count src apart mapped fits va =
        let f = frame s.tables root dstva in
        elim (Bool-cases (va / 4096 == dstva / 4096)) [
          | inl same ↦
              rw (frame-page s.tables va dstva ((==_iff (va / 4096) (dstva / 4096)).0 same))
                (ground (arith, mapped, in_page f same, ap src (distance f same)))
          | inr other ↦ ground (arith, out_of_range other, outside other)
        ]
      where
        in_page :
            (f : ℕ)
            → (va / 4096 == dstva / 4096) ≡ true
            → (leb (f + dstva % 4096) (f + va % 4096)
                && ltb (f + va % 4096) (f + dstva % 4096 + count))
              ≡ (leb dstva va && ltb va (dstva + count))
        in_page f same = ground arith

        distance :
            (f : ℕ)
            → (va / 4096 == dstva / 4096) ≡ true
            → f + va % 4096 - (f + dstva % 4096) ≡ va - dstva
        distance f same = ground arith

        out_of_range :
            (va / 4096 == dstva / 4096) ≡ false → (leb dstva va && ltb va (dstva + count)) ≡ false
        out_of_range other = ground arith

        outside :
            (va / 4096 == dstva / 4096) ≡ false
            → frame s.tables root va ≢ 0
            → (leb (frame s.tables root dstva + dstva % 4096) (frame s.tables root va + va % 4096)
                && ltb
                    (frame s.tables root va + va % 4096)
                    (frame s.tables root dstva + dstva % 4096 + count))
              ≡ false
        outside other seen =
            let f = frame s.tables root dstva in
            let a = frame s.tables root va + va % 4096 in
            elim (Bool-cases (leb (f + dstva % 4096) a && ltb a (f + dstva % 4096 + count))) [
              | inr miss ↦ miss
              | inl hit ↦ absurd (
                  apart va dstva (va % 4096) (a - f) seen mapped (ground arith) (omega arith)
                    (ground arith) (ground arith))
            ]

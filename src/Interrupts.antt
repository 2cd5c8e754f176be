-- ===== src/Interrupts.antt =====
-- The catch-all for interrupts that nothing is registered for, kernel/src/interrupts.rs: `init` puts
-- it on every free vector of the interrupt descriptor table.
pub mod Fill
pub mod Dispatch
mod Tests
use goatos.Base.{
  ℕ, zero, suc, ◌+◌, ◌-◌, ◌*◌, ◌/◌, ◌%◌, ◌^◌, Bool, true, false, not, ◌||◌, Option, none, some,
  List, [], ◌∷◌, ◌==◌, if◌then◌else◌, get_or,
}
use goatos.Idt.{Idt, set_gate, has_handler, entry_count}

-- The vector that each entry point of a row of the table of stubs is for.
unfoldable pub stub_row : ℕ → List ℕ
stub_row base =
    base
    ∷ (base + 1)
    ∷ (base + 2)
    ∷ (base + 3)
    ∷ (base + 4)
    ∷ (base + 5)
    ∷ (base + 6)
    ∷ (base + 7)
    ∷ (base + 8)
    ∷ (base + 9)
    ∷ (base + 10)
    ∷ (base + 11)
    ∷ (base + 12)
    ∷ (base + 13)
    ∷ (base + 14)
    ∷ (base + 15)
    ∷ []

unfoldable pub stub_rows : List (List ℕ)
stub_rows =
    stub_row 0x00
    ∷ stub_row 0x10
    ∷ stub_row 0x20
    ∷ stub_row 0x30
    ∷ stub_row 0x40
    ∷ stub_row 0x50
    ∷ stub_row 0x60
    ∷ stub_row 0x70
    ∷ stub_row 0x80
    ∷ stub_row 0x90
    ∷ stub_row 0xa0
    ∷ stub_row 0xb0
    ∷ stub_row 0xc0
    ∷ stub_row 0xd0
    ∷ stub_row 0xe0
    ∷ stub_row 0xf0
    ∷ []

-- `STUB_ROWS[vector >> 4][vector & 0x0f]`
unfoldable pub stub : ℕ → ℕ
unfolding stub_rows stub_row
stub vector = get_or (get_or stub_rows (vector / 16) []) (vector % 16) 0

-- The vector of the entry point that takes an error code, for the vectors that push one.
unfoldable pub error_code_stub : ℕ → Option ℕ
error_code_stub vector =
    if vector == 8
      || vector == 10
      || vector == 11
      || vector == 12
      || vector == 13
      || vector == 14
      || vector == 17
      || vector == 21
      || vector == 29
      || vector == 30
    then some vector
    else none

-- Where the linker puts the entry points: by their vector, with and without an error code.
pub record Entries : Type 0 where
  pub unhandled : ℕ → ℕ
  pub unhandled_with_error_code : ℕ → ℕ

-- The address that `init` registers for a vector.
unfoldable pub entry_point : Entries → ℕ → ℕ
entry_point code vector = elim (error_code_stub vector) [
  | some v ↦ code.unhandled_with_error_code v
  | none ↦ code.unhandled (stub vector)
]

-- The loop of `init` from `vector` on, with `left` vectors to go.
unfoldable pub fill : ℕ → Entries → Idt → ℕ → ℕ → Idt × ℕ
fill zero code idt vector installed = (idt, installed)
fill (suc left) code idt vector installed =
    let skipped = fill left code idt (vector + 1) installed in
    let taken =
      fill left code (set_gate idt vector (entry_point code vector)) (vector + 1) (installed + 1) in
    if has_handler idt vector then skipped else taken

-- The table, and how many vectors were free. The statics that `init` also resets are the subject of
-- `Dispatch.reset`.
unfoldable pub init : Entries → Idt → Idt × ℕ
init code idt = fill entry_count code idt 0 0

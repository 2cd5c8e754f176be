-- ===== src/Idt.antt =====
-- The interrupt descriptor table, kernel/src/idt.rs: its gates, registering and removing them. The
-- static table is an argument and a result; the code addresses of handlers are numbers.
use goatos.Base.{ℕ, zero, suc, ◌+◌, ◌/◌, ◌%◌, ◌^◌, bit_and, Bool, not, ◌==◌, if◌then◌else◌}

abbrev pub entry_count : ℕ
entry_count = 256

abbrev pub present : ℕ
present = 0x80

abbrev pub gate_32bit_interrupt : ℕ
gate_32bit_interrupt = 0xe

abbrev pub gate_task : ℕ
gate_task = 0x5

-- `gdt::KERNEL_CODE_SELECTOR`
abbrev pub kernel_code_selector : ℕ
kernel_code_selector = 8

-- What the processor pushes before it enters a handler.
pub record StackFrame : Type 0 where
  pub eip : ℕ
  pub cs : ℕ
  pub eflags : ℕ

pub record Gate : Type 0 where
  pub offset_low : ℕ
  pub selector : ℕ
  pub reserved : ℕ
  pub type_attr : ℕ
  pub offset_high : ℕ

abbrev pub missing : Gate
missing = record { offset_low = 0; selector = 0; reserved = 0; type_attr = 0; offset_high = 0 }

-- `PRESENT | GATE_32BIT_INTERRUPT` and `PRESENT | GATE_TASK` have no bit in common.
unfoldable pub interrupt : ℕ → ℕ → Gate
interrupt offset selector = record {
  offset_low = offset % 2 ^ 16;
  selector = selector;
  reserved = 0;
  type_attr = present + gate_32bit_interrupt;
  offset_high = offset / 2 ^ 16 % 2 ^ 16;
}

unfoldable pub task : ℕ → Gate
task tss_selector = record {
  offset_low = 0;
  selector = tss_selector;
  reserved = 0;
  type_attr = present + gate_task;
  offset_high = 0;
}

unfoldable pub is_present : Gate → Bool
is_present gate = not (bit_and gate.type_attr present == 0)

-- The 256 entries, by vector.
abbrev pub Idt : Type 0
Idt = ℕ → Gate

unfoldable pub put : Idt → ℕ → Gate → Idt
put idt vector gate v = if v == vector then gate else idt v

unfoldable pub init : Idt
init vector = missing

unfoldable pub set_gate : Idt → ℕ → ℕ → Idt
unfolding put
set_gate idt vector offset = put idt vector (interrupt offset kernel_code_selector)

unfoldable pub set_task_gate : Idt → ℕ → ℕ → Idt
unfolding put
set_task_gate idt vector tss_selector = put idt vector (task tss_selector)

unfoldable pub has_handler : Idt → ℕ → Bool
has_handler idt vector = is_present (idt vector)

unfoldable pub clear_handler : Idt → ℕ → Idt
unfolding put
clear_handler idt vector = put idt vector missing

-- The entries of the first `count` vectors that are present, which `loaded` counts over the table.
unfoldable pub count_present : Idt → ℕ → ℕ
count_present idt zero = 0
count_present idt (suc count) = (if is_present (idt count) then 1 else 0) + count_present idt count

unfoldable pub handlers : Idt → ℕ
unfolding count_present
handlers idt = count_present idt entry_count

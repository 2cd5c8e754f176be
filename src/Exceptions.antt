-- ===== src/Exceptions.antt =====
-- The handlers of kernel/src/exceptions.rs: which vectors they are registered for, and what each
-- reports before the kernel halts.
use goatos.Base.{ℕ, Option, none, some}
use goatos.Idt.{Idt, StackFrame, set_gate, set_task_gate}
use goatos.Gdt.{double_fault_tss_selector}
use goatos.Tss.{Segments, InterruptedState, interrupted_state}

abbrev pub divide_error_vector : ℕ
divide_error_vector = 0

abbrev pub invalid_opcode_vector : ℕ
invalid_opcode_vector = 6

abbrev pub double_fault_vector : ℕ
double_fault_vector = 8

abbrev pub general_protection_fault_vector : ℕ
general_protection_fault_vector = 13

-- The addresses of the three handler functions.
pub record Handlers : Type 0 where
  pub divide_error : ℕ
  pub invalid_opcode : ℕ
  pub general_protection_fault : ℕ

unfoldable pub init : Handlers → Idt → Idt
init code idt =
    set_task_gate
      (set_gate
        (set_gate (set_gate idt divide_error_vector code.divide_error) invalid_opcode_vector
          code.invalid_opcode)
        general_protection_fault_vector code.general_protection_fault)
      double_fault_vector double_fault_tss_selector

pub data Name : Type 0 where
  divide_error invalid_opcode general_protection_fault : Name

-- What a handler prints; then it halts.
pub record Crash : Type 0 where
  pub vector : ℕ
  pub name : Name
  pub error_code : Option ℕ
  pub frame : StackFrame

abbrev pub report : ℕ → Name → Option ℕ → StackFrame → Crash
report vector name error_code frame = record {
  vector = vector;
  name = name;
  error_code = error_code;
  frame = frame;
}

unfoldable pub on_divide_error : StackFrame → Crash
on_divide_error frame = report divide_error_vector divide_error none frame

unfoldable pub on_invalid_opcode : StackFrame → Crash
on_invalid_opcode frame = report invalid_opcode_vector invalid_opcode none frame

unfoldable pub on_general_protection_fault : StackFrame → ℕ → Crash
on_general_protection_fault frame error_code =
    report general_protection_fault_vector general_protection_fault (some error_code) frame

-- What the double fault's task prints, from its stack pointer, the saved state and its stack.
pub record DoubleFault : Type 0 where
  pub interrupted : InterruptedState
  pub handler_esp : ℕ
  pub stack_bottom : ℕ
  pub stack_top : ℕ

unfoldable pub double_fault_entry : Segments → ℕ → ℕ → ℕ → DoubleFault
unfolding interrupted_state
double_fault_entry s handler_esp stack_bottom stack_top = record {
  interrupted = interrupted_state s;
  handler_esp = handler_esp;
  stack_bottom = stack_bottom;
  stack_top = stack_top;
}

-- ===== src/Tss.antt =====
-- The two task state segments of kernel/src/tss.rs, which give the double fault a stack of its own.
-- The reserved fields, always zero, are left out; the addresses of the segments and of the private
-- stack, and the entry point, are the linker's.
use goatos.Base.{ℕ, ◌-◌}
use goatos.Idt.{kernel_code_selector}
use goatos.Gdt.{Location, kernel_data_selector}

pub record TaskStateSegment : Type 0 where
  pub previous_task_link : ℕ
  pub esp0 : ℕ
  pub ss0 : ℕ
  pub esp1 : ℕ
  pub ss1 : ℕ
  pub esp2 : ℕ
  pub ss2 : ℕ
  pub cr3 : ℕ
  pub eip : ℕ
  pub eflags : ℕ
  pub eax : ℕ
  pub ecx : ℕ
  pub edx : ℕ
  pub ebx : ℕ
  pub esp : ℕ
  pub ebp : ℕ
  pub esi : ℕ
  pub edi : ℕ
  pub es : ℕ
  pub cs : ℕ
  pub ss : ℕ
  pub ds : ℕ
  pub fs : ℕ
  pub gs : ℕ
  pub ldt_selector : ℕ
  pub debug_trap : ℕ
  pub iomap_base : ℕ

-- `size_of::<TaskStateSegment>()`
abbrev pub segment_size : ℕ
segment_size = 104

abbrev pub empty : TaskStateSegment
empty = record {
  previous_task_link = 0;
  esp0 = 0;
  ss0 = 0;
  esp1 = 0;
  ss1 = 0;
  esp2 = 0;
  ss2 = 0;
  cr3 = 0;
  eip = 0;
  eflags = 0;
  eax = 0;
  ecx = 0;
  edx = 0;
  ebx = 0;
  esp = 0;
  ebp = 0;
  esi = 0;
  edi = 0;
  es = 0;
  cs = 0;
  ss = 0;
  ds = 0;
  fs = 0;
  gs = 0;
  ldt_selector = 0;
  debug_trap = 0;
  iomap_base = segment_size;
}

-- `MAIN_TSS` and `DOUBLE_FAULT_TSS`.
pub record Segments : Type 0 where
  pub main : TaskStateSegment
  pub double_fault : TaskStateSegment

unfoldable pub init : ℕ → ℕ → Segments
init double_fault_entry stack_top = record {
  main = empty;
  double_fault = record empty {
    eip = double_fault_entry;
    esp = stack_top;
    ebp = stack_top;
    esp0 = stack_top;
    ss0 = kernel_data_selector;
    cs = kernel_code_selector;
    ss = kernel_data_selector;
    ds = kernel_data_selector;
    es = kernel_data_selector;
    fs = kernel_data_selector;
    gs = kernel_data_selector;
    eflags = 2;
  };
}

-- `main_task` and `double_fault_task`, for a segment at this address.
unfoldable pub location_of : ℕ → Location
location_of address = record { base = address; limit = segment_size - 1 }

pub record InterruptedState : Type 0 where
  pub eip : ℕ
  pub cs : ℕ
  pub eflags : ℕ
  pub esp : ℕ
  pub ss : ℕ
  pub ebp : ℕ
  pub previous_task_link : ℕ

unfoldable pub interrupted_state : Segments → InterruptedState
interrupted_state s = record {
  eip = s.main.eip;
  cs = s.main.cs;
  eflags = s.main.eflags;
  esp = s.main.esp;
  ss = s.main.ss;
  ebp = s.main.ebp;
  previous_task_link = s.double_fault.previous_task_link;
}

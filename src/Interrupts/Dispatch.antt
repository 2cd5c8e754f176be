-- ===== src/Interrupts/Dispatch.antt =====
-- The handler behind the catch-all, `dispatch` of kernel/src/interrupts.rs: it counts, acknowledges
-- the interrupt, and reports each vector once.
pub mod Once
use goatos.Base.{
  ℕ, zero, suc, ◌+◌, ◌-◌, ◌*◌, ◌/◌, ◌%◌, ◌^◌, bit_and, bit_or, Bool, true, false, not, ◌&&◌, ◌||◌,
  Option, none, some, List, [], ◌∷◌, ◌==◌, ltb, leb, if◌then◌else◌,
}
use goatos.Idt.{StackFrame}
use goatos.Pic.{Device, Log, Acknowledged, serviced, spurious, irq_of_vector, end_of_interrupt}

abbrev pub exception_vector_count : ℕ
exception_vector_count = 32

-- The two statics: the count, and a bit for each vector in eight words.
pub record Reports : Type 0 where
  pub unhandled_total : ℕ
  pub reported : ℕ → ℕ

-- What `init` writes to them.
abbrev pub reset : Reports
reset = record { unhandled_total = 0; reported = λ word. 0 }

-- The names of the exceptions; every other vector below 32 is reserved.
pub data Exception : Type 0 where
  divide_error debug non_maskable_interrupt breakpoint overflow bound_range_exceeded
        invalid_opcode :
      Exception
  device_not_available double_fault coprocessor_segment_overrun invalid_tss segment_not_present :
      Exception
  stack_segment_fault general_protection_fault page_fault x87_floating_point_error alignment_check :
      Exception
  machine_check simd_floating_point_exception virtualization_exception
        control_protection_exception :
      Exception
  hypervisor_injection_exception vmm_communication_exception security_exception reserved_exception :
      Exception

unfoldable pub exception_name : ℕ → Exception
exception_name vector =
    if vector == 0
    then divide_error
    else if vector == 1
    then debug
    else if vector == 2
    then non_maskable_interrupt
    else if vector == 3
    then breakpoint
    else if vector == 4
    then overflow
    else if vector == 5
    then bound_range_exceeded
    else if vector == 6
    then invalid_opcode
    else if vector == 7
    then device_not_available
    else if vector == 8
    then double_fault
    else if vector == 9
    then coprocessor_segment_overrun
    else if vector == 10
    then invalid_tss
    else if vector == 11
    then segment_not_present
    else if vector == 12
    then stack_segment_fault
    else if vector == 13
    then general_protection_fault
    else if vector == 14
    then page_fault
    else if vector == 16
    then x87_floating_point_error
    else if vector == 17
    then alignment_check
    else if vector == 18
    then machine_check
    else if vector == 19
    then simd_floating_point_exception
    else if vector == 20
    then virtualization_exception
    else if vector == 21
    then control_protection_exception
    else if vector == 28
    then hypervisor_injection_exception
    else if vector == 29
    then vmm_communication_exception
    else if vector == 30
    then security_exception
    else reserved_exception

-- The first line of a report, and the last: the kernel halts, or how it resumes.
pub data Cause : Type 0 where
  spurious_irq : ℕ → Cause
  no_driver : ℕ → Cause
  exception : Exception → Cause
  no_handler : Cause

pub data Verdict : Type 0 where
  halted resumed_spurious resumed_acknowledged resumed_software : Verdict

pub record Diagnosis : Type 0 where
  pub vector : ℕ
  pub cause : Cause
  pub frame : StackFrame
  pub error_code : Option ℕ
  pub verdict : Verdict

-- The bit of a vector in its word.
unfoldable pub mark_reported : Reports → ℕ → Bool × Reports
mark_reported r vector =
    let bit = 2 ^ (vector % 32) in
    let word = vector / 32 in
    (
      not (bit_and (r.reported word) bit == 0),
      record r { reported = λ w. if w == word then bit_or (r.reported w) bit else r.reported w },
    )

-- The interrupt line of the vector, with what `end_of_interrupt` finds it to be.
unfoldable pub acknowledge : Device → Log → ℕ → Option (ℕ × Acknowledged) × Log
acknowledge device log vector = elim (irq_of_vector vector) [
  | none ↦ (none, log)
  | some irq ↦ let (found, log') = end_of_interrupt device log irq in (some (irq, found), log')
]

unfoldable pub cause_of : ℕ → Option (ℕ × Acknowledged) → Cause
unfolding exception_name
cause_of vector (some (irq, spurious)) = spurious_irq irq
cause_of vector (some (irq, serviced)) = no_driver irq
cause_of vector none =
    if ltb vector exception_vector_count then exception (exception_name vector) else no_handler

unfoldable pub verdict_of : ℕ → Option (ℕ × Acknowledged) → Verdict
verdict_of vector (some (irq, spurious)) =
    if ltb vector exception_vector_count then halted else resumed_spurious
verdict_of vector (some (irq, serviced)) =
    if ltb vector exception_vector_count then halted else resumed_acknowledged
verdict_of vector none = if ltb vector exception_vector_count then halted else resumed_software

pub record Outcome : Type 0 where
  pub reports : Reports
  pub log : Log
  pub printed : Option Diagnosis
  pub halts : Bool

unfoldable pub dispatch : Device → Reports → Log → ℕ → Option ℕ → StackFrame → Outcome
unfolding mark_reported acknowledge cause_of verdict_of
dispatch device r log vector error_code frame =
    let counted = record r { unhandled_total = (r.unhandled_total + 1) % 2 ^ 32 } in
    let (already_reported, r') = mark_reported counted vector in
    let (irq, log') = acknowledge device log vector in
    record {
      reports = r';
      log = log';
      printed =
          if already_reported
          then none
          else some (record {
            vector = vector;
            cause = cause_of vector irq;
            frame = frame;
            error_code = error_code;
            verdict = verdict_of vector irq;
          });
      halts = ltb vector exception_vector_count;
    }

-- An interrupt that reaches the catch-all.
pub record Event : Type 0 where
  pub vector : ℕ
  pub error_code : Option ℕ
  pub frame : StackFrame

-- One after the other, until one halts the kernel.
unfoldable pub dispatch_all : Device → Reports → Log → List Event → Reports × Log
dispatch_all device r log [] = (r, log)
dispatch_all device r log (e ∷ es) =
    let o = dispatch device r log e.vector e.error_code e.frame in
    let later = dispatch_all device o.reports o.log es in
    if o.halts then (o.reports, o.log) else later

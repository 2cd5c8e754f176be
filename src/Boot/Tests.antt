-- ===== src/Boot/Tests.antt =====
-- The theorems on booting at one layout of the kernel image, with controllers that read back their masks.
use goatos.Base.{ℕ, ◌+◌, ◌-◌, ◌^◌, ◌≤◌, ◌<◌, ◌≡◌, ◌≢◌, refl, true, [], ◌==◌, if◌then◌else◌, arith}
use goatos.Base.Bits.{bit_at}
use goatos.Gdt.{access_kernel_code, access_kernel_data}
use goatos.Idt.{entry_count, handlers}
use goatos.Pic.Chip.{Chip, masked, chip}
use goatos.Pic.{Device, all_masked, state, mask_of, master, slave}
use goatos.Keyboard.{Keyboard}
use goatos.Keyboard.Controller.{Controller}
use goatos.Input
use goatos.Boot.{Image, take_over, start_drivers}
use goatos.Boot.Vectors.{gate_of, boot-Vectors}
use goatos.Boot.DoubleFault.{descriptor_at, IsFlat, IsTss, double_fault-ready}

abbrev image : Image
image = record {
  gdt = 0x20000;
  main_tss = 0x20100;
  double_fault_tss = 0x20200;
  stack_top = 0x24000;
  double_fault_entry = 0x10800;
  exceptions = record {
    divide_error = 0x10900;
    invalid_opcode = 0x10a00;
    general_protection_fault = 0x10b00;
  };
  entries = record { unhandled = λ v. 0x12000 + v; unhandled_with_error_code = λ v. 0x14000 + v };
  timer_interrupt = 0x10c00;
  keyboard_interrupt = 0x10d00;
}

-- A keyboard that has nothing to read.
abbrev silent : Controller (Unit {0})
silent = record { status = λ s. 0; take = λ s. (0, s) }

abbrev keyboard : Keyboard
keyboard = record { extended = true; shift = true; enqueued = 3; queue = goatos.Input.new }

abbrev mask_in : Chip → ℕ
mask_in (masked m) = m
mask_in _ = 0

-- The two controllers, whose other ports read as 0.
abbrev pair : Device
pair log port =
    if port == 0x21
    then mask_in (chip 0x20 0x21 log)
    else if port == 0xa1
    then mask_in (chip 0xa0 0xa1 log)
    else 0

boot-Vectors_example :
    (let first = take_over image [] in
      let after = start_drivers silent pair image tt first.idt first.log keyboard in
      ((v : ℕ) → v < entry_count → after.idt v ≡ gate_of image v)
      × (handlers after.idt ≡ entry_count)
      × (first.spare_vectors ≡ 252)
      × (all_masked (state pair first.log) ≡ true)
      × (mask_of pair after.log master ≡ 0xff - 2 ^ 0 - 2 ^ 1)
      × (mask_of pair after.log slave ≡ 0xff))
boot-Vectors_example =
    boot-Vectors silent pair image tt [] keyboard (λ log mask. ((λ e. rw e refl), (λ e. rw e refl)))

double_fault-ready_example :
    (let t = take_over image [] in
      let gate = t.idt 8 in
      let entered = t.segments.double_fault in
      (gate.type_attr ≡ 0x85)
      × (gate.selector + 7 ≤ t.gdt.limit)
      × IsTss image.double_fault_tss (descriptor_at t gate.selector)
      × IsTss image.main_tss (descriptor_at t t.gdt.tr)
      × (gate.selector ≢ t.gdt.tr)
      × (entered.eip ≡ image.double_fault_entry)
      × (entered.esp ≡ image.stack_top)
      × (bit_at entered.eflags 9 ≡ 0)
      × (entered.cs ≡ t.gdt.cs)
      × (entered.ss ≡ t.gdt.ds)
      × (entered.ds ≡ t.gdt.ds)
      × (entered.es ≡ t.gdt.ds)
      × (entered.fs ≡ t.gdt.ds)
      × (entered.gs ≡ t.gdt.ds)
      × (entered.esp0 ≡ image.stack_top)
      × (entered.ss0 ≡ t.gdt.ds)
      × IsFlat access_kernel_code (descriptor_at t entered.cs)
      × IsFlat access_kernel_data (descriptor_at t t.gdt.ds))
double_fault-ready_example = double_fault-ready image [] (omega arith) (omega arith)

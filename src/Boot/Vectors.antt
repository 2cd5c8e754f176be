-- ===== src/Boot/Vectors.antt =====
-- The table of interrupts and the masks once the kernel has booted.
use goatos.Base.{
  ℕ, ◌-◌, ◌/◌, ◌%◌, ◌^◌, ◌<◌, ◌≡◌, refl, ap, ◌∙◌, bit_and, leb, ltb, true, false, ◌==◌,
  if◌then◌else◌, arith,
}
use goatos.Idt.{
  Idt, Gate, interrupt, task, kernel_code_selector, is_present, has_handler, handlers, put,
  set_gate, entry_count,
}
use goatos.Interrupts.{Entries}
use goatos.Interrupts.Fill.{catch_all, init-Filled, count_present-all}
use goatos.Exceptions.{Handlers}
use goatos.Pic.{Device, Log, all_masked, state, master, slave, mask_of, unmask, set_mask, outb}
use goatos.Pic.Chip.{chip, masked}
use goatos.Keyboard.{Keyboard}
use goatos.Keyboard.Controller.{Controller}
use goatos.Boot.{Image, take_over, start_drivers}
use goatos.Exceptions
use goatos.Idt
use goatos.Pic
use goatos.Pit
use goatos.Interrupts
use goatos.Keyboard.Controller

abbrev enters : ℕ → Gate
enters address = interrupt address kernel_code_selector

-- The gate of each vector: the exceptions that have a handler, the double fault's task, the timer and
-- the keyboard, and the catch-all, entered in the shape that the vector needs.
abbrev pub gate_of : Image → ℕ → Gate
gate_of image v =
    if v == 0
    then enters image.exceptions.divide_error
    else if v == 6
    then enters image.exceptions.invalid_opcode
    else if v == 8
    then task 0x20
    else if v == 13
    then enters image.exceptions.general_protection_fault
    else if v == 32
    then enters image.timer_interrupt
    else if v == 33
    then enters image.keyboard_interrupt
    else catch_all image.entries v

-- With 8259 controllers as documented, whose data ports read as the mask once they are initialized.
abbrev pub ReadsBack : Device → Type 0
ReadsBack device =
    (log : Log) (mask : ℕ)
    → (chip 0x20 0x21 log ≡ masked mask → device log 0x21 ≡ mask)
      × (chip 0xa0 0xa1 log ≡ masked mask → device log 0xa1 ≡ mask)

-- What the mask registers of both hold.
abbrev Masks : Log → ℕ → ℕ → Type 0
Masks log m s = (chip 0x20 0x21 log ≡ masked m) × (chip 0xa0 0xa1 log ≡ masked s)

module _ (code : Handlers) where
  exceptions-handlers : handlers (goatos.Exceptions.init code goatos.Idt.init) ≡ 4
  unfolding handlers goatos.Exceptions.init goatos.Idt.init set_gate goatos.Idt.set_task_gate
      is_present interrupt task goatos.Idt.count_present put
  exceptions-handlers = refl

  pub exceptions_gate :
      (v : ℕ) (other : Gate)
      → (let idt = goatos.Exceptions.init code goatos.Idt.init in
          ◌≡◌ {A = Gate} (if has_handler idt v then idt v else other) (
            if v == 0
            then enters code.divide_error
            else if v == 6
            then enters code.invalid_opcode
            else if v == 8
            then task 0x20
            else if v == 13
            then enters code.general_protection_fault
            else other))
  unfolding goatos.Exceptions.init goatos.Idt.init set_gate goatos.Idt.set_task_gate is_present
      interrupt task put has_handler
  exceptions_gate v other = ground arith

-- Initialization leaves both chips with all lines masked, whatever was written before.
init-Masks : (log : Log) → Masks (goatos.Pic.init log) 0xff 0xff
unfolding goatos.Pic.init goatos.Pic.initialize goatos.Pic.io_delay outb set_mask chip
init-Masks log = (refl, refl)

-- Opening a line of the master clears its bit in the mask, and keeps the slave's.
module _ (device : Device) (reads : ReadsBack device) where
  unmask_lem :
      (log : Log) (irq m s : ℕ)
      → irq < 8
      → Masks log m s
      → Masks (unmask device log irq) (bit_and m (0xff - 2 ^ irq)) s
  unfolding unmask set_mask mask_of outb chip
  unmask_lem log irq m s lt (master_has, slave_has) =
      let small : leb 16 irq ≡ false = ground (arith, lt) in
      let low : ltb irq 8 ≡ true = ground (arith, lt) in
      rw (small, low, (reads log m).0 master_has, master_has) (refl, slave_has)

  device_reads :
      (log : Log) (m s : ℕ) → Masks log m s → (device log 0x21 ≡ m) × (device log 0xa1 ≡ s)
  device_reads log m s h = ((reads log m).0 h.0, (reads log s).1 h.1)

gate_of-is_present : (image : Image) (v : ℕ) → is_present (gate_of image v) ≡ true
unfolding interrupt task is_present
gate_of-is_present image v = ground arith

module _ {ℓ} {S : Type ℓ} (controller : Controller S) (device : Device) (image : Image) (s : S)
    (log : Log) (k : Keyboard) where
  final : Idt
  final =
      let first = take_over image log in
      (start_drivers controller device image s first.idt first.log k).idt

  final_gate : (v : ℕ) → v < 256 → final v ≡ gate_of image v
  unfolding final start_drivers take_over goatos.Pit.init goatos.Keyboard.Controller.init set_gate
      put
  final_gate v lt =
      let idt = goatos.Exceptions.init image.exceptions goatos.Idt.init in
      let before = (goatos.Interrupts.init image.entries idt).0 in
      let filled : before v ≡ (
          if v == 0
          then enters image.exceptions.divide_error
          else if v == 6
          then enters image.exceptions.invalid_opcode
          else if v == 8
          then task 0x20
          else if v == 13
          then enters image.exceptions.general_protection_fault
          else catch_all image.entries v) =
        (init-Filled image.entries idt).0 v lt
        ∙ exceptions_gate image.exceptions v (catch_all image.entries v) in
      ap
        (λ g.
          if v == 33
          then enters image.keyboard_interrupt
          else if v == 32
          then enters image.timer_interrupt
          else g)
        filled
      ∙ ground arith

  -- With interrupt controllers that are initialized and masked by the writes to their ports as the 8259 is
  -- documented to be, and whose data ports read as the mask once they are initialized, whatever was written
  -- to them before: booting leaves every vector
  -- below 256 with the gate of its own handler: the three exceptions, the task gate of the double
  -- fault, the timer at 32, the keyboard at 33, and the catch-all on all others, the entry point that takes an error code on 8, 10 to
  -- 14, 17, 21, 29 and 30, and the one that takes none elsewhere; no
  -- vector is left without a handler, 252 of them were spare, all lines are masked before the drivers
  -- start, and afterwards just the timer's and the keyboard's lines are open.
  pub boot-Vectors :
      ReadsBack device
      → (let first = take_over image log in
          let after = start_drivers controller device image s first.idt first.log k in
          ((v : ℕ) → v < entry_count → after.idt v ≡ gate_of image v)
          × (handlers after.idt ≡ entry_count)
          × (first.spare_vectors ≡ 252)
          × (all_masked (state device first.log) ≡ true)
          × (mask_of device after.log master ≡ 0xff - 2 ^ 0 - 2 ^ 1)
          × (mask_of device after.log slave ≡ 0xff))
  unfolding final start_drivers take_over handlers all_masked state mask_of goatos.Pic.init
      goatos.Pic.initialize goatos.Pic.io_delay outb set_mask chip goatos.Pit.init
      goatos.Keyboard.Controller.init
  boot-Vectors reads =
      let masks : Masks (take_over image log).log 0xff 0xff = init-Masks log in
      let opened = unmask_lem device reads _ 1 (bit_and 0xff (0xff - 2 ^ 0)) 0xff (omega arith) (
        unmask_lem device reads
          (outb (outb (outb (take_over image log).log 0x43 0x36) 0x40 (goatos.Pit.divisor % 2 ^ 8))
            0x40 (goatos.Pit.divisor / 2 ^ 8))
          0 0xff 0xff (omega arith) masks) in
      (
        final_gate,
        count_present-all final 256
            (λ v lt. ap is_present (final_gate v lt) ∙ gate_of-is_present image v),
        omega (
          arith,
          (init-Filled image.entries (goatos.Exceptions.init image.exceptions goatos.Idt.init)).2,
          exceptions-handlers image.exceptions,
        ),
        rw
            (
              (device_reads device reads _ 0xff 0xff masks).0,
              (device_reads device reads _ 0xff 0xff masks).1,
              all_masked,
            )
            refl,
        (device_reads device reads _ _ 0xff opened).0,
        (device_reads device reads _ _ 0xff opened).1,
      )

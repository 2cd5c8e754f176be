-- ===== src/Keyboard/Controller.antt =====
-- The keyboard's side of the ports, kernel/src/keyboard.rs: registering the handler, and the handler
-- itself, which takes a byte from the controller and acknowledges its interrupt.
use goatos.Base.{ℕ, zero, suc, ◌+◌, bit_and, false, ◌==◌, if◌then◌else◌}
use goatos.Idt.{Idt, set_gate}
use goatos.Pic.{Device, Log, irq_vector_base, unmask, end_of_interrupt}
use goatos.Keyboard.{Keyboard, handle_scancode}

abbrev pub irq : ℕ
irq = 1

abbrev pub vector : ℕ
vector = irq_vector_base + irq

abbrev pub status_output_full : ℕ
status_output_full = 1

-- The 8042: what its status port and its data port read as. Reading the data port takes a byte away.
pub record Controller {ℓ} (S : Type ℓ) : Type ℓ where
  pub status : S → ℕ
  pub take : S → ℕ × S

module _ {ℓ} {S : Type ℓ} (controller : Controller S) where
  -- The loop of `drain_output_buffer` with `left` rounds to go, and the whole of it.
  unfoldable pub drain_bytes : ℕ → S → S
  drain_bytes zero s = s
  drain_bytes (suc left) s =
      let rest = drain_bytes left (controller.take s).1 in
      if bit_and (controller.status s) status_output_full == 0 then s else rest

  unfoldable pub drain_output_buffer : S → S
  drain_output_buffer s = drain_bytes 256 s

  unfoldable pub keyboard_interrupt : Device → S → Log → Keyboard → S × Log × Keyboard
  keyboard_interrupt device s log k =
      let (scancode, s') = controller.take s in
      let log' = (end_of_interrupt device log irq).1 in
      if bit_and (controller.status s) status_output_full == 0
      then (s, log', k)
      else (s', log', handle_scancode k scancode)

  -- The statics, the table, and the writes, with the handler's address.
  unfoldable pub init : Device → ℕ → S → Idt → Log → Keyboard → S × Idt × Log × Keyboard
  init device handler s idt log k = (
    drain_output_buffer s,
    set_gate idt vector handler,
    unmask device log irq,
    record k { extended = false; shift = false; enqueued = 0 },
  )

-- ===== src/Pit.antt =====
-- The timer, kernel/src/pit.rs: channel 0 of the 8253 on IRQ0. The tick count is a static, a `u32`
-- that wraps; port writes go to the log of Pic.
use goatos.Base.{ℕ, ◌+◌, ◌/◌, ◌%◌, ◌^◌}
use goatos.Idt.{Idt, set_gate}
use goatos.Pic.{Device, Log, irq_vector_base, outb, unmask, end_of_interrupt}

abbrev pub irq : ℕ
irq = 0

abbrev pub vector : ℕ
vector = irq_vector_base + irq

abbrev pub frequency_hz : ℕ
frequency_hz = 100

abbrev pub pit_oscillator_hz : ℕ
pit_oscillator_hz = 1193182

abbrev pub divisor : ℕ
divisor = pit_oscillator_hz / frequency_hz % 2 ^ 16

abbrev pub channel0_data : ℕ
channel0_data = 0x40

abbrev pub command : ℕ
command = 0x43

abbrev pub cmd_channel0_mode3 : ℕ
cmd_channel0_mode3 = 0x36

-- The ticks, the table, and the writes, with the handler's address.
unfoldable pub init : Device → ℕ → Idt → Log → ℕ × Idt × Log
unfolding outb
init device timer_interrupt idt log =
    let log1 =
      outb (outb (outb log command cmd_channel0_mode3) channel0_data (divisor % 2 ^ 8))
        channel0_data (divisor / 2 ^ 8) in
    (0, set_gate idt vector timer_interrupt, unmask device log1 irq)

unfoldable pub seconds : ℕ → ℕ
seconds ticks = ticks / frequency_hz

unfoldable pub timer_interrupt : Device → ℕ → Log → ℕ × Log
timer_interrupt device ticks log = ((ticks + 1) % 2 ^ 32, (end_of_interrupt device log irq).1)

-- ===== src/Pic/Protocol.antt =====
-- The end of interrupt, against the protocol of the two controllers.
use goatos.Base.{
  ℕ, ◌%◌, ◌^◌, ◌≡◌, bit_and, Bool, not, ◌&&◌, ◌||◌, ◌∷◌, ◌==◌, leb, if◌then◌else◌, arith,
}
use goatos.Pic.{
  Device, Log, serviced, spurious, end_of_interrupt, master_command, slave_command,
  ocw2_end_of_interrupt, ocw3_read_in_service,
}

-- The port writes that an interrupt on a line should cause, latest first. On line 7 of a controller,
-- its in-service register is asked for; `real` says that the line is another or in service. The slave
-- gets an end of interrupt for a real interrupt of its own, and then the master for every interrupt
-- but one of its own that is not real.
abbrev pub protocol : Bool → ℕ → Log → Log
protocol real irq log =
    let of_slave = leb 8 irq in
    let asked =
      if irq % 8 == 7
      then (if of_slave then slave_command else master_command, ocw3_read_in_service) ∷ log
      else log in
    let told = if of_slave && real then (slave_command, ocw2_end_of_interrupt) ∷ asked else asked in
    if of_slave || real then (master_command, ocw2_end_of_interrupt) ∷ told else told

-- Is the interrupt on this line real? The device's in-service bit counts on line 7 of a controller.
abbrev pub is_real : Device → Log → ℕ → Bool
is_real device log irq =
    let command = if leb 8 irq then slave_command else master_command in
    not (irq % 8 == 7)
    || not (bit_and (device ((command, ocw3_read_in_service) ∷ log) command) (2 ^ (irq % 8)) == 0)

pub end_of_interrupt-protocol :
    (device : Device) (log : Log) (irq : ℕ)
    → end_of_interrupt device log irq ≡ (
      if is_real device log irq then serviced else spurious,
      protocol (is_real device log irq) irq log,
    )
unfolding end_of_interrupt
end_of_interrupt-protocol device log irq = ground arith

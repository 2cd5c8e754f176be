-- ===== src/Pic.antt =====
-- The pair of 8259 interrupt controllers, kernel/src/pic.rs. What is written to the ports is a log,
-- latest first; what a port reads as is the device's affair, a function of the log.
pub mod Chip
pub mod Protocol
use goatos.Base.{
  ℕ, ◌+◌, ◌-◌, ◌%◌, ◌^◌, bit_and, Bool, not, ◌&&◌, Option, none, some, List, ◌∷◌, ◌==◌, ltb, leb,
  if◌then◌else◌,
}

abbrev pub irq_vector_base : ℕ
irq_vector_base = 32

abbrev pub irq_count : ℕ
irq_count = 16

abbrev pub irq_vector_last : ℕ
irq_vector_last = 47

abbrev pub master_command : ℕ
master_command = 0x20

abbrev pub master_data : ℕ
master_data = 0x21

abbrev pub slave_command : ℕ
slave_command = 0xa0

abbrev pub slave_data : ℕ
slave_data = 0xa1

abbrev pub icw1_init : ℕ
icw1_init = 0x11

abbrev pub icw3_master_cascade : ℕ
icw3_master_cascade = 4

abbrev pub icw3_slave_identity : ℕ
icw3_slave_identity = 2

abbrev pub icw4_8086_mode : ℕ
icw4_8086_mode = 1

abbrev pub ocw2_end_of_interrupt : ℕ
ocw2_end_of_interrupt = 0x20

abbrev pub ocw3_read_in_service : ℕ
ocw3_read_in_service = 0x0b

abbrev pub spurious_line : ℕ
spurious_line = 7

abbrev pub mask_all : ℕ
mask_all = 0xff

abbrev pub io_delay_port : ℕ
io_delay_port = 0x80

-- The writes so far, a port and a value each, and the byte that a port reads as after them.
abbrev pub Log : Type 0
Log = List (ℕ × ℕ)

abbrev pub Device : Type 0
Device = Log → ℕ → ℕ

unfoldable pub outb : Log → ℕ → ℕ → Log
outb log port value = (port, value) ∷ log

unfoldable pub io_delay : Log → Log
unfolding outb
io_delay log = outb log io_delay_port 0

pub record Pic : Type 0 where
  pub command : ℕ
  pub data_port : ℕ
  pub vector_offset : ℕ

abbrev pub master : Pic
master = record {
  command = master_command;
  data_port = master_data;
  vector_offset = irq_vector_base;
}

abbrev pub slave : Pic
slave = record {
  command = slave_command;
  data_port = slave_data;
  vector_offset = irq_vector_base + 8;
}

unfoldable pub initialize : Log → Pic → ℕ → Log
unfolding outb io_delay
initialize log pic cascade_word =
    let log1 = io_delay (outb log pic.command icw1_init) in
    let log2 = io_delay (outb log1 pic.data_port pic.vector_offset) in
    let log3 = io_delay (outb log2 pic.data_port cascade_word) in
    io_delay (outb log3 pic.data_port icw4_8086_mode)

unfoldable pub set_mask : Log → Pic → ℕ → Log
unfolding outb
set_mask log pic mask = outb log pic.data_port mask

unfoldable pub mask_of : Device → Log → Pic → ℕ
mask_of device log pic = device log pic.data_port

unfoldable pub irq_of_vector : ℕ → Option ℕ
irq_of_vector vector =
    if leb irq_vector_base vector && leb vector irq_vector_last
    then some (vector - irq_vector_base)
    else none

pub data Acknowledged : Type 0 where
  serviced spurious : Acknowledged

-- The end of `end_of_interrupt`, for an interrupt that is real.
unfoldable pub acknowledge : Log → Bool → Acknowledged × Log
unfolding outb
acknowledge log from_slave =
    let log' = if from_slave then outb log slave_command ocw2_end_of_interrupt else log in
    (serviced, outb log' master_command ocw2_end_of_interrupt)

unfoldable pub end_of_interrupt : Device → Log → ℕ → Acknowledged × Log
unfolding outb acknowledge
end_of_interrupt device log irq =
    let from_slave = leb 8 irq in
    let line = irq % 8 in
    let command = if from_slave then slave_command else master_command in
    let log' = outb log command ocw3_read_in_service in
    let in_service = not (bit_and (device log' command) (2 ^ line) == 0) in
    if line == spurious_line
    then (if in_service then acknowledge log' from_slave else (
      spurious,
      if from_slave then outb log' master_command ocw2_end_of_interrupt else log',
    ))
    else acknowledge log from_slave

unfoldable pub init : Log → Log
unfolding initialize set_mask
init log =
    let log' = initialize (initialize log master icw3_master_cascade) slave icw3_slave_identity in
    set_mask (set_mask log' master mask_all) slave mask_all

pub record State : Type 0 where
  pub vector_base : ℕ
  pub vector_last : ℕ
  pub master_mask : ℕ
  pub slave_mask : ℕ

unfoldable pub all_masked : State → Bool
all_masked s = s.master_mask == mask_all && s.slave_mask == mask_all

unfoldable pub state : Device → Log → State
unfolding mask_of
state device log = record {
  vector_base = master.vector_offset;
  vector_last = slave.vector_offset + 7;
  master_mask = mask_of device log master;
  slave_mask = mask_of device log slave;
}

-- `!(1 << line)` of a byte is 255 less the bit.
unfoldable pub unmask : Device → Log → ℕ → Log
unfolding set_mask mask_of
unmask device log irq =
    let slave_log =
      set_mask log slave (bit_and (mask_of device log slave) (mask_all - 2 ^ (irq - 8))) in
    if leb irq_count irq
    then log
    else if ltb irq 8
    then set_mask log master (bit_and (mask_of device log master) (mask_all - 2 ^ irq))
    else set_mask slave_log master (bit_and (mask_of device slave_log master) (mask_all - 2 ^ 2))

-- ===== src/Ata.antt =====
-- The disk driver, kernel/src/ata.rs: sectors read from the primary master by programmed input. A bus
-- is any function from the history of port accesses to what a port reads as next, so every device is
-- one; a byte or a word read is cut to its width. The lock is taken for the whole call, so the state
-- behind it, the flag `present`, is an argument. `Display` and the port instructions are left out.
pub mod Handshake
pub mod Words
pub mod Reading
pub mod Waiting
pub mod Attempt
pub mod Steady
mod Tests
use goatos.Base.{
  ℕ, zero, suc, ◌+◌, ◌-◌, ◌*◌, ◌/◌, ◌%◌, ◌^◌, bit_and, bit_or, Bool, true, false, not, ◌||◌, List,
  [], ◌∷◌, ◌++◌, ◌==◌, ltb, if◌then◌else◌, length, drop,
}

abbrev pub data_port : ℕ
data_port = 0x1f0

abbrev pub sector_count : ℕ
sector_count = 0x1f2

abbrev pub lba_lo : ℕ
lba_lo = 0x1f3

abbrev pub lba_mid : ℕ
lba_mid = 0x1f4

abbrev pub lba_hi : ℕ
lba_hi = 0x1f5

abbrev pub drive_head : ℕ
drive_head = 0x1f6

abbrev pub status_cmd : ℕ
status_cmd = 0x1f7

abbrev pub status_err : ℕ
status_err = 1

abbrev pub status_drq : ℕ
status_drq = 8

abbrev pub status_df : ℕ
status_df = 0x20

abbrev pub status_bsy : ℕ
status_bsy = 0x80

abbrev pub cmd_read_sectors : ℕ
cmd_read_sectors = 0x20

abbrev pub sector_size : ℕ
sector_size = 512

abbrev pub spin_limit : ℕ
spin_limit = 2000000

abbrev pub drive_master_lba : ℕ
drive_master_lba = 0xe0

pub data AtaError : Type 0 where
  not_present timeout drive_error bad_argument : AtaError

pub data Outcome (E A : Type 0) : Type 0 where
  ok : A → Outcome E A
  err : E → Outcome E A

-- An access to a port, with the value; the latest access comes first in a trace.
pub data Access : Type 0 where
  wrote got : ℕ → ℕ → Access

abbrev pub Trace : Type 0
Trace = List Access

abbrev pub Bus : Type 0
Bus = Trace → ℕ → ℕ

unfoldable pub outb : Trace → ℕ → ℕ → Trace
outb t port value = wrote port value ∷ t

unfoldable pub inb : Bus → Trace → ℕ → ℕ × Trace
inb bus t port = (bus t port % 2 ^ 8, got port (bus t port % 2 ^ 8) ∷ t)

unfoldable pub inw : Bus → Trace → ℕ → ℕ × Trace
inw bus t port = (bus t port % 2 ^ 16, got port (bus t port % 2 ^ 16) ∷ t)

-- The loop with `left` polls to go.
unfoldable pub wait_while : Bus → ℕ → ℕ → ℕ → Trace → Outcome AtaError Unit × Trace
unfolding inb
wait_while bus mask value zero t = (err timeout, t)
wait_while bus mask value (suc left) t =
    let status = (inb bus t status_cmd).0 in
    let t' = (inb bus t status_cmd).1 in
    elim (status == 0xff) [
      | true ↦ (err not_present, t')
      | false ↦ elim (bit_and status mask == value) [
        | true ↦ wait_while bus mask value left t'
        | false ↦ (ok tt, t')
      ]
    ]

unfoldable pub wait_for_drq : Bus → ℕ → Trace → Outcome AtaError Unit × Trace
unfolding inb
wait_for_drq bus zero t = (err timeout, t)
wait_for_drq bus (suc left) t =
    let status = (inb bus t status_cmd).0 in
    let t' = (inb bus t status_cmd).1 in
    elim (status == 0xff) [
      | true ↦ (err not_present, t')
      | false ↦ elim (bit_and status status_bsy == 0) [
        | false ↦ wait_for_drq bus left t'
        | true ↦ elim (bit_and status (status_err + status_df) == 0) [
          | false ↦ (err drive_error, t')
          | true ↦ elim (bit_and status status_drq == 0) [
            | false ↦ (ok tt, t')
            | true ↦ wait_for_drq bus left t'
          ]
        ]
      ]
    ]

-- The reads of the status that let a drive select settle.
unfoldable pub settle : Bus → ℕ → Trace → Trace
unfolding inb
settle bus zero t = t
settle bus (suc left) t = settle bus left (inb bus t status_cmd).1

-- The flag `present`.
unfoldable pub init : Bus → Trace → Bool × Trace
unfolding outb inb settle wait_while
init bus t =
    let probed = inb bus (settle bus 4 (outb t drive_head drive_master_lba)) status_cmd in
    let waited = wait_while bus status_bsy status_bsy spin_limit probed.1 in
    elim (probed.0 == 0xff) [
      | true ↦ (false, probed.1)
      | false ↦ elim waited.0 [ ok u ↦ (true, waited.1) | err e ↦ (false, waited.1) ]
    ]

-- The words of a sector, as the bytes that they fill the chunk with.
unfoldable pub read_words : Bus → ℕ → Trace → List ℕ × Trace
unfolding inw
read_words bus zero t = ([], t)
read_words bus (suc left) t =
    let value = (inw bus t data_port).0 in
    let rest = read_words bus left (inw bus t data_port).1 in
    (value % 2 ^ 8 ∷ value / 2 ^ 8 % 2 ^ 8 ∷ rest.0, rest.1)

pub record Transfer : Type 0 where
  pub result : Outcome AtaError Unit
  pub buf : List ℕ
  pub trace : Trace

-- The loop over the sectors, with `left` to go; `buf` is what of the buffer they fill.
unfoldable pub read_sectors : Bus → ℕ → List ℕ → Trace → Transfer
unfolding wait_for_drq inb read_words
read_sectors bus zero buf t = record { result = ok tt; buf = buf; trace = t }
read_sectors bus (suc left) buf t =
    let waited = wait_for_drq bus spin_limit t in
    elim waited.0 [
      | err e ↦ record { result = err timeout; buf = buf; trace = waited.1 }
      | ok u ↦
          let polled = inb bus waited.1 status_cmd in
          elim (bit_and polled.0 (status_err + status_df) == 0) [
            | false ↦ record { result = err drive_error; buf = buf; trace = polled.1 }
            | true ↦
                let chunk = read_words bus 256 polled.1 in
                let rest = read_sectors bus left (drop sector_size buf) chunk.1 in
                record { result = rest.result; buf = chunk.0 ++ rest.buf; trace = rest.trace }
          ]
    ]

-- The writes that start a transfer.
unfoldable pub start : Trace → ℕ → ℕ → Trace
unfolding outb
start t lba count_byte =
    let t1 = outb t drive_head (bit_or drive_master_lba (lba / 2 ^ 24 % 2 ^ 8 % 2 ^ 4)) in
    let t2 = outb t1 sector_count count_byte in
    let t3 = outb t2 lba_lo (lba % 2 ^ 8) in
    let t4 = outb t3 lba_mid (lba / 2 ^ 8 % 2 ^ 8) in
    let t5 = outb t4 lba_hi (lba / 2 ^ 16 % 2 ^ 8) in outb t5 status_cmd cmd_read_sectors

unfoldable pub read_pio : Bus → ℕ → ℕ → List ℕ → Trace → Transfer
unfolding wait_while start read_sectors
read_pio bus lba count buf t =
    let count_byte = if count == 256 then 0 else count % 2 ^ 8 in
    let waited = wait_while bus status_bsy status_bsy spin_limit t in
    elim waited.0 [
      | err e ↦ record { result = err timeout; buf = buf; trace = waited.1 }
      | ok u ↦ read_sectors bus count buf (start waited.1 lba count_byte)
    ]

-- A call that ends before it has changed anything.
abbrev pub fail : AtaError → List ℕ → Trace → Transfer
fail e buf t = record { result = err e; buf = buf; trace = t }

-- `lba & !0x0fff_ffff` is not 0 when there is a bit from the 28th on.
unfoldable pub read_lba : Bus → Bool → ℕ → List ℕ → Trace → Transfer
unfolding read_pio
read_lba bus present lba buf t =
    let count = length buf / sector_size in
    elim (length buf == 0 || not (length buf % sector_size == 0)) [
      | true ↦ fail bad_argument buf t
      | false ↦ elim (ltb 256 count || not (lba / 2 ^ 28 == 0)) [
        | true ↦ fail bad_argument buf t
        | false ↦ elim (count == 0) [
          | true ↦ fail bad_argument buf t
          | false ↦ elim present [
            | false ↦ fail not_present buf t
            | true ↦ read_pio bus lba count buf t
          ]
        ]
      ]
    ]

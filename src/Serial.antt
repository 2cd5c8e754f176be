-- ===== src/Serial.antt =====
-- The serial port, kernel/src/serial.rs: the loop that sends the bytes of a text, over the driver of the
-- library `uart_16550`, which is a parameter. The lock and `init` pass on to Sync and to the library.
pub mod Sending
mod Tests
use goatos.Base.{
  ℕ, zero, suc, ◌+◌, Bool, true, false, Option, none, some, List, [], ◌∷◌, ◌==◌, ltb, if◌then◌else◌,
  drop,
}

abbrev pub transmit_spin_limit : ℕ
transmit_spin_limit = 1000000

-- What `ready_to_send` answers: ready, or one of the two errors.
pub data Ready : Type 0 where
  ready no_capacity remote_not_clear_to_send : Ready

-- The library's driver, with `send_bytes` and the number of bytes it took, and the kernel's own write
-- of a byte to the port.
pub record Uart {ℓ} (S : Type ℓ) : Type ℓ where
  pub ready_to_send : S → Ready × S
  pub send_bytes : S → List ℕ → ℕ × S
  pub outb : S → ℕ → S

module _ {ℓ} {S : Type ℓ} (uart : Uart S) where
  -- The loop with `fuel` rounds to go: the bytes that remain when it ends, if it does.
  unfoldable pub send_loop : ℕ → S → List ℕ → ℕ → Option (List ℕ × S)
  send_loop zero s remaining spins = none
  send_loop (suc fuel) s [] spins = some ([], s)
  send_loop (suc fuel) s (byte ∷ bytes) spins =
      let s' = (uart.ready_to_send s).1 in
      let taken = uart.send_bytes s' (byte ∷ bytes) in
      elim (uart.ready_to_send s).0 [
        | ready ↦ elim taken.0 [
          | zero ↦ some (byte ∷ bytes, taken.1)
          | suc sent ↦ send_loop fuel taken.1 (drop sent bytes) 0
        ]
        | no_capacity ↦ elim (ltb transmit_spin_limit (spins + 1)) [
          | true ↦ some (byte ∷ bytes, s')
          | false ↦ send_loop fuel s' (byte ∷ bytes) (spins + 1)
        ]
        | remote_not_clear_to_send ↦ send_loop fuel (uart.outb s' byte) bytes 0
      ]

  unfoldable pub send : ℕ → S → List ℕ → Option (List ℕ × S)
  send fuel s bytes = send_loop fuel s bytes 0

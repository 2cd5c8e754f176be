-- ===== src/Serial/Tests.antt =====
-- The theorems on sending, at two ports whose other side is never clear to send. One always has room, and
-- its state is what was sent; the other is full after each byte until it is asked again, and a byte written
-- into its full register is lost.
use mathlib.Core.List.{append-nil}
use goatos.Base.{ℕ, refl, sym, Bool, true, false, List, [], ◌∷◌, ◌++◌, arith, length, if◌then◌else◌}
use goatos.Serial.{Uart, no_capacity, remote_not_clear_to_send, send}
use goatos.Serial.Sending.{IsUart, Ended, send-Ended}

abbrev unheard : Uart (List ℕ)
unheard = record {
  ready_to_send = λ s. (remote_not_clear_to_send, s);
  send_bytes = λ s bytes. (length bytes, s ++ bytes);
  outb = λ s byte. s ++ (byte ∷ []);
}

abbrev text : List ℕ
text = b'o' ∷ b'k' ∷ []

-- What was sent, and whether the register is full.
abbrev slow : Uart (List ℕ × Bool)
slow = record {
  ready_to_send = λ s. (if s.1 then no_capacity else remote_not_clear_to_send, (s.0, false));
  send_bytes = λ s bytes. (0, s);
  outb = λ s byte. if s.1 then s else (s.0 ++ (byte ∷ []), true);
}

slow-IsUart : IsUart slow (λ s. s.0)
slow-IsUart = record {
  asks = λ s. refl;
  takes = λ s bytes. omega arith;
  sends = λ s bytes. sym (append-nil s.0);
  writes = λ s byte e. refl;
}

send-Ended_example : Ended (λ s. s.0) ([], true) text (send slow 5000000 ([], true) text)
send-Ended_example = send-Ended slow (λ s. s.0) slow-IsUart 5000000 ([], true) text (omega arith)

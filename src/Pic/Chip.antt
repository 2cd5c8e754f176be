-- ===== src/Pic/Chip.antt =====
-- The mask register of an 8259, as its data sheet has it: a function of the writes to its two ports.
use goatos.Base.{ℕ, zero, suc, ◌+◌, bit_and, [], ◌∷◌, ◌==◌, if◌then◌else◌}
use goatos.Pic.{Log}

-- Not initialized yet, waiting for this many initialization words more, or at work with this mask.
pub data Chip : Type 0 where
  unset : Chip
  waiting masked : ℕ → Chip

-- The words that follow ICW1: ICW2, ICW3 unless there is a single chip, and ICW4 if it asks for one.
abbrev pub words_after : ℕ → ℕ
words_after icw1 =
    1 + (if bit_and icw1 2 == 0 then 1 else 0) + (if bit_and icw1 1 == 0 then 0 else 1)

-- A byte on the data port is the next initialization word, the last of which leaves the mask clear, or
-- the new mask.
abbrev pub on_data : Chip → ℕ → Chip
on_data unset value = unset
on_data (waiting zero) value = masked 0
on_data (waiting (suc zero)) value = masked 0
on_data (waiting (suc (suc n))) value = waiting (suc n)
on_data (masked m) value = masked value

-- The chip with these two ports, after the writes of a log. A byte on the command port is ICW1 if its
-- bit 4 is set, and starts the initialization over; the other commands leave the mask alone.
unfoldable pub chip : ℕ → ℕ → Log → Chip
chip command data_port [] = unset
chip command data_port ((port, value) ∷ log) =
    let before = chip command data_port log in
    if port == command
    then (if bit_and value 0x10 == 0 then before else waiting (words_after value))
    else if port == data_port
    then on_data before value
    else before

-- ===== src/Input.antt =====
-- The input event queue of kernel/src/input.rs: a circular buffer between the keyboard interrupt,
-- which pushes, and ordinary kernel code, which pops. Each function takes the state that the
-- source keeps in the static `QUEUE` and returns the new one beside its result.
pub mod Valid
pub mod Fifo
mod Tests
use goatos.Base.{
  ℕ, ◌+◌, ◌-◌, ◌%◌, ◌^◌, min, Bool, true, false, Option, none, some, List, ◌==◌, if◌then◌else◌,
  get_or, set, replicate,
}

abbrev pub capacity : ℕ
capacity = 64

-- A translated key; a character is its code point.
pub data KeyEvent : Type 0 where
  char : ℕ → KeyEvent
  enter : KeyEvent
  backspace : KeyEvent

-- `head` is the next slot to write, `tail` the next to read.
pub record Queue : Type 0 where
  pub buf : List KeyEvent
  pub head : ℕ
  pub tail : ℕ
  pub len : ℕ
  pub dropped : ℕ

unfoldable pub new : Queue
new = record { buf = replicate capacity (char 0); head = 0; tail = 0; len = 0; dropped = 0 }

-- An index out of range would panic in the source; `Valid` shows that there is none. `dropped` is a
-- `u32` that saturates.
unfoldable pub push : Queue → KeyEvent → Queue × Bool
push q event =
    if q.len == capacity
    then (record q { dropped = min (q.dropped + 1) (2 ^ 32 - 1) }, false)
    else (
      record q { buf = set q.buf q.head event; head = (q.head + 1) % capacity; len = q.len + 1 },
      true,
    )

unfoldable pub pop : Queue → Queue × Option KeyEvent
pop q = if q.len == 0 then (q, none) else (
  record q { tail = (q.tail + 1) % capacity; len = q.len - 1 },
  some (get_or q.buf q.tail (char 0)),
)

-- ===== src/Keyboard.antt =====
-- The PS/2 keyboard driver of kernel/src/keyboard.rs: scancode set 1 to key events. The statics
-- `EXTENDED`, `SHIFT` and `ENQUEUED` and the input queue, which the handler pushes to, make up the
-- state. A scancode is a number below 256.
pub mod Layout
pub mod Stream
pub mod Typing
pub mod Controller
mod Tests
use goatos.Base.{
  ℕ, ◌+◌, ◌-◌, ◌%◌, ◌^◌, bit_and, Bool, true, false, not, Option, none, some, List, [], ◌∷◌, ◌++◌,
  ◌==◌, ◌||◌, if◌then◌else◌,
}
use goatos.Input.{KeyEvent, char, enter, backspace, Queue}
use goatos.Input

pub record Keyboard : Type 0 where
  -- the next scancode is the second byte of an 0xe0 sequence
  pub extended : Bool
  pub shift : Bool
  -- keys enqueued, a `u32` that wraps
  pub enqueued : ℕ
  pub queue : Queue

abbrev pub scancode_extended : ℕ
scancode_extended = 0xe0

abbrev pub scancode_break : ℕ
scancode_break = 0x80

abbrev pub scan_lshift : ℕ
scan_lshift = 0x2a

abbrev pub scan_rshift : ℕ
scan_rshift = 0x36

-- 'a'..='z' to 'A'..='Z'
unfoldable pub letter : ℕ → Bool → ℕ
letter lower shift = if shift then lower - b'a' + b'A' else lower

-- The arms of the match in `translate`, in the order of the source.
unfoldable pub arms : Bool → List (ℕ × KeyEvent)
unfolding letter
arms shift =
    (0x1c, enter)
    ∷ (0x0e, backspace)
    ∷ (0x39, char b' ')
    ∷ (0x34, char b'.')
    ∷ (0x0c, char (if shift then b'_' else b'-'))
    ∷ (0x02, char b'1')
    ∷ (0x03, char b'2')
    ∷ (0x04, char b'3')
    ∷ (0x05, char b'4')
    ∷ (0x06, char b'5')
    ∷ (0x07, char b'6')
    ∷ (0x08, char b'7')
    ∷ (0x09, char b'8')
    ∷ (0x0a, char b'9')
    ∷ (0x0b, char b'0')
    ∷ (0x1e, char (letter b'a' shift))
    ∷ (0x30, char (letter b'b' shift))
    ∷ (0x2e, char (letter b'c' shift))
    ∷ (0x20, char (letter b'd' shift))
    ∷ (0x12, char (letter b'e' shift))
    ∷ (0x21, char (letter b'f' shift))
    ∷ (0x22, char (letter b'g' shift))
    ∷ (0x23, char (letter b'h' shift))
    ∷ (0x17, char (letter b'i' shift))
    ∷ (0x24, char (letter b'j' shift))
    ∷ (0x25, char (letter b'k' shift))
    ∷ (0x26, char (letter b'l' shift))
    ∷ (0x32, char (letter b'm' shift))
    ∷ (0x31, char (letter b'n' shift))
    ∷ (0x18, char (letter b'o' shift))
    ∷ (0x19, char (letter b'p' shift))
    ∷ (0x10, char (letter b'q' shift))
    ∷ (0x13, char (letter b'r' shift))
    ∷ (0x1f, char (letter b's' shift))
    ∷ (0x14, char (letter b't' shift))
    ∷ (0x16, char (letter b'u' shift))
    ∷ (0x2f, char (letter b'v' shift))
    ∷ (0x11, char (letter b'w' shift))
    ∷ (0x2d, char (letter b'x' shift))
    ∷ (0x15, char (letter b'y' shift))
    ∷ (0x2c, char (letter b'z' shift))
    ∷ []

-- A match on constants: the first arm with the scrutinee's value.
unfoldable pub select : ℕ → List (ℕ × KeyEvent) → Option KeyEvent
select make [] = none
select make ((c, e) ∷ rest) = if make == c then some e else select make rest

-- `translate(make)`, with the value of `SHIFT` that it loads.
unfoldable pub translate : Bool → ℕ → Option KeyEvent
unfolding select arms
translate shift make = select make (arms shift)

-- The end of `handle_scancode`: the event, if any, is pushed, and counted if the queue took it.
unfoldable pub deliver : Keyboard → Option KeyEvent → Keyboard
deliver k none = k
deliver k (some event) =
    let (q, taken) = Input.push k.queue event in
    if taken
    then record k { queue = q; enqueued = (k.enqueued + 1) % 2 ^ 32 }
    else record k { queue = q }

-- The tail of `handle_scancode`, once no 0xe0 prefix is involved.
unfoldable pub handle_plain : Keyboard → ℕ → Keyboard
unfolding deliver
handle_plain k scancode =
    let released = not (bit_and scancode scancode_break == 0) in
    let make = bit_and scancode 0x7f in
    if make == scan_lshift || make == scan_rshift
    then record k { shift = not released }
    else if released
    then k
    else deliver k (translate k.shift make)

unfoldable pub handle_scancode : Keyboard → ℕ → Keyboard
unfolding handle_plain
handle_scancode k scancode =
    if scancode == scancode_extended
    then record k { extended = true }
    else if k.extended
    then record k { extended = false }
    else handle_plain k scancode

-- The scancodes of successive interrupts.
unfoldable pub handle_all : Keyboard → List ℕ → Keyboard
handle_all k [] = k
handle_all k (c ∷ cs) = handle_all (handle_scancode k c) cs

-- ===== src/Keyboard/Layout.antt =====
-- The translation table against the rows of keys that the driver knows.
use goatos.Base.{
  ℕ, ◌-◌, ◌<◌, ◌≤◌, ◌≡◌, refl, Bool, true, false, Option, none, some, ◌&&◌, arith, ◌==◌, leb,
  if◌then◌else◌, get_elem?,
}
use goatos.Base.Bytes.{code_points, passes_below, passes_below_sound}
use goatos.Input.{KeyEvent, char, enter, backspace}
use goatos.Keyboard.{translate}
use Prim.Native.String.{String}
use mathlib.Core.Option

-- The key `make` on a row of keys whose leftmost has the code `first`.
abbrev pub on_row : ℕ → String → ℕ → Option KeyEvent
on_row first keys make =
    if leb first make then Option.map char (get_elem? (code_points keys) (make - first)) else none

abbrev or_else : Option KeyEvent → Option KeyEvent → Option KeyEvent
or_else none b = b
or_else (some a) b = some a

-- The keys that the driver knows, by the rows of a US keyboard from the top: digits, which have no
-- symbols here, then the three rows of letters, then the single keys.
unfoldable pub us_layout : Bool → ℕ → Option KeyEvent
us_layout shift make = or_else (on_row 0x02 "1234567890" make) (
    or_else (on_row 0x10 (if shift then "QWERTYUIOP" else "qwertyuiop") make) (
      or_else (on_row 0x1e (if shift then "ASDFGHJKL" else "asdfghjkl") make) (
        or_else (on_row 0x2c (if shift then "ZXCVBNM" else "zxcvbnm") make) (
          if make == 0x0c
          then some (char (if shift then b'_' else b'-'))
          else if make == 0x34
          then some (char b'.')
          else if make == 0x39
          then some (char b' ')
          else if make == 0x1c
          then some enter
          else if make == 0x0e
          then some backspace
          else none))))

same : Option KeyEvent → Option KeyEvent → Bool
same none none = true
same (some (char a)) (some (char b)) = a == b
same (some enter) (some enter) = true
same (some backspace) (some backspace) = true
same _ _ = false

same_sound : (a b : Option KeyEvent) → same a b ≡ true → a ≡ b
unfolding same
same_sound none none h = refl
same_sound (some (char a)) (some (char b)) h = ground arith
same_sound (some enter) (some enter) h = refl
same_sound (some backspace) (some backspace) h = refl
same_sound _ _ h = ground arith

agrees : Bool → ℕ → Bool
agrees shift make = same (translate shift make) (us_layout shift make)

agrees_table : (shift : Bool) → passes_below (agrees shift) 256 ≡ true
unfolding passes_below agrees translate us_layout same
agrees_table true = refl
agrees_table false = refl

-- The characters that the line editor accepts, ' '..='~'.
abbrev pub IsPrintable : Option KeyEvent → Type 0
IsPrintable (some (char c)) = (0x20 ≤ c) × (c ≤ 0x7e)
IsPrintable _ = Unit {0}

printable : Option KeyEvent → Bool
printable (some (char c)) = leb 0x20 c && leb c 0x7e
printable _ = true

printable_table :
    (shift : Bool) → passes_below (λ make. printable (translate shift make)) 256 ≡ true
unfolding passes_below translate printable
printable_table true = refl
printable_table false = refl

printable_sound : (o : Option KeyEvent) → printable o ≡ true → IsPrintable o
unfolding printable
printable_sound none h = tt
printable_sound (some (char c)) h = ground arith
printable_sound (some enter) h = tt
printable_sound (some backspace) h = tt

pub translate-IsPrintable :
    (shift : Bool) (make : ℕ) → make < 256 → IsPrintable (translate shift make)
translate-IsPrintable shift make h =
    printable_sound _
      (passes_below_sound (λ m. printable (translate shift m)) 256 make h (printable_table shift))

-- For each byte and either state of Shift the translation of a make code is what `us_layout` has at
-- that place: from 0x02 on the row 1 to 0, with Shift too; from 0x10, 0x1e and 0x2c on the three rows
-- of letters, capitals with Shift; at 0x0c the minus, with Shift the underscore; the dot at 0x34, the
-- space at 0x39, Enter and backspace; and nothing at any other code. What it gives is Enter, backspace
-- or a character that the line editor accepts.
pub translate-eq-us_layout :
    (shift : Bool) (make : ℕ)
    → make < 256
    → (translate shift make ≡ us_layout shift make) × IsPrintable (translate shift make)
unfolding agrees
translate-eq-us_layout shift make h = (
  same_sound _ _ (passes_below_sound (agrees shift) 256 make h (agrees_table shift)),
  translate-IsPrintable shift make h,
)

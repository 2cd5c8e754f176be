-- ===== src/Vga.antt =====
-- The text screen of kernel/src/vga.rs: the writer's cursor, and the text buffer, which is the array
-- of cells from 0xb8000 on.
pub mod Bounds
pub mod Scrolling
pub mod Page
mod Tests
use goatos.Base.{
  ℕ, zero, suc, ◌+◌, ◌-◌, ◌*◌, Bool, true, false, ◌&&◌, ◌||◌, List, [], ◌∷◌, ◌==◌, ltb, leb,
  if◌then◌else◌,
}

abbrev pub buffer_width : ℕ
buffer_width = 80

abbrev pub buffer_height : ℕ
buffer_height = 25

pub record ScreenChar : Type 0 where
  pub ascii_character : ℕ
  pub color_code : ℕ

abbrev pub Screen : Type 0
Screen = ℕ → ScreenChar

pub record Writer : Type 0 where
  pub column : ℕ
  pub row : ℕ
  pub color_code : ℕ

unfoldable pub put_char : Screen → ℕ → ℕ → ScreenChar → Screen
put_char screen row col ch i = if i == row * buffer_width + col then ch else screen i

unfoldable pub get_char : Screen → ℕ → ℕ → ScreenChar
get_char screen row col = screen (row * buffer_width + col)

-- The loop over the columns from `col` on that copies a row to the one above it.
unfoldable pub copy_up : Screen → ℕ → ℕ → ℕ → Screen
unfolding put_char get_char
copy_up screen row col zero = screen
copy_up screen row col (suc left) =
    copy_up (put_char screen (row - 1) col (get_char screen row col)) row (col + 1) left

-- The loop over the rows from `row` on.
unfoldable pub copy_rows : Screen → ℕ → ℕ → Screen
copy_rows screen row zero = screen
copy_rows screen row (suc left) = copy_rows (copy_up screen row 0 buffer_width) (row + 1) left

unfoldable pub blank : Writer → ScreenChar
blank w = record { ascii_character = b' '; color_code = w.color_code }

unfoldable pub clear_cols : Writer → Screen → ℕ → ℕ → ℕ → Screen
unfolding put_char blank
clear_cols w screen row col zero = screen
clear_cols w screen row col (suc left) =
    clear_cols w (put_char screen row col (blank w)) row (col + 1) left

unfoldable pub clear_row : Writer → Screen → ℕ → Screen
clear_row w screen row = clear_cols w screen row 0 buffer_width

unfoldable pub new_line : Writer → Screen → Writer × Screen
new_line w screen =
    if ltb (w.row + 1) buffer_height then (record w { row = w.row + 1; column = 0 }, screen) else (
      record w { column = 0 },
      clear_row w (copy_rows screen 1 (buffer_height - 1)) (buffer_height - 1),
    )

unfoldable pub put_byte : Writer → Screen → ℕ → Writer × Screen
unfolding put_char
put_byte w screen byte = (
  record w { column = w.column + 1 },
  put_char screen w.row w.column (record { ascii_character = byte; color_code = w.color_code }),
)

unfoldable pub write_byte : Writer → Screen → ℕ → Writer × Screen
write_byte w screen byte =
    let (v, scrolled) = new_line w screen in
    if byte == 10
    then (v, scrolled)
    else if leb buffer_width w.column
    then put_byte v scrolled byte
    else put_byte w screen byte

unfoldable pub write_string : Writer → Screen → List ℕ → Writer × Screen
unfolding write_byte
write_string w screen [] = (w, screen)
write_string w screen (byte ∷ bytes) =
    let shown = if (leb 0x20 byte && leb byte 0x7e) || byte == 10 then byte else 0xfe in
    let (v, after) = write_byte w screen shown in write_string v after bytes

unfoldable pub backspace : Writer → Screen → Writer × Screen
unfolding put_char blank
backspace w screen =
    if w.column == 0
    then (w, screen)
    else (record w { column = w.column - 1 }, put_char screen w.row (w.column - 1) (blank w))

-- The loop over the rows from `row` on.
unfoldable pub clear_rows : Writer → Screen → ℕ → ℕ → Screen
unfolding clear_row
clear_rows w screen row zero = screen
clear_rows w screen row (suc left) = clear_rows w (clear_row w screen row) (row + 1) left

unfoldable pub clear_screen : Writer → Screen → Writer × Screen
unfolding clear_rows
clear_screen w screen = (record w { row = 0; column = 0 }, clear_rows w screen 0 buffer_height)

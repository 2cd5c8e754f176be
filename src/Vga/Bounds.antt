-- ===== src/Vga/Bounds.antt =====
-- The writer never leaves the text buffer.
use goatos.Base.{
  ℕ, zero, suc, ◌+◌, ◌-◌, ◌*◌, ◌≤◌, ◌<◌, ◌≡◌, refl, ◌∙◌, ◌&&◌, ◌||◌, List, [], ◌∷◌, ◌==◌, ltb, leb,
  if◌then◌else◌, arith, Bool-cases, inl, inr,
}
use goatos.Vga.{
  Screen, ScreenChar, Writer, buffer_width, buffer_height, put_char, get_char, copy_up, copy_rows,
  blank, clear_cols, clear_row, new_line, put_byte, write_byte, write_string,
}

-- The cursor is on the screen, or right behind a full row.
abbrev pub OnScreen : Writer → Type 0
OnScreen w = (w.row < buffer_height) × (w.column ≤ buffer_width)

-- Nothing behind the text buffer has changed.
abbrev pub Beyond : Screen → Screen → Type 0
Beyond before after = (i : ℕ) → buffer_width * buffer_height ≤ i → after i ≡ before i

put_char-Beyond :
    (screen : Screen) (row col : ℕ) (ch : ScreenChar)
    → row < buffer_height
    → col < buffer_width
    → Beyond screen (put_char screen row col ch)
unfolding put_char
put_char-Beyond screen row col ch r c i h = ground arith

copy_up-Beyond :
    (left : ℕ) (screen : Screen) (row col : ℕ)
    → row < buffer_height
    → col + left ≤ buffer_width
    → Beyond screen (copy_up screen row col left)
unfolding copy_up
copy_up-Beyond zero screen row col r c i h = refl
copy_up-Beyond (suc left) screen row col r c i h =
    copy_up-Beyond left _ row (col + 1) r (omega arith) i h
    ∙ put_char-Beyond screen (row - 1) col (get_char screen row col) (omega arith) (omega arith) i h

copy_rows-Beyond :
    (left : ℕ) (screen : Screen) (row : ℕ)
    → row + left ≤ buffer_height
    → Beyond screen (copy_rows screen row left)
unfolding copy_rows
copy_rows-Beyond zero screen row r i h = refl
copy_rows-Beyond (suc left) screen row r i h =
    copy_rows-Beyond left _ (row + 1) (omega arith) i h
    ∙ copy_up-Beyond buffer_width screen row 0 (omega arith) (omega arith) i h

clear_cols-Beyond :
    (left : ℕ) (w : Writer) (screen : Screen) (row col : ℕ)
    → row < buffer_height
    → col + left ≤ buffer_width
    → Beyond screen (clear_cols w screen row col left)
unfolding clear_cols
clear_cols-Beyond zero w screen row col r c i h = refl
clear_cols-Beyond (suc left) w screen row col r c i h =
    clear_cols-Beyond left w _ row (col + 1) r (omega arith) i h
    ∙ put_char-Beyond screen row col (blank w) r (omega arith) i h

-- The cursor stays on the screen, and nothing behind the buffer changes.
abbrev pub Contained : Screen → Writer × Screen → Type 0
Contained before (w, after) = OnScreen w × Beyond before after

new_line-Contained :
    (w : Writer) (screen : Screen)
    → OnScreen w
    → Contained screen (new_line w screen) × ((new_line w screen).0.column ≡ 0)
unfolding new_line clear_row
new_line-Contained w screen o = elim (Bool-cases (ltb (w.row + 1) buffer_height)) [
  | inl above ↦ rw (above, new_line) (((ground (arith, above), omega arith), λ i h. refl), refl)
  | inr bottom ↦
      rw (bottom, new_line)
        (
          (
            (o.0, omega arith),
            λ i h.
                clear_cols-Beyond 80 w (copy_rows screen 1 24) 24 0 (omega arith) (omega arith) i h
                ∙ copy_rows-Beyond 24 screen 1 (omega arith) i h,
          ),
          refl,
        )
]

put_byte-Contained :
    (w : Writer) (screen : Screen) (byte : ℕ)
    → w.row < buffer_height
    → w.column < buffer_width
    → Contained screen (put_byte w screen byte)
unfolding put_byte
put_byte-Contained w screen byte r c =
    ((r, omega arith), put_char-Beyond screen w.row w.column _ r c)

write_byte-Contained :
    (w : Writer) (screen : Screen) (byte : ℕ)
    → OnScreen w
    → Contained screen (write_byte w screen byte)
unfolding write_byte
write_byte-Contained w screen byte o =
    let line = new_line-Contained w screen o in
    elim (Bool-cases (byte == 10)) [
      | inl ends ↦ rw (ends, write_byte) line.0
      | inr plain ↦ elim (Bool-cases (leb buffer_width w.column)) [
        | inl full ↦
            let p =
              put_byte-Contained (new_line w screen).0 (new_line w screen).1 byte line.0.0.0
                (omega (arith, line.1)) in
            rw (plain, full, write_byte) (p.0, λ i h. p.1 i h ∙ line.0.1 i h)
        | inr room ↦
            rw (plain, room, write_byte)
              (put_byte-Contained w screen byte o.0 (ground (arith, room)))
      ]
    ]

-- Whatever text is written, with the cursor on the screen, the cursor stays on the screen and no cell
-- behind the text buffer of 25 rows of 80 is written, also when the screen scrolls.
pub write_string-Contained :
    (bytes : List ℕ) (w : Writer) (screen : Screen)
    → OnScreen w
    → Contained screen (write_string w screen bytes)
unfolding write_string
write_string-Contained [] w screen o = (o, λ i h. refl)
write_string-Contained (byte ∷ bytes) w screen o =
    let shown = if (leb 0x20 byte && leb byte 0x7e) || byte == 10 then byte else 0xfe in
    let one = write_byte-Contained w screen shown o in
    let rest =
      write_string-Contained bytes (write_byte w screen shown).0 (write_byte w screen shown).1
        one.0 in
    (rest.0, λ i h. rest.1 i h ∙ one.1 i h)

-- ===== src/Vga/Tests.antt =====
-- A text that scrolls the screen.
use goatos.Base.{ℕ, ◌+◌, ◌-◌, ◌*◌, ◌<◌, ◌≡◌, List, [], ◌∷◌, replicate, ◌++◌}
use goatos.Vga.{Screen, Writer, write_string, clear_screen}
use goatos.Vga.Bounds.{Contained}
use goatos.Vga.Page.{page_of, empty, clear_screen-write_string}

abbrev bottom : Writer
bottom = record { column = 79; row = 24; color_code = 0x0f }

abbrev dark : Screen
dark i = record { ascii_character = b' '; color_code = 0 }

-- Thirty lines, and a word.
abbrev text : List ℕ
text = replicate 30 10 ++ (b'o' ∷ b'k' ∷ [])

clear_screen-write_string_example :
    (let cleared = clear_screen bottom dark in
      let after = write_string cleared.0 cleared.1 text in
      let p = page_of bottom.color_code (empty bottom.color_code) text in
      ((i : ℕ) → i < 2000 → after.1 i ≡ p.cells ((p.line - 24) * 80 + i))
      × (after.0.row ≡ p.line - (p.line - 24))
      × (after.0.column ≡ p.column)
      × Contained cleared.1 after)
clear_screen-write_string_example = clear_screen-write_string bottom dark text

-- ===== src/Framebuffer.antt =====
-- The fill of the graphics screen, kernel/src/framebuffer.rs: one byte a pixel, in memory from 0xa0000 on.
use goatos.Base.{ℕ, zero, suc, ◌+◌, ◌*◌, ◌≡◌, ◌∙◌, ◌&&◌, ◌==◌, ltb, leb, if◌then◌else◌, arith}
use goatos.Memory.Ram.{Ram}

abbrev pub buffer_addr : ℕ
buffer_addr = 0xa0000

abbrev pub width : ℕ
width = 320

abbrev pub height : ℕ
height = 200

abbrev pub buffer_len : ℕ
buffer_len = width * height

abbrev pub solid_color : ℕ
solid_color = 1

-- The loop from pixel `i` on, with `left` pixels to go.
unfoldable pub fill_from : Ram → ℕ → ℕ → ℕ → Ram
fill_from ram color i zero = ram
fill_from ram color i (suc left) =
    fill_from (λ a. if a == buffer_addr + i then color else ram a) color (i + 1) left

unfoldable pub fill : Ram → ℕ → Ram
unfolding fill_from
fill ram color = fill_from ram color 0 buffer_len

fill_from_lem :
    (ram : Ram) (color i left a : ℕ)
    → fill_from ram color i left a
      ≡ (if leb (buffer_addr + i) a && ltb a (buffer_addr + i + left) then color else ram a)
unfolding fill_from
fill_from_lem ram color i zero a = ground arith
fill_from_lem ram color i (suc left) a =
    fill_from_lem (λ b. if b == buffer_addr + i then color else ram b) color (i + 1) left a
    ∙ ground arith

-- Each of the 64000 pixels gets the color, and nothing else is written.
pub fill_lem :
    (ram : Ram) (color a : ℕ)
    → fill ram color a ≡ (if leb buffer_addr a && ltb a (buffer_addr + 64000) then color else ram a)
unfolding fill
fill_lem ram color a = fill_from_lem ram color 0 64000 a ∙ ground arith

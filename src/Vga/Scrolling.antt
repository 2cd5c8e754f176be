-- ===== src/Vga/Scrolling.antt =====
-- What the loops over rows and columns leave in each cell.
use goatos.Base.{
  ℕ, zero, suc, ◌+◌, ◌-◌, ◌*◌, ◌≤◌, ◌≡◌, inl, inr, ap, ◌∙◌, Bool, ◌&&◌, ◌==◌, ltb, leb,
  if◌then◌else◌, arith, Bool-cases,
}
use goatos.Vga.{
  Screen, Writer, put_char, get_char, copy_up, copy_rows, blank, clear_cols, clear_row, clear_rows,
  clear_screen,
}

-- Is the cell one of `count` from `from` on?
abbrev pub among : ℕ → ℕ → ℕ → Bool
among i from count = leb from i && ltb i (from + count)

copy_up_lem :
    (screen : Screen) (row col left i : ℕ)
    → col + left ≤ 80
    → copy_up screen (row + 1) col left i
      ≡ (if among i (row * 80 + col) left then screen (i + 80) else screen i)
unfolding copy_up put_char get_char
copy_up_lem screen row col zero i fits = ground arith
copy_up_lem screen row col (suc left) i fits =
    let s1 = put_char screen (row + 1 - 1) col (get_char screen (row + 1) col) in
    copy_up_lem s1 row (col + 1) left i (omega arith) ∙ here
  where
    from_below : (row + 1) * 80 + col ≡ row * 80 + col + 80
    from_below = omega arith

    source : get_char screen (row + 1) col ≡ screen (row * 80 + col + 80)
    source = ap screen from_below

    here :
        (if among i (row * 80 + (col + 1)) left
          then put_char screen (row + 1 - 1) col (get_char screen (row + 1) col) (i + 80)
          else put_char screen (row + 1 - 1) col (get_char screen (row + 1) col) i)
        ≡ (if among i (row * 80 + col) (suc left) then screen (i + 80) else screen i)
    here = elim (Bool-cases (i == row * 80 + col)) [
      | inl e ↦
          let at : i ≡ row * 80 + col = ground (arith, e) in rw at (ground (arith, fits, source))
      | inr e ↦ ground (arith, e, fits)
    ]

clear_cols_lem :
    (w : Writer) (screen : Screen) (row col left i : ℕ)
    → clear_cols w screen row col left i
      ≡ (if among i (row * 80 + col) left then blank w else screen i)
unfolding clear_cols put_char
clear_cols_lem w screen row col zero i = ground arith
clear_cols_lem w screen row col (suc left) i =
    clear_cols_lem w (put_char screen row col (blank w)) row (col + 1) left i ∙ ground arith

copy_rows_lem :
    (screen : Screen) (row left i : ℕ)
    → copy_rows screen (row + 1) left i
      ≡ (if among i (row * 80) (left * 80) then screen (i + 80) else screen i)
unfolding copy_rows
copy_rows_lem screen row zero i = ground arith
copy_rows_lem screen row (suc left) i =
    let s1 = copy_up screen (row + 1) 0 80 in
    let one = copy_up_lem screen row 0 80 i (omega arith) in
    let below = copy_up_lem screen row 0 80 (i + 80) (omega arith) in
    copy_rows_lem s1 (row + 1) left i ∙ ground (arith, one, below)

clear_rows_lem :
    (w : Writer) (screen : Screen) (row left i : ℕ)
    → clear_rows w screen row left i
      ≡ (if among i (row * 80) (left * 80) then blank w else screen i)
unfolding clear_rows clear_row
clear_rows_lem w screen row zero i = ground arith
clear_rows_lem w screen row (suc left) i =
    clear_rows_lem w (clear_row w screen row) (row + 1) left i
    ∙ ground (arith, clear_cols_lem w screen row 0 80 i)

-- Each cell after a scroll holds what stood a row below, and the last row is blank.
pub scroll_lem :
    (w : Writer) (screen : Screen) (i : ℕ)
    → clear_row w (copy_rows screen 1 24) 24 i
      ≡ (if ltb i 1920 then screen (i + 80) else if ltb i 2000 then blank w else screen i)
unfolding clear_row
scroll_lem w screen i =
    clear_cols_lem w (copy_rows screen 1 24) 24 0 80 i ∙ ground (arith, copy_rows_lem screen 0 24 i)

pub clear_screen_lem :
    (w : Writer) (screen : Screen) (i : ℕ)
    → (clear_screen w screen).1 i ≡ (if ltb i 2000 then blank w else screen i)
unfolding clear_screen
clear_screen_lem w screen i = clear_rows_lem w screen 0 25 i ∙ ground arith

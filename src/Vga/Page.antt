-- ===== src/Vga/Page.antt =====
-- The text screen as a window on a page without an end, on which nothing scrolls.
use goatos.Base.{
  ℕ, ◌+◌, ◌-◌, ◌*◌, ◌≤◌, ◌<◌, ◌≡◌, ◌⊎◌, inl, inr, refl, sym, ap, ◌∙◌, subst, true, false, ◌&&◌,
  ◌||◌, List, [], ◌∷◌, ◌==◌, ltb, leb, if◌then◌else◌, arith, Bool-cases,
}
use goatos.Vga.{
  Screen, ScreenChar, Writer, put_char, put_byte, blank, new_line, write_byte, write_string,
  clear_screen,
}
use goatos.Vga.Scrolling.{scroll_lem, clear_screen_lem}
use goatos.Vga.Bounds.{Contained, write_string-Contained}

-- The page, its lines one behind the other, and where the next character goes.
pub record Page : Type 0 where
  pub line : ℕ
  pub column : ℕ
  pub cells : ℕ → ScreenChar

abbrev pub fresh_line : Page → Page
fresh_line p = record p { line = p.line + 1; column = 0 }

abbrev pub put_on : ℕ → Page → ℕ → Page
put_on color p byte = record p {
  column = p.column + 1;
  cells = λ i.
      if i == p.line * 80 + p.column
      then record { ascii_character = byte; color_code = color }
      else p.cells i;
}

-- One character: a line end starts a new line, and so does a full line.
abbrev pub typed : ℕ → Page → ℕ → Page
typed color p byte =
    if byte == 10
    then fresh_line p
    else if leb 80 p.column
    then put_on color (fresh_line p) byte
    else put_on color p byte

-- A text, with a box for what is not printable.
abbrev pub page_of : ℕ → Page → List ℕ → Page
page_of color p [] = p
page_of color p (byte ∷ bytes) =
    page_of color
      (typed color p (if (leb 0x20 byte && leb byte 0x7e) || byte == 10 then byte else 0xfe)) bytes

-- The page before anything is written.
abbrev pub empty : ℕ → Page
empty color = record {
  line = 0;
  column = 0;
  cells = λ i. record { ascii_character = b' '; color_code = color };
}

-- The screen is the window of 25 lines from `top` on, the page is blank below it, and the window has
-- moved only when it had to.
record Window (top : ℕ) (w : Writer) (screen : Screen) (p : Page) : Type 0 where
  same_line : p.line ≡ top + w.row
  same_column : p.column ≡ w.column
  row_on : w.row < 25
  column_on : w.column ≤ 80
  lowest : (top ≡ 0) ⊎ (w.row ≡ 24)
  seen : (i : ℕ) → i < 2000 → screen i ≡ p.cells (top * 80 + i)
  below : (j : ℕ) → top * 80 + 2000 ≤ j → p.cells j ≡ blank w

-- A new line, with the cursor at its start.
new_line-Window :
    (top : ℕ) (w : Writer) (screen : Screen) (p : Page)
    → Window top w screen p
    → (top' : ℕ) × Window top' (new_line w screen).0 (new_line w screen).1 (fresh_line p)
      × ((new_line w screen).0.column ≡ 0)
      × ((new_line w screen).0.color_code ≡ w.color_code)
unfolding new_line blank
new_line-Window top w screen p v = elim (Bool-cases (ltb (w.row + 1) 25)) [
  | inl e ↦
      rw (e, new_line)
        (
          top,
          record {
            same_line = omega (arith, v.same_line);
            same_column = refl;
            row_on = ground (arith, e);
            column_on = omega arith;
            lowest = elim v.lowest [ inl z ↦ inl z | inr r ↦ absurd (ground (arith, e, r)) ];
            seen = v.seen;
            below = v.below;
          },
          refl,
          refl,
        )
  | inr e ↦
      rw (e, new_line)
        (
          top + 1,
          record {
            same_line = omega (arith, v.same_line);
            same_column = refl;
            row_on = v.row_on;
            column_on = omega arith;
            lowest = inr (ground (arith, e, v.row_on));
            seen = λ i lt. scroll_lem w screen i ∙ window i lt (Bool-cases (ltb i 1920));
            below = λ j le. v.below j (omega (arith, le));
          },
          refl,
          refl,
        )
]
  where
    window :
        (i : ℕ)
        → i < 2000
        → (ltb i 1920 ≡ true) ⊎ (ltb i 1920 ≡ false)
        → (if ltb i 1920 then screen (i + 80) else if ltb i 2000 then blank w else screen i)
          ≡ p.cells ((top + 1) * 80 + i)
    window i lt (inl h) =
        let at : top * 80 + (i + 80) ≡ (top + 1) * 80 + i = omega arith in
        rw h (v.seen (i + 80) (ground (arith, h)) ∙ ap p.cells at)
    window i lt (inr h) =
        let on : ltb i 2000 ≡ true = ground (arith, lt) in
        rw (h, on) (sym (v.below ((top + 1) * 80 + i) (ground (arith, h))))

-- A character at the cursor.
put_byte-Window :
    (top : ℕ) (w : Writer) (screen : Screen) (p : Page) (byte : ℕ)
    → Window top w screen p
    → w.column < 80
    → (let after = put_byte w screen byte in
        Window top after.0 after.1 (put_on w.color_code p byte))
unfolding put_byte put_char blank
put_byte-Window top w screen p byte v lt =
    let at : p.line * 80 + p.column ≡ top * 80 + (w.row * 80 + w.column) =
      omega (arith, v.same_line, v.same_column) in
    record {
      same_line = v.same_line;
      same_column = omega (arith, v.same_column);
      row_on = v.row_on;
      column_on = omega (arith, lt);
      lowest = v.lowest;
      seen = λ i h. rw at (elim (Bool-cases (i == w.row * 80 + w.column)) [
        | inl e ↦
            let there : (top * 80 + i == top * 80 + (w.row * 80 + w.column)) ≡ true =
              ground (arith, e) in
            rw (e, there) refl
        | inr e ↦
            let apart : (top * 80 + i == top * 80 + (w.row * 80 + w.column)) ≡ false =
              ground (arith, e) in
            rw (e, apart) (v.seen i h)
      ]);
      below = λ j h.
          let apart : (j == p.line * 80 + p.column) ≡ false = ground (arith, at, h, lt, v.row_on) in
          rw apart (v.below j h);
    }

write_byte-Window :
    (top : ℕ) (w : Writer) (screen : Screen) (p : Page) (byte : ℕ)
    → Window top w screen p
    → (let after = write_byte w screen byte in
        (top' : ℕ) × Window top' after.0 after.1 (typed w.color_code p byte)
        × (after.0.color_code ≡ w.color_code))
unfolding write_byte put_byte
write_byte-Window top w screen p byte v = elim (Bool-cases (byte == 10)) [
  | inl e ↦
      let (top', v', c, k) = new_line-Window top w screen p v in rw (e, write_byte) (top', v', k)
  | inr e ↦ elim (Bool-cases (leb 80 w.column)) [
    | inl f ↦
        let (top', v', c, k) = new_line-Window top w screen p v in
        let full : leb 80 p.column ≡ true = ground (arith, f, v.same_column) in
        let v'' =
          put_byte-Window top' (new_line w screen).0 (new_line w screen).1 (fresh_line p) byte v'
            (omega (arith, c)) in
        rw (e, f, full, write_byte)
          (
            top',
            subst
                (λ color.
                  Window top' (put_byte (new_line w screen).0 (new_line w screen).1 byte).0
                    (put_byte (new_line w screen).0 (new_line w screen).1 byte).1
                    (put_on color (fresh_line p) byte))
                k v'',
            k,
          )
    | inr f ↦
        let room : leb 80 p.column ≡ false = ground (arith, f, v.same_column) in
        rw (e, f, room, write_byte)
          (top, put_byte-Window top w screen p byte v (ground (arith, f)), refl)
  ]
]

write_string-Window :
    (bytes : List ℕ) (top : ℕ) (w : Writer) (screen : Screen) (p : Page)
    → Window top w screen p
    → (let after = write_string w screen bytes in
        (top' : ℕ) × Window top' after.0 after.1 (page_of w.color_code p bytes))
unfolding write_string
write_string-Window [] top w screen p v = (top, v)
write_string-Window (byte ∷ bytes) top w screen p v =
    let shown = if (leb 0x20 byte && leb byte 0x7e) || byte == 10 then byte else 0xfe in
    let after = write_byte w screen shown in
    let (top', v', k) = write_byte-Window top w screen p shown v in
    subst
      (λ color.
        (t : ℕ) × Window t (write_string after.0 after.1 bytes).0
          (write_string after.0 after.1 bytes).1 (page_of color (typed w.color_code p shown) bytes))
      k (write_string-Window bytes top' after.0 after.1 (typed w.color_code p shown) v')

-- After `clear_screen`, and whatever text is written then: each of the 2000 cells of the screen shows what
-- stands there on a page without an end, on which the text is written line by line and nothing scrolls,
-- seen through a window on the last 25 lines; the cursor is where the page's is, on the screen, and no
-- memory behind the screen is written by the text.
pub clear_screen-write_string :
    (w : Writer) (screen : Screen) (bytes : List ℕ)
    → (let cleared = clear_screen w screen in
        let after = write_string cleared.0 cleared.1 bytes in
        let p = page_of w.color_code (empty w.color_code) bytes in
        ((i : ℕ) → i < 2000 → after.1 i ≡ p.cells ((p.line - 24) * 80 + i))
        × (after.0.row ≡ p.line - (p.line - 24))
        × (after.0.column ≡ p.column)
        × Contained cleared.1 after)
unfolding clear_screen blank
clear_screen-write_string w screen bytes =
    let cleared = clear_screen w screen in
    let start : Window 0 cleared.0 cleared.1 (empty w.color_code) = record {
      same_line = refl;
      same_column = refl;
      row_on = omega arith;
      column_on = omega arith;
      lowest = inl refl;
      seen = λ i lt. ground (arith, clear_screen_lem w screen i, lt);
      below = λ j le. refl;
    } in
    let (top, v) = write_string-Window bytes 0 cleared.0 cleared.1 (empty w.color_code) start in
    let p = page_of w.color_code (empty w.color_code) bytes in
    let top_is : top ≡ p.line - 24 = omega (arith, v.same_line, v.lowest, v.row_on) in
    (
      λ i lt. v.seen i lt ∙ ap (λ t. p.cells (t * 80 + i)) top_is,
      omega (arith, v.same_line, top_is),
      sym v.same_column,
      write_string-Contained bytes cleared.0 cleared.1 (omega arith, omega arith),
    )

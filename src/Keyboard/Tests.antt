-- ===== src/Keyboard/Tests.antt =====
-- Scancodes typed at the keyboard, and the theorems about it at concrete states.
use goatos.Base.{◌≡◌, refl, true, false, List, [], ◌∷◌, arith}
use goatos.Input.{char, enter, new}
use goatos.Input.Valid.{new-IsValid}
use goatos.Keyboard.{Keyboard, translate, handle_all}
use goatos.Keyboard.Layout.{us_layout, IsPrintable, translate-eq-us_layout}
use goatos.Keyboard.Stream.{two_shifts}
use goatos.Keyboard.Typing.{Stroke, Typed, events, scancodes, typing_lem}

abbrev booted : Keyboard
booted = record { extended = false; shift = false; enqueued = 0; queue = new }

-- `Hi_`, then Enter
abbrev greeting : List Stroke
greeting =
    record { make = 0x23; shifted = true }
    ∷ record { make = 0x17; shifted = false }
    ∷ record { make = 0x0c; shifted = true }
    ∷ record { make = 0x1c; shifted = false }
    ∷ []

greeting-events : events greeting ≡ char b'H' ∷ char b'i' ∷ char b'_' ∷ enter ∷ []
unfolding events translate
greeting-events = refl

typing_lem_example : Typed booted (events greeting) (handle_all booted (scancodes greeting))
unfolding new
typing_lem_example = typing_lem booted greeting (omega arith) new-IsValid refl refl (omega arith)

translate-eq-us_layout_example :
    (translate true 0x10 ≡ us_layout true 0x10) × IsPrintable (translate true 0x10)
translate-eq-us_layout_example = translate-eq-us_layout true 0x10 (omega arith)

two_shifts_example : (handle_all booted (0x2a ∷ 0x36 ∷ 0xaa ∷ [])).shift ≡ false
two_shifts_example = two_shifts booted 0x2a 0x36 0x2a refl refl refl refl

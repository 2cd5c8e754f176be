-- ===== src/Keyboard/Typing.antt =====
-- Typing at the keyboard, from the scancodes of each stroke to the events that wait in the queue.
use goatos.Base.{
  ℕ, ◌+◌, ◌≤◌, ◌<◌, ◌≡◌, ◌≢◌, refl, sym, ap, ◌∙◌, Bool, true, false, Option, none, some, List, [],
  ◌∷◌, ◌++◌, arith, length, length-append, All,
}
use mathlib.Core.List.{append-nil, append_assoc}
use goatos.Input.{KeyEvent, capacity}
use goatos.Input.Valid.{IsValid, push-IsValid}
use goatos.Input.Fifo.{view, push_refines}
use goatos.Keyboard.{Keyboard, scan_lshift, translate, deliver, handle_scancode, handle_all}
use goatos.Keyboard.Stream.{
  is_shift, handle_plain-press, handle_plain-release, shift_press, shift_release,
}

-- A key pressed and released, with or without the left Shift key held around it.
pub record Stroke : Type 0 where
  pub make : ℕ
  pub shifted : Bool

unfoldable pub scancodes_of : ℕ → Bool → List ℕ
scancodes_of make false = make ∷ (make + 128) ∷ []
scancodes_of make true = scan_lshift ∷ make ∷ (make + 128) ∷ (scan_lshift + 128) ∷ []

unfoldable pub scancodes : List Stroke → List ℕ
unfolding scancodes_of
scancodes [] = []
scancodes (s ∷ ss) = scancodes_of s.make s.shifted ++ scancodes ss

abbrev pub option_list {ℓ} : {A : Type ℓ} → Option A → List A
option_list none = []
option_list (some a) = a ∷ []

length-option_list {ℓ} : {A : Type ℓ} (o : Option A) → length (option_list o) ≤ 1
length-option_list none = omega arith
length-option_list (some a) = omega arith

unfoldable pub events : List Stroke → List KeyEvent
events [] = []
events (s ∷ ss) = option_list (translate s.shifted s.make) ++ events ss

-- The make code of a key other than Shift. The release of 0x60 would read as the prefix 0xe0.
abbrev pub IsKey : Stroke → Type 0
IsKey s = (s.make < 128) × (s.make ≢ 0x60) × (s.make ≢ 0x2a) × (s.make ≢ 0x36)

not-is_shift : (make : ℕ) → make ≢ 0x2a → make ≢ 0x36 → is_shift make ≡ false
not-is_shift make p q = ground arith

abbrev waiting : Keyboard → List KeyEvent
waiting k = (view k.queue).waiting

handle_all-append :
    (k : Keyboard) (xs ys : List ℕ) → handle_all k (xs ++ ys) ≡ handle_all (handle_all k xs) ys
unfolding handle_all
handle_all-append k [] ys = refl
handle_all-append k (x ∷ xs) ys = handle_all-append (handle_scancode k x) xs ys

press :
    (k : Keyboard) (s : Stroke)
    → IsKey s
    → k.extended ≡ false
    → handle_scancode k s.make ≡ deliver k (translate k.shift s.make)
unfolding handle_scancode
press k s h e = ground (arith, handle_plain-press k s.make h.0 (not-is_shift s.make h.2 h.3))

release :
    (k : Keyboard) (s : Stroke)
    → IsKey s
    → k.extended ≡ false
    → handle_scancode k (s.make + 128) ≡ k
unfolding handle_scancode
release k s h e = ground (arith, handle_plain-release k s.make h.0 (not-is_shift s.make h.2 h.3))

deliver_keeps :
    (k : Keyboard) (o : Option KeyEvent)
    → ((deliver k o).extended ≡ k.extended) × ((deliver k o).shift ≡ k.shift)
unfolding deliver
deliver_keeps k none = (refl, refl)
deliver_keeps k (some e) = ground arith

-- What a stroke or a text leaves, started at `k` with `es` to be enqueued.
pub record Typed (k : Keyboard) (es : List KeyEvent) (l : Keyboard) : Type 0 where
  pub valid : IsValid l.queue
  pub plain : l.extended ≡ false
  pub unshifted : l.shift ≡ false
  pub waits : waiting l ≡ waiting k ++ es

deliver_waiting :
    (k : Keyboard) (o : Option KeyEvent)
    → IsValid k.queue
    → length (waiting k) < capacity
    → (waiting (deliver k o) ≡ waiting k ++ option_list o) × IsValid (deliver k o).queue
unfolding deliver
deliver_waiting k none v h = (sym (append-nil (waiting k)), v)
deliver_waiting k (some e) v h = ground (arith, push_refines k.queue e v, push-IsValid k.queue e v)

stroke-Typed :
    (k : Keyboard) (make : ℕ) (shifted : Bool)
    → IsKey (record { make = make; shifted = shifted })
    → IsValid k.queue
    → k.extended ≡ false
    → k.shift ≡ false
    → length (waiting k) < capacity
    → Typed k (option_list (translate shifted make)) (handle_all k (scancodes_of make shifted))
unfolding handle_all scancodes_of
stroke-Typed k make false h v e s room =
    let stroke : Stroke = record { make = make; shifted = false } in
    let o = translate k.shift make in
    ground (
      arith,
      press k stroke h e,
      release (deliver k o) stroke h,
      deliver_keeps k o,
      deliver_waiting k o v room,
    )
stroke-Typed k make true h v e s room =
    let stroke : Stroke = record { make = make; shifted = true } in
    let up = record k { shift = true } in
    let o = translate true make in
    ground (
      arith,
      shift_press k scan_lshift refl e,
      press up stroke h e,
      release (deliver up o) stroke h,
      shift_release (deliver up o) scan_lshift refl,
      deliver_keeps up o,
      deliver_waiting up o v room,
    )

-- With a valid queue, no prefix pending and Shift off: typing a text of ordinary keys, each with or without Shift, enqueues the event of each key that
-- the layout has, in order and behind what waits already, if there is room for one event a stroke;
-- it leaves Shift off.
pub typing_lem :
    (k : Keyboard) (ss : List Stroke)
    → All IsKey ss
    → IsValid k.queue
    → k.extended ≡ false
    → k.shift ≡ false
    → length (waiting k) + length ss ≤ capacity
    → Typed k (events ss) (handle_all k (scancodes ss))
unfolding events scancodes handle_all
typing_lem k [] h v e s room = record {
  valid = v;
  plain = e;
  unshifted = s;
  waits = sym (append-nil (waiting k));
}
typing_lem k (x ∷ ss) h v e s room =
    let first = stroke-Typed k x.make x.shifted h.0 v e s (omega arith) in
    let es = option_list (translate x.shifted x.make) in
    let rest =
      typing_lem (handle_all k (scancodes_of x.make x.shifted)) ss h.1 first.valid first.plain
        first.unshifted
        (omega (
          arith,
          ap length first.waits,
          length-append (waiting k) es,
          length-option_list (translate x.shifted x.make),
        )) in
    rw (handle_all-append k (scancodes_of x.make x.shifted) (scancodes ss)) (record {
      valid = rest.valid;
      plain = rest.plain;
      unshifted = rest.unshifted;
      waits =
          rest.waits
          ∙ ap (λ w. w ++ events ss) first.waits
          ∙ append_assoc (waiting k) es (events ss);
    })

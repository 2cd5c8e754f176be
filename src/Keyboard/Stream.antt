-- ===== src/Keyboard/Stream.antt =====
-- What each kind of scancode does, and what holds of any stream of them.
use goatos.Base.{
  ℕ, ◌+◌, ◌%◌, ◌^◌, ◌≤◌, ◌<◌, ◌≡◌, ◌≢◌, Bool, true, false, Option, none, some, List, [], ◌∷◌, ◌||◌,
  arith, ◌==◌, bit_and,
}
use goatos.Base.Bytes.{bit_and_top, bit_and_low}
use goatos.Input.{KeyEvent, capacity}
use goatos.Input
use goatos.Input.Valid.{IsValid, push-IsValid}
use goatos.Keyboard.{
  Keyboard, scancode_extended, scan_lshift, scan_rshift, translate, deliver, handle_plain,
  handle_scancode, handle_all,
}

abbrev pub is_shift : ℕ → Bool
is_shift make = make == scan_lshift || make == scan_rshift

pub handle_plain-press :
    (k : Keyboard) (make : ℕ)
    → make < 128
    → is_shift make ≡ false
    → handle_plain k make ≡ deliver k (translate k.shift make)
unfolding handle_plain
handle_plain-press k make h s =
    ground (arith, bit_and_top make (omega arith), bit_and_low make (omega arith))

pub handle_plain-release :
    (k : Keyboard) (make : ℕ) → make < 128 → is_shift make ≡ false → handle_plain k (make + 128) ≡ k
unfolding handle_plain
handle_plain-release k make h s =
    ground (arith, bit_and_top (make + 128) (omega arith), bit_and_low (make + 128) (omega arith))

-- With no prefix pending, the second byte of an extended key, unless it is again the prefix 0xe0, is dropped with its prefix: no key is
-- enqueued, and Shift stays as it was.
pub extended_ignored :
    (k : Keyboard) (byte : ℕ)
    → k.extended ≡ false
    → byte ≢ scancode_extended
    → handle_all k (scancode_extended ∷ byte ∷ []) ≡ k
unfolding handle_all handle_scancode
extended_ignored k byte e ne = ground arith

-- The count of enqueued keys rises, modulo 2^32, by as much as the queue has grown.
abbrev pub Counted : Keyboard → Keyboard → Type 0
Counted k l = (l.enqueued + k.queue.len) % 2 ^ 32 ≡ (k.enqueued + l.queue.len) % 2 ^ 32

pub record Keeps (k l : Keyboard) : Type 0 where
  pub valid : IsValid l.queue
  pub counted : Counted k l
  pub grown : k.queue.len ≤ l.queue.len

deliver-Keeps : (k : Keyboard) (o : Option KeyEvent) → IsValid k.queue → Keeps k (deliver k o)
unfolding deliver Input.push
deliver-Keeps k none v = ground arith
deliver-Keeps k (some e) v = ground (arith, push-IsValid k.queue e v)

handle_scancode-Keeps : (k : Keyboard) (c : ℕ) → IsValid k.queue → Keeps k (handle_scancode k c)
unfolding handle_scancode handle_plain
handle_scancode-Keeps k c v = ground (arith, deliver-Keeps k (translate k.shift (bit_and c 0x7f)) v)

-- Whatever bytes arrive, a valid queue stays valid, no waiting key is lost, and the count of enqueued
-- keys has risen by as many as the queue holds more.
pub handle_all-Keeps : (k : Keyboard) (cs : List ℕ) → IsValid k.queue → Keeps k (handle_all k cs)
unfolding handle_all
handle_all-Keeps k [] v = ground arith
handle_all-Keeps k (c ∷ cs) v =
    let one = handle_scancode-Keeps k c v in
    let rest = handle_all-Keeps (handle_scancode k c) cs one.valid in
    record {
      valid = rest.valid;
      counted = omega (arith, one.counted, rest.counted, one.grown, rest.grown);
      grown = omega (arith, one.grown, rest.grown);
    }

pub shift_press :
    (k : Keyboard) (c : ℕ)
    → is_shift c ≡ true
    → k.extended ≡ false
    → handle_scancode k c ≡ record k { shift = true }
unfolding handle_scancode handle_plain
shift_press k c s e = ground arith

pub shift_release :
    (k : Keyboard) (c : ℕ)
    → is_shift c ≡ true
    → k.extended ≡ false
    → handle_scancode k (c + 128) ≡ record k { shift = false }
unfolding handle_scancode handle_plain
shift_release k c s e = ground arith

-- With no prefix pending: press one Shift key, press a Shift key again, and release one: Shift is off. So it is with both
-- Shift keys held and one of them released, although the other is still held.
pub two_shifts :
    (k : Keyboard) (first second released : ℕ)
    → is_shift first ≡ true
    → is_shift second ≡ true
    → is_shift released ≡ true
    → k.extended ≡ false
    → (handle_all k (first ∷ second ∷ (released + 128) ∷ [])).shift ≡ false
unfolding handle_all
two_shifts k a b c p q r e =
    let k' = record k { shift = true } in
    rw (shift_press k a p e, shift_press k' b q e, shift_release k' c r e)

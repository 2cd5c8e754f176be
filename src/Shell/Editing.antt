-- ===== src/Shell/Editing.antt =====
-- The line that the user edits: what each key makes of it, and what the screen shows.
use goatos.Base.{
  ◌⊎◌, ℕ, zero, suc, ◌+◌, ◌≤◌, ◌<◌, ◌≡◌, ◌≢◌, refl, sym, ap, ◌∙◌, Bool, true, false, ◌&&◌, List, [],
  ◌∷◌, ◌++◌, ltb, leb, if◌then◌else◌, arith, length, length-set, take, set, Bool-cases, inl, inr,
}
use native.Mathlib.Numerals.{add-one}
use goatos.Input.{KeyEvent, char, enter, backspace}
use goatos.Shell.{
  Machine, Effect, prints, prints_line, erases, prompt, run_line, LineEditor, line_capacity,
  push_char, pop_char, as_str, clear, handle_event,
}

-- The buffer has all its slots and the line is no longer than the buffer.
abbrev pub Fits : LineEditor → Type 0
Fits e = (length e.buf ≡ line_capacity) × (e.len ≤ line_capacity)

pub drop_last : List ℕ → List ℕ
drop_last [] = []
drop_last (x ∷ []) = []
drop_last (x ∷ y ∷ ys) = x ∷ drop_last (y ∷ ys)

-- What a key makes of a line: a printable character is added while there is room, backspace removes
-- the last character, Enter starts over.
pub edited : List ℕ → KeyEvent → List ℕ
edited l (char c) =
    if ltb (length l) line_capacity && (leb b' ' c && leb c b'~') then l ++ (c ∷ []) else l
edited l backspace = drop_last l
edited l enter = []

unfoldable pub edited_by : List ℕ → List KeyEvent → List ℕ
edited_by l [] = l
edited_by l (k ∷ ks) = edited_by (edited l k) ks

length-take : (n : ℕ) (xs : List ℕ) → n ≤ length xs → length (take n xs) ≡ n
length-take zero xs h = refl
length-take (suc n) [] h = absurd (omega arith)
length-take (suc n) (x ∷ xs) h = ap suc (length-take n xs (omega arith))

take-set :
    (n c : ℕ) (xs : List ℕ) → n < length xs → take (suc n) (set xs n c) ≡ take n xs ++ (c ∷ [])
take-set zero c [] h = absurd (omega arith)
take-set zero c (x ∷ xs) h = refl
take-set (suc n) c [] h = absurd (omega arith)
take-set (suc n) c (x ∷ xs) h = ap (◌∷◌ x) (take-set n c xs (omega arith))

drop_last-take : (n : ℕ) (xs : List ℕ) → n < length xs → drop_last (take (suc n) xs) ≡ take n xs
unfolding drop_last
drop_last-take n [] h = absurd (omega arith)
drop_last-take zero (x ∷ xs) h = refl
drop_last-take (suc n) (x ∷ []) h = absurd (omega arith)
drop_last-take (suc n) (x ∷ y ∷ ys) h = ap (◌∷◌ x) (drop_last-take n (y ∷ ys) (omega arith))

drop_last-snoc : (l : List ℕ) (c : ℕ) → drop_last (l ++ (c ∷ [])) ≡ l
unfolding drop_last
drop_last-snoc [] c = refl
drop_last-snoc (x ∷ []) c = refl
drop_last-snoc (x ∷ y ∷ ys) c = ap (◌∷◌ x) (drop_last-snoc (y ∷ ys) c)

-- The line on the screen after these effects, none of which ends it.
pub shown : List ℕ → List Effect → List ℕ
shown l [] = l
shown l (prints text ∷ es) = shown (l ++ text) es
shown l (erases ∷ es) = shown (drop_last l) es
shown l (_ ∷ es) = shown l es

-- These effects edit the line on the screen and do nothing else.
abbrev pub OnlyEdits : List Effect → Type 0
OnlyEdits [] = Unit {0}
OnlyEdits (prints text ∷ es) = OnlyEdits es
OnlyEdits (erases ∷ es) = OnlyEdits es
OnlyEdits (_ ∷ es) = ⊥

-- What a key has done: the line is the edited one, and unless the key was Enter, the effects turn the
-- line on the screen from the old one into it. Enter ends the line on the screen, runs the line as it
-- was before the key, and shows the prompt.
pub record Handled (m : Machine) (e : LineEditor) (k : KeyEvent)
    (r : LineEditor × Bool × List Effect) : Type 0 where
  pub fits : Fits r.0
  pub line : as_str r.0 ≡ edited (as_str e) k
  pub echoed : k ≢ enter → shown (as_str e) r.2 ≡ as_str r.0
  pub quiet : k ≢ enter → OnlyEdits r.2
  pub submits : (r.1 ≡ true → k ≡ enter) × (k ≡ enter → r.1 ≡ true)
  pub runs : k ≡ enter → r.2 ≡ prints_line [] ∷ (run_line m (as_str e) ++ (prints prompt ∷ []))

char-ne-enter : (c : ℕ) → ◌≡◌ {A = KeyEvent} (char c) enter → ⊥
char-ne-enter c e = cc

length-as_str : (e : LineEditor) → Fits e → length (as_str e) ≡ e.len
unfolding as_str
length-as_str e f = length-take e.len e.buf (omega (arith, f))

module _ (m : Machine) (e : LineEditor) (f : Fits e) where
  refused-Handled :
      (c : ℕ)
      → ltb e.len line_capacity && (leb b' ' c && leb c b'~') ≡ false
      → Handled m e (char c) (handle_event m e (char c))
  unfolding handle_event push_char edited shown
  refused-Handled c bad =
      let stay : push_char e c ≡ (e, false) = ground (arith, bad) in
      let same : edited (as_str e) (char c) ≡ as_str e = rw (length-as_str e f, bad, edited) refl in
      rw (stay, handle_event)
        (record {
          fits = f;
          line = sym same;
          echoed = λ n. refl;
          quiet = λ n. tt;
          submits = (λ h. ground (arith, h), λ h. absurd (char-ne-enter c h));
          runs = λ h. absurd (char-ne-enter c h);
        })

  taken-Handled :
      (c : ℕ)
      → ltb e.len line_capacity && (leb b' ' c && leb c b'~') ≡ true
      → Handled m e (char c) (handle_event m e (char c))
  unfolding handle_event push_char as_str edited shown
  taken-Handled c room =
      let go : push_char e c ≡ (record e { buf = set e.buf e.len c; len = e.len + 1 }, true) =
        ground (arith, room) in
      let same : edited (as_str e) (char c) ≡ as_str e ++ (c ∷ []) =
        rw (length-as_str e f, room, edited) refl in
      let grown : take (e.len + 1) (set e.buf e.len c) ≡ as_str e ++ (c ∷ []) =
        rw add-one (take-set e.len c e.buf (ground (arith, f, room))) in
      rw (go, handle_event)
        (record {
          fits = (length-set e.buf e.len c ∙ f.0, ground (arith, room));
          line = grown ∙ sym same;
          echoed = λ n. sym grown;
          quiet = λ n. tt;
          submits = (λ h. ground (arith, h), λ h. absurd (char-ne-enter c h));
          runs = λ h. absurd (char-ne-enter c h);
        })

  removed-Handled : (n : ℕ) → e.len ≡ suc n → Handled m e backspace (handle_event m e backspace)
  unfolding handle_event pop_char as_str edited shown drop_last
  removed-Handled n l =
      let go : pop_char e ≡ (record e { len = n }, true) = ground (arith, l) in
      let shorter : take n e.buf ≡ drop_last (as_str e) =
        sym (drop_last-take n e.buf (omega (arith, f, l)))
        ∙ ap (λ k. drop_last (take k e.buf)) (sym l) in
      rw (go, handle_event)
        (record {
          fits = (f.0, omega (arith, f, l));
          line = shorter;
          echoed = λ n. sym shorter;
          quiet = λ n. tt;
          submits = (λ h. ground (arith, h), λ h. ground (arith, h));
          runs = λ h. cc h;
        })

  empty-Handled : e.len ≡ 0 → Handled m e backspace (handle_event m e backspace)
  unfolding handle_event pop_char as_str edited shown drop_last
  empty-Handled l =
      let stay : pop_char e ≡ (e, false) = ground (arith, l) in
      let same : drop_last (as_str e) ≡ as_str e = rw (l, drop_last) refl in
      rw (stay, handle_event)
        (record {
          fits = f;
          line = sym same;
          echoed = λ n. refl;
          quiet = λ n. tt;
          submits = (λ h. ground (arith, h), λ h. ground (arith, h));
          runs = λ h. cc h;
        })

enter-Handled : (m : Machine) (e : LineEditor) → Fits e → Handled m e enter (handle_event m e enter)
unfolding handle_event as_str clear edited
enter-Handled m e f = record {
  fits = (f.0, omega arith);
  line = refl;
  echoed = λ n. absurd (n refl);
  quiet = λ n. absurd (n refl);
  submits = (λ h. refl, λ h. refl);
  runs = λ h. refl;
}

zero-or-suc : (n : ℕ) → (n ≡ 0) ⊎ ((k : ℕ) × (n ≡ suc k))
zero-or-suc zero = inl refl
zero-or-suc (suc k) = inr (k, refl)

-- For an editor that fits, each key makes of its line what `edited` says: a printable character is
-- added while there is room, backspace removes the last one, Enter leaves an empty line. A key other
-- than Enter turns the line on the screen from the old line into the new one, with no other effect, and answers that nothing
-- was submitted; Enter answers that it was, and its effects are a new line, then just those of
-- `run_line` on the whole line as it stood before the key, then the prompt (unless a command panics, which ends the run there). The editor still fits.
pub handle_event-Handled :
    (m : Machine) (e : LineEditor) (k : KeyEvent) → Fits e → Handled m e k (handle_event m e k)
handle_event-Handled m e (char c) f =
    elim (Bool-cases (ltb e.len line_capacity && (leb b' ' c && leb c b'~'))) [
      | inl room ↦ taken-Handled m e f c room
      | inr bad ↦ refused-Handled m e f c bad
    ]
handle_event-Handled m e backspace f = elim (zero-or-suc e.len) [
  | inl l ↦ empty-Handled m e f l
  | inr (n, l) ↦ removed-Handled m e f n l
]
handle_event-Handled m e enter f = enter-Handled m e f

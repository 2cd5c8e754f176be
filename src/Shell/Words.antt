-- ===== src/Shell/Words.antt =====
-- How a line is split into the command and its arguments.
use goatos.Base.{ℕ, ◌<◌, ◌≡◌, refl, ap, true, false, List, [], ◌∷◌, ◌++◌, arith, length, All}
use goatos.Shell.{is_whitespace, trim_start, split_word, split_command}

abbrev pub Blank : List ℕ → Type 0
Blank = All (λ c. is_whitespace c ≡ true)

abbrev pub Word : List ℕ → Type 0
Word = All (λ c. is_whitespace c ≡ false)

-- The text does not start with whitespace.
abbrev pub Starts : List ℕ → Type 0
Starts [] = Unit {0}
Starts (c ∷ cs) = is_whitespace c ≡ false

trim_start-Starts : (cs : List ℕ) → Starts cs → trim_start cs ≡ cs
unfolding trim_start
trim_start-Starts [] s = refl
trim_start-Starts (c ∷ cs) s = rw (s, trim_start)

trim_start-Blank : (bs cs : List ℕ) → Blank bs → Starts cs → trim_start (bs ++ cs) ≡ cs
unfolding trim_start
trim_start-Blank [] cs b s = trim_start-Starts cs s
trim_start-Blank (c ∷ bs) cs b s = rw (b.0, trim_start) (trim_start-Blank bs cs b.1 s)

split_word-Blank :
    (bs cs : List ℕ) → Blank bs → 0 < length bs → split_word (bs ++ cs) ≡ ([], bs ++ cs)
unfolding split_word
split_word-Blank [] cs b h = absurd (omega arith)
split_word-Blank (c ∷ bs) cs b h = rw (b.0, split_word)

split_word-Word :
    (ws rest : List ℕ)
    → Word ws
    → split_word rest ≡ ([], rest)
    → split_word (ws ++ rest) ≡ (ws, rest)
unfolding split_word
split_word-Word [] rest w e = e
split_word-Word (c ∷ ws) rest w e = rw (w.0, split_word-Word ws rest w.1 e, split_word)

Starts-append : (ws rest : List ℕ) → Word ws → 0 < length ws → Starts (ws ++ rest)
Starts-append [] rest w h = absurd (omega arith)
Starts-append (c ∷ ws) rest w h = w.0

-- A line of blanks, a word, at least one blank and arguments that do not start with a blank is split
-- into the word and the arguments.
pub split_command-Word :
    (blanks word gap args : List ℕ)
    → Blank blanks
    → Word word
    → 0 < length word
    → Blank gap
    → 0 < length gap
    → Starts args
    → split_command (blanks ++ (word ++ (gap ++ args))) ≡ (word, args)
unfolding split_command
split_command-Word blanks word gap args b w h g k s =
    rw
      (
        trim_start-Blank blanks (word ++ (gap ++ args)) b (Starts-append word (gap ++ args) w h),
        split_word-Word word (gap ++ args) w (split_word-Blank gap args g k),
        split_command,
      )
      (ap (λ r. (word, r)) (trim_start-Blank gap args g s))

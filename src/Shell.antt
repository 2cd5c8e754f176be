-- ===== src/Shell.antt =====
-- The shell of kernel/src/shell.rs: the line editor and the built-in commands. What goes to the
-- screen and to the serial port is a list of effects; a text is the list of its bytes, which are
-- ASCII, as the editor takes no others. The file system is the one of Fs; the library's test for
-- UTF-8 is a parameter.
pub mod Editing
pub mod Draining
pub mod Words
mod Tests
use goatos.Base.{
  ℕ, zero, suc, ◌+◌, ◌-◌, Bool, true, false, not, ◌&&◌, ◌||◌, Option, none, some, List, [], ◌∷◌,
  ◌++◌, ◌==◌, ltb, leb, if◌then◌else◌, length, take, set, replicate,
}
use goatos.Base.Bytes.{code_points}
use goatos.Input.{KeyEvent, char, enter, backspace, Queue}
use goatos.Input
use goatos.Fs.{
  Disk, Fs, FsError, Outcome, ok, err, not_found, not_mounted, max_file_size, same_bytes, read_file,
}

abbrev pub line_capacity : ℕ
line_capacity = 72

abbrev pub prompt : List ℕ
prompt = b'>' ∷ b' ' ∷ []

pub record LineEditor : Type 0 where
  pub buf : List ℕ
  pub len : ℕ

-- A command's fixed texts are not spelled out. `panics` is the last effect that comes about: the machine
-- halts there, so that what a list has behind it, and the state after the call, are never reached.
pub data Effect : Type 0 where
  prints : List ℕ → Effect
  prints_line : List ℕ → Effect
  erases clears_screen help_text about_text usage unmounted panics : Effect
  unknown : List ℕ → Effect
  missing : List ℕ → Effect
  fails : List ℕ → FsError → Effect
  not_text : List ℕ → ℕ → Effect

unfoldable pub new : LineEditor
new = record { buf = replicate line_capacity 0; len = 0 }

unfoldable pub clear : LineEditor → LineEditor
clear e = record e { len = 0 }

unfoldable pub as_str : LineEditor → List ℕ
as_str e = take e.len e.buf

unfoldable pub push_char : LineEditor → ℕ → LineEditor × Bool
push_char e c =
    if leb line_capacity e.len
    then (e, false)
    else if not (leb b' ' c && leb c b'~')
    then (e, false)
    else (record e { buf = set e.buf e.len c; len = e.len + 1 }, true)

unfoldable pub pop_char : LineEditor → LineEditor × Bool
pop_char e = if e.len == 0 then (e, false) else (record e { len = e.len - 1 }, true)

-- `char::is_whitespace`, on ASCII.
unfoldable pub is_whitespace : ℕ → Bool
is_whitespace c = c == 32 || (leb 9 c && leb c 13)

unfoldable pub trim_start : List ℕ → List ℕ
unfolding is_whitespace
trim_start [] = []
trim_start (c ∷ cs) = let rest = trim_start cs in if is_whitespace c then rest else c ∷ cs

-- A text that is all whitespace has nothing left.
unfoldable pub trim_end : List ℕ → List ℕ
unfolding is_whitespace
trim_end [] = []
trim_end (c ∷ cs) = elim (trim_end cs) [
  | [] ↦ if is_whitespace c then [] else c ∷ []
  | d ∷ ds ↦ c ∷ d ∷ ds
]

unfoldable pub trim : List ℕ → List ℕ
unfolding trim_start trim_end
trim cs = trim_end (trim_start cs)

-- The text before the first whitespace, and the text from it on.
unfoldable pub split_word : List ℕ → List ℕ × List ℕ
split_word [] = ([], [])
split_word (c ∷ cs) =
    let (word, rest) = split_word cs in if is_whitespace c then ([], c ∷ cs) else (c ∷ word, rest)

unfoldable pub split_command : List ℕ → List ℕ × List ℕ
unfolding split_word
split_command line = let (cmd, rest) = split_word (trim_start line) in (cmd, trim_start rest)

unfoldable pub any_whitespace : List ℕ → Bool
any_whitespace [] = false
any_whitespace (c ∷ cs) = is_whitespace c || any_whitespace cs

unfoldable pub ends_with_newline : List ℕ → Bool
ends_with_newline [] = false
ends_with_newline (c ∷ []) = c == 10
ends_with_newline (c ∷ d ∷ ds) = ends_with_newline (d ∷ ds)

-- What the commands read: the disk, the mounted files, and `core::str::from_utf8(…).is_ok()`.
pub record Machine : Type 0 where
  pub disk : Disk
  pub fs : Fs
  pub is_utf8 : List ℕ → Bool

-- The end of `cmd_cat`, with what `read_file` has returned.
unfoldable pub show_file : Machine → List ℕ → Outcome FsError ℕ × List ℕ → List Effect
show_file m path (ok n, buf) =
    let text = take n buf in
    if m.is_utf8 text
    then (if ends_with_newline text then prints text ∷ [] else prints_line text ∷ [])
    else not_text path n ∷ []
show_file m path (err not_found, buf) = missing path ∷ []
show_file m path (err not_mounted, buf) = unmounted ∷ []
show_file m path (err e, buf) = fails path e ∷ []

unfoldable pub cmd_cat : Machine → List ℕ → List Effect
unfolding trim any_whitespace show_file
cmd_cat m args =
    let path = trim args in
    if length path == 0
    then usage ∷ []
    else if any_whitespace path
    then usage ∷ []
    else elim (read_file m.disk m.fs path (replicate max_file_size 0)) [
      | none ↦ panics ∷ []
      | some answer ↦ show_file m path answer
    ]

unfoldable pub dispatch : Machine → List ℕ → List ℕ → List Effect
unfolding cmd_cat
dispatch m cmd rest =
    if same_bytes cmd (code_points "help")
    then help_text ∷ []
    else if same_bytes cmd (code_points "clear")
    then clears_screen ∷ []
    else if same_bytes cmd (code_points "echo")
    then prints_line rest ∷ []
    else if same_bytes cmd (code_points "about")
    then about_text ∷ []
    else if same_bytes cmd (code_points "cat")
    then cmd_cat m rest
    else unknown cmd ∷ []

unfoldable pub run_line : Machine → List ℕ → List Effect
unfolding trim split_command dispatch
run_line m line =
    let line = trim line in
    let (cmd, rest) = split_command line in if length line == 0 then [] else dispatch m cmd rest

unfoldable pub handle_event : Machine → LineEditor → KeyEvent → LineEditor × Bool × List Effect
unfolding push_char pop_char run_line as_str clear
handle_event m e (char c) =
    let (after, taken) = push_char e c in (after, false, if taken then prints (c ∷ []) ∷ [] else [])
handle_event m e backspace =
    let (after, taken) = pop_char e in (after, false, if taken then erases ∷ [] else [])
handle_event m e enter =
    (clear e, true, prints_line [] ∷ (run_line m (as_str e) ++ (prints prompt ∷ [])))

-- The loop of `drain_input` on fuel; `Draining` shows that the length of the queue is enough.
unfoldable pub drain : Machine → ℕ → Queue → LineEditor → Queue × LineEditor × List Effect
unfolding handle_event
drain m zero q e = (q, e, [])
drain m (suc fuel) q e =
    let (q', event) = Input.pop q in
    elim event [
      | none ↦ (q', e, [])
      | some k ↦
          let (e', submitted, out) = handle_event m e k in
          let (q'', e'', more) = drain m fuel q' e' in (q'', e'', out ++ more)
    ]

unfoldable pub drain_input : Machine → Queue → LineEditor → Queue × LineEditor × List Effect
unfolding drain
drain_input m q e = drain m (suc q.len) q e

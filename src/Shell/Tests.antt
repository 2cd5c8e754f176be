-- ===== src/Shell/Tests.antt =====
-- A line typed into the shell, and the theorems about it.
use goatos.Base.{◌≡◌, refl, true, false, [], arith}
use goatos.Base.Bytes.{code_points}
use goatos.Input.{KeyEvent, Queue, char, enter, backspace, capacity}
use goatos.Input
use goatos.Input.Fifo.{view}
use goatos.Input.Valid.{new-IsValid, push-IsValid}
use goatos.Fs.{err, not_present}
use goatos.Shell.{Machine, new, is_whitespace, split_command, handle_event, drain_input}
use goatos.Shell.Editing.{Handled, handle_event-Handled}
use goatos.Shell.Draining.{Drained, drain_input-Drained}
use goatos.Shell.Words.{split_command-Word}

abbrev machine : Machine
machine = record {
  disk = λ lba size. err not_present;
  fs = record { mounted = false; files = [] };
  is_utf8 = λ text. true;
}

abbrev waiting_queue : Queue
waiting_queue = (Input.push Input.new (char b'h')).0

handle_event-Handled_example : Handled machine new backspace (handle_event machine new backspace)
unfolding new
handle_event-Handled_example = handle_event-Handled machine new backspace (refl, omega arith)

drain_input-Drained_example :
    Drained (view waiting_queue).waiting new (drain_input machine waiting_queue new)
unfolding new
drain_input-Drained_example =
    drain_input-Drained machine waiting_queue new (push-IsValid Input.new (char b'h') new-IsValid)
      (refl, omega arith)

split_command-Word_example :
    split_command (code_points " echo  hi there") ≡ (code_points "echo", code_points "hi there")
unfolding is_whitespace
split_command-Word_example =
    split_command-Word (code_points " ") (code_points "echo") (code_points "  ")
      (code_points "hi there") (ground arith) (ground arith) (omega arith) (ground arith)
      (omega arith) refl

-- ===== src/Input/Tests.antt =====
-- Runs of the input queue, and the theorems about it at concrete queues.
use goatos.Base.{◌≡◌, refl, true, none, some, [], ◌∷◌, arith, replicate, set}
use goatos.Input.{Queue, char, enter, backspace, capacity, push, pop}
use goatos.Input.Valid.{IsValid, push-IsValid}
use goatos.Input.Fifo.{pushes, pops, pushed, popped, step, run, view, fifo_run, seen, run_refines}

-- Two events, the second past the end of the buffer.
abbrev wrapped : Queue
wrapped = record {
  buf = set (set (replicate capacity (char 0)) 63 enter) 0 (char b'a');
  head = 1;
  tail = 63;
  len = 2;
  dropped = 0;
}

wrapped-IsValid : IsValid wrapped
wrapped-IsValid = record {
  storage = refl;
  tail_in = omega arith;
  len_in = omega arith;
  head_at = refl;
  dropped_in = omega arith;
}

wrapped_order : (view wrapped).waiting ≡ enter ∷ char b'a' ∷ []
wrapped_order = refl

run_refines_example :
    seen (run wrapped (pops ∷ pushes backspace ∷ pops ∷ []))
    ≡ fifo_run (view wrapped) (pops ∷ pushes backspace ∷ pops ∷ [])
run_refines_example = run_refines wrapped (pops ∷ pushes backspace ∷ pops ∷ []) wrapped-IsValid

run-wrapped :
    (run wrapped (pops ∷ pushes backspace ∷ pops ∷ pops ∷ pops ∷ [])).1
    ≡ popped (some enter)
      ∷ pushed true
      ∷ popped (some (char b'a'))
      ∷ popped (some backspace)
      ∷ popped none
      ∷ []
unfolding run step push pop
run-wrapped = refl

push-IsValid_example : IsValid (push wrapped enter).0
push-IsValid_example = push-IsValid wrapped enter wrapped-IsValid

-- ===== src/Interrupts/Tests.antt =====
-- The theorem on the catch-all at two interrupts.
use goatos.Base.{◌≡◌, none, some, [], ◌∷◌, arith, ltb}
use goatos.Interrupts.{Entries, init}
use goatos.Interrupts.Dispatch.{
  Diagnosis, reset, Event, dispatch, dispatch_all, no_handler, resumed_software,
  exception_vector_count,
}
use goatos.Interrupts.Dispatch.Once.{dispatch-once}
use goatos.Pic.{Device}

abbrev at_60 : Event
at_60 = record {
  vector = 0x60;
  error_code = none;
  frame = record { eip = 0x8000; cs = 8; eflags = 2 };
}

abbrev at_61 : Event
at_61 = record {
  vector = 0x61;
  error_code = none;
  frame = record { eip = 0x9000; cs = 8; eflags = 2 };
}

abbrev idle : Device
idle log port = 0

dispatch-once_example :
    ((dispatch idle
        (dispatch_all idle reset [] (at_60 ∷ [])).0
        (dispatch_all idle reset [] (at_60 ∷ [])).1
        0x61
        none
        at_61.frame).printed
      ≡ some (record {
        vector = 0x61;
        cause = no_handler;
        frame = at_61.frame;
        error_code = none;
        verdict = resumed_software;
      }))
    × ((dispatch idle
          (dispatch_all idle reset [] (at_60 ∷ [])).0
          (dispatch_all idle reset [] (at_60 ∷ [])).1
          0x61
          none
          at_61.frame).log
        ≡ (dispatch_all idle reset [] (at_60 ∷ [])).1)
    × ((dispatch idle
          (dispatch_all idle reset [] (at_60 ∷ [])).0
          (dispatch_all idle reset [] (at_60 ∷ [])).1
          0x61
          none
          at_61.frame).halts
        ≡ ltb 0x61 exception_vector_count)
    × ((dispatch idle
          (dispatch_all idle reset [] (at_60 ∷ [])).0
          (dispatch_all idle reset [] (at_60 ∷ [])).1
          0x61
          none
          at_61.frame).reports.unhandled_total
        ≡ 2)
unfolding goatos.Interrupts.Dispatch.cause_of goatos.Interrupts.Dispatch.verdict_of
dispatch-once_example = dispatch-once idle [] (at_60 ∷ []) at_61 (omega arith, tt)

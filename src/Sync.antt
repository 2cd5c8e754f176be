-- ===== src/Sync.antt =====
-- The lock of kernel/src/sync.rs that an interrupt handler can take again: `IrqMutex.with`. The world is
-- the interrupt flag of the processor and the mutex; the closure is any function on it, so that it can
-- be interrupted by what takes the lock again. Memory orderings do not matter on one processor.
pub mod Nested
mod Tests
use goatos.Base.{Bool, true, false, not, if◌then◌else◌}

pub record World (T : Type 0) : Type 0 where
  -- `EFLAGS_IF`
  pub interrupts : Bool
  pub locked : Bool
  pub value : T

-- `IrqMutex::new`, with the flag as it is.
abbrev pub new : {T : Type 0} → Bool → T → World T
new interrupts value = record { interrupts = interrupts; locked = false; value = value }

unfoldable pub with_lock : {R T : Type 0} → (World T → R × World T) → World T → R × World T
with_lock f w =
    let saved_flags = w.interrupts in
    let acquired = not w.locked in
    let (result, w1) = f (record w { interrupts = false; locked = true }) in
    let w2 = if acquired then record w1 { locked = false } else w1 in
    (result, if saved_flags then record w2 { interrupts = true } else w2)

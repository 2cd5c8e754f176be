-- ===== src/Drivers.antt =====
-- The two drivers at work, kernel/src/pit.rs and kernel/src/keyboard.rs: the interrupts of the timer and
-- of the keyboard in the order in which they come. Each handler runs to its end with interrupts off.
pub mod Served
mod Tests
use goatos.Base.{ℕ, List, [], ◌∷◌}
use goatos.Pic.{Device, Log}
use goatos.Keyboard.{Keyboard}
use goatos.Keyboard.Controller.{Controller, keyboard_interrupt}
use goatos.Pit.{timer_interrupt}

-- An interrupt, the keyboard's with the state that its controller is in by then.
pub data Irq {ℓ} (S : Type ℓ) : Type ℓ where
  timer : Irq S
  keyboard : S → Irq S

pub record Machine {ℓ} (S : Type ℓ) : Type ℓ where
  pub ticks : ℕ
  pub controller : S
  pub log : Log
  pub keys : Keyboard

module _ {ℓ} {S : Type ℓ} (controller : Controller S) (device : Device) where
  unfoldable pub serve : Machine S → Irq S → Machine S
  unfolding timer_interrupt keyboard_interrupt
  serve m timer =
      let (ticks, log) = timer_interrupt device m.ticks m.log in
      record m { ticks = ticks; log = log }
  serve m (keyboard s) =
      let (s', log, keys) = keyboard_interrupt controller device s m.log m.keys in
      record m { controller = s'; log = log; keys = keys }

  unfoldable pub serve_all : Machine S → List (Irq S) → Machine S
  serve_all m [] = m
  serve_all m (i ∷ is) = serve_all (serve m i) is

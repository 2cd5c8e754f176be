-- ===== src/Boot.antt =====
-- The parts of `kernel_main`, kernel/src/main.rs, that set the processor and the interrupt controllers
-- up: the descriptor tables, the gates of all vectors, and the two drivers that ask for their lines.
pub mod Vectors
pub mod DoubleFault
pub mod Seconds
mod Tests
use goatos.Base.{ℕ}
use goatos.Idt.{Idt}
use goatos.Pic.{Device, Log}
use goatos.Gdt.{Loaded}
use goatos.Tss.{Segments}
use goatos.Interrupts.{Entries}
use goatos.Exceptions.{Handlers}
use goatos.Keyboard.{Keyboard}
use goatos.Keyboard.Controller.{Controller}
use goatos.Idt
use goatos.Pic
use goatos.Gdt
use goatos.Tss
use goatos.Interrupts
use goatos.Exceptions
use goatos.Pit
use goatos.Keyboard.Controller

-- Where the linker puts the statics, the private stack's top and the handlers.
pub record Image : Type 0 where
  pub gdt : ℕ
  pub main_tss : ℕ
  pub double_fault_tss : ℕ
  pub stack_top : ℕ
  pub double_fault_entry : ℕ
  pub exceptions : Handlers
  pub entries : Entries
  pub timer_interrupt : ℕ
  pub keyboard_interrupt : ℕ

-- What the first half leaves, with the number of spare vectors.
pub record TakenOver : Type 0 where
  pub segments : Segments
  pub gdt : Loaded
  pub idt : Idt
  pub log : Log
  pub spare_vectors : ℕ

-- From `tss::init` to `interrupts::init`.
unfoldable pub take_over : Image → Log → TakenOver
take_over image log =
    let idt = goatos.Exceptions.init image.exceptions goatos.Idt.init in
    let filled = goatos.Interrupts.init image.entries idt in
    record {
      segments = goatos.Tss.init image.double_fault_entry image.stack_top;
      gdt =
          goatos.Gdt.init image.gdt (goatos.Tss.location_of image.main_tss)
            (goatos.Tss.location_of image.double_fault_tss);
      idt = filled.0;
      log = goatos.Pic.init log;
      spare_vectors = filled.1;
    }

pub record Started {ℓ} (S : Type ℓ) : Type ℓ where
  pub ticks : ℕ
  pub controller : S
  pub idt : Idt
  pub log : Log
  pub keyboard : Keyboard

-- `pit::init` and `keyboard::init`.
unfoldable pub start_drivers {ℓ} :
    {S : Type ℓ} → Controller S → Device → Image → S → Idt → Log → Keyboard → Started S
start_drivers controller device image s idt log k =
    let (ticks, idt', log') = goatos.Pit.init device image.timer_interrupt idt log in
    let (s', idt'', log'', k') =
      goatos.Keyboard.Controller.init controller device image.keyboard_interrupt s idt' log' k in
    record { ticks = ticks; controller = s'; idt = idt''; log = log''; keyboard = k' }

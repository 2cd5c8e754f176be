-- ===== src/Drivers/Tests.antt =====
-- The theorem on a run of interrupts, at a controller that is a list of waiting bytes.
use goatos.Base.{ℕ, ◌+◌, ◌%◌, ◌^◌, ◌≡◌, false, List, [], ◌∷◌, ◌++◌, length, arith}
use goatos.Input.{new}
use goatos.Input.Valid.{new-IsValid}
use goatos.Pic.{Device}
use goatos.Keyboard.{handle_all}
use goatos.Keyboard.Controller.{Controller}
use goatos.Keyboard.Stream.{Keeps}
use goatos.Drivers.{Irq, timer, keyboard, Machine, serve_all}
use goatos.Drivers.Served.{timers, scancodes, told, serve_all_lem}

abbrev waiting : List ℕ → ℕ
waiting [] = 0
waiting (b ∷ bs) = 1

abbrev take_byte : List ℕ → ℕ × List ℕ
take_byte [] = (0, [])
take_byte (b ∷ bs) = (b, bs)

abbrev bytes : Controller (List ℕ)
bytes = record { status = waiting; take = take_byte }

abbrev quiet : Device
quiet log port = 0

abbrev started : Machine (List ℕ)
started = record {
  ticks = 0xffffffff;
  controller = [];
  log = [];
  keys = record { extended = false; shift = false; enqueued = 0; queue = new };
}

-- A tick that wraps, a key, its release, and an interrupt with nothing to read.
abbrev irqs : List (Irq (List ℕ))
irqs = timer ∷ keyboard (0x1e ∷ []) ∷ timer ∷ keyboard (0x9e ∷ []) ∷ keyboard [] ∷ []

serve_all_lem_example :
    (let after = serve_all bytes quiet started irqs in
      (after.ticks ≡ (started.ticks + timers irqs) % 2 ^ 32)
      × (after.keys ≡ handle_all started.keys (scancodes bytes irqs))
      × (after.log ≡ told (length irqs) ++ started.log)
      × Keeps started.keys after.keys)
serve_all_lem_example = serve_all_lem bytes quiet started irqs (omega arith) new-IsValid

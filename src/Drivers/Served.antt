-- ===== src/Drivers/Served.antt =====
-- What a run of timer and keyboard interrupts comes to.
use goatos.Base.{
  ℕ, zero, suc, ◌+◌, ◌%◌, ◌^◌, ◌<◌, ◌≡◌, inl, inr, refl, ap, ◌∙◌, bit_and, List, [], ◌∷◌, ◌++◌,
  ◌==◌, if◌then◌else◌, length, replicate, arith, Bool-cases,
}
use goatos.Input.Valid.{IsValid}
use goatos.Pic.{
  Device, Log, master_command, ocw2_end_of_interrupt, outb, acknowledge, end_of_interrupt,
}
use goatos.Keyboard.{handle_scancode, handle_all}
use goatos.Keyboard.Controller.{Controller, keyboard_interrupt}
use goatos.Keyboard.Stream.{Keeps, handle_all-Keeps}
use goatos.Pit.{timer_interrupt}
use goatos.Drivers.{Irq, timer, keyboard, Machine, serve, serve_all}

module _ {ℓ} {S : Type ℓ} where
  abbrev pub timers : List (Irq S) → ℕ
  timers [] = 0
  timers (timer ∷ is) = suc (timers is)
  timers (keyboard s ∷ is) = timers is

  -- The bytes that the controller had ready at the keyboard's interrupts.
  abbrev pub scancodes : Controller S → List (Irq S) → List ℕ
  scancodes c [] = []
  scancodes c (timer ∷ is) = scancodes c is
  scancodes c (keyboard s ∷ is) =
      if bit_and (c.status s) 1 == 0 then scancodes c is else (c.take s).0 ∷ scancodes c is

-- The end of interrupt that the master is told, once for each of `count` interrupts.
abbrev pub told : ℕ → Log
told count = replicate count (master_command, ocw2_end_of_interrupt)

told-one : (count : ℕ) (log : Log) → told count ++ (told 1 ++ log) ≡ told (suc count) ++ log
told-one zero log = refl
told-one (suc count) log =
    ap (λ l. (master_command, ocw2_end_of_interrupt) ∷ l) (told-one count log)

module _ {ℓ} {S : Type ℓ} (controller : Controller S) (device : Device) where
  serve-timer :
      (m : Machine S)
      → serve controller device m timer
        ≡ record m { ticks = (m.ticks + 1) % 2 ^ 32; log = told 1 ++ m.log }
  unfolding serve timer_interrupt end_of_interrupt acknowledge outb
  serve-timer m = refl

  serve-keyboard :
      (m : Machine S) (s : S)
      → (let after = serve controller device m (keyboard s) in
          (after.ticks ≡ m.ticks)
          × (after.log ≡ told 1 ++ m.log)
          × (after.keys ≡ (
              if bit_and (controller.status s) 1 == 0
              then m.keys
              else handle_scancode m.keys (controller.take s).0)))
  unfolding serve keyboard_interrupt end_of_interrupt acknowledge outb
  serve-keyboard m s = elim (Bool-cases (bit_and (controller.status s) 1 == 0)) [
    | inl e ↦ rw e (refl, refl, refl)
    | inr e ↦ rw e (refl, refl, refl)
  ]

  -- The keyboard that the scancodes lead to.
  serve_all-keys :
      (m : Machine S) (is : List (Irq S))
      → (serve_all controller device m is).keys ≡ handle_all m.keys (scancodes controller is)
  unfolding serve_all handle_all
  serve_all-keys m [] = refl
  serve_all-keys m (timer ∷ is) =
      serve_all-keys (serve controller device m timer) is
      ∙ ap (λ n. handle_all n.keys (scancodes controller is)) (serve-timer m)
  serve_all-keys m (keyboard s ∷ is) =
      let (t, l, k) = serve-keyboard m s in
      serve_all-keys (serve controller device m (keyboard s)) is
      ∙ ap (λ n. handle_all n (scancodes controller is)) k
      ∙ elim (Bool-cases (bit_and (controller.status s) 1 == 0)) [
        | inl e ↦ rw e refl
        | inr e ↦ rw e refl
      ]

  serve_all-log :
      (m : Machine S) (is : List (Irq S))
      → (serve_all controller device m is).log ≡ told (length is) ++ m.log
  unfolding serve_all
  serve_all-log m [] = refl
  serve_all-log m (i ∷ is) =
      serve_all-log (serve controller device m i) is
      ∙ ap (λ l. told (length is) ++ l) (one m i)
      ∙ told-one (length is) m.log
    where
      one : (m : Machine S) (i : Irq S) → (serve controller device m i).log ≡ told 1 ++ m.log
      one m timer = ap (λ n. n.log) (serve-timer m)
      one m (keyboard s) = (serve-keyboard m s).1

  serve_all-ticks :
      (m : Machine S) (is : List (Irq S))
      → m.ticks < 2 ^ 32
      → (serve_all controller device m is).ticks ≡ (m.ticks + timers is) % 2 ^ 32
  unfolding serve_all
  serve_all-ticks m [] lt = omega (arith, lt)
  serve_all-ticks m (timer ∷ is) lt =
      let t : (serve controller device m timer).ticks ≡ (m.ticks + 1) % 2 ^ 32 =
        ap (λ n. n.ticks) (serve-timer m) in
      serve_all-ticks (serve controller device m timer) is (omega (arith, t)) ∙ omega (arith, t)
  serve_all-ticks m (keyboard s ∷ is) lt =
      let t = (serve-keyboard m s).0 in
      serve_all-ticks (serve controller device m (keyboard s)) is (omega (arith, t, lt))
      ∙ omega (arith, t)

  -- However the interrupts of the two lines interleave, and whatever the controllers answer: the tick
  -- count, a 32-bit number, rises by the number of timer interrupts, modulo 2^32; the keyboard driver
  -- ends as after just the bytes that its controller had ready at its interrupts, in order; and each
  -- interrupt is acknowledged once, at the master. A valid queue of keys stays valid, no waiting key is
  -- lost, and the count of enqueued keys rises by as many as the queue holds more.
  pub serve_all_lem :
      (m : Machine S) (is : List (Irq S))
      → m.ticks < 2 ^ 32
      → IsValid m.keys.queue
      → (let after = serve_all controller device m is in
          (after.ticks ≡ (m.ticks + timers is) % 2 ^ 32)
          × (after.keys ≡ handle_all m.keys (scancodes controller is))
          × (after.log ≡ told (length is) ++ m.log)
          × Keeps m.keys after.keys)
  serve_all_lem m is lt v =
      let keys = serve_all-keys m is in
      (
        serve_all-ticks m is lt,
        keys,
        serve_all-log m is,
        rw keys (handle_all-Keeps m.keys (scancodes controller is) v),
      )

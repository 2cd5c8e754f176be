-- ===== src/Task/Switch/Tests.antt =====
-- The theorems on switches at two stacks in a memory that is zero elsewhere.
use goatos.Base.{ℕ, ◌+◌, ◌%◌, ◌≤◌, ◌≡◌, refl, arith}
use goatos.Memory.Ram.{Ram, read_u32, write_u32}
use goatos.Task.{stack_size}
use goatos.Task.Switch.{Machine, below, push, park, context_switch, task_trampoline, prepare_stack}
use goatos.Task.Switch.Kept.{old_slot, Same}
use goatos.Task.Switch.Resumed.{new_slot, Spares, context_switch-resumes}
use goatos.Task.Switch.Started.{zeroed, spawned-starts}

-- Two calls of `context_switch`: the first one, with its stack pointer at 0x8010, parks in the context
-- at 0x100 and resumes the one at 0x104; the second one, at 0x9010, the other way round.
abbrev calls : Ram → Ram
calls ram =
    write_u32
      (write_u32 (write_u32 (write_u32 (write_u32 ram 0x8010 0x1234) 0x8014 0x100) 0x8018 0x104)
        0x9014 0x104)
      0x9018 0x100

abbrev first : Machine
first = record {
  cpu = record { eip = 0x10000; esp = 0x8010; ebx = 1; esi = 2; edi = 3; ebp = 4 };
  ram = calls (λ a. 0);
}

abbrev second : Machine
second = record {
  cpu = record { eip = 0x10000; esp = 0x9010; ebx = 5; esi = 6; edi = 7; ebp = 8 };
  ram = (park first).ram;
}

first_old : old_slot first ≡ 0x100
unfolding read_u32 write_u32
first_old = refl

second_old : old_slot second ≡ 0x104
unfolding read_u32 write_u32 park push below
second_old = refl

second_new : new_slot second ≡ 0x100
unfolding read_u32 write_u32 park push below
second_new = refl

context_switch-resumes_example :
    ((context_switch second).cpu
      ≡ record (first.cpu) { eip = read_u32 first.ram first.cpu.esp; esp = first.cpu.esp + 4 })
    × ((lo hi : ℕ) → Spares second 0x9000 lo hi → Same second.ram (context_switch second).ram lo hi)
context_switch-resumes_example =
    context_switch-resumes first 0x8000 second 0x9000
      (omega arith, omega arith, omega arith, omega arith) refl (omega arith)
      (omega (arith, first_old)) refl (omega arith) (omega (arith, first_old, second_new))
      (λ a lo hi. refl) (λ a lo hi. refl) (omega arith, omega (arith, second_old))
      (omega (arith, first_old), omega (arith, first_old, second_old))

-- A new stack in the block at 0x20000, whose context at 0x100 is set as `spawn` sets it.
abbrev image : Ram
image = (prepare_stack (λ a. 0) 0x20000 0x5000 0x6000).1

abbrev caller : Machine
caller = record { cpu = second.cpu; ram = write_u32 (calls image) 0x100 0x21fe8 }

caller_old : old_slot caller ≡ 0x104
unfolding read_u32 write_u32 prepare_stack
caller_old = refl

caller_new : new_slot caller ≡ 0x100
unfolding read_u32 write_u32 prepare_stack
caller_new = refl

caller_context : read_u32 caller.ram (new_slot caller) ≡ 0x21fe8
unfolding read_u32 write_u32 prepare_stack
caller_context = refl

made : prepare_stack (λ a. 0) 0x20000 0x5000 0x6000 ≡ (0x21fe8, image)
unfolding prepare_stack
made = refl

image_kept : Same image caller.ram 0x21fe8 (0x21fe8 + 24)
unfolding write_u32
image_kept a lo hi = ground arith

spawned-starts_example :
    (let first = context_switch caller in
      let second = task_trampoline 0x7000 first in
      (first.cpu ≡ zeroed 0x6000 (0x21fe8 + 20))
      × (second.cpu ≡ zeroed 0x5000 (0x21fe8 + 8))
      × (0x20000 ≤ 0x21fe8)
      × (0x21fe8 + 24 ≤ 0x20000 + stack_size)
      × ((0x21fe8 + 8 + 4) % 16 ≡ 4))
spawned-starts_example =
    spawned-starts (λ a. 0) image 0x20000 0x5000 0x6000 0x7000 0x21fe8 caller 0x9000 (omega arith)
      (omega arith) (omega arith) made refl (omega arith) caller_context image_kept
      (omega arith, omega (arith, caller_old))
      (omega (arith, caller_new), omega (arith, caller_new, caller_old))

-- ===== src/Task/Switch.antt =====
-- The stacks of tasks: the image that `spawn` of kernel/src/task/mod.rs writes into a new one, and the
-- two routines of kernel/src/task/switch.s, `context_switch` and `task_trampoline`. The processor's
-- stack pointer wraps at 32 bits; registers that no task may rely on are left out.
pub mod Kept
pub mod Resumed
pub mod Started
mod Tests
use goatos.Base.{ℕ, ◌+◌, ◌-◌, ◌*◌, ◌/◌, ◌%◌, ◌^◌}
use goatos.Memory.Ram.{Ram, read_u32, write_u32}
use goatos.Task.{stack_size}

pub record Cpu : Type 0 where
  pub eip : ℕ
  pub esp : ℕ
  pub ebx : ℕ
  pub esi : ℕ
  pub edi : ℕ
  pub ebp : ℕ

pub record Machine : Type 0 where
  pub cpu : Cpu
  pub ram : Ram

-- `esp - 4`
unfoldable pub below : ℕ → ℕ
below esp = (esp + (2 ^ 32 - 4)) % 2 ^ 32

unfoldable pub push : Machine → ℕ → Machine
unfolding below write_u32
push m value =
    let esp = below m.cpu.esp in
    record { cpu = record (m.cpu) { esp = esp }; ram = write_u32 m.ram esp value }

-- The word at the top, and the pointer above it.
unfoldable pub pop : Machine → ℕ × ℕ
unfolding read_u32
pop m = (read_u32 m.ram m.cpu.esp, (m.cpu.esp + 4) % 2 ^ 32)

-- `context_switch` up to the store of the stack pointer: the machine at the entry has the return
-- address on top of its stack and the addresses of the two contexts above.
unfoldable pub park : Machine → Machine
unfolding push read_u32
park m =
    let old_esp = read_u32 m.ram ((m.cpu.esp + 4) % 2 ^ 32) in
    let m4 = push (push (push (push m m.cpu.ebp) m.cpu.edi) m.cpu.esi) m.cpu.ebx in
    record m4 { ram = write_u32 m4.ram old_esp m4.cpu.esp }

-- The other half, with the address of the context to resume: four pops and the return.
unfoldable pub resume : Machine → ℕ → Machine
unfolding pop read_u32
resume m new_esp =
    let m0 = record m { cpu = record (m.cpu) { esp = read_u32 m.ram new_esp } } in
    let (ebx, esp1) = pop m0 in
    let m1 = record m0 { cpu = record (m0.cpu) { ebx = ebx; esp = esp1 } } in
    let (esi, esp2) = pop m1 in
    let m2 = record m1 { cpu = record (m1.cpu) { esi = esi; esp = esp2 } } in
    let (edi, esp3) = pop m2 in
    let m3 = record m2 { cpu = record (m2.cpu) { edi = edi; esp = esp3 } } in
    let (ebp, esp4) = pop m3 in
    let m4 = record m3 { cpu = record (m3.cpu) { ebp = ebp; esp = esp4 } } in
    let (eip, esp5) = pop m4 in record m4 { cpu = record (m4.cpu) { eip = eip; esp = esp5 } }

unfoldable pub context_switch : Machine → Machine
unfolding park resume read_u32
context_switch m = resume (park m) (read_u32 m.ram ((m.cpu.esp + 8) % 2 ^ 32))

-- `task_trampoline` up to the entry of the task, with the address that its call pushes.
unfoldable pub task_trampoline : ℕ → Machine → Machine
unfolding pop push
task_trampoline after_call m =
    let (eax, esp) = pop m in
    let m1 = record m { cpu = record (m.cpu) { esp = (esp + (2 ^ 32 - 12)) % 2 ^ 32 } } in
    let m2 = push m1 after_call in record m2 { cpu = record (m2.cpu) { eip = eax } }

-- The part of `spawn` before it takes the scheduler's lock: the stack pointer and the memory, for the
-- block at `block`. An address is a number below 2^32, and the pointer arithmetic stays in the block.
unfoldable pub prepare_stack : Ram → ℕ → ℕ → ℕ → ℕ × Ram
unfolding write_u32
prepare_stack ram block entry trampoline =
    let stack_top = (block + stack_size) / 16 * 16 in
    let ram1 = write_u32 ram (stack_top - 4) entry in
    let ram2 = write_u32 ram1 (stack_top - 8) trampoline in
    let ram3 = write_u32 ram2 (stack_top - 12) 0 in
    let ram4 = write_u32 ram3 (stack_top - 16) 0 in
    let ram5 = write_u32 ram4 (stack_top - 20) 0 in
    let ram6 = write_u32 ram5 (stack_top - 24) 0 in (stack_top - 24, ram6)

-- ===== src/Task/Switch/Started.antt =====
-- The stack that `spawn` prepares, from its first switch to the entry of the task.
use goatos.Base.{ℕ, ◌+◌, ◌-◌, ◌*◌, ◌/◌, ◌%◌, ◌^◌, ◌≤◌, ◌<◌, ◌≡◌, refl, sym, ap, ◌∙◌, arith}
use goatos.Memory.Ram.{
  Ram, read_u32, write_u32, read_u32-write_u32, read_u32-write_u32_apart, read_u32-same,
}
use goatos.Task.{stack_size}
use goatos.Task.Switch.{
  Cpu, Machine, push, pop, below, context_switch, task_trampoline, prepare_stack,
}
use goatos.Task.Switch.Kept.{Frame, Same, Frame-Same, parked}
use goatos.Task.Switch.Resumed.{new_slot, Spares, switch-Frame, parked-Same}

-- All registers zero, and about to go on at `eip`.
abbrev pub zeroed : ℕ → ℕ → Cpu
zeroed eip esp = record { eip = eip; esp = esp; ebx = 0; esi = 0; edi = 0; ebp = 0 }

-- The image, from the lowest word on.
abbrev prepared : Ram → ℕ → ℕ → ℕ → Ram
prepared ram p entry trampoline =
    let ram1 = write_u32 ram (p + 20) entry in
    let ram2 = write_u32 ram1 (p + 16) trampoline in
    let ram3 = write_u32 ram2 (p + 12) 0 in
    let ram4 = write_u32 ram3 (p + 8) 0 in write_u32 (write_u32 ram4 (p + 4) 0) p 0

prepare_stack_lem :
    (ram : Ram) (block entry trampoline p : ℕ)
    → (block + stack_size) / 16 * 16 ≡ p + 24
    → prepare_stack ram block entry trampoline ≡ (p, prepared ram p entry trampoline)
unfolding prepare_stack
prepare_stack_lem ram block entry trampoline p e =
    let s1 : p + 24 - 4 ≡ p + 20 = omega arith in
    let s2 : p + 24 - 8 ≡ p + 16 = omega arith in
    let s3 : p + 24 - 12 ≡ p + 12 = omega arith in
    let s4 : p + 24 - 16 ≡ p + 8 = omega arith in
    let s5 : p + 24 - 20 ≡ p + 4 = omega arith in
    let s6 : p + 24 - 24 ≡ p = omega arith in rw (e, s1, s2, s3, s4, s5, s6) refl

module _ (ram : Ram) (p entry trampoline : ℕ) where
  prepared-Frame :
      trampoline < 2 ^ 32 → Frame (prepared ram p entry trampoline) p (zeroed trampoline p)
  prepared-Frame lt =
      let ram1 = write_u32 ram (p + 20) entry in
      let ram2 = write_u32 ram1 (p + 16) trampoline in
      let ram3 = write_u32 ram2 (p + 12) 0 in
      let ram4 = write_u32 ram3 (p + 8) 0 in
      let ram5 = write_u32 ram4 (p + 4) 0 in
      record {
        ebx = read_u32-write_u32 ram5 p 0 (omega arith);
        esi =
            read_u32-write_u32_apart ram5 p 0 (p + 4) (omega arith)
            ∙ read_u32-write_u32 ram4 (p + 4) 0 (omega arith);
        edi =
            read_u32-write_u32_apart ram5 p 0 (p + 8) (omega arith)
            ∙ read_u32-write_u32_apart ram4 (p + 4) 0 (p + 8) (omega arith)
            ∙ read_u32-write_u32 ram3 (p + 8) 0 (omega arith);
        ebp =
            read_u32-write_u32_apart ram5 p 0 (p + 12) (omega arith)
            ∙ read_u32-write_u32_apart ram4 (p + 4) 0 (p + 12) (omega arith)
            ∙ read_u32-write_u32_apart ram3 (p + 8) 0 (p + 12) (omega arith)
            ∙ read_u32-write_u32 ram2 (p + 12) 0 (omega arith);
        eip =
            read_u32-write_u32_apart ram5 p 0 (p + 16) (omega arith)
            ∙ read_u32-write_u32_apart ram4 (p + 4) 0 (p + 16) (omega arith)
            ∙ read_u32-write_u32_apart ram3 (p + 8) 0 (p + 16) (omega arith)
            ∙ read_u32-write_u32_apart ram2 (p + 12) 0 (p + 16) (omega arith)
            ∙ read_u32-write_u32 ram1 (p + 16) trampoline lt;
      }

  prepared_entry : entry < 2 ^ 32 → read_u32 (prepared ram p entry trampoline) (p + 20) ≡ entry
  prepared_entry lt =
      let ram1 = write_u32 ram (p + 20) entry in
      let ram2 = write_u32 ram1 (p + 16) trampoline in
      let ram3 = write_u32 ram2 (p + 12) 0 in
      let ram4 = write_u32 ram3 (p + 8) 0 in
      let ram5 = write_u32 ram4 (p + 4) 0 in
      read_u32-write_u32_apart ram5 p 0 (p + 20) (omega arith)
      ∙ read_u32-write_u32_apart ram4 (p + 4) 0 (p + 20) (omega arith)
      ∙ read_u32-write_u32_apart ram3 (p + 8) 0 (p + 20) (omega arith)
      ∙ read_u32-write_u32_apart ram2 (p + 12) 0 (p + 20) (omega arith)
      ∙ read_u32-write_u32_apart ram1 (p + 16) trampoline (p + 20) (omega arith)
      ∙ read_u32-write_u32 ram (p + 20) entry lt

-- The trampoline on a stack whose top, after the pop, is `t + 16`.
trampoline_lem :
    (after_call t entry : ℕ) (m : Machine)
    → m.cpu.esp ≡ t + 12
    → t + 16 < 2 ^ 32
    → read_u32 m.ram (t + 12) ≡ entry
    → (task_trampoline after_call m).cpu ≡ record (m.cpu) { eip = entry; esp = t }
unfolding task_trampoline pop push below
trampoline_lem after_call t entry m top small e =
    let s1 : (t + 12 + 4) % 2 ^ 32 ≡ t + 16 = omega (arith, small) in
    let s2 : (t + 16 + (2 ^ 32 - 12)) % 2 ^ 32 ≡ t + 4 = omega (arith, small) in
    let s3 : (t + 4 + (2 ^ 32 - 4)) % 2 ^ 32 ≡ t = omega (arith, small) in
    rw (top, s1, s2, s3, e) refl

-- A task is spawned on a block of memory, and later a task that calls `context_switch` with its stack
-- pointer at `q + 16` resumes the new one's context, which holds the pointer that `spawn` prepared. If
-- nothing has written to the prepared words, and the caller's frame and context lie apart from them and
-- from that context, then the switch lands in the trampoline with the callee-saved registers zero, and
-- the trampoline in the entry of the task, with the stack pointer inside the block. There it is a
-- multiple of 16, so that 4 more than it, which the convention that the trampoline names wants to be
-- one, is not.
pub spawned-starts :
    (ram image : Ram) (block entry trampoline after_call p : ℕ) (n : Machine) (q : ℕ)
    → block + stack_size < 2 ^ 32
    → entry < 2 ^ 32
    → trampoline < 2 ^ 32
    → prepare_stack ram block entry trampoline ≡ (p, image)
    → n.cpu.esp ≡ q + 16
    → q + 16 < 2 ^ 32
    → read_u32 n.ram (new_slot n) ≡ p
    → Same image n.ram p (p + 24)
    → Spares n q p (p + 24)
    → Spares n q (new_slot n) (new_slot n + 4)
    → (let first = context_switch n in
        let second = task_trampoline after_call first in
        (first.cpu ≡ zeroed trampoline (p + 20))
        × (second.cpu ≡ zeroed entry (p + 8))
        × (block ≤ p)
        × (p + 24 ≤ block + stack_size)
        × ((p + 8 + 4) % 16 ≡ 4))
spawned-starts ram image block entry trampoline after_call p n q room e_fits t_fits made top small
      at kept spared slot_spared =
    let exact : (block + stack_size) / 16 * 16 ≡ (block + stack_size) / 16 * 16 - 24 + 24 =
      omega (arith, room) in
    let p_is : p ≡ (block + stack_size) / 16 * 16 - 24 =
      ap (λ r. r.0) (sym made ∙ prepare_stack_lem ram block entry trampoline _ exact) in
    let top_is : (block + stack_size) / 16 * 16 ≡ p + 24 = omega (arith, p_is, exact) in
    let image_is : image ≡ prepared ram p entry trampoline =
      ap (λ r. r.1) (sym made ∙ prepare_stack_lem ram block entry trampoline p top_is) in
    let same : Same (prepared ram p entry trampoline) n.ram p (p + 24) =
      λ a lo hi. kept a lo hi ∙ ap (λ r. r a) image_is in
    let switched =
      switch-Frame n q top small p (zeroed trampoline p) (omega (arith, room, top_is)) at
        (Frame-Same (prepared ram p entry trampoline) n.ram p (zeroed trampoline p)
          (λ a lo hi. same a lo (omega (arith, hi))) (prepared-Frame ram p entry trampoline t_fits))
        (omega (arith, spared.0), omega (arith, spared.1)) slot_spared in
    let still : read_u32 (parked n q) (p + 20) ≡ entry =
      read_u32-same (prepared ram p entry trampoline) (parked n q) (p + 20) (λ a lo hi.
        parked-Same n q top small p (p + 24) spared a (omega (arith, lo)) (omega (arith, hi))
        ∙ same a (omega (arith, lo)) (omega (arith, hi)))
      ∙ prepared_entry ram p entry trampoline e_fits in
    let here : p + 20 ≡ p + 8 + 12 = omega arith in
    (
      ap (λ m. m.cpu) switched,
      rw switched (
          trampoline_lem after_call (p + 8) entry
            (record { cpu = zeroed trampoline (p + 20); ram = parked n q }) here
            (omega (arith, room, top_is)) (ap (read_u32 (parked n q)) (sym here) ∙ still)),
      omega (arith, top_is),
      omega (arith, top_is),
      omega (arith, top_is),
    )

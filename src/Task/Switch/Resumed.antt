-- ===== src/Task/Switch/Resumed.antt =====
-- A task that is switched to goes on where it was switched away from, and a new one starts.
use goatos.Base.{ℕ, ◌+◌, ◌%◌, ◌^◌, ◌≤◌, ◌<◌, ◌≡◌, ◌⊎◌, ap, ◌∙◌, arith}
use goatos.Memory.Ram.{read_u32, read_u32-same}
use goatos.Task.Switch.{Cpu, Machine, park, resume, context_switch}
use goatos.Task.Switch.Kept.{
  Frame, Same, Frame-Same, resume_lem, Fits, old_slot, parked, park_lem, Apart, parked-apart,
  parked-Frame, parked-slot,
}

-- The address of the context that a switch resumes.
abbrev pub new_slot : Machine → ℕ
new_slot m = read_u32 m.ram ((m.cpu.esp + 8) % 2 ^ 32)

-- A switch away from `n`, with the stack pointer at `q + 16`, does not write between `lo` and `hi`.
abbrev pub Spares : Machine → ℕ → ℕ → ℕ → Type 0
Spares n q lo hi = ((hi ≤ q) ⊎ (q + 16 ≤ lo)) × Apart (old_slot n) lo hi

module _ (n : Machine) (q : ℕ) (top : n.cpu.esp ≡ q + 16) (small : q + 16 < 2 ^ 32) where
  pub parked-Same : (lo hi : ℕ) → Spares n q lo hi → Same n.ram (parked n q) lo hi
  parked-Same lo hi (stack, slot) y l h =
      parked-apart n q y (omega (arith, stack, l, h)) (omega (arith, slot, l, h))

  -- A switch to a context that points at a frame.
  pub switch-Frame :
      (p : ℕ) (c : Cpu)
      → p + 20 < 2 ^ 32
      → read_u32 n.ram (new_slot n) ≡ p
      → Frame n.ram p c
      → Spares n q p (p + 20)
      → Spares n q (new_slot n) (new_slot n + 4)
      → context_switch n ≡ record { cpu = record c { esp = p + 20 }; ram = parked n q }
  unfolding context_switch
  switch-Frame p c fits at f spared slot_spared =
      ap (λ k. resume k (new_slot n)) (park_lem n q top small)
      ∙ (resume_lem (record { cpu = record (n.cpu) { esp = q }; ram = parked n q }) (new_slot n) p c
          (read_u32-same n.ram (parked n q) (new_slot n)
              (parked-Same (new_slot n) (new_slot n + 4) slot_spared)
            ∙ at)
          fits (Frame-Same n.ram (parked n q) p c (parked-Same p (p + 20) spared) f))

-- A task calls `context_switch` with its stack pointer at `p + 16`, and later another one calls it, with
-- its own at `q + 16`, to resume the first one's context. If nothing has written to the first one's
-- frame and context meanwhile, and the second one's frame and context lie apart from them, then the
-- first task returns from its call: with the callee-saved registers it had, at the return address, and
-- with the stack pointer just above it; and apart from the second one's own frame and context, all
-- memory is as the second one left it.
pub context_switch-resumes :
    (m : Machine) (p : ℕ) (n : Machine) (q : ℕ)
    → Fits m.cpu
    → m.cpu.esp ≡ p + 16
    → p + 20 < 2 ^ 32
    → Apart (old_slot m) p (p + 20)
    → n.cpu.esp ≡ q + 16
    → q + 16 < 2 ^ 32
    → new_slot n ≡ old_slot m
    → Same (park m).ram n.ram p (p + 20)
    → Same (park m).ram n.ram (old_slot m) (old_slot m + 4)
    → Spares n q p (p + 20)
    → Spares n q (old_slot m) (old_slot m + 4)
    → ((context_switch n).cpu
        ≡ record (m.cpu) { eip = read_u32 m.ram m.cpu.esp; esp = m.cpu.esp + 4 })
      × ((lo hi : ℕ) → Spares n q lo hi → Same n.ram (context_switch n).ram lo hi)
context_switch-resumes m p n q regs top fits slot_apart top' small same_slot frame_kept slot_kept
      spared slot_spared =
    let ram_m : (park m).ram ≡ parked m p = ap (λ k. k.ram) (park_lem m p top (omega arith)) in
    let c = record (m.cpu) { eip = read_u32 m.ram m.cpu.esp } in
    let kept : Same (parked m p) n.ram p (p + 20) =
      λ a lo hi. frame_kept a lo hi ∙ ap (λ r. r a) ram_m in
    let kept_slot : read_u32 n.ram (old_slot m) ≡ p =
      read_u32-same (parked m p) n.ram (old_slot m)
        (λ a lo hi. slot_kept a lo hi ∙ ap (λ r. r a) ram_m)
      ∙ parked-slot m p (omega arith) in
    let done =
      switch-Frame n q top' small p c fits (ap (read_u32 n.ram) same_slot ∙ kept_slot)
        (Frame-Same (parked m p) n.ram p c kept (parked-Frame m p regs slot_apart top)) spared
        (rw same_slot slot_spared) in
    (
      ap (λ k. k.cpu) done ∙ ap (λ e. record c { esp = e }) (omega (arith, top)),
      λ lo hi free. rw done (parked-Same n q top' small lo hi free),
    )
